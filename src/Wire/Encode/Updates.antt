-- ===== src/Wire/Encode/Updates.antt =====
-- src/wire/encode.rs: one watch update, the lists as they moved since the listener's.
use mathlib.Core.Option
use uniproc_windows_agent.Base.{
  ℕ, List, [], ◌∷◌, map, Option, none, some, ◌==◌, nat_beq, pair_beq, if◌then◌else◌,
}
use uniproc_windows_agent.Api.{Changes, ServiceStats, Snapshot, Tagged}
use uniproc_windows_agent.Watch.{info_key, state_key}
use uniproc_windows_agent.Wire.Schema.Lists.{ProcessInfoMessage, ProcessStateMessage}
use uniproc_windows_agent.Wire.Schema.Updates.{ListForm, ListsUpdateMessage, ServicesForm}
use uniproc_windows_agent.Wire.Encode.Lists.{process_info, process_state, service_stats}

-- `binary_search_by_key` of the library, in a list whose pids ascend strictly: the row that has
-- the pid.
unfoldable pub row_at : {T : Type 0} → (T → ℕ × ℕ) → ℕ → List T → Option T
row_at of pid [] = none
row_at of pid (row ∷ rows) = if (of row).0 == pid then some row else row_at of pid rows

unfoldable pub find : {T : Type 0} → List T → ℕ × ℕ → (T → ℕ × ℕ) → Option T
find rows key of = elim (row_at of key.0 rows) [
  | none ↦ none
  | some row ↦ if of row == key then some row else none
]

unfoldable pub sequence_numbers : List (ℕ × ℕ) → List ℕ
sequence_numbers keys = map (λ k. k.1) keys

-- A row of the list that `init_upserted` makes is `blank` where no row is found.
unfoldable pub row_or : {T M : Type 0} → M → (T → M) → Option T → M
row_or blank send none = blank
row_or blank send (some row) = send row

module _ {T M : Type 0} (blank : M) (send : T → M) (of : T → ℕ × ℕ) where
  unfoldable pub upserts : List T → List (ℕ × ℕ) → List M
  upserts rows keys = map (λ k. row_or blank send (find rows k of)) keys

  -- A list under its tag, as it moved from the one under the tag `before`.
  unfoldable pub list_form : Option ℕ → ℕ → List T → List (ℕ × ℕ) → List (ℕ × ℕ) → ListForm M
  list_form none after rows left upserted = ListForm.full (some (map send rows))
  list_form (some before) after rows left upserted =
      if before == after
      then ListForm.unchanged
      else (ListForm.delta (
          some (record {
            base_etag = before;
            left = some (sequence_numbers left);
            upserted = some (upserts rows upserted);
          })))

unfoldable pub services_form : Option ℕ → Tagged (List ServiceStats) → ServicesForm
services_form none after = ServicesForm.full (some (map service_stats after.value))
services_form (some before) after =
    if before == after.etag
    then ServicesForm.unchanged
    else ServicesForm.full (some (map service_stats after.value))

module _ (blank_info : ProcessInfoMessage) (blank_state : ProcessStateMessage) where
  unfoldable pub update : Snapshot → Changes → Option Snapshot → ListsUpdateMessage
  update after changes before = record {
    passport_etag = after.processes.etag;
    passports = some (
        list_form blank_info process_info info_key (Option.map (λ s. s.processes.etag) before)
          after.processes.etag after.processes.value changes.left changes.passports);
    states_etag = after.states.etag;
    states = some (
        list_form blank_state process_state state_key (Option.map (λ s. s.states.etag) before)
          after.states.etag after.states.value.states changes.left changes.states);
    services_etag = after.services.etag;
    services = some (services_form (Option.map (λ s. s.services.etag) before) after.services);
  }
