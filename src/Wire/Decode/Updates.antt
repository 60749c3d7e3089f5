-- ===== src/Wire/Decode/Updates.antt =====
-- src/wire/decode.rs: the lists after one watch update, applied to what the updates before built.
use uniproc_windows_agent.Base.{
  ℕ, Bool, true, false, negb, List, [], ◌∷◌, ◌++◌, map, Option, none, some, ◌==◌, ◌&&◌, nat_beq,
  leb, if◌then◌else◌,
}
use uniproc_windows_agent.Model.{ProcessState}
use uniproc_windows_agent.Api.{Changes, ProcessInfo, ServiceStats, Snapshot, Tagged}
use uniproc_windows_agent.Watch.{info_key, state_key}
use uniproc_windows_agent.Wire.Outcome.{
  Decoded, decoded, refused, never_came, other_base, ◌>>=◌, each, pointer, rows,
}
use uniproc_windows_agent.Wire.Schema.Lists.{
  ProcessInfoMessage, ProcessStateMessage, ServiceStatsMessage,
}
use uniproc_windows_agent.Wire.Schema.Updates.{
  DeltaMessage, ListForm, ListsUpdateMessage, ServicesForm,
}
use uniproc_windows_agent.Wire.Decode.Lists.{process_info, process_state, service_stats}

unfoldable pub held : {T : Type 0} → Option Snapshot → (Snapshot → Tagged T) → Decoded (Tagged T)
held none list = refused never_came
held (some before) list = decoded (list before)

unfoldable pub based : {T : Type 0} → Tagged T → ℕ → Decoded (Tagged T)
based held base = if held.etag == base then decoded held else refused (other_base base held.etag)

-- A `HashSet` of numbers as the list it is collected from.
abbrev pub has : List ℕ → ℕ → Bool
has [] n = false
has (m ∷ ms) n = let rest = has ms n in if m == n then true else rest

module _ {T : Type 0} (key : T → ℕ × ℕ) where
  unfoldable pub keep : (T → Bool) → List T → List T
  keep test [] = []
  keep test (row ∷ rows) = let rest = keep test rows in if test row then row ∷ rest else rest

  -- `sort_by_key`, which is stable: a row goes in front of the rows behind it that it is not above.
  unfoldable pub insert_row : T → List T → List T
  insert_row row [] = row ∷ []
  insert_row row (other ∷ rows) =
      let rest = insert_row row rows in
      if leb (key row).0 (key other).0 then row ∷ other ∷ rows else other ∷ rest

  unfoldable pub sort_rows : List T → List T
  sort_rows [] = []
  sort_rows (row ∷ rows) = insert_row row (sort_rows rows)

  unfoldable pub merge : List T → List ℕ → List T → List T
  merge before left upserted =
      let replaced = map (λ row. (key row).0) upserted in
      sort_rows (
        keep (λ row. negb (has left (key row).1) && negb (has replaced (key row).0)) before
        ++ upserted)

-- What is read of one of the two lists: the rows, the keys of those that moved, and of those that
-- left.
pub record Rows (T : Type 0) : Type 0 where
  pub value : List T
  pub upserted : List (ℕ × ℕ)
  pub left : List (ℕ × ℕ)

module _ {T M : Type 0} (read : List M → Decoded (List T)) (key : T → ℕ × ℕ) where
  unfoldable pub delta_rows : Tagged (List T) → DeltaMessage M → Decoded (Rows T)
  delta_rows held delta = do
    before ← based held delta.base_etag
    left ← pointer delta.left
    sent ← pointer delta.upserted
    upserted ← read sent
    decoded (record {
      value = merge key before.value left upserted;
      upserted = map key upserted;
      left = map key (keep key (λ row. has left (key row).1) before.value);
    })

  unfoldable pub list_rows :
      Option Snapshot → (Snapshot → Tagged (List T)) → ListForm M → Decoded (Rows T)
  list_rows before list ListForm.unchanged = do
    same ← held before list
    decoded (record { value = same.value; upserted = []; left = [] })
  list_rows before list (ListForm.full p) = do
    sent ← pointer p
    found ← read sent
    decoded (record { value = found; upserted = map key found; left = [] })
  list_rows before list (ListForm.delta p) = do
    delta ← pointer p
    base ← held before list
    delta_rows base delta

unfoldable pub processes : List ProcessInfoMessage → Decoded (List ProcessInfo)
processes list = each process_info list

unfoldable pub process_states : List ProcessStateMessage → Decoded (List ProcessState)
process_states list = decoded (map process_state list)

unfoldable pub services : List ServiceStatsMessage → Decoded (List ServiceStats)
services list = each service_stats list

-- The services, and whether they came.
unfoldable pub services_list : Option Snapshot → ServicesForm → Decoded (List ServiceStats × Bool)
services_list before ServicesForm.unchanged = do
  same ← held before (λ s. s.services)
  decoded (same.value, false)
services_list before (ServicesForm.full p) = do found ← rows service_stats p; decoded (found, true)

abbrev pub rows_of : Snapshot → Tagged (List ProcessState)
rows_of s = record { etag = s.states.etag; value = s.states.value.states }

abbrev pub is_none : {A : Type 0} → Option A → Bool
is_none none = true
is_none (some a) = false

unfoldable pub apply_lists :
    Option Snapshot
    → ListsUpdateMessage
    → ListForm ProcessInfoMessage
    → ListForm ProcessStateMessage
    → ServicesForm
    → Decoded (Option (Snapshot × Changes))
apply_lists before lists passport_list state_list service_list = do
  listed ← list_rows processes info_key before (λ s. s.processes) passport_list
  running ← list_rows process_states state_key before rows_of state_list
  served ← services_list before service_list
  decoded (
      some (
        record {
          services = record { etag = lists.services_etag; value = served.0 };
          processes = record { etag = lists.passport_etag; value = listed.value };
          states = record {
            etag = lists.states_etag;
            value = record { passport_etag = lists.passport_etag; states = running.value };
          };
        },
        record {
          full = is_none before;
          passports = listed.upserted;
          left = listed.left;
          states = running.upserted;
          services = served.1;
        },
      ))

-- A list in a form that this build does not know leaves the whole update unread.
unfoldable pub lists : Option Snapshot → ListsUpdateMessage → Decoded (Option (Snapshot × Changes))
lists before update = elim update.passports [
  | none ↦ decoded none
  | some passport_list ↦ elim update.states [
    | none ↦ decoded none
    | some state_list ↦ elim update.services [
      | none ↦ decoded none
      | some service_list ↦ apply_lists before update passport_list state_list service_list
    ]
  ]
]
