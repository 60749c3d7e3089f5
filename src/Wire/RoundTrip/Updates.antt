-- ===== src/Wire/RoundTrip/Updates.antt =====
-- src/wire/encode.rs and src/wire/decode.rs: a watch update, from the agent to the listener.
use uniproc_windows_agent.Base.{
  ℕ, false, negb, List, [], ◌∷◌, map, none, some, ◌==◌, Beq, nat_beq, ◌≡◌, refl, sym, ap,
}
use uniproc_windows_agent.Model.{ProcessState}
use uniproc_windows_agent.Api.{Changes, ProcessInfo, Snapshot}
use uniproc_windows_agent.Watch.{changes, info_key, state_key}
use uniproc_windows_agent.Watch.Diff.{
  IsSnapshot, changes_exact, new_or_changed, no_longer_there, rows,
}
use uniproc_windows_agent.Wire.Outcome.{decoded, each_sent}
use uniproc_windows_agent.Wire.Schema.Lists.{ProcessInfoMessage, ProcessStateMessage}
use uniproc_windows_agent.Wire.Encode.Updates.{sequence_numbers, services_form, update}
use uniproc_windows_agent.Wire.Decode.Updates.{
  apply_lists, lists, process_states, processes, rows_of, services_list,
}
use uniproc_windows_agent.Wire.Encode
use uniproc_windows_agent.Wire.Decode
use uniproc_windows_agent.Wire.RoundTrip.Lists.{
  process_info_sent, process_state_sent, service_stats_sent,
}
use uniproc_windows_agent.Wire.RoundTrip.Delta.{IsUnique, LeftSays, left_says}
use uniproc_windows_agent.Wire.RoundTrip.ListForms.{first_heard, list_heard, services_heard}

processes_sent : (xs : List ProcessInfo) → processes (map Encode.Lists.process_info xs) ≡ decoded xs
unfolding processes
processes_sent xs =
    each_sent Decode.Lists.process_info Encode.Lists.process_info process_info_sent xs

map_sent :
    (xs : List ProcessState)
    → map Decode.Lists.process_state (map Encode.Lists.process_state xs) ≡ xs
map_sent [] = refl
map_sent (x ∷ xs) = λ i. process_state_sent x i ∷ map_sent xs i

states_sent :
    (xs : List ProcessState) → process_states (map Encode.Lists.process_state xs) ≡ decoded xs
unfolding process_states
states_sent xs = ap decoded (map_sent xs)

-- A snapshot's states are those of its processes, row by row, and name the passports they are of.
abbrev pub IsMatched : Snapshot → Type 0
IsMatched s =
    (map state_key (rows s) ≡ map info_key s.processes.value)
    × (s.states.value.passport_etag ≡ s.processes.etag)

-- The lists of two snapshots are the same where their tags are.
abbrev pub IsTagged : Snapshot → Snapshot → Type 0
IsTagged before after =
    (before.processes.etag ≡ after.processes.etag → before.processes.value ≡ after.processes.value)
    × (before.states.etag ≡ after.states.etag → rows before ≡ rows after)
    × (before.services.etag ≡ after.services.etag → before.services.value ≡ after.services.value)

-- A snapshot whose states say that the passports they are of are under `tag`.
abbrev under : Snapshot → ℕ → Snapshot
under s tag = record s {
  states = record s.states { value = record s.states.value { passport_etag = tag } };
}

module _ ⦃i : Beq ProcessInfo⦄ ⦃s : Beq ProcessState⦄ (blank_info : ProcessInfoMessage)
    (blank_state : ProcessStateMessage) where
  -- The first watch update, decoded by a listener that holds nothing, gives the snapshot it was
  -- encoded from and every key in it as moved, where its states name the passports they are of.
  pub first_update :
      (after : Snapshot)
      → after.states.value.passport_etag ≡ after.processes.etag
      → lists none (update blank_info blank_state after (changes none after) none)
        ≡ decoded (some (after, changes none after))
  unfolding lists apply_lists update changes services_list services_form
  first_update after passports =
      rw
        (
          first_heard blank_info Encode.Lists.process_info processes info_key processes_sent,
          first_heard blank_state Encode.Lists.process_state process_states state_key states_sent,
          each_sent Decode.Lists.service_stats Encode.Lists.service_stats service_stats_sent
              after.services.value,
        )
        (ap (λ tag. decoded (some (under after tag, changes none after))) (sym passports))

  -- What moved, by membership.
  abbrev moved : Snapshot → Snapshot → Changes
  moved before after = record {
    full = false;
    passports = new_or_changed info_key before.processes.value after.processes.value;
    left = no_longer_there info_key before.processes.value after.processes.value;
    states = new_or_changed state_key (rows before) (rows after);
    services = negb (before.services.etag == after.services.etag);
  }

  changes-moved :
      (before after : Snapshot)
      → IsSnapshot before
      → IsSnapshot after
      → IsTagged before after
      → changes (some before) after ≡ moved before after
  unfolding changes
  changes-moved before after hb ha tagged =
      let exact = changes_exact before after hb ha tagged.0 tagged.1 in
      λ j. record {
        full = false;
        passports = exact.0 j;
        left = exact.1 j;
        states = exact.2 j;
        services = negb (before.services.etag == after.services.etag);
      }

  moved_heard :
      (before after : Snapshot)
      → IsSnapshot before
      → IsSnapshot after
      → IsMatched before
      → IsMatched after
      → IsTagged before after
      → IsUnique (map info_key before.processes.value)
      → lists (some before) (update blank_info blank_state after (moved before after) (some before))
        ≡ decoded (some (after, moved before after))
  unfolding lists apply_lists update
  moved_heard before after hb ha mb ma tagged unique =
      let gone = no_longer_there info_key before.processes.value after.processes.value in
      let says = left_says info_key before.processes.value after.processes.value unique in
      let state_says : LeftSays (sequence_numbers gone) (map state_key (rows before))
          (map state_key (rows after)) =
        rw (mb.0, ma.0) says in
      rw
        (
          list_heard blank_info Encode.Lists.process_info processes info_key processes_sent before
              (λ s. s.processes) after.processes gone hb.0 ha.0 tagged.0 says,
          list_heard blank_state Encode.Lists.process_state process_states state_key states_sent
              before rows_of (rows_of after) gone hb.1 ha.1 tagged.1 state_says,
          services_heard before after.services tagged.2,
        )
        (ap (λ tag. decoded (some (under after tag, moved before after))) (sym ma.1))

  -- A watch update that the agent encodes from the snapshot a listener holds to the next one,
  -- decoded by that listener against the snapshot it holds, gives the next snapshot and what moved,
  -- where both are ordered by pid with a state for each process, the states name the passports they
  -- are of, lists with equal tags are equal and no two processes of the first have the same
  -- sequence number.
  pub update_heard :
      (before after : Snapshot)
      → IsSnapshot before
      → IsSnapshot after
      → IsMatched before
      → IsMatched after
      → IsTagged before after
      → IsUnique (map info_key before.processes.value)
      → lists
          (some before)
          (update blank_info blank_state after (changes (some before) after) (some before))
        ≡ decoded (some (after, changes (some before) after))
  update_heard before after hb ha mb ma tagged unique =
      rw (changes-moved before after hb ha tagged)
        (moved_heard before after hb ha mb ma tagged unique)
