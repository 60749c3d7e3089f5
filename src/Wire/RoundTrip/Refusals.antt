-- ===== src/Wire/RoundTrip/Refusals.antt =====
-- src/wire/decode.rs: the updates that `lists` does not apply.
use uniproc_windows_agent.Base.{
  ℕ, false, none, some, ◌==◌, nat_beq, ◌≡◌, ◌≢◌, refl, Bool-cases, inl, inr,
}
use uniproc_windows_agent.Api.{Changes, Snapshot}
use uniproc_windows_agent.Wire.Outcome.{refused, never_came, other_base}
use uniproc_windows_agent.Wire.Schema.Lists.{ProcessInfoMessage, ProcessStateMessage}
use uniproc_windows_agent.Wire.Schema.Updates.{ListsUpdateMessage}
use uniproc_windows_agent.Wire.Encode.Updates.{list_form, update}
use uniproc_windows_agent.Wire.Decode.Updates.{
  apply_lists, based, delta_rows, held, list_rows, lists,
}

different : (a b : ℕ) → a ≢ b → (a == b) ≡ false
different a b h = elim (Bool-cases (a == b)) [
  | inl e ↦ absurd (h ((nat_beq.beq_iff a b).0 e))
  | inr e ↦ e
]

module _ (blank_info : ProcessInfoMessage) (blank_state : ProcessStateMessage) where
  -- What the agent sends to a listener that it believes to hold `before`.
  abbrev sent : Snapshot → Snapshot → Changes → ListsUpdateMessage
  sent before after c = update blank_info blank_state after c (some before)

  -- An update that the agent encodes for a listener that it believes to hold a snapshot is refused
  -- by a listener that holds none.
  pub nothing_held :
      (before after : Snapshot) (c : Changes)
      → lists none (sent before after c) ≡ refused never_came
  unfolding lists apply_lists update list_form list_rows held
  nothing_held before after c = elim (Bool-cases (before.processes.etag == after.processes.etag)) [
    | inl e ↦ rw e refl
    | inr e ↦ rw e refl
  ]

  -- An update whose passports moved, sent to a listener that holds its passports under another tag
  -- than the agent believes, is refused as a delta to another base, whatever else it carries.
  pub other_held :
      (before after mine : Snapshot) (c : Changes)
      → before.processes.etag ≢ after.processes.etag
      → mine.processes.etag ≢ before.processes.etag
      → lists (some mine) (sent before after c)
        ≡ refused (other_base before.processes.etag mine.processes.etag)
  unfolding lists apply_lists update list_form list_rows held delta_rows based
  other_held before after mine c moved other =
      rw (different before.processes.etag after.processes.etag moved)
        (rw (different mine.processes.etag before.processes.etag other) refl)
