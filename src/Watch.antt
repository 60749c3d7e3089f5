-- ===== src/Watch.antt =====
-- src/watch.rs: what moved from one update of a watch to the next. Two lists ordered by pid are
-- walked side by side.
pub mod Diff
pub mod TestData
mod Tests
use Prim.Native.Nat.{compare, Ordering}
use uniproc_windows_agent.Base.{
  ℕ, Bool, true, false, negb, List, [], ◌∷◌, map, Option, none, some, ◌==◌, Beq, nat_beq, pair_beq,
  if◌then◌else◌,
}
use uniproc_windows_agent.Model.{ProcessState}
use uniproc_windows_agent.Api.{Changes, ProcessInfo, ProcessStates, Snapshot, Tagged}

-- What goes to `upserted`, and what to `left`.
abbrev pub Moved : Type 0
Moved = List (ℕ × ℕ) × List (ℕ × ℕ)

unfoldable pub diff : {T : Type 0} ⦃e : Beq T⦄ → (T → ℕ × ℕ) → List T → List T → Moved
diff key [] [] = ([], [])
diff key (was ∷ before) [] = let (upserted, left) = diff key before [] in (upserted, key was ∷ left)
diff key [] (is ∷ after) = let (upserted, left) = diff key [] after in (key is ∷ upserted, left)
diff key (was ∷ before) (is ∷ after) = elim (compare (key was).0 (key is).0) [
  | Ordering.lt ↦ let (upserted, left) = diff key before (is ∷ after) in (upserted, key was ∷ left)
  | Ordering.gt ↦ let (upserted, left) = diff key (was ∷ before) after in (key is ∷ upserted, left)
  | Ordering.eq ↦
      let (upserted, left) = diff key before after in
      if negb (key was == key is)
      then (key is ∷ upserted, key was ∷ left)
      else (if negb (was == is) then key is ∷ upserted else upserted, left)
]

abbrev pub info_key : ProcessInfo → ℕ × ℕ
info_key p = (p.pid, p.sequence_number)

abbrev pub state_key : ProcessState → ℕ × ℕ
state_key s = (s.pid, s.sequence_number)

module _ ⦃i : Beq ProcessInfo⦄ ⦃s : Beq ProcessState⦄ where
  unfoldable pub changes : Option Snapshot → Snapshot → Changes
  changes none after = record {
    full = true;
    passports = map info_key after.processes.value;
    left = [];
    states = map state_key after.states.value.states;
    services = true;
  }
  changes (some before) after =
      let (passports, left) =
        if negb (before.processes.etag == after.processes.etag)
        then diff info_key before.processes.value after.processes.value
        else ([], []) in
      let (states, _) =
        if negb (before.states.etag == after.states.etag)
        then diff state_key before.states.value.states after.states.value.states
        else ([], []) in
      record {
        full = false;
        passports = passports;
        left = left;
        states = states;
        services = negb (before.services.etag == after.services.etag);
      }
