-- ===== src/Watch/Tests.antt =====
-- The changes between two small snapshots.
use native.Mathlib.Omega.{arith}
use uniproc_windows_agent.Base.{ℕ, List, [], ◌∷◌, some, nat_beq, pair_beq, string_beq, ◌≡◌, refl}
use uniproc_windows_agent.State.Entry.{state_beq}
use uniproc_windows_agent.Watch.{changes, diff, info_key, state_key}
use uniproc_windows_agent.Watch.Diff.{
  new_or_changed, no_longer_there, rows, diff_exact, changes_exact,
}
use uniproc_windows_agent.Watch.TestData.{info_beq, earlier, later}

-- A row as the test compares it: under its key and with a content.
abbrev TestRow : Type 0
TestRow = (ℕ × ℕ) × ℕ

abbrev key : TestRow → ℕ × ℕ
key r = r.0

abbrev before : List TestRow
before = ((4, 1), 0) ∷ ((8, 2), 0) ∷ ((12, 3), 0) ∷ ((16, 4), 0) ∷ []

abbrev after : List TestRow
after = ((4, 1), 0) ∷ ((12, 3), 7) ∷ ((16, 9), 0) ∷ ((20, 5), 0) ∷ []

diff_exact_example :
    ((diff key before after).0 ≡ new_or_changed key before after)
    × ((diff key before after).1 ≡ no_longer_there key before after)
diff_exact_example = diff_exact key before after (omega arith) (omega arith)

diff_named : diff key before after ≡ ((12, 3) ∷ (16, 9) ∷ (20, 5) ∷ [], (8, 2) ∷ (16, 4) ∷ [])
unfolding diff
diff_named = refl

changes_exact_example :
    let c = changes ⦃i = info_beq⦄ (some earlier) later in
    (c.passports
      ≡ new_or_changed ⦃e = info_beq⦄ info_key earlier.processes.value later.processes.value)
    × (c.left
        ≡ no_longer_there ⦃e = info_beq⦄ info_key earlier.processes.value later.processes.value)
    × (c.states ≡ new_or_changed state_key (rows earlier) (rows later))
changes_exact_example =
    changes_exact ⦃i = info_beq⦄ earlier later (omega arith) (omega arith)
      (λ h. absurd (omega (arith, h))) (λ h. absurd (omega (arith, h)))
