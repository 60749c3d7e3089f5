-- ===== src/ProcessEvents/Assemble/Nearest.antt =====
-- crates/core/src/process_events/assemble.rs: the half that `take_nearest` takes.
use mathlib.Core.Option
use uniproc_windows_agent.Base.{
  ℕ, zero, suc, ◌+◌, ◌≤◌, Bool, List, [], ◌∷◌, Option, none, some, get_elem?, leb, if◌then◌else◌,
  ◌≡◌, refl, sym, All, Bool-cases, inl, inr, arith,
}
use uniproc_windows_agent.ProcessEvents.Assemble.Pairing.{
  but_last, half_distance, last_of, least, nearer, swap_remove, take_nearest,
}

-- A distance is at least `d`, where there is one.
abbrev pub IsNoNearer : ℕ → Option ℕ → Type 0
IsNoNearer d none = Unit
IsNoNearer d (some e) = d ≤ e

IsNoNearer-weaken : (d e : ℕ) (o : Option ℕ) → d ≤ e → IsNoNearer e o → IsNoNearer d o
IsNoNearer-weaken d e none le far = tt
IsNoNearer-weaken d e (some f) le far = omega (arith, le, far)

module _ {H : Type 0} where
  abbrev pub count : (H → Bool) → List H → ℕ
  count test [] = 0
  count test (x ∷ xs) = let rest = count test xs in if test x then 1 + rest else rest

  count_last :
      (test : H → Bool) (x : H) (xs : List H)
      → count test (last_of x xs ∷ but_last x xs) ≡ count test (x ∷ xs)
  unfolding last_of but_last
  count_last test x [] = refl
  count_last test x (y ∷ ys) = ground (arith, count_last test y ys)

  count_swap :
      (test : H → Bool) (n : ℕ) (h : H) (xs : List H)
      → get_elem? xs n ≡ some h
      → count test (h ∷ swap_remove n xs) ≡ count test xs
  unfolding swap_remove
  count_swap test n h [] found = absurd (ground (arith, found))
  count_swap test zero h (x ∷ []) found =
      let same : x ≡ h = ground (arith, found) in rw (sym same) refl
  count_swap test zero h (x ∷ y ∷ ys) found =
      let same : x ≡ h = ground (arith, found) in
      rw (sym same) (ground (arith, count_last test y ys))
  count_swap test (suc n) h (x ∷ xs) found = ground (arith, count_swap test n h xs found)

  module _ (distance : H → Option ℕ) where
    -- What `least` finds is there, at its distance, and nothing is nearer.
    abbrev IsLeast : List H → Option (ℕ × ℕ) → Type 0
    IsLeast xs none = All (λ x. distance x ≡ none) xs
    IsLeast xs (some found) =
        (h : H) × (get_elem? xs found.1 ≡ some h)
        × (distance h ≡ some found.0)
        × All (λ x. IsNoNearer found.0 (distance x)) xs

    no_nearer :
        (d : ℕ) (xs : List H)
        → All (λ x. distance x ≡ none) xs
        → All (λ x. IsNoNearer d (distance x)) xs
    no_nearer d [] far = tt
    no_nearer d (x ∷ xs) far = (rw far.0 tt, no_nearer d xs far.1)

    weaken-All :
        (d e : ℕ) (xs : List H)
        → d ≤ e
        → All (λ x. IsNoNearer e (distance x)) xs
        → All (λ x. IsNoNearer d (distance x)) xs
    weaken-All d e [] le far = tt
    weaken-All d e (x ∷ xs) le far =
        (IsNoNearer-weaken d e (distance x) le far.0, weaken-All d e xs le far.1)

    nearer-IsLeast :
        (x : H) (xs : List H) (dx : Option ℕ) (o : Option (ℕ × ℕ))
        → distance x ≡ dx
        → IsLeast xs o
        → IsLeast (x ∷ xs) (nearer dx (Option.map (λ p. (p.0, suc p.1)) o))
    unfolding nearer
    nearer-IsLeast x xs none none at_x far = (at_x, far)
    nearer-IsLeast x xs none (some found) at_x (h, there, at_h, far) =
        (h, there, at_h, (rw at_x tt, far))
    nearer-IsLeast x xs (some d) none at_x far =
        (x, refl, at_x, (rw at_x (omega arith), no_nearer d xs far))
    nearer-IsLeast x xs (some d) (some found) at_x (h, there, at_h, far) =
        elim (Bool-cases (leb d found.0)) [
          | inl t ↦ rw t (
            x,
            refl,
            at_x,
            (rw at_x (omega arith), weaken-All d found.0 xs (ground (arith, t)) far),
          )
          | inr t ↦ rw t (h, there, at_h, (rw at_x (ground (arith, t)), far))
        ]

    least-IsLeast : (xs : List H) → IsLeast xs (least distance xs)
    unfolding least
    least-IsLeast [] = tt
    least-IsLeast (x ∷ xs) =
        nearer-IsLeast x xs (distance x) (least distance xs) refl (least-IsLeast xs)

  -- Nothing is taken where no half has a distance. Else one is, at the least distance, and it and
  -- those left are the halves there were.
  abbrev pub IsTaken : (H → Option ℕ) → List H → Option H → List H → Type 0
  IsTaken distance halves none left = All (λ h. distance h ≡ none) halves × (left ≡ halves)
  IsTaken distance halves (some h) left =
      (d : ℕ) × (distance h ≡ some d)
      × All (λ x. IsNoNearer d (distance x)) halves
      × ((test : H → Bool) → count test (h ∷ left) ≡ count test halves)

  module _ (pid_of time_of : H → ℕ) (pid time : ℕ) where
    taken :
        (halves : List H) (o : Option (ℕ × ℕ))
        → least (half_distance pid_of time_of pid time) halves ≡ o
        → IsLeast (half_distance pid_of time_of pid time) halves o
        → let (half, left) = take_nearest pid_of time_of pid time halves in
          IsTaken (half_distance pid_of time_of pid time) halves half left
    unfolding take_nearest
    taken halves none e far = rw (take_nearest, e) (far, refl)
    taken halves (some found) e (h, there, at_h, far) =
        rw (take_nearest, e, there)
          (found.0, at_h, far, (λ test. count_swap test found.1 h halves there))

    -- Where no half has a distance, none is taken and the halves stay as they are; else the one
    -- that is taken has a distance, none of the halves is nearer, and it and those that are left
    -- are the halves there were, whichever of them are counted.
    pub take_nearest-IsTaken :
        (halves : List H)
        → let (half, left) = take_nearest pid_of time_of pid time halves in
          IsTaken (half_distance pid_of time_of pid time) halves half left
    take_nearest-IsTaken halves =
        taken halves (least (half_distance pid_of time_of pid time) halves) refl
          (least-IsLeast (half_distance pid_of time_of pid time) halves)
