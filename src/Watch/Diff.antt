-- ===== src/Watch/Diff.antt =====
-- src/watch.rs: what `diff` says of two lists, against their membership, and what `changes` says of
-- two snapshots.
use uniproc_windows_agent.Base.{
  ℕ, ◌≤◌, ◌<◌, Bool, false, negb, List, [], ◌∷◌, map, some, ◌==◌, ◌||◌, Beq, nat_beq, pair_beq,
  if◌then◌else◌, ◌≡◌, refl, sym, ap, All, Bool-cases, inl, inr, arith, ◌∙◌,
}
use uniproc_windows_agent.Model.{ProcessState}
use uniproc_windows_agent.Api.{ProcessInfo, Snapshot}
use uniproc_windows_agent.Watch.{diff, changes, info_key, state_key}

abbrev pub member : {A : Type 0} ⦃e : Beq A⦄ → A → List A → Bool
member x [] = false
member x (y ∷ ys) = x == y || member x ys

-- The keys of the elements that `leaves_out` does not leave out.
abbrev pub keys_but : {A K : Type 0} → (A → Bool) → (A → K) → List A → List K
keys_but leaves_out key [] = []
keys_but leaves_out key (x ∷ xs) =
    let rest = keys_but leaves_out key xs in if leaves_out x then rest else key x ∷ rest

module _ {T : Type 0} (key : T → ℕ × ℕ) where
  abbrev pub IsPast : ℕ → List T → Type 0
  IsPast n = All (λ x. n < (key x).0)

  -- Each pid is larger than the one before.
  abbrev pub IsOrdered : List T → Type 0
  IsOrdered [] = Unit
  IsOrdered (x ∷ xs) = IsPast (key x).0 xs × IsOrdered xs

module _ {T : Type 0} ⦃e : Beq T⦄ (key : T → ℕ × ℕ) where
  abbrev pub new_or_changed : List T → List T → List (ℕ × ℕ)
  new_or_changed before after = keys_but (λ is. member is before) key after

  abbrev pub no_longer_there : List T → List T → List (ℕ × ℕ)
  no_longer_there before after = keys_but (λ was. member (key was) (map key after)) key before

  past_not_member :
      (x : T) (n : ℕ) (ys : List T) → IsPast key n ys → (key x).0 ≤ n → member x ys ≡ false
  past_not_member x n [] past le = refl
  past_not_member x n (y ∷ ys) past le =
      grind (arith, e.beq_iff x y, past_not_member x n ys past.1 le)

  past_no_key :
      (x : T) (n : ℕ) (ys : List T)
      → IsPast key n ys
      → (key x).0 ≤ n
      → member (key x) (map key ys) ≡ false
  past_no_key x n [] past le = refl
  past_no_key x n (y ∷ ys) past le =
      grind (arith, pair_beq.beq_iff (key x) (key y), past_no_key x n ys past.1 le)

  -- An element before all those of the other list does not count there.
  new_or_changed_skip :
      (was : T) (before after : List T)
      → IsPast key (key was).0 after
      → new_or_changed (was ∷ before) after ≡ new_or_changed before after
  new_or_changed_skip was before [] past = refl
  new_or_changed_skip was before (is ∷ after) past =
      grind (arith, e.beq_iff is was, new_or_changed_skip was before after past.1)

  no_longer_there_skip :
      (is : T) (before after : List T)
      → IsPast key (key is).0 before
      → no_longer_there before (is ∷ after) ≡ no_longer_there before after
  no_longer_there_skip is [] after past = refl
  no_longer_there_skip is (was ∷ before) after past =
      grind
        (arith, pair_beq.beq_iff (key was) (key is), no_longer_there_skip is before after past.1)

  IsPast-weaken : (n m : ℕ) (ys : List T) → n ≤ m → IsPast key m ys → IsPast key n ys
  IsPast-weaken n m [] le past = tt
  IsPast-weaken n m (y ∷ ys) le past = (omega (arith, past.0), IsPast-weaken n m ys le past.1)

  diff_upserted :
      (before after : List T)
      → IsOrdered key before
      → IsOrdered key after
      → (diff key before after).0 ≡ new_or_changed before after
  unfolding diff
  diff_upserted [] [] hb ha = refl
  diff_upserted (was ∷ before) [] hb ha = diff_upserted before [] hb.1 ha
  diff_upserted [] (is ∷ after) hb ha = ap (λ ks. key is ∷ ks) (diff_upserted [] after hb ha.1)
  diff_upserted (was ∷ before) (is ∷ after) hb ha =
      let lower = diff_upserted before (is ∷ after) hb.1 ha in
      let upper = diff_upserted (was ∷ before) after hb ha.1 in
      let both = diff_upserted before after hb.1 ha.1 in
      let n = (key was).0 in
      let m = (key is).0 in
      let low : n < m
          → new_or_changed (was ∷ before) (is ∷ after) ≡ new_or_changed before (is ∷ after) =
        λ h.
          new_or_changed_skip was before (is ∷ after)
            (h, IsPast-weaken n m after (omega arith) ha.0) in
      let level : n ≡ m → new_or_changed (was ∷ before) after ≡ new_or_changed before after =
        λ h. new_or_changed_skip was before after (IsPast-weaken n m after (omega arith) ha.0) in
      let absent : m ≤ n → member is before ≡ false = past_not_member is n before hb.0 in
      ground (
        arith,
        lower,
        upper,
        both,
        low,
        level,
        absent,
        e.beq_iff is was,
        e.beq_iff was is,
        pair_beq.beq_iff (key was) (key is),
      )

  diff_left :
      (before after : List T)
      → IsOrdered key before
      → IsOrdered key after
      → (diff key before after).1 ≡ no_longer_there before after
  unfolding diff
  diff_left [] [] hb ha = refl
  diff_left (was ∷ before) [] hb ha = ap (λ ks. key was ∷ ks) (diff_left before [] hb.1 ha)
  diff_left [] (is ∷ after) hb ha = diff_left [] after hb ha.1
  diff_left (was ∷ before) (is ∷ after) hb ha =
      let lower = diff_left before (is ∷ after) hb.1 ha in
      let upper = diff_left (was ∷ before) after hb ha.1 in
      let both = diff_left before after hb.1 ha.1 in
      let n = (key was).0 in
      let m = (key is).0 in
      let high : m < n
          → no_longer_there (was ∷ before) (is ∷ after) ≡ no_longer_there (was ∷ before) after =
        λ h.
          no_longer_there_skip is (was ∷ before) after
            (h, IsPast-weaken m n before (omega arith) hb.0) in
      let level : n ≡ m → no_longer_there before (is ∷ after) ≡ no_longer_there before after =
        λ h. no_longer_there_skip is before after (IsPast-weaken m n before (omega arith) hb.0) in
      let absent : n ≤ m → member (key was) (map key after) ≡ false =
        past_no_key was m after ha.0 in
      ground (arith, lower, upper, both, high, level, absent, pair_beq.beq_iff (key was) (key is))

  -- Of two lists ordered by pid, what is upserted are the keys of exactly the elements of `after`
  -- that are not in `before` as they are, in the order of `after`, and what left are the keys of
  -- exactly the elements of `before` whose key no element of `after` has, in the order of `before`.
  pub diff_exact :
      (before after : List T)
      → IsOrdered key before
      → IsOrdered key after
      → ((diff key before after).0 ≡ new_or_changed before after)
        × ((diff key before after).1 ≡ no_longer_there before after)
  diff_exact before after hb ha = (diff_upserted before after hb ha, diff_left before after hb ha)

  pub diff_same : (xs : List T) → diff key xs xs ≡ ([], [])
  unfolding diff
  diff_same [] = refl
  diff_same (x ∷ xs) = ground (arith, diff_same xs, e.beq_iff x x, pair_beq.beq_iff (key x) (key x))

  diff_tagged :
      (was is : ℕ) (before after : List T)
      → (was ≡ is → before ≡ after)
      → (if negb (was == is) then diff key before after else ([], [])) ≡ diff key before after
  diff_tagged was is before after tagged = elim (Bool-cases (was == is)) [
    | inl e ↦ rw e (sym (rw (tagged ((nat_beq.beq_iff was is).0 e)) (diff_same after)))
    | inr e ↦ rw e refl
  ]

abbrev pub rows : Snapshot → List ProcessState
rows snapshot = snapshot.states.value.states

-- The lists are ordered by pid.
abbrev pub IsSnapshot : Snapshot → Type 0
IsSnapshot snapshot =
    IsOrdered info_key snapshot.processes.value × IsOrdered state_key (rows snapshot)

module _ ⦃i : Beq ProcessInfo⦄ ⦃s : Beq ProcessState⦄ where
  -- Two snapshots whose lists are ordered by pid, and equal where their tags are: the changes name
  -- exactly the processes that are new or whose passport changed, exactly those no longer listed,
  -- and exactly the states that are new or changed, whichever tags moved.
  pub changes_exact :
      (before after : Snapshot)
      → IsSnapshot before
      → IsSnapshot after
      → (before.processes.etag ≡ after.processes.etag
          → before.processes.value ≡ after.processes.value)
      → (before.states.etag ≡ after.states.etag → rows before ≡ rows after)
      → let c = changes (some before) after in
        (c.passports ≡ new_or_changed info_key before.processes.value after.processes.value)
        × (c.left ≡ no_longer_there info_key before.processes.value after.processes.value)
        × (c.states ≡ new_or_changed state_key (rows before) (rows after))
  unfolding changes
  changes_exact before after hb ha tagged stated =
      let listed =
        diff_tagged info_key before.processes.etag after.processes.etag before.processes.value
          after.processes.value tagged in
      let running =
        diff_tagged state_key before.states.etag after.states.etag (rows before) (rows after)
          stated in
      let lists = diff_exact info_key before.processes.value after.processes.value hb.0 ha.0 in
      (
        ap (λ d. d.0) listed ∙ lists.0,
        ap (λ d. d.1) listed ∙ lists.1,
        ap (λ d. d.0) running ∙ (diff_exact state_key (rows before) (rows after) hb.1 ha.1).0,
      )
