-- ===== src/Wire/RoundTrip/Merge.antt =====
-- src/wire/decode.rs: what `merge` builds, by the row it has under each pid.
use uniproc_windows_agent.Base.{
  ℕ, ◌≤◌, ◌<◌, Bool, true, false, List, [], ◌∷◌, ◌++◌, map, Option, none, some, ◌==◌, Beq, nat_beq,
  pair_beq, leb, if◌then◌else◌, ◌≡◌, refl, sym, ap, ◌∙◌, All, Bool-cases, inl, inr, arith,
}
use uniproc_windows_agent.Watch.Diff.{IsPast, IsOrdered, member}
use uniproc_windows_agent.Wire.Encode.Updates.{row_at}
use uniproc_windows_agent.Wire.Decode.Updates.{has, keep, insert_row, sort_rows}

module _ {T : Type 0} (key : T → ℕ × ℕ) where
  -- No two rows have the same pid.
  abbrev pub IsDistinct : List T → Type 0
  IsDistinct [] = Unit
  IsDistinct (x ∷ xs) = (row_at key (key x).0 xs ≡ none) × IsDistinct xs

  pub row_at_past : (p n : ℕ) (xs : List T) → p ≤ n → IsPast key n xs → row_at key p xs ≡ none
  unfolding row_at
  row_at_past p n [] le past = refl
  row_at_past p n (x ∷ xs) le past = ground (arith, row_at_past p n xs le past.1)

  pub ordered-IsDistinct : (xs : List T) → IsOrdered key xs → IsDistinct xs
  ordered-IsDistinct [] h = tt
  ordered-IsDistinct (x ∷ xs) h =
      (row_at_past (key x).0 (key x).0 xs (omega arith) h.0, ordered-IsDistinct xs h.1)

  row_at_insert :
      (p : ℕ) (x : T) (ys : List T) → row_at key p (insert_row key x ys) ≡ row_at key p (x ∷ ys)
  unfolding row_at insert_row
  row_at_insert p x [] = refl
  row_at_insert p x (y ∷ ys) = ground (arith, row_at_insert p x ys)

  pub row_at_sort : (p : ℕ) (xs : List T) → row_at key p (sort_rows key xs) ≡ row_at key p xs
  unfolding row_at sort_rows
  row_at_sort p [] = refl
  row_at_sort p (x ∷ xs) =
      row_at_insert p x (sort_rows key xs)
      ∙ ap (λ o. if (key x).0 == p then some x else o) (row_at_sort p xs)

  insert-IsPast :
      (n : ℕ) (x : T) (ys : List T)
      → n < (key x).0
      → IsPast key n ys
      → IsPast key n (insert_row key x ys)
  unfolding insert_row
  insert-IsPast n x [] lt past = (lt, tt)
  insert-IsPast n x (y ∷ ys) lt past = elim (Bool-cases (leb (key x).0 (key y).0)) [
    | inl e ↦ rw e (lt, past)
    | inr e ↦ rw e (past.0, insert-IsPast n x ys lt past.1)
  ]

  IsPast-weaken : (n m : ℕ) (ys : List T) → n ≤ m → IsPast key m ys → IsPast key n ys
  IsPast-weaken n m [] le past = tt
  IsPast-weaken n m (y ∷ ys) le past = (omega (arith, past.0), IsPast-weaken n m ys le past.1)

  insert-IsOrdered :
      (x : T) (ys : List T)
      → IsOrdered key ys
      → row_at key (key x).0 ys ≡ none
      → IsOrdered key (insert_row key x ys)
  unfolding insert_row row_at
  insert-IsOrdered x [] h absent = (tt, tt)
  insert-IsOrdered x (y ∷ ys) h absent = elim (Bool-cases (leb (key x).0 (key y).0)) [
    | inl e ↦ rw e (
        let lt : (key x).0 < (key y).0 = ground (arith, absent, e) in
        ((lt, IsPast-weaken (key x).0 (key y).0 ys (omega arith) h.0), h))
    | inr e ↦ rw e (
      insert-IsPast (key y).0 x ys (ground (arith, e)) h.0,
      insert-IsOrdered x ys h.1 (ground (arith, absent, e)),
    )
  ]

  pub sort-IsOrdered : (xs : List T) → IsDistinct xs → IsOrdered key (sort_rows key xs)
  unfolding sort_rows
  sort-IsOrdered [] h = tt
  sort-IsOrdered (x ∷ xs) h =
      insert-IsOrdered x (sort_rows key xs) (sort-IsOrdered xs h.1) (row_at_sort (key x).0 xs ∙ h.0)

  abbrev pub only : (T → Bool) → Option T → Option T
  only test none = none
  only test (some x) = if test x then some x else none

  pub row_at-keep :
      (test : T → Bool) (p : ℕ) (xs : List T)
      → IsDistinct xs
      → row_at key p (keep key test xs) ≡ only test (row_at key p xs)
  unfolding row_at keep
  row_at-keep test p [] h = refl
  row_at-keep test p (x ∷ xs) h =
      let rest = row_at-keep test p xs h.1 in
      elim (Bool-cases ((key x).0 == p)) [
        | inl e ↦
            let alone : row_at key p xs ≡ none = rw (sym ((nat_beq.beq_iff (key x).0 p).0 e)) h.0 in
            ground (arith, e, rest, alone)
        | inr e ↦ ground (arith, e, rest)
      ]

  pub keep-IsDistinct :
      (test : T → Bool) (xs : List T) → IsDistinct xs → IsDistinct (keep key test xs)
  unfolding keep
  keep-IsDistinct test [] h = tt
  keep-IsDistinct test (x ∷ xs) h = elim (Bool-cases (test x)) [
    | inl e ↦
        rw e (row_at-keep test (key x).0 xs h.1 ∙ ap (only test) h.0, keep-IsDistinct test xs h.1)
    | inr e ↦ rw e (keep-IsDistinct test xs h.1)
  ]

  abbrev pub or_else : Option T → Option T → Option T
  or_else none o = o
  or_else (some x) o = some x

  pub row_at-append :
      (p : ℕ) (xs ys : List T)
      → row_at key p (xs ++ ys) ≡ or_else (row_at key p xs) (row_at key p ys)
  unfolding row_at
  row_at-append p [] ys = refl
  row_at-append p (x ∷ xs) ys = ground (arith, row_at-append p xs ys)

  pub append-IsDistinct :
      (xs ys : List T)
      → IsDistinct xs
      → IsDistinct ys
      → All (λ x. row_at key (key x).0 ys ≡ none) xs
      → IsDistinct (xs ++ ys)
  append-IsDistinct [] ys hx hy apart = hy
  append-IsDistinct (x ∷ xs) ys hx hy apart =
      (row_at-append (key x).0 xs ys ∙ rw hx.0 apart.0, append-IsDistinct xs ys hx.1 hy apart.1)

  -- Ordered lists with the same row under each pid are the same.
  pub row_at_ext :
      (xs ys : List T)
      → IsOrdered key xs
      → IsOrdered key ys
      → ((p : ℕ) → row_at key p xs ≡ row_at key p ys)
      → xs ≡ ys
  unfolding row_at
  row_at_ext [] [] hx hy same = refl
  row_at_ext [] (y ∷ ys) hx hy same = absurd (ground (arith, same (key y).0))
  row_at_ext (x ∷ xs) [] hx hy same = absurd (ground (arith, same (key x).0))
  row_at_ext (x ∷ xs) (y ∷ ys) hx hy same =
      let n = (key x).0 in
      let m = (key y).0 in
      let no_less : n < m → row_at key n ys ≡ none =
        λ lt. row_at_past n m ys (omega (arith, lt)) hy.0 in
      let no_more : m < n → row_at key m xs ≡ none =
        λ lt. row_at_past m n xs (omega (arith, lt)) hx.0 in
      let level : n ≡ m = ground (arith, same n, same m, no_less, no_more) in
      let first : x ≡ y = ground (arith, same n, level) in
      let tails : (p : ℕ) → row_at key p xs ≡ row_at key p ys = λ p. elim (Bool-cases (leb p n)) [
        | inl e ↦
            row_at_past p n xs (ground (arith, e)) hx.0
            ∙ sym (row_at_past p m ys (ground (arith, e, level)) hy.0)
        | inr e ↦ ground (arith, same p, e, level)
      ] in
      let rest : xs ≡ ys = row_at_ext xs ys hx.1 hy.1 tails in λ i. first i ∷ rest i

  pub row_at_pid : (p : ℕ) (x : T) (xs : List T) → row_at key p xs ≡ some x → (key x).0 ≡ p
  unfolding row_at
  row_at_pid p x [] h = absurd (ground (arith, h))
  row_at_pid p x (y ∷ ys) h = elim (Bool-cases ((key y).0 == p)) [
    | inl e ↦
        let same : y ≡ x = ground (arith, h, e) in rw (sym same) ((nat_beq.beq_iff (key y).0 p).0 e)
    | inr e ↦ row_at_pid p x ys (ground (arith, h, e))
  ]

  pub has_pids :
      (p : ℕ) (xs : List T) → (row_at key p xs ≡ none) → has (map (λ row. (key row).0) xs) p ≡ false
  unfolding row_at
  has_pids p [] h = refl
  has_pids p (x ∷ xs) h = ground (arith, h, has_pids p xs)

  pub pids_has :
      (p : ℕ) (x : T) (xs : List T)
      → (row_at key p xs ≡ some x)
      → has (map (λ row. (key row).0) xs) p ≡ true
  unfolding row_at
  pids_has p x [] h = absurd (ground (arith, h))
  pids_has p x (y ∷ xs) h = ground (arith, h, pids_has p x xs)

  pub no_key : (k : ℕ × ℕ) (xs : List T) → row_at key k.0 xs ≡ none → member k (map key xs) ≡ false
  unfolding row_at
  no_key k [] h = refl
  no_key k (x ∷ xs) h = ground (arith, h, no_key k xs, pair_beq.beq_iff k (key x))

  module _ ⦃e : Beq T⦄ where
    pub row_at-member :
        (x : T) (xs : List T)
        → IsDistinct xs
        → member x xs ≡ true
        → row_at key (key x).0 xs ≡ some x
    unfolding row_at
    row_at-member x [] h is = absurd (ground (arith, is))
    row_at-member x (y ∷ ys) h is = grind (arith, h.0, row_at-member x ys h.1, e.beq_iff x y, is)

    pub member_of_row :
        (p : ℕ) (x : T) (xs : List T) → row_at key p xs ≡ some x → member x xs ≡ true
    unfolding row_at
    member_of_row p x [] h = absurd (ground (arith, h))
    member_of_row p x (y ∷ ys) h = grind (arith, h, member_of_row p x ys, e.beq_iff x y)

    pub member-key : (x : T) (xs : List T) → member x xs ≡ true → member (key x) (map key xs) ≡ true
    member-key x [] is = is
    member-key x (y ∷ ys) is =
        grind (arith, member-key x ys, e.beq_iff x y, pair_beq.beq_iff (key x) (key y))
