-- ===== src/Wire/RoundTrip/Delta.antt =====
-- src/wire/encode.rs and src/wire/decode.rs: a delta, as it is cut from two lists and applied to
-- the first.
use uniproc_windows_agent.Base.{
  ℕ, Bool, true, false, negb, List, [], ◌∷◌, map, none, some, ◌==◌, Beq, nat_beq, pair_beq,
  if◌then◌else◌, ◌≡◌, refl, sym, ap, ◌∙◌, All, Bool-cases, inl, inr, arith,
}
use uniproc_windows_agent.Watch.Diff.{IsOrdered, member, keys_but, new_or_changed, no_longer_there}
use uniproc_windows_agent.Wire.Encode.Updates.{find, sequence_numbers, row_or, upserts}
use uniproc_windows_agent.Wire.Decode.Updates.{has, keep}
use uniproc_windows_agent.Wire.RoundTrip.Merge.{ordered-IsDistinct, row_at-member, member-key}

-- No two keys have the same sequence number.
abbrev pub IsUnique : List (ℕ × ℕ) → Type 0
IsUnique [] = Unit
IsUnique (k ∷ ks) = (has (map (λ k. k.1) ks) k.1 ≡ false) × IsUnique ks

-- Of the keys before, the sequence numbers that left are those of the keys that are not after.
abbrev pub LeftSays : List ℕ → List (ℕ × ℕ) → List (ℕ × ℕ) → Type 0
LeftSays left before after =
    (k : ℕ × ℕ) → member k before ≡ true → has left k.1 ≡ negb (member k after)

member_number :
    (k : ℕ × ℕ) (ks : List (ℕ × ℕ)) → member k ks ≡ true → has (map (λ k. k.1) ks) k.1 ≡ true
member_number k [] is = is
member_number k (l ∷ ks) is =
    grind (arith, member_number k ks, pair_beq.beq_iff k l, nat_beq.beq_iff l.1 k.1)

module _ {T : Type 0} (key : T → ℕ × ℕ) where
  -- The rows of the second list that the first does not have as they are.
  abbrev pub news : ⦃e : Beq T⦄ → List T → List T → List T
  news before after = keep key (λ is. negb (member is before)) after

  pub keep_keys :
      (f g : T → Bool) (xs : List T)
      → All (λ x. f x ≡ negb (g x)) xs
      → map key (keep key f xs) ≡ keys_but g key xs
  unfolding keep
  keep_keys f g [] h = refl
  keep_keys f g (x ∷ xs) h = ground (arith, h.0, keep_keys f g xs h.1)

  All-every : (P : T → Type 0) → ((x : T) → P x) → (xs : List T) → All P xs
  All-every P h [] = tt
  All-every P h (x ∷ xs) = (h x, All-every P h xs)

  fewer_gone :
      (g : T → Bool) (n : ℕ) (xs : List T)
      → has (map (λ k. k.1) (map key xs)) n ≡ false
      → has (sequence_numbers (keys_but g key xs)) n ≡ false
  unfolding sequence_numbers
  fewer_gone g n [] h = refl
  fewer_gone g n (x ∷ xs) h = ground (arith, h, fewer_gone g n xs)

  module _ ⦃e : Beq T⦄ where
    -- What a comparison of the lists says left, by the sequence numbers.
    pub left_says :
        (before after : List T)
        → IsUnique (map key before)
        → LeftSays
            (sequence_numbers (no_longer_there key before after))
            (map key before)
            (map key after)
    unfolding sequence_numbers
    left_says [] after h k is = absurd (ground (arith, is))
    left_says (b ∷ before) after h k is =
        let gone = fewer_gone (λ was. member (key was) (map key after)) (key b).1 before h.0 in
        elim (Bool-cases (k == key b)) [
          | inl e ↦
              let same : k ≡ key b = (pair_beq.beq_iff k (key b)).0 e in
              rw same (ground (arith, gone))
          | inr e ↦
              let there : member k (map key before) ≡ true = ground (arith, is, e) in
              let rest = left_says before after h.1 k there in
              let number = member_number k (map key before) there in
              let other : (key b).1 == k.1 ≡ false = elim (Bool-cases ((key b).1 == k.1)) [
                | inl f ↦
                    let both : (key b).1 ≡ k.1 = (nat_beq.beq_iff (key b).1 k.1).0 f in
                    let gone_too : has (map (λ k. k.1) (map key before)) k.1 ≡ false =
                      rw (sym both) h.0 in
                    absurd (ground (arith, gone_too, number))
                | inr f ↦ f
              ] in
              ground (arith, rest, other)
        ]

    All-members : (P : T → Type 0) (xs : List T) → ((x : T) → member x xs ≡ true → P x) → All P xs
    All-members P [] h = tt
    All-members P (x ∷ xs) h =
        (h x (ground (arith, e.beq_iff x x)), All-members P xs (λ y is. h y (ground (arith, is))))

    -- What is read of the rows before, by the numbers that left, are the keys that left.
    pub left_heard :
        (left : List ℕ) (before after : List T)
        → LeftSays left (map key before) (map key after)
        → map key (keep key (λ row. has left (key row).1) before) ≡ no_longer_there key before after
    left_heard left before after says =
        keep_keys (λ row. has left (key row).1) (λ was. member (key was) (map key after)) before
          (All-members (λ x. has left (key x).1 ≡ negb (member (key x) (map key after))) before
            (λ x is. says (key x) (member-key key x before is)))

    pub news_keys :
        (before after : List T) → map key (news before after) ≡ new_or_changed key before after
    news_keys before after =
        keep_keys (λ is. negb (member is before)) (λ is. member is before) after
          (All-every (λ is. negb (member is before) ≡ negb (member is before)) (λ x. refl) after)

    find_own :
        (x : T) (xs : List T) → IsOrdered key xs → member x xs ≡ true → find xs (key x) key ≡ some x
    unfolding find
    find_own x xs h is =
        ap (λ o. elim o [ none ↦ none | some row ↦ if key row == key x then some row else none ])
          (row_at-member key x xs (ordered-IsDistinct key xs h) is)
        ∙ rw ((pair_beq.beq_iff (key x) (key x)).1 refl) refl

    -- Every key that is upserted finds its row.
    module _ {M : Type 0} (blank : M) (send : T → M) where
      sent_keep :
          (f : T → Bool) (rows xs : List T)
          → All (λ x. find rows (key x) key ≡ some x) xs
          → upserts blank send key rows (map key (keep key f xs)) ≡ map send (keep key f xs)
      unfolding upserts row_or keep
      sent_keep f rows [] h = refl
      sent_keep f rows (x ∷ xs) h = elim (Bool-cases (f x)) [
        | inl t ↦ rw t (rw h.0 (ap (λ ms. send x ∷ ms) (sent_keep f rows xs h.1)))
        | inr t ↦ rw t (sent_keep f rows xs h.1)
      ]

      pub upserts_found :
          (before after : List T)
          → IsOrdered key after
          → upserts blank send key after (new_or_changed key before after)
            ≡ map send (news before after)
      upserts_found before after h = rw (sym (news_keys before after)) (
          sent_keep (λ is. negb (member is before)) after after
            (All-members (λ x. find after (key x) key ≡ some x) after
              (λ x is. find_own x after h is)))
