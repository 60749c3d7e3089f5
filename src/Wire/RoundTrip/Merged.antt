-- ===== src/Wire/RoundTrip/Merged.antt =====
-- src/wire/decode.rs: `merge` of a delta with the list that it is based on.
use uniproc_windows_agent.Base.{
  ℕ, Bool, negb, List, [], ◌∷◌, ◌++◌, map, Option, none, some, ◌&&◌, Beq, nat_beq, pair_beq, ◌≡◌,
  refl, sym, ap, ◌∙◌, All, Bool-cases, Option-cases, inl, inr, arith,
}
use uniproc_windows_agent.Watch.Diff.{IsOrdered, member}
use uniproc_windows_agent.Wire.Encode.Updates.{row_at}
use uniproc_windows_agent.Wire.Decode.Updates.{has, keep, sort_rows, merge}
use uniproc_windows_agent.Wire.RoundTrip.Merge.{
  ordered-IsDistinct, row_at_sort, row_at-keep, keep-IsDistinct, or_else, row_at-append,
  append-IsDistinct, row_at_ext, row_at_pid, has_pids, pids_has, no_key, row_at-member,
  member_of_row, member-key, only, sort-IsOrdered,
}
use uniproc_windows_agent.Wire.RoundTrip.Delta.{LeftSays, news}

module _ {T : Type 0} ⦃e : Beq T⦄ (key : T → ℕ × ℕ) where
  module _ (left : List ℕ) (before after : List T) (hb : IsOrdered key before)
      (ha : IsOrdered key after) (says : LeftSays left (map key before) (map key after)) where
    abbrev stays : T → Bool
    stays row =
        let replaced = map (λ row. (key row).0) (news key before after) in
        negb (has left (key row).1) && negb (has replaced (key row).0)

    news_at :
        (p : ℕ)
        → row_at key p (news key before after)
          ≡ only key (λ is. negb (member is before)) (row_at key p after)
    news_at p =
        row_at-keep key (λ is. negb (member is before)) p after (ordered-IsDistinct key after ha)

    merged_at :
        (p : ℕ) (was is : Option T)
        → row_at key p before ≡ was
        → row_at key p after ≡ is
        → or_else key (only key stays was) (only key (λ is. negb (member is before)) is) ≡ is
    merged_at p none none hw hi = refl
    merged_at p (some b) none hw hi =
        let pid = row_at_pid key p b before hw in
        let gone = says (key b) (member-key key b before (member_of_row key p b before hw)) in
        let none_there : row_at key (key b).0 after ≡ none = rw pid hi in
        let absent = no_key key (key b) after none_there in ground (arith, gone, absent)
    merged_at p none (some a) hw hi =
        let pid = row_at_pid key p a after hi in
        let found = row_at-member key a before (ordered-IsDistinct key before hb) in
        let none_there : row_at key (key a).0 before ≡ none = rw pid hw in
        ground (arith, found, none_there)
    merged_at p (some b) (some a) hw hi =
        let pid_b : (key b).0 ≡ p = row_at_pid key p b before hw in
        let pid_a : (key a).0 ≡ p = row_at_pid key p a after hi in
        elim (Bool-cases (member a before)) [
          | inl t ↦
              let own : row_at key (key a).0 before ≡ some a =
                row_at-member key a before (ordered-IsDistinct key before hb) t in
              let at_p : row_at key p before ≡ some a = rw (sym pid_a) own in
              let same : b ≡ a = ground (arith, at_p, hw) in
              let here = member-key key a after (member_of_row key p a after hi) in
              let said = says (key a) (member-key key a before t) in
              let unsent : row_at key p (news key before after) ≡ none =
                news_at p ∙ rw hi (ground (arith, t)) in
              let unreplaced = has_pids key p (news key before after) unsent in
              rw same (rw pid_a (ground (arith, t, here, said, unreplaced)))
          | inr f ↦
              let sent : row_at key p (news key before after) ≡ some a =
                news_at p ∙ rw hi (ground (arith, f)) in
              let replaced = pids_has key p a (news key before after) sent in
              rw pid_b (ground (arith, f, replaced))
        ]

    stays_apart :
        (xs : List T)
        → All (λ x. row_at key (key x).0 (news key before after) ≡ none) (keep key stays xs)
    unfolding keep
    stays_apart [] = tt
    stays_apart (x ∷ xs) = elim (Bool-cases (stays x)) [
      | inl t ↦
          let apart : row_at key (key x).0 (news key before after) ≡ none =
            elim (Option-cases (row_at key (key x).0 (news key before after))) [
              | inl e ↦ e
              | inr (a, e) ↦
                  absurd (ground (arith, t, pids_has key (key x).0 a (news key before after) e))
            ] in
          rw t (apart, stays_apart xs)
      | inr t ↦ rw t (stays_apart xs)
    ]

    -- A delta applied to the list it is based on builds the list it was cut for.
    pub delta_merged : merge key before left (news key before after) ≡ after
    unfolding merge
    delta_merged =
        let kept = keep key stays before in
        let fresh = news key before after in
        let all_before = ordered-IsDistinct key before hb in
        let all_after = ordered-IsDistinct key after ha in
        let apart =
          append-IsDistinct key kept fresh (keep-IsDistinct key stays before all_before)
            (keep-IsDistinct key (λ is. negb (member is before)) after all_after)
            (stays_apart before) in
        row_at_ext key (sort_rows key (kept ++ fresh)) after
          (sort-IsOrdered key (kept ++ fresh) apart) ha
          (λ p.
            row_at_sort key p (kept ++ fresh)
            ∙ row_at-append key p kept fresh
            ∙ ap (λ o. or_else key o (row_at key p fresh))
                (row_at-keep key stays p before all_before)
            ∙ ap (or_else key (only key stays (row_at key p before))) (news_at p)
            ∙ merged_at p (row_at key p before) (row_at key p after) refl refl)
