-- ===== src/Feed/Gone.antt =====
-- src/feed.rs: `GoneList`, the images of the processes that left the list lately. An instant is in
-- nanoseconds; the deque is a list, its front first.
use uniproc_windows_agent.Base.{
  ℕ, ◌-◌, ◌≤◌, Bool, true, false, String, List, [], ◌∷◌, ◌++◌, Option, none, some, ◌==◌, nat_beq,
  pair_beq, ltb, leb, if◌then◌else◌, ◌≡◌, refl, ap, sym, ◌∙◌, Bool-cases, inl, inr, arith,
}
use uniproc_windows_agent.Base.Map.{get, insert, remove, get-insert, get-remove}

abbrev pub gone_kept : ℕ
gone_kept = 10_000_000_000

abbrev pub Left : Type 0
Left = List ((ℕ × ℕ) × (ℕ × String))

pub record GoneList : Type 0 where
  pub order : List (ℕ × (ℕ × ℕ))
  pub images : Left

unfoldable pub left_then : ℕ → Option (ℕ × String) → Bool
left_then at none = false
left_then at (some (left, image)) = left == at

-- The loop of `remember` that lets the oldest go.
unfoldable pub evict : ℕ → List (ℕ × (ℕ × ℕ)) → Left → List (ℕ × (ℕ × ℕ)) × Left
evict now [] images = ([], images)
evict now ((at, key) ∷ order) images =
    let rest =
      evict now order (if left_then at (get key images) then remove key images else images) in
    if ltb gone_kept (now - at) then rest else ((at, key) ∷ order, images)

unfoldable pub remember : ℕ → ℕ → String → ℕ → GoneList → GoneList
remember pid sequence_number image now list =
    let (order, images) = evict now list.order list.images in
    record {
      order = order ++ (now, (pid, sequence_number)) ∷ [];
      images = insert (pid, sequence_number) (now, image) images;
    }

unfoldable pub shown : ℕ → Option (ℕ × String) → String
shown now none = ""
shown now (some (left, image)) = if leb (now - left) gone_kept then image else ""

unfoldable pub image_gone : ℕ → ℕ → ℕ → GoneList → String
image_gone pid sequence_number now list = shown now (get (pid, sequence_number) list.images)

shown_over :
    (now t at : ℕ) (o : Option (ℕ × String))
    → now ≤ t
    → ltb gone_kept (now - at) ≡ true
    → left_then at o ≡ true
    → shown t o ≡ ""
unfolding shown left_then
shown_over now t at none h e f = refl
shown_over now t at (some (left, image)) h e f = ground (arith, e, f, h)

-- Who is let go would not be shown any more.
shown-evict :
    (now t : ℕ) (key : ℕ × ℕ) (order : List (ℕ × (ℕ × ℕ))) (images : Left)
    → now ≤ t
    → shown t (get key (evict now order images).1) ≡ shown t (get key images)
unfolding evict shown
shown-evict now t key [] images h = refl
shown-evict now t key ((at, old) ∷ order) images h = elim (Bool-cases (ltb gone_kept (now - at))) [
  | inr e ↦ rw (e, evict) refl
  | inl e ↦ elim (Bool-cases (left_then at (get old images))) [
    | inr f ↦ rw (e, f, evict) (shown-evict now t key order images h)
    | inl f ↦
        rw (e, f, evict)
          (shown-evict now t key order (remove old images) h
            ∙ (rw (get-remove old key images) (elim (Bool-cases (old == key)) [
              | inl g ↦ rw g (
                  sym (
                    shown_over now t at (get key images) h e (
                      sym (ap (λ k. left_then at (get k images)) ((pair_beq.beq_iff old key).0 g))
                      ∙ f)))
              | inr g ↦ rw g refl
            ])))
  ]
]

abbrev pub same_process : ℕ × ℕ → ℕ × ℕ → Bool
same_process a b = a == b

-- From when a process is remembered, its image is named until `gone_kept` has passed, and what is
-- named of any other process is as it was before, whoever was let go.
pub image_gone-remember :
    (pid sequence_number p n : ℕ) (image : String) (now t : ℕ) (list : GoneList)
    → now ≤ t
    → image_gone p n t (remember pid sequence_number image now list) ≡ (
        if same_process (pid, sequence_number) (p, n)
        then (if leb (t - now) gone_kept then image else "")
        else image_gone p n t list)
unfolding image_gone remember
image_gone-remember pid sequence_number p n image now t list h =
    rw (get-insert (pid, sequence_number) (p, n) (now, image) (evict now list.order list.images).1)
      (elim (Bool-cases (same_process (pid, sequence_number) (p, n))) [
        | inl e ↦ rw e (unfold shown in refl)
        | inr e ↦ rw e (shown-evict now t (p, n) list.order list.images h)
      ])
