-- ===== src/ProcessEvents/Assemble/Sorted.antt =====
-- crates/core/src/process_events/assemble.rs: the events go out in order.
use mathlib.Core.Path.{subst}
use uniproc_windows_agent.Base.{
  ℕ, true, false, List, [], ◌∷◌, ◌++◌, nat_beq, string_beq, pair_beq, ◌≡◌, refl, sym, ap, ◌∙◌, All,
  Bool-cases, inl, inr, arith,
}
use uniproc_windows_agent.ProcessEvents.Assemble.{
  Assembler, Pending, Resolve, Start, exit, into_event, order, start,
}
use uniproc_windows_agent.ProcessEvents.Assemble.Release.{
  exit_due, in_order, insert_pending, pass, pass-start_due, pass-start_kept, pass-exit_due,
  pass-exit_kept, release, sort_pending, start_due,
}
use uniproc_windows_agent.ProcessEvents.Assemble.Account.{event_order, start_due-created}

pub in_order_trans :
    (a b c : ℕ × ℕ) → in_order a b ≡ true → in_order b c ≡ true → in_order a c ≡ true
in_order_trans a b c ab bc = ground (arith, ab, bc)

in_order_total : (a b : ℕ × ℕ) → in_order a b ≡ false → in_order b a ≡ true
in_order_total a b h = ground (arith, h)

module _ {A : Type 0} (key : A → ℕ × ℕ) where
  abbrev pub IsFrom : ℕ × ℕ → List A → Type 0
  IsFrom k = All (λ x. in_order k (key x) ≡ true)

  -- Each one is in order with all those after it.
  abbrev pub IsSorted : List A → Type 0
  IsSorted [] = Unit
  IsSorted (x ∷ xs) = IsFrom (key x) xs × IsSorted xs

IsFrom-weaken :
    (j k : ℕ × ℕ) (ps : List Pending) → in_order j k ≡ true → IsFrom order k ps → IsFrom order j ps
IsFrom-weaken j k [] h from = tt
IsFrom-weaken j k (p ∷ ps) h from =
    (in_order_trans j k (order p) h from.0, IsFrom-weaken j k ps h from.1)

insert-IsFrom :
    (k : ℕ × ℕ) (p : Pending) (ps : List Pending)
    → in_order k (order p) ≡ true
    → IsFrom order k ps
    → IsFrom order k (insert_pending p ps)
unfolding insert_pending
insert-IsFrom k p [] h from = (h, tt)
insert-IsFrom k p (q ∷ qs) h from = elim (Bool-cases (in_order (order p) (order q))) [
  | inl t ↦ rw t (h, from)
  | inr t ↦ rw t (from.0, insert-IsFrom k p qs h from.1)
]

insert-IsSorted :
    (p : Pending) (ps : List Pending) → IsSorted order ps → IsSorted order (insert_pending p ps)
unfolding insert_pending
insert-IsSorted p [] h = (tt, tt)
insert-IsSorted p (q ∷ qs) h = elim (Bool-cases (in_order (order p) (order q))) [
  | inl t ↦ rw t ((t, IsFrom-weaken (order p) (order q) qs t h.0), h)
  | inr t ↦ rw t (
    insert-IsFrom (order q) p qs (in_order_total (order p) (order q) t) h.0,
    insert-IsSorted p qs h.1,
  )
]

pub sort_pending-IsSorted : (ps : List Pending) → IsSorted order (sort_pending ps)
unfolding sort_pending
sort_pending-IsSorted [] = tt
sort_pending-IsSorted (p ∷ ps) = insert-IsSorted p (sort_pending ps) (sort_pending-IsSorted ps)

module _ {R : Type 0} (resolve : Resolve R) (now : ℕ) where
  pub into_event_order : (r : R) (p : Pending) → event_order (into_event resolve r p).0 ≡ order p
  unfolding into_event order
  into_event_order r (start s) = refl
  into_event_order r (exit ended) = refl

  asked_order : (r : R) (s : Start) → order (start (start_due resolve now r s).1) ≡ order (start s)
  unfolding order
  asked_order r s = ap (λ c. (c.time, 0)) (start_due-created resolve now r s)

  out_order :
      (r : R) (s : Start)
      → let due = start_due resolve now r s in
        event_order (into_event resolve due.2 (start due.1)).0 ≡ order (start s)
  out_order r s =
      let due = start_due resolve now r s in into_event_order due.2 (start due.1) ∙ asked_order r s

  pub pass-IsFrom :
      (k : ℕ × ℕ) (held : List (ℕ × ℕ)) (went : List (ℕ × ℕ × ℕ)) (r : R) (ps : List Pending)
      → IsFrom order k ps
      → let out = pass resolve now held went r ps in
        IsFrom event_order k out.events × IsFrom order k out.pending
  unfolding pass
  pass-IsFrom k held went r [] from = (tt, tt)
  pass-IsFrom k held went r (start s ∷ ps) from =
      let due = start_due resolve now r s in
      let c = s.created in
      elim (Bool-cases due.0) [
        | inl t ↦
            let rest =
              pass-IsFrom k held (went ++ (c.pid, c.sequence_number, c.time) ∷ [])
                (into_event resolve due.2 (start due.1)).1 ps from.1 in
            let first = ap (in_order k) (out_order r s) ∙ from.0 in
            rw (pass-start_due resolve now held went r ps s t) ((first, rest.0), rest.1)
        | inr t ↦
            let rest =
              pass-IsFrom k (held ++ (c.pid, c.sequence_number) ∷ []) went due.2 ps from.1 in
            let first = ap (in_order k) (asked_order r s) ∙ from.0 in
            rw (pass-start_kept resolve now held went r ps s t) (rest.0, (first, rest.1))
      ]
  pass-IsFrom k held went r (exit ended ∷ ps) from =
      elim (Bool-cases (exit_due resolve now held went ended)) [
        | inl t ↦
            let rest = pass-IsFrom k held went (into_event resolve r (exit ended)).1 ps from.1 in
            let first = ap (in_order k) (into_event_order r (exit ended)) ∙ from.0 in
            rw (pass-exit_due resolve now held went r ps ended t) ((first, rest.0), rest.1)
        | inr t ↦
            let rest = pass-IsFrom k held went r ps from.1 in
            rw (pass-exit_kept resolve now held went r ps ended t) (rest.0, (from.0, rest.1))
      ]

  pass-IsSorted :
      (held : List (ℕ × ℕ)) (went : List (ℕ × ℕ × ℕ)) (r : R) (ps : List Pending)
      → IsSorted order ps
      → IsSorted event_order (pass resolve now held went r ps).events
  unfolding pass
  pass-IsSorted held went r [] h = tt
  pass-IsSorted held went r (start s ∷ ps) h =
      let due = start_due resolve now r s in
      let c = s.created in
      elim (Bool-cases due.0) [
        | inl t ↦
            let more = went ++ (c.pid, c.sequence_number, c.time) ∷ [] in
            let after = (into_event resolve due.2 (start due.1)).1 in
            let rest = pass-IsFrom (order (start s)) held more after ps h.0 in
            let k = event_order (into_event resolve due.2 (start due.1)).0 in
            let first : IsFrom event_order k (pass resolve now held more after ps).events =
              subst (λ o. IsFrom event_order o (pass resolve now held more after ps).events)
                (sym (out_order r s)) rest.0 in
            rw (pass-start_due resolve now held went r ps s t)
              (first, pass-IsSorted held more after ps h.1)
        | inr t ↦
            rw (pass-start_kept resolve now held went r ps s t)
              (pass-IsSorted (held ++ (c.pid, c.sequence_number) ∷ []) went due.2 ps h.1)
      ]
  pass-IsSorted held went r (exit ended ∷ ps) h =
      elim (Bool-cases (exit_due resolve now held went ended)) [
        | inl t ↦
            let after = (into_event resolve r (exit ended)).1 in
            let rest = pass-IsFrom (order (exit ended)) held went after ps h.0 in
            let first =
              subst (λ o. IsFrom event_order o (pass resolve now held went after ps).events)
                (sym (into_event_order r (exit ended))) rest.0 in
            rw (pass-exit_due resolve now held went r ps ended t)
              (first, pass-IsSorted held went after ps h.1)
        | inr t ↦
            rw (pass-exit_kept resolve now held went r ps ended t)
              (pass-IsSorted held went r ps h.1)
      ]

  -- The events of a release are in order of time, a start before an exit of the same time.
  pub release-IsSorted : (r : R) (a : Assembler) → IsSorted event_order (release resolve now r a).0
  unfolding release
  release-IsSorted r a =
      pass-IsSorted [] a.went r (sort_pending a.pending) (sort_pending-IsSorted a.pending)
