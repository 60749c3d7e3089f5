-- ===== src/ProcessEvents/Assemble/Account.antt =====
-- crates/core/src/process_events/assemble.rs: what is pending goes out or stays pending.
use uniproc_windows_agent.Base.{
  ℕ, ◌+◌, List, [], ◌∷◌, ◌++◌, ◌==◌, nat_beq, string_beq, pair_beq, if◌then◌else◌, ◌≡◌, refl, ap,
  ◌∙◌, Bool-cases, inl, inr, arith,
}
use uniproc_windows_agent.ProcessEvents.{ProcessEvent, exited, started}
use uniproc_windows_agent.ProcessEvents.Assemble.{
  Assembler, Pending, Resolve, Start, exit, into_event, start,
}
use uniproc_windows_agent.ProcessEvents.Assemble.Release.{
  exit_due, insert_pending, pass, pass-start_due, pass-start_kept, pass-exit_due, pass-exit_kept,
  release, sort_pending, start_due,
}

-- A pid and a sequence number, and a time with 0 for a start and 1 for an exit.
abbrev pub Key : Type 0
Key = (ℕ × ℕ) × (ℕ × ℕ)

abbrev pub event_order : ProcessEvent → ℕ × ℕ
event_order e = elim e.kind [ started s ↦ (e.time, 0) | exited x ↦ (e.time, 1) ]

abbrev pub event_id : ProcessEvent → Key
event_id e = ((e.pid, e.sequence_number), event_order e)

abbrev pub pending_id : Pending → Key
pending_id (start s) = ((s.created.pid, s.created.sequence_number), (s.created.time, 0))
pending_id (exit ended) = ((ended.pid, ended.sequence_number), (ended.time, 1))

abbrev pub times : {A : Type 0} → (A → Key) → Key → List A → ℕ
times id_of i [] = 0
times id_of i (x ∷ xs) = let rest = times id_of i xs in if id_of x == i then 1 + rest else rest

one_out :
    (i a b : Key)
    → a ≡ b
    → (n m k : ℕ) → n + m ≡ k
    → (if a == i then 1 + n else n) + m ≡ (if b == i then 1 + k else k)
one_out i a b same n m k h = rw same (ground (arith, h))

one_kept :
    (i a b : Key)
    → a ≡ b
    → (n m k : ℕ) → n + m ≡ k
    → n + (if a == i then 1 + m else m) ≡ (if b == i then 1 + k else k)
one_kept i a b same n m k h = rw same (ground (arith, h))

times_insert :
    (i : Key) (p : Pending) (ps : List Pending)
    → times pending_id i (insert_pending p ps) ≡ times pending_id i (p ∷ ps)
unfolding insert_pending
times_insert i p [] = refl
times_insert i p (q ∷ qs) = ground (arith, times_insert i p qs)

pub times_sort :
    (i : Key) (ps : List Pending) → times pending_id i (sort_pending ps) ≡ times pending_id i ps
unfolding sort_pending
times_sort i [] = refl
times_sort i (p ∷ ps) = times_insert i p (sort_pending ps) ∙ ground (arith, times_sort i ps)

module _ {R : Type 0} (resolve : Resolve R) (now : ℕ) where
  -- A start that is looked at stays the start of the same process.
  pub start_due-created : (r : R) (s : Start) → (start_due resolve now r s).1.created ≡ s.created
  unfolding start_due
  start_due-created r s = ground arith

  pub into_event_id : (r : R) (p : Pending) → event_id (into_event resolve r p).0 ≡ pending_id p
  unfolding into_event
  into_event_id r (start s) = refl
  into_event_id r (exit ended) = refl

  asked_id :
      (r : R) (s : Start) → pending_id (start (start_due resolve now r s).1) ≡ pending_id (start s)
  asked_id r s = ap (λ c. ((c.pid, c.sequence_number), (c.time, 0))) (start_due-created r s)

  pass-times :
      (i : Key) (held : List (ℕ × ℕ)) (went : List (ℕ × ℕ × ℕ)) (r : R) (ps : List Pending)
      → let out = pass resolve now held went r ps in
        times event_id i out.events + times pending_id i out.pending ≡ times pending_id i ps
  unfolding pass
  pass-times i held went r [] = refl
  pass-times i held went r (start s ∷ ps) =
      let due = start_due resolve now r s in
      let c = s.created in
      elim (Bool-cases due.0) [
        | inl t ↦
            let event = into_event_id due.2 (start due.1) ∙ asked_id r s in
            let rest =
              pass-times i held (went ++ (c.pid, c.sequence_number, c.time) ∷ [])
                (into_event resolve due.2 (start due.1)).1 ps in
            rw (pass-start_due resolve now held went r ps s t) (
              one_out i (event_id (into_event resolve due.2 (start due.1)).0) (pending_id (start s))
                event _ _ _ rest)
        | inr t ↦
            let rest = pass-times i (held ++ (c.pid, c.sequence_number) ∷ []) went due.2 ps in
            rw (pass-start_kept resolve now held went r ps s t) (
              one_kept i (pending_id (start due.1)) (pending_id (start s)) (asked_id r s) _ _ _
                rest)
      ]
  pass-times i held went r (exit ended ∷ ps) =
      elim (Bool-cases (exit_due resolve now held went ended)) [
        | inl t ↦
            let rest = pass-times i held went (into_event resolve r (exit ended)).1 ps in
            rw (pass-exit_due resolve now held went r ps ended t) (
              one_out i (event_id (into_event resolve r (exit ended)).0) (pending_id (exit ended))
                (into_event_id r (exit ended)) _ _ _ rest)
        | inr t ↦
            let rest = pass-times i held went r ps in
            rw (pass-exit_kept resolve now held went r ps ended t)
              (one_kept i (pending_id (exit ended)) (pending_id (exit ended)) refl _ _ _ rest)
      ]

  -- A release loses and doubles nothing: a start or an exit of a pid, a sequence number and a time
  -- is as often among the events that go out and those that stay pending as it was pending before.
  pub release_account :
      (i : Key) (r : R) (a : Assembler)
      → let (events, left, _) = release resolve now r a in
        times event_id i events + times pending_id i left.pending ≡ times pending_id i a.pending
  unfolding release
  release_account i r a = pass-times i [] a.went r (sort_pending a.pending) ∙ times_sort i a.pending
