-- ===== src/ProcessEvents/Assemble/Ready.antt =====
-- crates/core/src/process_events/assemble.rs: what stays pending, and what an exit waits for.
use uniproc_windows_agent.Base.{
  ℕ, Bool, true, false, List, [], ◌∷◌, ◌++◌, ◌==◌, ◌||◌, nat_beq, string_beq, pair_beq, ◌≡◌, ◌⊎◌,
  All, Bool-cases, inl, inr, arith,
}
use uniproc_windows_agent.ProcessEvents.Assemble.{
  Assembler, Ended, Pending, Resolve, Start, exit, into_event, start,
}
use uniproc_windows_agent.ProcessEvents.Assemble.Release.{
  exit_due, has_instance, pass, pass-start_due, pass-start_kept, pass-exit_due, pass-exit_kept,
  release, sort_pending, start_due, waited,
}
use uniproc_windows_agent.ProcessEvents.Assemble.Account.{start_due-created}

-- The instances of the starts.
abbrev pub starts : List Pending → List (ℕ × ℕ)
starts [] = []
starts (start s ∷ ps) = (s.created.pid, s.created.sequence_number) ∷ starts ps
starts (exit ended ∷ ps) = starts ps

-- A start that has not waited; an exit whose start is held, or that has not waited since its
-- process started.
abbrev pub IsWaiting : ℕ → (ℕ × ℕ → Bool) → Pending → Type 0
IsWaiting now is_held (start s) = waited now s.created.time ≡ false
IsWaiting now is_held (exit ended) =
    (is_held (ended.pid, ended.sequence_number) ≡ true)
    ⊎ (waited now ended.exited.start_time ≡ false)

IsWaiting-weaken :
    (now : ℕ) (f g : ℕ × ℕ → Bool)
    → ((k : ℕ × ℕ) → f k ≡ true → g k ≡ true)
    → (ps : List Pending) → All (IsWaiting now f) ps
    → All (IsWaiting now g) ps
IsWaiting-weaken now f g h [] w = tt
IsWaiting-weaken now f g h (start s ∷ ps) w = (w.0, IsWaiting-weaken now f g h ps w.1)
IsWaiting-weaken now f g h (exit ended ∷ ps) w = (
  elim w.0 [ inl e ↦ inl (h (ended.pid, ended.sequence_number) e) | inr e ↦ inr e ],
  IsWaiting-weaken now f g h ps w.1,
)

pub has_instance-append :
    (k j : ℕ × ℕ) (ks : List (ℕ × ℕ))
    → has_instance k (ks ++ j ∷ []) ≡ (has_instance k ks || k == j)
unfolding has_instance
has_instance-append k j [] = ground arith
has_instance-append k j (i ∷ ks) = ground (arith, has_instance-append k j ks)

held_wider :
    (k j : ℕ × ℕ) (held kept : List (ℕ × ℕ))
    → (has_instance k (held ++ j ∷ []) || has_instance k kept) ≡ true
    → (has_instance k held || has_instance k (j ∷ kept)) ≡ true
unfolding has_instance
held_wider k j held kept h = ground (arith, has_instance-append k j held, h)

held_already :
    (k : ℕ × ℕ) (held kept : List (ℕ × ℕ))
    → has_instance k held ≡ true
    → (has_instance k held || has_instance k kept) ≡ true
held_already k held kept h = ground (arith, h)

module _ {R : Type 0} (resolve : Resolve R) (now : ℕ) where
  start_kept :
      (r : R) (s : Start)
      → (start_due resolve now r s).0 ≡ false
      → waited now s.created.time ≡ false
  unfolding start_due
  start_kept r s t = ground (arith, t)

  exit_kept :
      (held : List (ℕ × ℕ)) (went : List (ℕ × ℕ × ℕ)) (ended : Ended)
      → exit_due resolve now held went ended ≡ false
      → (has_instance (ended.pid, ended.sequence_number) held ≡ true)
        ⊎ (waited now ended.exited.start_time ≡ false)
  unfolding exit_due
  exit_kept held went ended t =
      elim (Bool-cases (has_instance (ended.pid, ended.sequence_number) held)) [
        | inl e ↦ inl e
        | inr e ↦ inr (ground (arith, t, e))
      ]

  pub exit_free :
      (held : List (ℕ × ℕ)) (went : List (ℕ × ℕ × ℕ)) (ended : Ended)
      → exit_due resolve now held went ended ≡ true
      → has_instance (ended.pid, ended.sequence_number) held ≡ false
  unfolding exit_due
  exit_free held went ended t = ground (arith, t)

  -- Held before, or kept by the pass.
  abbrev held_or : List (ℕ × ℕ) → List Pending → ℕ × ℕ → Bool
  held_or held kept k = has_instance k held || has_instance k (starts kept)

  pass-IsWaiting :
      (held : List (ℕ × ℕ)) (went : List (ℕ × ℕ × ℕ)) (r : R) (ps : List Pending)
      → let left = (pass resolve now held went r ps).pending in
        All (IsWaiting now (held_or held left)) left
  unfolding pass
  pass-IsWaiting held went r [] = tt
  pass-IsWaiting held went r (start s ∷ ps) =
      let due = start_due resolve now r s in
      let c = s.created in
      elim (Bool-cases due.0) [
        | inl t ↦ rw (pass-start_due resolve now held went r ps s t) (
            pass-IsWaiting held (went ++ (c.pid, c.sequence_number, c.time) ∷ [])
              (into_event resolve due.2 (start due.1)).1 ps)
        | inr t ↦
            let more = held ++ (c.pid, c.sequence_number) ∷ [] in
            let left = (pass resolve now more went due.2 ps).pending in
            let same = start_due-created resolve now r s in
            let first : waited now due.1.created.time ≡ false = rw same (start_kept r s t) in
            let wider : (k : ℕ × ℕ)
                → held_or more left k ≡ true
                → held_or held (start due.1 ∷ left) k ≡ true =
              λ k h. rw same (held_wider k (c.pid, c.sequence_number) held (starts left) h) in
            rw (pass-start_kept resolve now held went r ps s t) (
              first,
              IsWaiting-weaken now (held_or more left) (held_or held (start due.1 ∷ left)) wider
                  left (pass-IsWaiting more went due.2 ps),
            )
      ]
  pass-IsWaiting held went r (exit ended ∷ ps) =
      elim (Bool-cases (exit_due resolve now held went ended)) [
        | inl t ↦
            rw (pass-exit_due resolve now held went r ps ended t)
              (pass-IsWaiting held went (into_event resolve r (exit ended)).1 ps)
        | inr t ↦
            let left = (pass resolve now held went r ps).pending in
            let first : IsWaiting now (held_or held left) (exit ended) =
              elim (exit_kept held went ended t) [
                | inl e ↦ inl (held_already (ended.pid, ended.sequence_number) held (starts left) e)
                | inr e ↦ inr e
              ] in
            rw (pass-exit_kept resolve now held went r ps ended t)
              (first, pass-IsWaiting held went r ps)
      ]

  -- After a release, no start that stays pending has waited for as long as it may, and an exit that
  -- stays pending has a start of its process pending with it, or has not waited that long since its
  -- process started.
  pub release-IsWaiting :
      (r : R) (a : Assembler)
      → let left = (release resolve now r a).1.pending in
        All (IsWaiting now (λ k. has_instance k (starts left))) left
  unfolding release has_instance
  release-IsWaiting r a = pass-IsWaiting [] a.went r (sort_pending a.pending)
