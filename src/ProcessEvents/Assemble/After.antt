-- ===== src/ProcessEvents/Assemble/After.antt =====
-- crates/core/src/process_events/assemble.rs: an exit goes out after its start.
use uniproc_windows_agent.Base.{
  ℕ, ◌<◌, false, List, [], ◌∷◌, ◌++◌, nat_beq, string_beq, pair_beq, ◌≡◌, sym, All, Bool-cases, inl,
  inr, arith,
}
use uniproc_windows_agent.ProcessEvents.{ProcessEvent, ProcessEventKind, exited, started}
use uniproc_windows_agent.ProcessEvents.Assemble.{
  Assembler, Ended, Pending, Resolve, Start, exit, into_event, order, start,
}
use uniproc_windows_agent.ProcessEvents.Assemble.Release.{
  exit_due, has_instance, pass, pass-start_due, pass-start_kept, pass-exit_due, pass-exit_kept,
  release, sort_pending, start_due,
}
use uniproc_windows_agent.ProcessEvents.Assemble.Sorted.{
  IsFrom, IsSorted, pass-IsFrom, sort_pending-IsSorted,
}
use uniproc_windows_agent.ProcessEvents.Assemble.Account.{start_due-created}
use uniproc_windows_agent.ProcessEvents.Assemble.Ready.{exit_free, has_instance-append}

abbrev pub of_start : Start → ℕ × ℕ
of_start s = (s.created.pid, s.created.sequence_number)

abbrev pub of_event : ProcessEvent → ℕ × ℕ
of_event e = (e.pid, e.sequence_number)

-- Of the start of the same process, that it is later than the event.
abbrev pub IsLater : ProcessEvent → Pending → Type 0
IsLater e (start s) = of_start s ≡ of_event e → e.time < s.created.time
IsLater e (exit ended) = Unit

-- An exit is of a process that is not held, and whose start is not among `left` but later.
abbrev IsClear : List (ℕ × ℕ) → List Pending → ProcessEvent → ProcessEventKind → Type 0
IsClear held left e (started s) = Unit
IsClear held left e (exited x) =
    (has_instance (e.pid, e.sequence_number) held ≡ false) × All (IsLater e) left

abbrev AllClear : List (ℕ × ℕ) → List Pending → List ProcessEvent → Type 0
AllClear held left events = All (λ e. IsClear held left e e.kind) events

IsClear-held :
    (held : List (ℕ × ℕ)) (left : List Pending) (s : Start) (e : ProcessEvent)
    (kind : ProcessEventKind)
    → IsClear (held ++ (s.created.pid, s.created.sequence_number) ∷ []) left e kind
    → IsClear held (start s ∷ left) e kind
IsClear-held held left s e (started x) clear = tt
IsClear-held held left s e (exited x) clear =
    let i : ℕ × ℕ = (e.pid, e.sequence_number) in
    let j : ℕ × ℕ = (s.created.pid, s.created.sequence_number) in
    let split = has_instance-append i j held in
    (
      ground (arith, clear.0, split),
      (
        (λ same. absurd (ground (arith, clear.0, split, (pair_beq.beq_iff i j).1 (sym same)))),
        clear.1,
      ),
    )

AllClear-held :
    (held : List (ℕ × ℕ)) (left : List Pending) (s : Start) (events : List ProcessEvent)
    → AllClear (held ++ (s.created.pid, s.created.sequence_number) ∷ []) left events
    → AllClear held (start s ∷ left) events
AllClear-held held left s [] clear = tt
AllClear-held held left s (e ∷ es) clear =
    (IsClear-held held left s e e.kind clear.0, AllClear-held held left s es clear.1)

IsClear-exit :
    (held : List (ℕ × ℕ)) (left : List Pending) (ended : Ended) (e : ProcessEvent)
    (kind : ProcessEventKind)
    → IsClear held left e kind
    → IsClear held (exit ended ∷ left) e kind
IsClear-exit held left ended e (started x) clear = tt
IsClear-exit held left ended e (exited x) clear = (clear.0, (tt, clear.1))

AllClear-exit :
    (held : List (ℕ × ℕ)) (left : List Pending) (ended : Ended) (events : List ProcessEvent)
    → AllClear held left events
    → AllClear held (exit ended ∷ left) events
AllClear-exit held left ended [] clear = tt
AllClear-exit held left ended (e ∷ es) clear =
    (IsClear-exit held left ended e e.kind clear.0, AllClear-exit held left ended es clear.1)

-- A start behind an exit in the order is later.
behind-IsLater :
    (e : ProcessEvent) (left : List Pending) → IsFrom order (e.time, 1) left → All (IsLater e) left
unfolding order
behind-IsLater e [] from = tt
behind-IsLater e (start s ∷ ps) from =
    ((λ same. ground (arith, from.0)), behind-IsLater e ps from.1)
behind-IsLater e (exit ended ∷ ps) from = (tt, behind-IsLater e ps from.1)

module _ {R : Type 0} (resolve : Resolve R) (now : ℕ) where
  pass_clear :
      (held : List (ℕ × ℕ)) (went : List (ℕ × ℕ × ℕ)) (r : R) (ps : List Pending)
      → IsSorted order ps
      → let out = pass resolve now held went r ps in AllClear held out.pending out.events
  unfolding pass into_event order
  pass_clear held went r [] h = tt
  pass_clear held went r (start s ∷ ps) h =
      let due = start_due resolve now r s in
      let c = s.created in
      elim (Bool-cases due.0) [
        | inl t ↦ rw (pass-start_due resolve now held went r ps s t) (
          tt,
          pass_clear held (went ++ (c.pid, c.sequence_number, c.time) ∷ [])
              (into_event resolve due.2 (start due.1)).1 ps h.1,
        )
        | inr t ↦
            let more = held ++ (c.pid, c.sequence_number) ∷ [] in
            let out = pass resolve now more went due.2 ps in
            let clear : AllClear (held ++ (due.1.created.pid, due.1.created.sequence_number) ∷ [])
                out.pending out.events =
              rw (start_due-created resolve now r s) (pass_clear more went due.2 ps h.1) in
            rw (pass-start_kept resolve now held went r ps s t)
              (AllClear-held held out.pending due.1 out.events clear)
      ]
  pass_clear held went r (exit ended ∷ ps) h =
      elim (Bool-cases (exit_due resolve now held went ended)) [
        | inl t ↦
            let out = pass resolve now held went r ps in
            let event = (into_event resolve r (exit ended)).0 in
            let free : has_instance (ended.pid, ended.sequence_number) held ≡ false =
              exit_free resolve now held went ended t in
            let behind = pass-IsFrom resolve now (ended.time, 1) held went r ps h.0 in
            rw (pass-exit_due resolve now held went r ps ended t)
              ((free, behind-IsLater event out.pending behind.1), pass_clear held went r ps h.1)
        | inr t ↦
            let out = pass resolve now held went r ps in
            rw (pass-exit_kept resolve now held went r ps ended t)
              (AllClear-exit held out.pending ended out.events (pass_clear held went r ps h.1))
      ]

-- An exit has no start of its process in `left` but a later one.
abbrev pub IsAfterStart : List Pending → ProcessEvent → ProcessEventKind → Type 0
IsAfterStart left e (started s) = Unit
IsAfterStart left e (exited x) = All (IsLater e) left

clear_after :
    (left : List Pending) (e : ProcessEvent) (kind : ProcessEventKind)
    → IsClear [] left e kind
    → IsAfterStart left e kind
clear_after left e (started s) clear = tt
clear_after left e (exited x) clear = clear.1

AllClear-after :
    (left : List Pending) (events : List ProcessEvent)
    → AllClear [] left events
    → All (λ e. IsAfterStart left e e.kind) events
AllClear-after left [] clear = tt
AllClear-after left (e ∷ es) clear =
    (clear_after left e e.kind clear.0, AllClear-after left es clear.1)

module _ {R : Type 0} (resolve : Resolve R) (now : ℕ) where
  -- When an exit goes out, no start of the same process stays pending but one with a later time,
  -- whatever the assembler holds.
  pub release_after :
      (r : R) (a : Assembler)
      → let (events, left, _) = release resolve now r a in
        All (λ e. IsAfterStart left.pending e e.kind) events
  unfolding release
  release_after r a =
      let out = pass resolve now [] a.went r (sort_pending a.pending) in
      AllClear-after out.pending out.events (
        pass_clear resolve now [] a.went r (sort_pending a.pending)
          (sort_pending-IsSorted a.pending))
