-- ===== src/ProcessEvents/Assemble/Release.antt =====
-- crates/core/src/process_events/assemble.rs: the events that are ready go out in order of time.
use uniproc_windows_agent.Base.{
  ℕ, Bool, true, false, negb, ◌≡◌, refl, String, List, [], ◌∷◌, ◌++◌, Option, none, some, ◌==◌,
  ◌&&◌, ◌||◌, nat_beq, string_beq, pair_beq, leb, ltb, if◌then◌else◌,
}
use uniproc_windows_agent.Base.Words.{add64, saturating_add64}
use uniproc_windows_agent.ProcessEvents.{ProcessEvent}
use uniproc_windows_agent.ProcessEvents.Assemble.{
  Assembler, Ended, Pending, Resolve, Start, exit, into_event, order, paired_within, services_of,
  start, waits_at_most,
}

-- `(u64, u8)` as a key.
abbrev pub in_order : ℕ × ℕ → ℕ × ℕ → Bool
in_order a b = ltb a.0 b.0 || (a.0 == b.0 && leb a.1 b.1)

-- `sort_by_key`, which is stable: one goes in front of those behind it that it is not above.
unfoldable pub insert_pending : Pending → List Pending → List Pending
insert_pending p [] = p ∷ []
insert_pending p (q ∷ qs) =
    let rest = insert_pending p qs in if in_order (order p) (order q) then p ∷ q ∷ qs else q ∷ rest

unfoldable pub sort_pending : List Pending → List Pending
sort_pending [] = []
sort_pending (p ∷ ps) = insert_pending p (sort_pending ps)

unfoldable pub waited : ℕ → ℕ → Bool
waited now time = leb (saturating_add64 time waits_at_most) now

unfoldable pub names_scheduler : List String → Bool
names_scheduler [] = false
names_scheduler (name ∷ names) = let rest = names_scheduler names in name == "Schedule" || rest

unfoldable pub has_instance : ℕ × ℕ → List (ℕ × ℕ) → Bool
has_instance i [] = false
has_instance i (j ∷ js) = let rest = has_instance i js in i == j || rest

-- A process that went out lately: its instance and its creation time.
unfoldable pub has_gone : ℕ × ℕ → List (ℕ × ℕ × ℕ) → Bool
has_gone i [] = false
has_gone i (g ∷ gs) = let rest = has_gone i gs in (g.0, g.1) == i || rest

abbrev pub is_some : {A : Type 0} → Option A → Bool
is_some none = false
is_some (some a) = true

module _ {R : Type 0} (resolve : Resolve R) (now : ℕ) where
  -- Whether a start is due, the start with the services it may have asked for, and the resolver.
  unfoldable pub start_due : R → Start → Bool × Start × R
  start_due r s =
      let (services, asked) = services_of resolve r s.created.parent_pid s.services in
      if waited now s.created.time
      then (true, s, r)
      else (if negb (is_some s.launched)
          then (false, s, r)
          else (if negb (s.task == "")
              then (true, s, r)
              else (negb (names_scheduler services), record s { services = some services }, asked)))

  unfoldable pub exit_due : List (ℕ × ℕ) → List (ℕ × ℕ × ℕ) → Ended → Bool
  exit_due held went ended =
      let instance : ℕ × ℕ = (ended.pid, ended.sequence_number) in
      negb (has_instance instance held)
      && (waited now ended.exited.start_time || has_gone instance went)

  -- What one pass over the pending ones leaves.
  pub record Pass : Type 0 where
    pub events : List ProcessEvent
    pub pending : List Pending
    pub went : List (ℕ × ℕ × ℕ)
    pub resolver : R

  abbrev pub let_out : Pending → R → (R → Pass) → Pass
  let_out p r rest =
      let (event, after) = into_event resolve r p in
      let found = rest after in record found { events = event ∷ found.events }

  abbrev pub keep : Pending → Pass → Pass
  keep p found = record found { pending = p ∷ found.pending }

  unfoldable pub pass : List (ℕ × ℕ) → List (ℕ × ℕ × ℕ) → R → List Pending → Pass
  pass held went r [] = record { events = []; pending = []; went = went; resolver = r }
  pass held went r (start s ∷ ps) =
      let (due, asked, after) = start_due r s in
      let c = s.created in
      elim due [
        | true ↦
            let_out (start asked) after
              (λ r. pass held (went ++ (c.pid, c.sequence_number, c.time) ∷ []) r ps)
        | false ↦ keep (start asked) (pass (held ++ (c.pid, c.sequence_number) ∷ []) went after ps)
      ]
  pass held went r (exit ended ∷ ps) = elim (exit_due held went ended) [
    | true ↦ let_out (exit ended) r (λ r. pass held went r ps)
    | false ↦ keep (exit ended) (pass held went r ps)
  ]

module _ {R : Type 0} (resolve : Resolve R) (now : ℕ) (held : List (ℕ × ℕ))
    (went : List (ℕ × ℕ × ℕ)) (r : R) (ps : List Pending) where
  pub pass-start_due :
      (s : Start)
      → (start_due resolve now r s).0 ≡ true
      → let (_, asked, after) = start_due resolve now r s in
        let c = s.created in
        pass resolve now held went r (start s ∷ ps)
        ≡ let_out resolve now
            (start asked)
            after
            (λ r. pass resolve now held (went ++ (c.pid, c.sequence_number, c.time) ∷ []) r ps)
  unfolding pass
  pass-start_due s t = rw (pass, t) refl

  pub pass-start_kept :
      (s : Start)
      → (start_due resolve now r s).0 ≡ false
      → let (_, asked, after) = start_due resolve now r s in
        let c = s.created in
        pass resolve now held went r (start s ∷ ps)
        ≡ keep resolve now
            (start asked)
            (pass resolve now (held ++ (c.pid, c.sequence_number) ∷ []) went after ps)
  unfolding pass
  pass-start_kept s t = rw (pass, t) refl

  pub pass-exit_due :
      (ended : Ended)
      → exit_due resolve now held went ended ≡ true
      → pass resolve now held went r (exit ended ∷ ps)
        ≡ let_out resolve now (exit ended) r (λ r. pass resolve now held went r ps)
  unfolding pass
  pass-exit_due ended t = rw (pass, t) refl

  pub pass-exit_kept :
      (ended : Ended)
      → exit_due resolve now held went ended ≡ false
      → pass resolve now held went r (exit ended ∷ ps)
        ≡ keep resolve now (exit ended) (pass resolve now held went r ps)
  unfolding pass
  pass-exit_kept ended t = rw (pass, t) refl

unfoldable pub retain : {A : Type 0} → (A → Bool) → List A → List A
retain test [] = []
retain test (x ∷ xs) = let rest = retain test xs in if test x then x ∷ rest else rest

unfoldable pub is_open : ℕ → ℕ → Bool
is_open now time = ltb now (add64 (add64 time paired_within) waits_at_most)

module _ {R : Type 0} (resolve : Resolve R) (now : ℕ) where
  unfoldable pub release : R → Assembler → List ProcessEvent × Assembler × R
  release r a =
      let done = pass resolve now [] a.went r (sort_pending a.pending) in
      (
        done.events,
        record {
          pending = done.pending;
          launched = retain (λ half. is_open now half.time) a.launched;
          scheduled = retain (λ half. is_open now half.time) a.scheduled;
          went = retain (λ g. negb (waited now g.2)) done.went;
        },
        done.resolver,
      )
