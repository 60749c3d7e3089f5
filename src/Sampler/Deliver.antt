-- ===== src/Sampler/Deliver.antt =====
-- src/sampler.rs: what the subscribers are handed.
use uniproc_windows_agent.Base.{
  ℕ, ◌+◌, ◌/◌, ◌≤◌, ◌<◌, true, false, List, [], ◌∷◌, ◌++◌, Option, none, some, ◌&&◌, All, nat_beq,
  length, ◌≡◌, ◌≢◌, ◌⊎◌, refl, sym, ◌∙◌, Bool-cases, inl, inr, arith,
}
use uniproc_windows_agent.Base.Map.{get, get-insert, beq_refl}
use uniproc_windows_agent.Base.Words.{add64, u64_mod}
use uniproc_windows_agent.Sample.Metrics.{Sets}
use uniproc_windows_agent.Sample.{MetricSpec, Sample, covers, period}
use uniproc_windows_agent.Feed.{Published}
use uniproc_windows_agent.Sampler.{
  Slots, Subscriber, Subscriptions, deliver, deliver_all, deliver_one, due_after, is_next, takes,
}

module _ {S : Sets} where
  -- What a slot holds is what its subscriber was last delivered, sampled for all that it asks.
  abbrev pub IsHeldFor : Subscriber S → Option (Published S) → Type 0
  IsHeldFor s none = s.delivered ≡ none
  IsHeldFor s (some held) =
      (s.delivered ≡ some held.sample) × (covers held.sample.wanted s.spec ≡ true)

  abbrev pub IsSuited : Slots S → Subscriber S → Type 0
  IsSuited slots s = IsHeldFor s (get s.slot slots)

  -- No two subscribers have the same slot.
  abbrev pub IsApart : List (Subscriber S) → Type 0
  IsApart [] = Unit
  IsApart (s ∷ subs) = All (λ other. s.slot ≢ other.slot) subs × IsApart subs

  pub deliver_one_slot :
      (published : Published S) (s : Subscriber S) (slots : Slots S)
      → (deliver_one published s slots).0.slot ≡ s.slot
  unfolding deliver_one
  deliver_one_slot published s slots = ground arith

  deliver_one_other :
      (published : Published S) (s : Subscriber S) (slots : Slots S) (slot : ℕ)
      → s.slot ≢ slot
      → get slot (deliver_one published s slots).1 ≡ get slot slots
  unfolding deliver_one
  deliver_one_other published s slots slot other = elim (Bool-cases (takes s published.sample)) [
    | inl e ↦ rw e (get-insert s.slot slot published slots ∙ ground (arith, other))
    | inr e ↦ rw e refl
  ]

  deliver_all_other :
      (published : Published S) (subs : List (Subscriber S)) (slots : Slots S) (slot : ℕ)
      → All (λ other. slot ≢ other.slot) subs
      → get slot (deliver_all published subs slots).1 ≡ get slot slots
  unfolding deliver_all
  deliver_all_other published [] slots slot apart = refl
  deliver_all_other published (s ∷ subs) slots slot apart =
      deliver_all_other published subs (deliver_one published s slots).1 slot apart.1
      ∙ deliver_one_other published s slots slot (λ h. apart.0 (sym h))

  deliver_one_handed :
      (published : Published S) (s : Subscriber S) (slots : Slots S)
      → takes s published.sample ≡ true
      → get s.slot (deliver_one published s slots).1 ≡ some published
  unfolding deliver_one
  deliver_one_handed published s slots e =
      rw e (get-insert s.slot s.slot published slots ∙ ground (arith, beq_refl s.slot))

  takes-covers :
      (s : Subscriber S) (sample : Sample S)
      → takes s sample ≡ true
      → covers sample.wanted s.spec ≡ true
  unfolding takes
  takes-covers s sample e = ground (arith, e)

  pub deliver_one-IsHeldFor :
      (published : Published S) (s : Subscriber S) (slots : Slots S)
      → IsSuited slots s
      → IsHeldFor (deliver_one published s slots).0 (get s.slot (deliver_one published s slots).1)
  unfolding deliver_one
  deliver_one-IsHeldFor published s slots h = elim (Bool-cases (takes s published.sample)) [
    | inl e ↦
        rw (deliver_one_handed published s slots e) (rw e (refl, takes-covers s published.sample e))
    | inr e ↦ rw e h
  ]

  pub IsSuited-through :
      (published : Published S) (s : Subscriber S) (subs : List (Subscriber S)) (slots : Slots S)
      → All (λ other. s.slot ≢ other.slot) subs
      → All (IsSuited slots) subs
      → All (IsSuited (deliver_one published s slots).1) subs
  IsSuited-through published s [] slots apart h = tt
  IsSuited-through published s (other ∷ subs) slots apart h = (
    rw (deliver_one_other published s slots other.slot apart.0) h.0,
    IsSuited-through published s subs slots apart.1 h.1,
  )

  pub deliver_all-IsSuited :
      (published : Published S) (subs : List (Subscriber S)) (slots : Slots S)
      → IsApart subs
      → All (IsSuited slots) subs
      → let out = deliver_all published subs slots in All (IsSuited out.1) out.0
  unfolding deliver_all
  deliver_all-IsSuited published [] slots apart h = tt
  deliver_all-IsSuited published (s ∷ subs) slots apart h =
      let one = deliver_one published s slots in
      let out = deliver_all published subs one.1 in
      let mine : get s.slot out.1 ≡ get s.slot one.1 =
        deliver_all_other published subs one.1 s.slot apart.0 in
      (
        rw (deliver_one_slot published s slots)
            (rw mine (deliver_one-IsHeldFor published s slots h.0)),
        deliver_all-IsSuited published subs one.1 apart.1
            (IsSuited-through published s subs slots apart.0 h.1),
      )

  IsApart-deliver :
      (published : Published S) (subs : List (Subscriber S)) (slots : Slots S) (slot : ℕ)
      → All (λ s. slot ≢ s.slot) subs
      → All (λ s. slot ≢ s.slot) (deliver_all published subs slots).0
  unfolding deliver_all
  IsApart-deliver published [] slots slot apart = tt
  IsApart-deliver published (s ∷ subs) slots slot apart = (
    rw (deliver_one_slot published s slots) apart.0,
    IsApart-deliver published subs (deliver_one published s slots).1 slot apart.1,
  )

  pub deliver_all-IsApart :
      (published : Published S) (subs : List (Subscriber S)) (slots : Slots S)
      → IsApart subs
      → IsApart (deliver_all published subs slots).0
  unfolding deliver_all
  deliver_all-IsApart published [] slots apart = tt
  deliver_all-IsApart published (s ∷ subs) slots apart =
      let one = deliver_one published s slots in
      (
        rw (deliver_one_slot published s slots)
            (IsApart-deliver published subs one.1 s.slot apart.0),
        deliver_all-IsApart published subs one.1 apart.1,
      )

  -- Nothing was delivered yet, or another sample, a whole interval ago. An interval is in
  -- nanoseconds and a time in units of 100.
  abbrev pub IsDue : Sample S → MetricSpec S → Option (Sample S) → Type 0
  IsDue sample spec none = Unit
  IsDue sample spec (some held) =
      (held.snapshot ≢ sample.snapshot) × (held.sampled_at + period spec / 100 ≤ sample.sampled_at)

  -- The spec asks for a counter, or the sample read the process list.
  abbrev pub HasWanted : Sample S → MetricSpec S → Type 0
  HasWanted sample spec =
      ((S.process.is_empty spec.processes && S.machine.is_empty spec.machine) ≡ false)
      ⊎ (0 < length sample.pids)

  due_comes_next :
      (s : Subscriber S) (sample : Sample S) (held : Option (Sample S))
      → sample.sampled_at < u64_mod
      → IsDue sample s.spec held
      → is_next s sample held ≡ true
  unfolding is_next due_after add64 period
  due_comes_next s sample none few due = refl
  due_comes_next s sample (some held) few due = ground (arith, due.0, due.1, few)

  handed :
      (published : Published S) (before after : List (Subscriber S)) (s : Subscriber S)
      (slots : Slots S)
      → All (λ other. s.slot ≢ other.slot) after
      → takes s published.sample ≡ true
      → get s.slot (deliver_all published (before ++ s ∷ after) slots).1 ≡ some published
  unfolding deliver_all
  handed published [] after s slots apart e =
      deliver_all_other published after (deliver_one published s slots).1 s.slot apart
      ∙ deliver_one_handed published s slots e
  handed published (x ∷ before) after s slots apart e =
      handed published before after s (deliver_one published x slots).1 apart e

  apart_after :
      (before after : List (Subscriber S)) (s : Subscriber S)
      → IsApart (before ++ s ∷ after)
      → All (λ other. s.slot ≢ other.slot) after
  apart_after [] after s h = h.0
  apart_after (x ∷ before) after s h = apart_after before after s h.1

  -- A publish puts what is published in the slot of a subscriber whose spec its sample covers, when
  -- the spec asks for a counter or the sample read the process list, and nothing was delivered to
  -- it before, or another sample a whole interval ago. No two subscribers have the same slot, and
  -- the sample's time is below 2 ^ 64.
  pub deliver_hands :
      (published : Published S) (subs : Subscriptions S) (before after : List (Subscriber S))
      (s : Subscriber S)
      → subs.subscribers ≡ before ++ s ∷ after
      → IsApart subs.subscribers
      → covers published.sample.wanted s.spec ≡ true
      → HasWanted published.sample s.spec
      → published.sample.sampled_at < u64_mod
      → IsDue published.sample s.spec s.delivered
      → get s.slot (deliver published subs).slots ≡ some published
  unfolding deliver takes
  deliver_hands published subs before after s at apart covered rows few due =
      let next = due_comes_next s published.sample s.delivered few due in
      let taken : takes s published.sample ≡ true = ground (arith, covered, rows, next) in
      rw at (
        handed published before after s subs.slots (apart_after before after s (rw (sym at) apart))
          taken)
