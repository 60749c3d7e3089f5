-- ===== src/Sampler/Serve.antt =====
-- src/sampler.rs: what the demand promises the subscribers.
use mathlib.Core.Path.{subst}
use uniproc_windows_agent.Base.{
  ℕ, true, false, List, [], ◌∷◌, ◌++◌, none, All, All-append, nat_beq, ◌==◌, ◌≡◌, ◌≢◌, ◌⊎◌, ◌∙◌,
  refl, sym, ap, Bool-cases, inl, inr, arith,
}
use uniproc_windows_agent.Sample.Metrics.{Sets}
use uniproc_windows_agent.Sample.{MetricSpec, idle, reads_processes}
use uniproc_windows_agent.Feed.{Published}
use uniproc_windows_agent.Schedule.{Schedule, take}
use uniproc_windows_agent.Schedule.Groups.{Any}
use uniproc_windows_agent.Schedule.Serve.{IsServed, take_serves}
use uniproc_windows_agent.Sampler.{
  Request, Slots, Subscriber, Subscriptions, any_reads, deliver_one, handle, handle_request,
  idle_every, leave, specs_of, subscribe, unsubscribe, wanted,
}

module _ {A : Type 0} where
  All-left : (P : A → Type 0) (xs ys : List A) → All P (xs ++ ys) → All P xs
  All-left P [] ys h = tt
  All-left P (x ∷ xs) ys h = (h.0, All-left P xs ys h.1)

module _ {A : Type 0} (P : A → Type 0) where
  Any-left : (xs ys : List A) → Any P xs → Any P (xs ++ ys)
  Any-left [] ys there = absurd there
  Any-left (x ∷ xs) ys (inl here) = inl here
  Any-left (x ∷ xs) ys (inr there) = inr (Any-left xs ys there)

  Any-right : (xs ys : List A) → Any P ys → Any P (xs ++ ys)
  Any-right [] ys there = there
  Any-right (x ∷ xs) ys there = inr (Any-right xs ys there)

  Any-cases : (xs ys : List A) → Any P (xs ++ ys) → Any P xs ⊎ Any P ys
  Any-cases [] ys there = inr there
  Any-cases (x ∷ xs) ys (inl here) = inl (inl here)
  Any-cases (x ∷ xs) ys (inr there) = elim (Any-cases xs ys there) [
    | inl left ↦ inl (inr left)
    | inr right ↦ inr right
  ]

different : (a b : ℕ) → a ≢ b → (a == b) ≡ false
different a b h = ground (arith, h)

idle_reads : (S : Sets) (interval : ℕ) → reads_processes (idle {S = S} interval) ≡ true
unfolding reads_processes idle
idle_reads S interval =
    let empty = (S.machine.is_empty_iff S.machine.empty).1 S.machine.contains-empty in
    ground (arith, empty)

module _ {S : Sets} where
  All-specs :
      (P : MetricSpec S → Type 0) (subs : List (Subscriber S))
      → All P (specs_of subs)
      → All (λ s. P s.spec) subs
  All-specs P [] h = tt
  All-specs P (s ∷ subs) h = (h.0, All-specs P subs h.1)

  wanted-All :
      (P : MetricSpec S → Type 0) (subs : Subscriptions S)
      → All P (wanted subs)
      → All (λ s. P s.spec) subs.subscribers
  unfolding wanted
  wanted-All P subs = elim (Bool-cases (any_reads (specs_of subs.subscribers))) [
    | inl e ↦ rw e (λ h. All-specs P subs.subscribers h)
    | inr e ↦ rw e (λ h. All-specs P subs.subscribers (All-left P _ _ h))
  ]

  -- Who asks after a request: those that asked before, with the new one, or without the one that
  -- leaves.
  abbrev pub Asks : Request S → List (Subscriber S) → MetricSpec S → Type 0
  Asks (subscribe spec slot) subs x = Any (λ s. s.spec ≡ x) subs ⊎ (spec ≡ x)
  Asks (unsubscribe slot) subs x = Any (λ s. (s.slot ≢ slot) × (s.spec ≡ x)) subs
  Asks (idle_every interval) subs x = Any (λ s. s.spec ≡ x) subs

  -- The idle interval after a request.
  abbrev pub idle_after : Request S → ℕ → ℕ
  idle_after (subscribe spec slot) every = every
  idle_after (unsubscribe slot) every = every
  idle_after (idle_every interval) every = interval

  idle_handled :
      (request : Request S) (latest : Published S) (subs : Subscriptions S)
      → (handle_request request latest subs).idle ≡ idle_after request subs.idle
  unfolding handle_request
  idle_handled (subscribe spec slot) latest subs = refl
  idle_handled (unsubscribe slot) latest subs = refl
  idle_handled (idle_every interval) latest subs = refl

  deliver_one_spec :
      (published : Published S) (s : Subscriber S) (slots : Slots S)
      → (deliver_one published s slots).0.spec ≡ s.spec
  unfolding deliver_one
  deliver_one_spec published s slots = ground arith

  Any-leave :
      (slot : ℕ) (x : MetricSpec S) (subs : List (Subscriber S))
      → Any (λ s. (s.slot ≢ slot) × (s.spec ≡ x)) subs
      → Any (λ s. s.spec ≡ x) (leave slot subs)
  unfolding leave
  Any-leave slot x [] there = there
  Any-leave slot x (s ∷ subs) (inl (other, same)) = rw (different s.slot slot other) (inl same)
  Any-leave slot x (s ∷ subs) (inr there) = elim (Bool-cases (s.slot == slot)) [
    | inl e ↦ rw e (Any-leave slot x subs there)
    | inr e ↦ rw e (inr (Any-leave slot x subs there))
  ]

  leave-Any :
      (slot : ℕ) (x : MetricSpec S) (subs : List (Subscriber S))
      → Any (λ s. s.spec ≡ x) (leave slot subs)
      → Any (λ s. (s.slot ≢ slot) × (s.spec ≡ x)) subs
  unfolding leave
  leave-Any slot x [] = λ there. there
  leave-Any slot x (s ∷ subs) = elim (Bool-cases (s.slot == slot)) [
    | inl e ↦ rw e (λ there. inr (leave-Any slot x subs there))
    | inr e ↦ rw e (λ there. elim there [
      | inl same ↦ inl ((λ h. absurd (ground (arith, e, h))), same)
      | inr rest ↦ inr (leave-Any slot x subs rest)
    ])
  ]

  asked :
      (request : Request S) (latest : Published S) (subs : Subscriptions S) (x : MetricSpec S)
      → Asks request subs.subscribers x
      → Any (λ s. s.spec ≡ x) (handle_request request latest subs).subscribers
  unfolding handle_request
  asked (subscribe spec slot) latest subs x (inl there) = Any-left _ subs.subscribers _ there
  asked (subscribe spec slot) latest subs x (inr same) =
      let fresh : Subscriber S = record { spec = spec; slot = slot; delivered = none } in
      Any-right _ subs.subscribers _ (inl (deliver_one_spec latest fresh subs.slots ∙ same))
  asked (unsubscribe slot) latest subs x there = Any-leave slot x subs.subscribers there
  asked (idle_every interval) latest subs x there = there

  asking :
      (request : Request S) (latest : Published S) (subs : Subscriptions S) (x : MetricSpec S)
      → Any (λ s. s.spec ≡ x) (handle_request request latest subs).subscribers
      → Asks request subs.subscribers x
  unfolding handle_request
  asking (subscribe spec slot) latest subs x there =
      let fresh : Subscriber S = record { spec = spec; slot = slot; delivered = none } in
      elim (Any-cases _ subs.subscribers _ there) [
        | inl before ↦ inl before
        | inr (inl same) ↦ inr (sym (deliver_one_spec latest fresh subs.slots) ∙ same)
        | inr (inr none_left) ↦ absurd none_left
      ]
  asking (unsubscribe slot) latest subs x there = leave-Any slot x subs.subscribers there
  asking (idle_every interval) latest subs x there = there

  All-Any :
      (P : MetricSpec S → Type 0) (x : MetricSpec S) (subs : List (Subscriber S))
      → All (λ s. P s.spec) subs
      → Any (λ s. s.spec ≡ x) subs
      → P x
  All-Any P x [] h there = absurd there
  All-Any P x (s ∷ subs) h (inl same) = subst P same h.0
  All-Any P x (s ∷ subs) h (inr there) = All-Any P x subs h.1 there

  specs_All :
      (Q : MetricSpec S → Type 0) (subs : List (Subscriber S))
      → ((x : MetricSpec S) → Any (λ s. s.spec ≡ x) subs → Q x)
      → All Q (specs_of subs)
  specs_All Q [] h = tt
  specs_All Q (s ∷ subs) h = (h s.spec (inl refl), specs_All Q subs (λ x there. h x (inr there)))

  -- A demand is of nothing but what the subscribers ask, and the idle spec.
  All-wanted :
      (Q : MetricSpec S → Type 0) (subs : Subscriptions S)
      → All Q (specs_of subs.subscribers)
      → Q (idle subs.idle)
      → All Q (wanted subs)
  unfolding wanted
  All-wanted Q subs h spare = elim (Bool-cases (any_reads (specs_of subs.subscribers))) [
    | inl e ↦ rw e h
    | inr e ↦ rw e (All-append Q (specs_of subs.subscribers) (idle subs.idle ∷ []) h (spare, tt))
  ]

  -- After any request the core's next take at the new demand leaves a spec that is asked for a
  -- cadence of its interval whose last sample was for all that it asks, and whose next one lies
  -- ahead: a spec of the subscribers there were, or of the one that the request adds, but not of
  -- one whose slot the request gives up. The demand holds nothing but such specs and the idle one,
  -- of the interval last asked for.
  pub handle_serves :
      (request : Request S) (latest : Published S) (subs : Subscriptions S) (now : ℕ)
      (schedule : Schedule S) (x : MetricSpec S)
      → Asks request subs.subscribers x
      → let subs' = handle request latest subs in
        Any (IsServed now x) (take subs'.demand now schedule).1.cadences
        × All
            (λ y. Asks request subs.subscribers y ⊎ (y ≡ idle (idle_after request subs.idle)))
            subs'.demand
  unfolding handle
  handle_serves request latest subs now schedule x asks =
      let next = handle_request request latest subs in
      let served =
        wanted-All (λ y. Any (IsServed now y) (take (wanted next) now schedule).1.cadences) next
          (take_serves (wanted next) now schedule) in
      (
        All-Any _ x next.subscribers served (asked request latest subs x asks),
        All-wanted
            (λ y. Asks request subs.subscribers y ⊎ (y ≡ idle (idle_after request subs.idle))) next
            (specs_All _ next.subscribers (λ y there. inl (asking request latest subs y there)))
            (inr (ap idle (idle_handled request latest subs))),
      )

  any_reads_last :
      (specs : List (MetricSpec S)) (spec : MetricSpec S)
      → reads_processes spec ≡ true
      → any_reads (specs ++ spec ∷ []) ≡ true
  unfolding any_reads
  any_reads_last [] spec h = ground (arith, h)
  any_reads_last (x ∷ specs) spec h = ground (arith, any_reads_last specs spec h)

  -- After any request some spec of the demand reads the process list, whoever subscribes.
  pub handle_reads :
      (request : Request S) (latest : Published S) (subs : Subscriptions S)
      → any_reads (handle request latest subs).demand ≡ true
  unfolding handle wanted
  handle_reads request latest subs =
      let next = handle_request request latest subs in
      elim (Bool-cases (any_reads (specs_of next.subscribers))) [
        | inl e ↦ rw e e
        | inr e ↦ rw e (any_reads_last _ (idle next.idle) (idle_reads S next.idle))
      ]
