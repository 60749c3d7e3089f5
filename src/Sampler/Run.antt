-- ===== src/Sampler/Run.antt =====
-- src/sampler.rs: the subscriptions over any history of requests and samples.
use uniproc_windows_agent.Base.{
  ℕ, List, [], ◌∷◌, ◌++◌, none, ◌==◌, All, All-append, nat_beq, ◌≡◌, ◌≢◌, refl, sym, Bool-cases,
  inl, inr,
}
use uniproc_windows_agent.Base.Map.{get}
use uniproc_windows_agent.Sample.Metrics.{Sets}
use uniproc_windows_agent.Feed.{Published}
use uniproc_windows_agent.Sampler.{
  Request, Subscriber, Subscriptions, deliver, deliver_one, handle, handle_request, idle_every,
  leave, new, subscribe, unsubscribe,
}
use uniproc_windows_agent.Sampler.Deliver.{
  IsApart, IsSuited, deliver_all-IsApart, deliver_all-IsSuited, deliver_one-IsHeldFor,
  deliver_one_slot, IsSuited-through,
}

-- What happens to the subscriptions: a publish, or a request and the sample last published.
pub data Step (S : Sets) : Type 0 where
  publishes : Published S → Step S
  requests : Request S → Published S → Step S

module _ {S : Sets} where
  abbrev pub step : Step S → Subscriptions S → Subscriptions S
  step (publishes published) subs = deliver published subs
  step (requests request latest) subs = handle request latest subs

  abbrev pub run : List (Step S) → Subscriptions S → Subscriptions S
  run [] subs = subs
  run (x ∷ xs) subs = run xs (step x subs)

  -- A subscription comes with a slot that nobody has and that holds nothing.
  abbrev pub IsFreshRequest : Request S → Subscriptions S → Type 0
  IsFreshRequest (subscribe spec slot) subs =
      (get slot subs.slots ≡ none) × All (λ s. slot ≢ s.slot) subs.subscribers
  IsFreshRequest (unsubscribe slot) subs = Unit
  IsFreshRequest (idle_every interval) subs = Unit

  abbrev pub IsFreshStep : Step S → Subscriptions S → Type 0
  IsFreshStep (publishes published) subs = Unit
  IsFreshStep (requests request latest) subs = IsFreshRequest request subs

  abbrev pub IsFreshRun : List (Step S) → Subscriptions S → Type 0
  IsFreshRun [] subs = Unit
  IsFreshRun (x ∷ xs) subs = IsFreshStep x subs × IsFreshRun xs (step x subs)

  All-leave :
      (P : Subscriber S → Type 0) (slot : ℕ) (subs : List (Subscriber S))
      → All P subs
      → All P (leave slot subs)
  unfolding leave
  All-leave P slot [] h = tt
  All-leave P slot (s ∷ subs) h = elim (Bool-cases (s.slot == slot)) [
    | inl e ↦ rw e (All-leave P slot subs h.1)
    | inr e ↦ rw e (h.0, All-leave P slot subs h.1)
  ]

  leave-IsApart : (slot : ℕ) (subs : List (Subscriber S)) → IsApart subs → IsApart (leave slot subs)
  unfolding leave
  leave-IsApart slot [] h = tt
  leave-IsApart slot (s ∷ subs) h = elim (Bool-cases (s.slot == slot)) [
    | inl e ↦ rw e (leave-IsApart slot subs h.1)
    | inr e ↦
        rw e (All-leave (λ other. s.slot ≢ other.slot) slot subs h.0, leave-IsApart slot subs h.1)
  ]

  append-IsApart :
      (subs : List (Subscriber S)) (s : Subscriber S)
      → All (λ other. s.slot ≢ other.slot) subs
      → IsApart subs
      → IsApart (subs ++ s ∷ [])
  append-IsApart [] s new h = (tt, tt)
  append-IsApart (x ∷ subs) s new h = (
    All-append (λ other. x.slot ≢ other.slot) subs (s ∷ []) h.0 ((λ e. new.0 (sym e)), tt),
    append-IsApart subs s new.1 h.1,
  )

  abbrev pub IsHanded : Subscriptions S → Type 0
  IsHanded subs = IsApart subs.subscribers × All (IsSuited subs.slots) subs.subscribers

  handle_request-IsHanded :
      (request : Request S) (latest : Published S) (subs : Subscriptions S)
      → IsFreshRequest request subs
      → IsHanded subs
      → IsHanded (handle_request request latest subs)
  unfolding handle_request
  handle_request-IsHanded (subscribe spec slot) latest subs free h =
      let fresh : Subscriber S = record { spec = spec; slot = slot; delivered = none } in
      let same = deliver_one_slot latest fresh subs.slots in
      let one = deliver_one latest fresh subs.slots in
      (
        append-IsApart subs.subscribers one.0 (rw same free.1) h.0,
        All-append (IsSuited one.1) subs.subscribers (one.0 ∷ [])
            (IsSuited-through latest fresh subs.subscribers subs.slots free.1 h.1)
            (rw same (deliver_one-IsHeldFor latest fresh subs.slots (rw free.0 refl)), tt),
      )
  handle_request-IsHanded (unsubscribe slot) latest subs free h = (
    leave-IsApart slot subs.subscribers h.0,
    All-leave (IsSuited subs.slots) slot subs.subscribers h.1,
  )
  handle_request-IsHanded (idle_every interval) latest subs free h = h

  step-IsHanded :
      (x : Step S) (subs : Subscriptions S)
      → IsFreshStep x subs
      → IsHanded subs
      → IsHanded (step x subs)
  unfolding deliver handle
  step-IsHanded (publishes published) subs free h = (
    deliver_all-IsApart published subs.subscribers subs.slots h.0,
    deliver_all-IsSuited published subs.subscribers subs.slots h.0 h.1,
  )
  step-IsHanded (requests request latest) subs free h =
      handle_request-IsHanded request latest subs free h

  steps-IsHanded :
      (xs : List (Step S)) (subs : Subscriptions S)
      → IsFreshRun xs subs
      → IsHanded subs
      → IsHanded (run xs subs)
  steps-IsHanded [] subs free h = h
  steps-IsHanded (x ∷ xs) subs free h =
      steps-IsHanded xs (step x subs) free.1 (step-IsHanded x subs free.0 h)

  -- However publishes and requests follow each other from the start, the slot of each subscriber
  -- holds nothing while nothing was delivered to it, and else the sample that it was last
  -- delivered, taken for all that it asks. A subscription comes with a slot that no subscriber has
  -- and that holds nothing.
  pub run-IsSuited :
      (every : ℕ) (xs : List (Step S))
      → IsFreshRun xs (new every)
      → let after = run xs (new every) in All (IsSuited after.slots) after.subscribers
  unfolding new
  run-IsSuited every xs free = (steps-IsHanded xs (new every) free (tt, tt)).1
