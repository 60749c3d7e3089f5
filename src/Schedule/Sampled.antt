-- ===== src/Schedule/Sampled.antt =====
-- crates/core/src/schedule.rs: what a tick samples, against what the schedule did before.
use uniproc_windows_agent.Base.{
  ℕ, ◌+◌, ◌<◌, Bool, true, negb, ◌&&◌, ◌==◌, nat_beq, leb, List, [], ◌∷◌, Option, none, some, All,
  All-append, ◌≡◌, refl, ap, ◌⊎◌, inl, inr, Bool-cases, Option-cases, arith,
}
use uniproc_windows_agent.Sample.Metrics.{Sets}
use uniproc_windows_agent.Sample.{MetricSpec, union, covers}
use uniproc_windows_agent.Sample.Covers.{covers_refl, covers_trans, union-covers}
use uniproc_windows_agent.Schedule.{
  Cadence, Due, Schedule, also, behind, by_interval, due, fill, first_due, go_on, is_due, is_grown,
  last_first, take, take_groups, take_known,
}
use uniproc_windows_agent.Schedule.Groups.{Any, IsClamped, by_interval-IsClamped}

module _ {A : Type 0} where
  Any-map : (P Q : A → Type 0) → ((x : A) → P x → Q x) → (xs : List A) → Any P xs → Any Q xs
  Any-map P Q f [] h = absurd h
  Any-map P Q f (x ∷ xs) (inl h) = inl (f x h)
  Any-map P Q f (x ∷ xs) (inr h) = inr (Any-map P Q f xs h)

module _ {S : Sets} where
  behind-Any :
      (P : Cadence S → Type 0) (c : Cadence S) (ls : List (Cadence S))
      → Any P (behind c ls)
      → Any P (c ∷ ls)
  unfolding behind
  behind-Any P c [] h = h
  behind-Any P c (l ∷ init) (inl h) = inr (inl h)
  behind-Any P c (l ∷ init) (inr (inl h)) = inl h
  behind-Any P c (l ∷ init) (inr (inr h)) = inr (inr h)

  last_first-Any :
      (P : Cadence S → Type 0) (c : Cadence S) (ds : List (Cadence S))
      → Any P (last_first c ds)
      → Any P (c ∷ ds)
  unfolding last_first
  last_first-Any P c [] h = h
  last_first-Any P c (d ∷ ds) h = elim (behind-Any P c (last_first d ds) h) [
    | inl here ↦ inl here
    | inr there ↦ inr (last_first-Any P d ds there)
  ]

  fill-Any : (P : Cadence S → Type 0) (cs : List (Cadence S)) → Any P (fill cs) → Any P cs
  unfolding fill
  fill-Any P [] h = h
  fill-Any P (d ∷ ds) h = last_first-Any P d ds h

  -- What is left of the cadences was there before.
  take_known-Any :
      (P : Cadence S → Type 0) (interval : ℕ) (cs : List (Cadence S))
      → Any P (take_known interval cs).1
      → Any P cs
  unfolding take_known
  take_known-Any P interval [] = λ h. h
  take_known-Any P interval (c ∷ cs) =
      let later = take_known-Any P interval cs in
      elim (Bool-cases (c.spec.interval == interval)) [
        | inl e ↦ rw (e, take_known) (λ h. inr (fill-Any P cs h))
        | inr e ↦
            rw (e, take_known) (λ h. elim h [ inl here ↦ inl here | inr there ↦ inr (later there) ])
      ]

  -- What is found was there, under its interval.
  take_known_found :
      (interval : ℕ) (cs : List (Cadence S)) (c : Cadence S)
      → (take_known interval cs).0 ≡ some c
      → Any (λ o. (o ≡ c) × (o.spec.interval ≡ interval)) cs
  unfolding take_known
  take_known_found interval [] c = λ h. absurd (cc)
  take_known_found interval (d ∷ cs) c =
      let later = take_known_found interval cs c in
      elim (Bool-cases (d.spec.interval == interval)) [
        | inl e ↦
            rw (e, take_known)
              (λ h. inl (ground (arith, h), (nat_beq.beq_iff d.spec.interval interval).0 e))
        | inr e ↦ rw (e, take_known) (λ h. inr (later h))
      ]

  -- What the tick samples covers a spec.
  abbrev pub Samples : MetricSpec S → Option (Due S) → Type 0
  Samples spec none = ⊥
  Samples spec (some t) = covers t.spec spec ≡ true

  -- The cadence keeps what a cadence of the same interval was last sampled for, and when.
  abbrev pub Continues : Cadence S → Cadence S → Type 0
  Continues c o =
      (o.spec.interval ≡ c.spec.interval)
      × (o.on_time ≡ c.on_time)
      × (o.sampled_for ≡ c.sampled_for)

  -- The cadence's next sample lies ahead, and either this tick samples all that it wants, or it
  -- goes on as it was.
  abbrev pub IsCurrent : ℕ → List (Cadence S) → Option (Due S) → Cadence S → Type 0
  IsCurrent now before taken c =
      (now < c.on_time + c.spec.interval) × (Samples c.spec taken ⊎ Any (Continues c) before)

  Samples-also :
      (x spec : MetricSpec S) (reads : Bool) (taken : Option (Due S))
      → Samples x taken
      → Samples x (also spec reads taken)
  unfolding also
  Samples-also x spec reads none h = absurd h
  Samples-also x spec reads (some t) h =
      covers_trans (union t.spec spec) t.spec x (union-covers t.spec spec).0 h

  also-Samples :
      (spec : MetricSpec S) (reads : Bool) (taken : Option (Due S))
      → Samples spec (also spec reads taken)
  unfolding also
  also-Samples spec reads none = covers_refl spec
  also-Samples spec reads (some t) = (union-covers t.spec spec).1

  go_on-Samples :
      (x : MetricSpec S) (now : ℕ) (spec : MetricSpec S) (reads : Bool) (known : Option (Cadence S))
      (taken : Option (Due S))
      → Samples x taken
      → Samples x (go_on spec reads now known taken).1
  unfolding go_on
  go_on-Samples x now spec reads none taken h = Samples-also x spec reads taken h
  go_on-Samples x now spec reads (some c) taken h =
      elim (Bool-cases (negb (is_due spec now (some c)) && negb (is_grown spec (some c)))) [
        | inl e ↦ rw e h
        | inr e ↦ rw e (Samples-also x spec reads taken h)
      ]

  go_on-IsCurrent :
      (now : ℕ) (spec : MetricSpec S) (reads : Bool) (known : Option (Cadence S))
      (taken : Option (Due S)) (before : List (Cadence S))
      → IsClamped spec
      → ((c : Cadence S)
          → known ≡ some c
          → Any (λ o. (o ≡ c) × (o.spec.interval ≡ spec.interval)) before)
      → let r = go_on spec reads now known taken in IsCurrent now before r.1 r.0
  unfolding go_on is_due
  go_on-IsCurrent now spec reads none taken before hc found =
      (omega (arith, hc), inl (also-Samples spec reads taken))
  go_on-IsCurrent now spec reads (some c) taken before hc found =
      elim (Bool-cases (leb (c.on_time + spec.interval) now)) [
        | inl e ↦ rw e (omega (arith, hc), inl (also-Samples spec reads taken))
        | inr e ↦
            let later : now < c.on_time + spec.interval = ground (arith, e) in
            elim (Bool-cases (is_grown spec (some c))) [
              | inl f ↦ rw (e, f) (later, inl (also-Samples spec reads taken))
              | inr f ↦
                  rw (e, f)
                    (
                      later,
                      inr (
                          Any-map _ _
                            (λ o same.
                              (same.1, ap (λ c. c.on_time) same.0, ap (λ c. c.sampled_for) same.0))
                            before (found c refl)),
                    )
            ]
      ]

  IsCurrent-go_on :
      (now : ℕ) (spec : MetricSpec S) (reads : Bool) (known : Option (Cadence S))
      (taken : Option (Due S)) (before cs : List (Cadence S))
      → All (IsCurrent now before taken) cs
      → All (IsCurrent now before (go_on spec reads now known taken).1) cs
  IsCurrent-go_on now spec reads known taken before [] h = tt
  IsCurrent-go_on now spec reads known taken before (c ∷ cs) h = (
    (
      h.0.0,
      elim h.0.1 [
        | inl sampled ↦ inl (go_on-Samples c.spec now spec reads known taken sampled)
        | inr goes_on ↦ inr goes_on
      ],
    ),
    IsCurrent-go_on now spec reads known taken before cs h.1,
  )

  take_groups-IsCurrent :
      (now : ℕ) (groups : List (MetricSpec S × Bool)) (all before cadences : List (Cadence S))
      (taken : Option (Due S))
      → All (λ g. IsClamped g.0) groups
      → ((P : Cadence S → Type 0) → Any P before → Any P all)
      → All (IsCurrent now all taken) cadences
      → let r = take_groups now groups before cadences taken in All (IsCurrent now all r.1) r.0
  unfolding take_groups
  take_groups-IsCurrent now [] all before cadences taken hc sub h = h
  take_groups-IsCurrent now ((spec, reads) ∷ groups) all before cadences taken hc sub h =
      let known = (take_known spec.interval before).0 in
      take_groups-IsCurrent now groups all _ _ _ hc.1
        (λ P found. sub P (take_known-Any P spec.interval before found))
        (All-append _ cadences _ (IsCurrent-go_on now spec reads known taken all cadences h) (
          go_on-IsCurrent now spec reads known taken all hc.0
              (λ c e. sub _ (take_known_found spec.interval before c e)),
          tt,
        ))

  -- After a take each cadence's next sample lies ahead of `now`, and either this tick samples all
  -- that it wants, or it goes on from a cadence of its interval: last sampled on time when that one
  -- was, and for the same.
  pub take-IsCurrent :
      (specs : List (MetricSpec S)) (now : ℕ) (schedule : Schedule S)
      → let r = take specs now schedule in All (IsCurrent now schedule.cadences r.0) r.1.cadences
  unfolding take
  take-IsCurrent specs now schedule =
      take_groups-IsCurrent now (by_interval specs) schedule.cadences schedule.cadences [] none
        (by_interval-IsClamped specs) (λ P h. h) tt

  first_due_ahead :
      (now : ℕ) (cs : List (Cadence S)) (t : ℕ)
      → All (λ c. now < c.on_time + c.spec.interval) cs
      → first_due cs ≡ some t
      → now < t
  unfolding first_due
  first_due_ahead now [] t h = λ e. absurd (cc)
  first_due_ahead now (c ∷ cs) t h = elim (Option-cases (first_due cs)) [
    | inl e ↦ rw e (λ f. ground (arith, f, h.0))
    | inr (u, e) ↦ rw e (λ f. ground (arith, f, h.0, first_due_ahead now cs u h.1 e))
  ]

  All-ahead :
      (now : ℕ) (before : List (Cadence S)) (taken : Option (Due S)) (cs : List (Cadence S))
      → All (IsCurrent now before taken) cs
      → All (λ c. now < c.on_time + c.spec.interval) cs
  All-ahead now before taken [] h = tt
  All-ahead now before taken (c ∷ cs) h = (h.0.0, All-ahead now before taken cs h.1)

  -- After a take the next tick lies ahead: the schedule does not ask for another one at once.
  pub due-take :
      (specs : List (MetricSpec S)) (now : ℕ) (schedule : Schedule S) (t : ℕ)
      → due (take specs now schedule).1 ≡ some t
      → now < t
  unfolding due
  due-take specs now schedule t e =
      first_due_ahead now _ t (All-ahead now _ _ _ (take-IsCurrent specs now schedule)) e
