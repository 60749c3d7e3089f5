-- ===== src/Schedule/Serve.antt =====
-- crates/core/src/schedule.rs: what holds of the cadences after a `take`.
use uniproc_windows_agent.Base.{
  ℕ, ◌+◌, ◌<◌, Bool, true, nat_beq, leb, List, [], ◌∷◌, ◌++◌, Option, none, some, All, ◌≡◌, ◌⊎◌,
  inl, inr, Bool-cases, arith,
}
use uniproc_windows_agent.Sample.Metrics.{Sets}
use uniproc_windows_agent.Sample.{MetricSpec, period, covers}
use uniproc_windows_agent.Sample.Covers.{covers_trans}
use uniproc_windows_agent.Schedule.{
  Cadence, Due, Schedule, by_interval, go_on, is_due, is_grown, take, take_groups, take_known,
}
use uniproc_windows_agent.Schedule.Groups.{
  Any, IsClamped, Serves, by_interval-Serves, by_interval-IsClamped,
}

module _ {A : Type 0} (P : A → Type 0) where
  pub Any-append : (xs ys : List A) → Any P xs ⊎ Any P ys → Any P (xs ++ ys)
  Any-append [] ys (inl h) = absurd h
  Any-append [] ys (inr h) = h
  Any-append (x ∷ xs) ys (inl (inl h)) = inl h
  Any-append (x ∷ xs) ys (inl (inr h)) = inr (Any-append xs ys (inl h))
  Any-append (x ∷ xs) ys (inr h) = inr (Any-append xs ys (inr h))

module _ {S : Sets} where
  -- A cadence of the spec's interval that covers it, whose last sample covers it too, and whose
  -- next one lies ahead.
  abbrev pub IsServed : ℕ → MetricSpec S → Cadence S → Type 0
  IsServed now x c =
      (c.spec.interval ≡ period x)
      × (covers c.spec x ≡ true)
      × (covers c.sampled_for x ≡ true)
      × (now < c.on_time + c.spec.interval)

  go_on-IsServed :
      (now : ℕ) (x spec : MetricSpec S) (reads : Bool) (known : Option (Cadence S))
      (taken : Option (Due S))
      → IsClamped spec
      → Serves x spec
      → IsServed now x (go_on spec reads now known taken).0
  unfolding go_on is_due is_grown
  go_on-IsServed now x spec reads none taken hc (at, enough) =
      (at, enough, enough, omega (arith, hc))
  go_on-IsServed now x spec reads (some c) taken hc (at, enough) =
      let ahead : 0 < spec.interval = omega (arith, hc) in
      elim (Bool-cases (leb (c.on_time + spec.interval) now)) [
        | inl e ↦ rw e (at, enough, enough, omega (arith, ahead))
        | inr e ↦
            let later : now < c.on_time + spec.interval = ground (arith, e) in
            elim (Bool-cases (covers c.sampled_for spec)) [
              | inl f ↦ rw (e, f) (at, enough, covers_trans c.sampled_for spec x f enough, later)
              | inr f ↦ rw (e, f) (at, enough, enough, later)
            ]
      ]

  take_groups-Any :
      (P : Cadence S → Type 0) (now : ℕ) (groups : List (MetricSpec S × Bool))
      (before cadences : List (Cadence S)) (taken : Option (Due S))
      → Any P cadences
      → Any P (take_groups now groups before cadences taken).0
  unfolding take_groups
  take_groups-Any P now [] before cadences taken h = h
  take_groups-Any P now ((spec, reads) ∷ groups) before cadences taken h =
      take_groups-Any P now groups _ _ _ (Any-append P cadences _ (inl h))

  take_groups-IsServed :
      (now : ℕ) (x : MetricSpec S) (groups : List (MetricSpec S × Bool))
      (before cadences : List (Cadence S)) (taken : Option (Due S))
      → All (λ g. IsClamped g.0) groups
      → Any (λ g. Serves x g.0) groups
      → Any (IsServed now x) (take_groups now groups before cadences taken).0
  unfolding take_groups
  take_groups-IsServed now x [] before cadences taken hc served = absurd served
  take_groups-IsServed now x ((spec, reads) ∷ groups) before cadences taken hc (inl served) =
      let known = (take_known spec.interval before).0 in
      take_groups-Any (IsServed now x) now groups _ _ _ (
        Any-append (IsServed now x) cadences _
          (inr (inl (go_on-IsServed now x spec reads known taken hc.0 served))))
  take_groups-IsServed now x ((spec, reads) ∷ groups) before cadences taken hc (inr served) =
      take_groups-IsServed now x groups _ _ _ hc.1 served

  All-IsServed :
      (now : ℕ) (groups : List (MetricSpec S × Bool)) (before : List (Cadence S))
      (specs : List (MetricSpec S))
      → All (λ g. IsClamped g.0) groups
      → All (λ x. Any (λ g. Serves x g.0) groups) specs
      → All (λ x. Any (IsServed now x) (take_groups now groups before [] none).0) specs
  All-IsServed now groups before [] hc h = tt
  All-IsServed now groups before (x ∷ specs) hc h = (
    take_groups-IsServed now x groups before [] none hc h.0,
    All-IsServed now groups before specs hc h.1,
  )

  -- After a take each spec of the demand has a cadence of its clamped interval that covers it,
  -- whose last sample was for all that it wants, and which is next due after `now`.
  pub take_serves :
      (specs : List (MetricSpec S)) (now : ℕ) (schedule : Schedule S)
      → All (λ x. Any (IsServed now x) (take specs now schedule).1.cadences) specs
  unfolding take
  take_serves specs now schedule =
      All-IsServed now (by_interval specs) schedule.cadences specs (by_interval-IsClamped specs)
        (by_interval-Serves specs)
