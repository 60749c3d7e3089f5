-- ===== src/Sample/Covers.antt =====
-- `MetricSpec::covers` as an order, with `MetricSpec::union` as its upper bound.
use uniproc_windows_agent.Base.{true, ◌≡◌, arith, ◌≤◌}
use uniproc_windows_agent.Sample.Metrics.{EnumSet, Sets}
use uniproc_windows_agent.Sample.{MetricSpec, covers, union, period, min_interval, max_interval}

module _ {E : Type 0} (S : EnumSet E) where
  is_superset_refl : (s : S.Carrier) → S.is_superset s s ≡ true
  is_superset_refl s = (S.is_superset_iff s s).1 (λ m h. h)

  is_superset_trans :
      (s t u : S.Carrier)
      → S.is_superset s t ≡ true
      → S.is_superset t u ≡ true
      → S.is_superset s u ≡ true
  is_superset_trans s t u st tu =
      (S.is_superset_iff s u).1
        (λ m h. (S.is_superset_iff s t).0 st m ((S.is_superset_iff t u).0 tu m h))

  union-is_superset :
      (s t : S.Carrier)
      → (S.is_superset (S.union s t) s ≡ true) × (S.is_superset (S.union s t) t ≡ true)
  union-is_superset s t = (
    (S.is_superset_iff (S.union s t) s).1 (λ m h. ground (arith, S.contains-union s t m, h)),
    (S.is_superset_iff (S.union s t) t).1 (λ m h. ground (arith, S.contains-union s t m, h)),
  )

module _ {S : Sets} where
  pub covers_refl : (a : MetricSpec S) → covers a a ≡ true
  unfolding covers
  covers_refl a =
      ground (arith, is_superset_refl S.process a.processes, is_superset_refl S.machine a.machine)

  pub covers_trans :
      (a b c : MetricSpec S) → covers a b ≡ true → covers b c ≡ true → covers a c ≡ true
  unfolding covers
  covers_trans a b c ab bc = ground (
    arith,
    is_superset_trans S.process a.processes b.processes c.processes,
    is_superset_trans S.machine a.machine b.machine c.machine,
    ab,
    bc,
  )

  pub union-covers :
      (a b : MetricSpec S) → (covers (union a b) a ≡ true) × (covers (union a b) b ≡ true)
  unfolding covers union
  union-covers a b =
      let (pa, pb) = union-is_superset S.process a.processes b.processes in
      let (ma, mb) = union-is_superset S.machine a.machine b.machine in
      (ground (arith, pa, ma), ground (arith, pb, mb))

  pub period-clamped : (a : MetricSpec S) → (min_interval ≤ period a) × (period a ≤ max_interval)
  unfolding period
  period-clamped a = omega arith
