-- ===== src/Schedule/Groups.antt =====
-- crates/core/src/schedule.rs: each spec of the demand is in the group of its clamped interval.
use uniproc_windows_agent.Base.{
  ◌≤◌, Bool, true, ◌==◌, nat_beq, List, [], ◌∷◌, All, ◌≡◌, refl, ◌∙◌, ◌⊎◌, inl, inr, Bool-cases,
  arith,
}
use uniproc_windows_agent.Sample.Metrics.{Sets}
use uniproc_windows_agent.Sample.{
  MetricSpec, period, union, covers, reads_processes, min_interval, max_interval,
}
use uniproc_windows_agent.Sample.Covers.{covers_refl, covers_trans, union-covers, period-clamped}
use uniproc_windows_agent.Schedule.{group, group_all, by_interval}

module _ {A : Type 0} where
  -- Some element satisfies `P`.
  abbrev pub Any : (A → Type 0) → List A → Type 0
  Any P [] = ⊥
  Any P (x ∷ xs) = P x ⊎ Any P xs

module _ {S : Sets} where
  -- A group's spec: its interval is the one clamped, and it covers the spec.
  abbrev pub Serves : MetricSpec S → MetricSpec S → Type 0
  Serves spec g = (g.interval ≡ period spec) × (covers g spec ≡ true)

  abbrev pub IsClamped : MetricSpec S → Type 0
  IsClamped g = (min_interval ≤ g.interval) × (g.interval ≤ max_interval)

  period-IsClamped : (g : MetricSpec S) → IsClamped g → period g ≡ g.interval
  unfolding period
  period-IsClamped g h = omega (arith, h)

  union_interval :
      (g c : MetricSpec S)
      → IsClamped g
      → g.interval ≡ c.interval
      → (union g c).interval ≡ g.interval
  unfolding union period
  union_interval g c h same = omega (arith, h, same)

  group-IsClamped :
      (c : MetricSpec S) (reads : Bool) (groups : List (MetricSpec S × Bool))
      → IsClamped c
      → All (λ g. IsClamped g.0) groups
      → All (λ g. IsClamped g.0) (group c reads groups)
  unfolding group
  group-IsClamped c reads [] hc h = (hc, tt)
  group-IsClamped c reads ((spec, all) ∷ groups) hc h =
      elim (Bool-cases (spec.interval == c.interval)) [
        | inl e ↦
            let same = (nat_beq.beq_iff spec.interval c.interval).0 e in
            rw (e, group) (rw (union_interval spec c h.0 same) h.0, h.1)
        | inr e ↦ rw (e, group) (h.0, group-IsClamped c reads groups hc h.1)
      ]

  -- A group goes on serving what it served.
  group-Serves :
      (x c : MetricSpec S) (reads : Bool) (groups : List (MetricSpec S × Bool))
      → All (λ g. IsClamped g.0) groups
      → Any (λ g. Serves x g.0) groups
      → Any (λ g. Serves x g.0) (group c reads groups)
  unfolding group
  group-Serves x c reads [] h served = absurd served
  group-Serves x c reads ((spec, all) ∷ groups) h served =
      elim (Bool-cases (spec.interval == c.interval)) [
        | inl e ↦
            let same = (nat_beq.beq_iff spec.interval c.interval).0 e in
            rw (e, group)
              (elim served [
                | inl (at, enough) ↦ inl (
                  union_interval spec c h.0 same ∙ at,
                  covers_trans (union spec c) spec x (union-covers spec c).0 enough,
                )
                | inr later ↦ inr later
              ])
        | inr e ↦
            rw (e, group)
              (elim served [
                | inl at ↦ inl at
                | inr later ↦ inr (group-Serves x c reads groups h.1 later)
              ])
      ]

  -- And it serves the spec that it takes in.
  group_joins :
      (x c : MetricSpec S) (reads : Bool) (groups : List (MetricSpec S × Bool))
      → All (λ g. IsClamped g.0) groups
      → Serves x c
      → Any (λ g. Serves x g.0) (group c reads groups)
  unfolding group
  group_joins x c reads [] h served = inl served
  group_joins x c reads ((spec, all) ∷ groups) h served =
      elim (Bool-cases (spec.interval == c.interval)) [
        | inl e ↦
            let same = (nat_beq.beq_iff spec.interval c.interval).0 e in
            rw (e, group)
              (inl (
                union_interval spec c h.0 same ∙ (same ∙ served.0),
                covers_trans (union spec c) c x (union-covers spec c).1 served.1,
              ))
        | inr e ↦ rw (e, group) (inr (group_joins x c reads groups h.1 served))
      ]

  abbrev clamped : MetricSpec S → MetricSpec S
  clamped spec = record spec { interval = period spec }

  clamped-IsClamped : (spec : MetricSpec S) → IsClamped (clamped spec)
  clamped-IsClamped spec = period-clamped spec

  Serves-clamped : (spec : MetricSpec S) → Serves spec (clamped spec)
  unfolding covers
  Serves-clamped spec = (refl, covers_refl spec)

  group_all-IsClamped :
      (specs : List (MetricSpec S)) (groups : List (MetricSpec S × Bool))
      → All (λ g. IsClamped g.0) groups
      → All (λ g. IsClamped g.0) (group_all specs groups)
  unfolding group_all
  group_all-IsClamped [] groups h = h
  group_all-IsClamped (spec ∷ specs) groups h =
      group_all-IsClamped specs _
        (group-IsClamped (clamped spec) _ groups (clamped-IsClamped spec) h)

  group_all-Serves :
      (x : MetricSpec S) (specs : List (MetricSpec S)) (groups : List (MetricSpec S × Bool))
      → All (λ g. IsClamped g.0) groups
      → Any (λ g. Serves x g.0) groups
      → Any (λ g. Serves x g.0) (group_all specs groups)
  unfolding group_all
  group_all-Serves x [] groups h served = served
  group_all-Serves x (spec ∷ specs) groups h served =
      group_all-Serves x specs _
        (group-IsClamped (clamped spec) _ groups (clamped-IsClamped spec) h)
        (group-Serves x (clamped spec) _ groups h served)

  group_all_joins :
      (specs : List (MetricSpec S)) (groups : List (MetricSpec S × Bool))
      → All (λ g. IsClamped g.0) groups
      → All (λ x. Any (λ g. Serves x g.0) (group_all specs groups)) specs
  unfolding group_all
  group_all_joins [] groups h = tt
  group_all_joins (spec ∷ specs) groups h =
      let next =
        group-IsClamped (clamped spec) (reads_processes spec) groups (clamped-IsClamped spec) h in
      (
        group_all-Serves spec specs _ next
            (group_joins spec (clamped spec) _ groups h (Serves-clamped spec)),
        group_all_joins specs _ next,
      )

  -- Each spec has a group of its clamped interval that covers it.
  pub by_interval-Serves :
      (specs : List (MetricSpec S)) → All (λ x. Any (λ g. Serves x g.0) (by_interval specs)) specs
  unfolding by_interval
  by_interval-Serves specs = group_all_joins specs [] tt

  pub by_interval-IsClamped :
      (specs : List (MetricSpec S)) → All (λ g. IsClamped g.0) (by_interval specs)
  unfolding by_interval
  by_interval-IsClamped specs = group_all-IsClamped specs [] tt
