-- ===== src/Schedule.antt =====
-- crates/core/src/schedule.rs: every interval the demand asks for, kept on time apart from the
-- others. An instant is in nanoseconds.
pub mod Groups
pub mod Serve
pub mod Sampled
mod Tests
use uniproc_windows_agent.Base.{
  ℕ, ◌+◌, ◌-◌, ◌≤◌, min, Bool, true, false, negb, List, [], ◌∷◌, ◌++◌, Option, none, some, ◌&&◌,
  ◌||◌, ◌==◌, nat_beq, leb, if◌then◌else◌,
}
use uniproc_windows_agent.Sample.Metrics.{Sets}
use uniproc_windows_agent.Sample.{MetricSpec, period, union, covers, reads_processes}

pub record Due (S : Sets) : Type 0 where
  pub spec : MetricSpec S
  pub reads_processes : Bool

pub record Cadence (S : Sets) : Type 0 where
  pub spec : MetricSpec S
  pub on_time : ℕ
  pub sampled_for : MetricSpec S

pub record Schedule (S : Sets) : Type 0 where
  pub cadences : List (Cadence S)

-- Each clamped interval's specs in one, and whether any reads the process list.
abbrev pub Grouped : Sets → Type 0
Grouped S = List (MetricSpec S × Bool)

module _ {S : Sets} where
  -- The group of the spec's interval takes it in, or it is a new one.
  unfoldable pub group : MetricSpec S → Bool → Grouped S → Grouped S
  group clamped reads [] = (clamped, reads) ∷ []
  group clamped reads ((spec, all) ∷ groups) =
      let rest = group clamped reads groups in
      if spec.interval == clamped.interval
      then (union spec clamped, all || reads) ∷ groups
      else (spec, all) ∷ rest

  unfoldable pub group_all : List (MetricSpec S) → Grouped S → Grouped S
  group_all [] groups = groups
  group_all (spec ∷ specs) groups =
      group_all specs (group (record spec { interval = period spec }) (reads_processes spec) groups)

  unfoldable pub by_interval : List (MetricSpec S) → Grouped S
  by_interval specs = group_all specs []

  -- `position`, then `swap_remove`: the last one takes the place of the one removed.
  unfoldable pub behind : Cadence S → List (Cadence S) → List (Cadence S)
  behind c [] = c ∷ []
  behind c (last ∷ init) = last ∷ c ∷ init

  unfoldable pub last_first : Cadence S → List (Cadence S) → List (Cadence S)
  unfolding behind
  last_first c [] = c ∷ []
  last_first c (d ∷ ds) = behind c (last_first d ds)

  unfoldable pub fill : List (Cadence S) → List (Cadence S)
  unfolding last_first
  fill [] = []
  fill (d ∷ ds) = last_first d ds

  unfoldable pub take_known : ℕ → List (Cadence S) → Option (Cadence S) × List (Cadence S)
  take_known interval [] = (none, [])
  take_known interval (c ∷ cs) =
      let (known, rest) = take_known interval cs in
      if c.spec.interval == interval then (some c, fill cs) else (known, c ∷ rest)

  -- What a tick samples once `spec` is sampled too.
  unfoldable pub also : MetricSpec S → Bool → Option (Due S) → Option (Due S)
  also spec reads none = some (record { spec = spec; reads_processes = reads })
  also spec reads (some t) =
      some (record { spec = union t.spec spec; reads_processes = t.reads_processes || reads })

  unfoldable pub is_due : MetricSpec S → ℕ → Option (Cadence S) → Bool
  is_due spec now none = true
  is_due spec now (some c) = leb (c.on_time + spec.interval) now

  unfoldable pub is_grown : MetricSpec S → Option (Cadence S) → Bool
  is_grown spec none = true
  is_grown spec (some c) = negb (covers c.sampled_for spec)

  -- The cadence that a group goes on with, and what the tick samples then.
  unfoldable pub go_on :
      MetricSpec S → Bool → ℕ → Option (Cadence S) → Option (Due S) → Cadence S × Option (Due S)
  go_on spec reads now none taken =
      (record { spec = spec; on_time = now; sampled_for = spec }, also spec reads taken)
  go_on spec reads now (some c) taken =
      let due = is_due spec now (some c) in
      let grown = is_grown spec (some c) in
      let on_time = if negb due then c.on_time else now in
      if negb due && negb grown
      then (record { spec = spec; on_time = on_time; sampled_for = c.sampled_for }, taken)
      else (record { spec = spec; on_time = on_time; sampled_for = spec }, also spec reads taken)

  -- The loop of `take` over the groups.
  unfoldable pub take_groups :
      ℕ
      → Grouped S
      → List (Cadence S)
      → List (Cadence S)
      → Option (Due S)
      → List (Cadence S) × Option (Due S)
  take_groups now [] before cadences taken = (cadences, taken)
  take_groups now ((spec, reads) ∷ groups) before cadences taken =
      let (known, before') = take_known spec.interval before in
      let (cadence, taken') = go_on spec reads now known taken in
      take_groups now groups before' (cadences ++ cadence ∷ []) taken'

  unfoldable pub take : List (MetricSpec S) → ℕ → Schedule S → Option (Due S) × Schedule S
  take specs now schedule =
      let (cadences, taken) = take_groups now (by_interval specs) schedule.cadences [] none in
      (taken, record { cadences = cadences })

  -- When the next interval is due.
  unfoldable pub first_due : List (Cadence S) → Option ℕ
  first_due [] = none
  first_due (c ∷ cs) =
      let at = c.on_time + c.spec.interval in
      elim (first_due cs) [ none ↦ some at | some t ↦ some (min at t) ]

  unfoldable pub due : Schedule S → Option ℕ
  due schedule = first_due schedule.cadences
