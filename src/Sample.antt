-- ===== src/Sample.antt =====
-- crates/core/src/sample.rs: what a subscriber wants, and what a sample carries. A duration is in
-- nanoseconds. `now_100ns` reads a clock and is not modelled; `Demand` is the list it holds.
pub mod Metrics
pub mod Machine
pub mod Counters
pub mod Project
pub mod Covers
pub mod ListSet
pub mod TestData
mod Tests
use uniproc_windows_agent.Base.{
  ℕ, ◌*◌, min, max, Bool, true, false, negb, List, [], Option, none, some, ◌&&◌, ◌||◌,
  if◌then◌else◌,
}
use uniproc_windows_agent.Sample.Metrics.{ProcessMetric, Sets}
use uniproc_windows_agent.Sample.Machine.{MachineSample, ProcessGpuEngine, only_if}
use uniproc_windows_agent.Sample.Machine
use uniproc_windows_agent.Sample.Counters
use uniproc_windows_agent.Sample.Counters.{Columns}

abbrev pub milli : ℕ
milli = 1_000_000

abbrev pub min_interval : ℕ
min_interval = 100 * milli

abbrev pub max_interval : ℕ
max_interval = 60_000 * milli

pub record MetricSpec (S : Sets) : Type 0 where
  pub interval : ℕ
  pub processes : S.process.Carrier
  pub machine : S.machine.Carrier

pub record Sample (S : Sets) : Type 0 where
  pub snapshot : ℕ
  pub sampled_at : ℕ
  pub period : ℕ
  pub wanted : MetricSpec S
  pub passport_etag : ℕ
  pub pids : List ℕ
  pub sequence_numbers : List ℕ
  pub columns : Columns
  pub gpu_engines : Option (List ProcessGpuEngine)
  pub machine : MachineSample

module _ {S : Sets} where
  unfoldable pub idle : ℕ → MetricSpec S
  idle interval = record {
    interval = interval;
    processes = S.process.empty;
    machine = S.machine.empty;
  }

  unfoldable pub period : MetricSpec S → ℕ
  period spec = min (max spec.interval min_interval) max_interval

  unfoldable pub union : MetricSpec S → MetricSpec S → MetricSpec S
  union a b = record {
    interval = min (period a) (period b);
    processes = S.process.union a.processes b.processes;
    machine = S.machine.union a.machine b.machine;
  }

  unfoldable pub covers : MetricSpec S → MetricSpec S → Bool
  covers a b =
      S.process.is_superset a.processes b.processes && S.machine.is_superset a.machine b.machine

  unfoldable pub reads_processes : MetricSpec S → Bool
  reads_processes spec = negb (S.process.is_empty spec.processes) || S.machine.is_empty spec.machine

  unfoldable pub project : MetricSpec S → Sample S → Sample S
  project spec sample =
      let rows = negb (S.process.is_empty spec.processes) in
      record sample {
        wanted = spec;
        pids = if rows then sample.pids else [];
        sequence_numbers = if rows then sample.sequence_numbers else [];
        columns = Counters.project S spec.processes sample.columns;
        gpu_engines =
            only_if (S.process.contains spec.processes ProcessMetric.gpu_engines)
              sample.gpu_engines;
        machine = Machine.project S spec.machine sample.machine;
      }
