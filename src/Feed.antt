-- ===== src/Feed.antt =====
-- src/feed.rs: what the agent shows at one moment.
pub mod Gone
mod Tests
use uniproc_windows_agent.Base.{ℕ, String, List, Option}
use uniproc_windows_agent.Report.{SessionHealth}
use uniproc_windows_agent.Api.{Snapshot}
use uniproc_windows_agent.Sample.Metrics.{Sets}
use uniproc_windows_agent.Sample.{Sample}

pub record Published (S : Sets) : Type 0 where
  pub snapshot : Snapshot
  pub sample : Sample S
  pub dropped_by_sink : ℕ
  pub sessions : List SessionHealth
  pub snapshot_error : Option String
  pub reported_at : Option ℕ
