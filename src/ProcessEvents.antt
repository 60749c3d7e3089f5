-- ===== src/ProcessEvents.antt =====
-- crates/core/src/process_events/mod.rs: a process's start or exit, and what a watcher is sent.
pub mod History
pub mod Assemble
use uniproc_windows_agent.Base.{ℕ, Bool, String, List, Option}

pub record ProcessStarted : Type 0 where
  pub parent_pid : ℕ
  pub parent_sequence_number : ℕ
  pub session_id : ℕ
  pub image_path : String
  pub command_line : String
  pub user : String
  pub elevated : Option Bool
  pub package_full_name : String
  pub working_directory : String
  pub scheduled_task : String
  pub parent_services : List String

pub record ProcessExited : Type 0 where
  pub image_path : String
  pub image_name : String
  pub start_time : ℕ
  pub exit_code : ℕ
  pub cpu_cycles : ℕ
  pub io_read_ops : ℕ
  pub io_write_ops : ℕ
  pub io_read_bytes : ℕ
  pub io_write_bytes : ℕ
  pub peak_commit : ℕ
  pub handles : ℕ
  pub hard_faults : ℕ

pub data ProcessEventKind : Type 0 where
  started : ProcessStarted → ProcessEventKind
  exited : ProcessExited → ProcessEventKind

pub record ProcessEvent : Type 0 where
  pub pid : ℕ
  pub sequence_number : ℕ
  pub time : ℕ
  pub kind : ProcessEventKind

pub record ProcessEventBatch : Type 0 where
  pub history_from : ℕ
  pub events : List ProcessEvent
  pub lost : ℕ
