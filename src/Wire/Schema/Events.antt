-- ===== src/Wire/Schema/Events.antt =====
-- A batch of process events, as the setters of src/wire/encode.rs fill it and src/wire/decode.rs reads it.
use uniproc_windows_agent.Base.{ℕ, List, nat_beq, string_beq}
use uniproc_windows_agent.Wire.Schema.Enums.{Toggle}
use uniproc_windows_agent.Wire.Outcome.{Pointer, Text, Wire}

pub record ProcessStartedMessage : Type 0 where
  pub parent_pid : ℕ
  pub parent_sequence_number : ℕ
  pub session_id : ℕ
  pub image_path : Text
  pub command_line : Text
  pub user : Text
  pub elevated : Wire Toggle
  pub package_full_name : Text
  pub working_directory : Text
  pub scheduled_task : Text
  pub parent_services : Pointer (List Text)

pub record ProcessExitedMessage : Type 0 where
  pub image_path : Text
  pub image_name : Text
  pub start_time : ℕ
  pub exit_code : ℕ
  pub cpu_cycles : ℕ
  pub io_read_ops : ℕ
  pub io_write_ops : ℕ
  pub io_read_bytes : ℕ
  pub io_write_bytes : ℕ
  pub peak_commit : ℕ
  pub handles : ℕ
  pub hard_faults : ℕ

pub data EventBody : Type 0 where
  started : Pointer ProcessStartedMessage → EventBody
  exited : Pointer ProcessExitedMessage → EventBody

pub record ProcessEventMessage : Type 0 where
  pub pid : ℕ
  pub sequence_number : ℕ
  pub time : ℕ
  pub body : Wire EventBody

pub record ProcessEventBatchMessage : Type 0 where
  pub history_from : ℕ
  pub lost : ℕ
  pub events : Pointer (List ProcessEventMessage)
