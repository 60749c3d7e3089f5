-- ===== src/Report.antt =====
-- crates/core/src/report.rs: what a tick of the core tells. A sample is of any type here.
use uniproc_windows_agent.Base.{ℕ, Bool, String, List, Option, ◌&&◌}
use uniproc_windows_agent.Model.{
  Architecture, DpiAwareness, Isolation, Mitigations, ProcessState, UacVirtualization,
}
use uniproc_windows_agent.State.Events.{ProcessSignature}
use uniproc_windows_agent.State.Entry.{ProcessEntry}

pub data SignatureStatus : Type 0 where
  unknown unsigned microsoft third_party : SignatureStatus

pub record Process : Type 0 where
  pub pid : ℕ
  pub parent_pid : ℕ
  pub session_id : ℕ
  pub name : String
  pub cmdline : List String
  pub package_full_name : String
  pub package_relative_app_id : String
  pub is_kernel_process : Bool
  pub is_windows_process : Bool
  pub signature : SignatureStatus
  pub image_path : String
  pub display_name : String
  pub console_host_pid : ℕ
  pub start_time : ℕ
  pub sequence_number : ℕ
  pub user : String
  pub architecture : Architecture
  pub elevated : Option Bool
  pub uac_virtualization : UacVirtualization
  pub isolation : Isolation
  pub dpi_awareness : DpiAwareness
  pub mitigations : Option Mitigations
  pub publisher : String

pub record Diff (Sample : Type 0) : Type 0 where
  pub gone : List (ℕ × ℕ)
  pub passports : List Process
  pub states : List ProcessState
  pub sample : Option Sample

pub record SessionHealth : Type 0 where
  pub name : String
  pub running : Bool
  pub pumping : Bool
  pub events_lost : ℕ
  pub realtime_buffers_lost : ℕ
  pub log_buffers_lost : ℕ
  pub buffers_written : ℕ
  pub buffers : ℕ
  pub free_buffers : ℕ

unfoldable pub is_healthy : SessionHealth → Bool
is_healthy s = s.running && s.pumping

-- `taken_at` is an instant, in nanoseconds.
pub record Health : Type 0 where
  pub dropped_by_sink : ℕ
  pub sessions : List SessionHealth
  pub snapshot_error : Option String
  pub taken_at : ℕ

unfoldable pub signature : ProcessSignature → SignatureStatus
signature ProcessSignature.unknown = SignatureStatus.unknown
signature ProcessSignature.unsigned = SignatureStatus.unsigned
signature ProcessSignature.microsoft = SignatureStatus.microsoft
signature ProcessSignature.third_party = SignatureStatus.third_party

unfoldable pub passport : ProcessEntry → Process
unfolding signature
passport e = record {
  pid = e.pid;
  parent_pid = e.parent_pid;
  session_id = e.session_id;
  name = e.image_name;
  cmdline = e.command_line;
  package_full_name = e.package_name;
  package_relative_app_id = e.package_relative_app_id;
  is_kernel_process = e.is_kernel_process;
  is_windows_process = e.is_windows_process;
  signature = signature e.signature;
  image_path = e.image_path;
  display_name = e.display_name;
  console_host_pid = e.console_host_pid;
  start_time = e.start_time;
  sequence_number = e.sequence_number;
  user = e.user;
  architecture = e.architecture;
  elevated = e.elevated;
  uac_virtualization = e.uac_virtualization;
  isolation = e.isolation;
  dpi_awareness = e.dpi_awareness;
  mitigations = e.mitigations;
  publisher = e.publisher;
}
