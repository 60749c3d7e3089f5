-- ===== src/State/Entry.antt =====
-- crates/core/src/state/process.rs: a listed process, as it joins and as its image is judged; with
-- what its handle and token tell (crates/core/src/providers/process).
use mathlib.Core.Bool.{decide, decide_iff}
use native.Mathlib.Decide.{ℕ_discrete}
use uniproc_windows_agent.Base.{
  ℕ, Bool, String, List, Option, none, ◌||◌, ◌==◌, string_beq, bool_beq, negb, Beq,
}
use uniproc_windows_agent.Model.{
  Architecture, DpiAwareness, Isolation, Mitigations, ProcessState, UacVirtualization, IoPriority,
}
use uniproc_windows_agent.Snapshot.{Row}
use uniproc_windows_agent.State.Events.{ImageVerdict, ProcessSignature}

-- `PartialEq`, as derived.
abbrev pub ProcessSignature-discrete : Discrete ProcessSignature
ProcessSignature-discrete = hlevel

instance abbrev pub signature_beq : Beq ProcessSignature
signature_beq = record {
  beq = λ a b. decide (ProcessSignature-discrete a b);
  beq_iff = λ a b. decide_iff (ProcessSignature-discrete a b);
}

abbrev pub ProcessState-discrete : Discrete ProcessState
ProcessState-discrete = hlevel ℕ_discrete

instance abbrev pub state_beq : Beq ProcessState
state_beq = record {
  beq = λ a b. decide (ProcessState-discrete a b);
  beq_iff = λ a b. decide_iff (ProcessState-discrete a b);
}

-- What `passport::probe` could read of the process's token.
pub record Passport : Type 0 where
  pub user : String
  pub architecture : Architecture
  pub elevated : Option Bool
  pub uac_virtualization : UacVirtualization
  pub isolation : Isolation
  pub dpi_awareness : DpiAwareness
  pub mitigations : Option Mitigations

pub record ProcessRead : Type 0 where
  pub command_line : List String
  pub image_path : String
  pub package_full_name : String
  pub package_relative_app_id : String
  pub console_host_pid : ℕ
  pub passport : Passport

pub record ImageRequest : Type 0 where
  pub path : String
  pub package_full_name : String
  pub package_relative_app_id : String

pub record Sighted : Type 0 where
  pub image_name : String
  pub is_kernel_process : Bool
  pub read : ProcessRead

pub record ProcessEntry : Type 0 where
  pub pid : ℕ
  pub parent_pid : ℕ
  pub session_id : ℕ
  pub sequence_number : ℕ
  pub start_time : ℕ
  pub image_name : String
  pub image_path : String
  pub display_name : String
  pub command_line : List String
  pub package_name : String
  pub package_relative_app_id : String
  pub signature : ProcessSignature
  pub is_kernel_process : Bool
  pub is_windows_process : Bool
  pub console_host_pid : ℕ
  pub user : String
  pub architecture : Architecture
  pub elevated : Option Bool
  pub uac_virtualization : UacVirtualization
  pub isolation : Isolation
  pub dpi_awareness : DpiAwareness
  pub mitigations : Option Mitigations
  pub publisher : String
  pub state : ProcessState
  pub listed : ℕ

-- `ProcessState::default()` under a pid and a sequence number.
fresh_state : ℕ → ℕ → ProcessState
fresh_state pid sequence_number = record {
  pid = pid;
  sequence_number = sequence_number;
  suspended = none;
  efficiency_mode = none;
  base_priority = none;
  power_throttling = none;
  job_object_id = 0;
  io_priority = IoPriority.unknown;
  vm_host = none;
}

unfoldable pub sighted : Row → Sighted → ProcessEntry
unfolding fresh_state
sighted row s = record {
  pid = row.pid;
  parent_pid = row.parent_pid;
  session_id = row.session_id;
  sequence_number = row.sequence_number;
  start_time = row.create_time;
  image_name = s.image_name;
  image_path = s.read.image_path;
  display_name = "";
  command_line = s.read.command_line;
  package_name = s.read.package_full_name;
  package_relative_app_id = s.read.package_relative_app_id;
  signature = ProcessSignature.unknown;
  is_kernel_process = s.is_kernel_process;
  is_windows_process = s.is_kernel_process;
  console_host_pid = s.read.console_host_pid;
  user = s.read.passport.user;
  architecture = s.read.passport.architecture;
  elevated = s.read.passport.elevated;
  uac_virtualization = s.read.passport.uac_virtualization;
  isolation = s.read.passport.isolation;
  dpi_awareness = s.read.passport.dpi_awareness;
  mitigations = s.read.passport.mitigations;
  publisher = "";
  state = fresh_state row.pid row.sequence_number;
  listed = 0;
}

-- The entry under the verdict, and whether that moved anything.
unfoldable pub judged : ProcessEntry → ImageVerdict → ProcessEntry × Bool
judged e verdict =
    let is_windows_process = e.is_kernel_process || verdict.is_windows_process in
    let moved =
      negb (e.signature == verdict.signature)
      || negb (e.is_windows_process == is_windows_process)
      || negb (e.display_name == verdict.display_name)
      || negb (e.publisher == verdict.publisher) in
    (
      record e {
        signature = verdict.signature;
        is_windows_process = is_windows_process;
        display_name = verdict.display_name;
        publisher = verdict.publisher;
      },
      moved,
    )
