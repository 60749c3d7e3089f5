-- ===== src/Api.antt =====
-- src/api.rs: what clients see. An `Arc` is what it holds; `CommandResult` is a `Result`.
use uniproc_windows_agent.Base.{ℕ, Bool, true, false, String, List, Option}
use uniproc_windows_agent.Model.{
  Architecture, DpiAwareness, Isolation, Mitigations, ProcessPriority, ProcessState,
  UacVirtualization,
}
use uniproc_windows_agent.Report.{SignatureStatus}

-- A list under the tag that its content has, as `uniproc_agent_kit::Tagged` is written out here.
pub record Tagged (A : Type 0) : Type 0 where
  pub etag : ℕ
  pub value : A

pub data ServiceState : Type 0 where
  unknown stopped start_pending stop_pending running continue_pending pause_pending paused :
      ServiceState

unfoldable pub is_pending : ServiceState → Bool
is_pending ServiceState.start_pending = true
is_pending ServiceState.stop_pending = true
is_pending ServiceState.continue_pending = true
is_pending ServiceState.pause_pending = true
is_pending _ = false

pub data ServiceStartType : Type 0 where
  unknown boot system automatic manual disabled : ServiceStartType

pub record ServiceStatus : Type 0 where
  pub state : ServiceState
  pub pid : ℕ
  pub exit_code : ℕ
  pub service_exit_code : ℕ
  pub checkpoint : ℕ
  pub wait_hint_ms : ℕ

pub record ServiceStats : Type 0 where
  pub name : String
  pub display_name : String
  pub pid : ℕ
  pub state : ServiceState
  pub load_group : String
  pub description : String
  pub image_path : String
  pub startup_type : ServiceStartType
  pub delayed_auto : Bool
  pub account : String
  pub service_type : ℕ
  pub accepted_controls : ℕ

pub record ProcessInfo : Type 0 where
  pub pid : ℕ
  pub parent_pid : ℕ
  pub session_id : ℕ
  pub name : String
  pub cmdline : List String
  pub package_full_name : String
  pub package_relative_app_id : String
  pub is_service : Bool
  pub is_kernel_process : Bool
  pub is_windows_process : Bool
  pub signature : SignatureStatus
  pub image_path : String
  pub display_name : String
  pub console_host_pid : ℕ
  pub start_time : ℕ
  pub sequence_number : ℕ
  pub user : String
  pub architecture : Architecture
  pub elevated : Option Bool
  pub uac_virtualization : UacVirtualization
  pub isolation : Isolation
  pub dpi_awareness : DpiAwareness
  pub mitigations : Option Mitigations
  pub publisher : String

pub record ProcessStates : Type 0 where
  pub passport_etag : ℕ
  pub states : List ProcessState

pub record Snapshot : Type 0 where
  pub services : Tagged (List ServiceStats)
  pub processes : Tagged (List ProcessInfo)
  pub states : Tagged ProcessStates

pub record Changes : Type 0 where
  pub full : Bool
  pub passports : List (ℕ × ℕ)
  pub left : List (ℕ × ℕ)
  pub states : List (ℕ × ℕ)
  pub services : Bool

pub data Command : Type 0 where
  kill suspend resume : (pid : ℕ) → Command
  set_priority : (pid : ℕ) → (priority : ProcessPriority) → Command
  set_affinity : (pid mask : ℕ) → Command
  service_start service_stop service_pause service_resume service_restart :
      (name : String) → Command
