-- ===== src/Wire/Schema/Lists.antt =====
-- A row of the lists, as the setters of src/wire/encode.rs fill it and src/wire/decode.rs reads it.
use uniproc_windows_agent.Base.{ℕ, Bool, List, Option, nat_beq, string_beq}
use uniproc_windows_agent.Wire.Schema.Enums.{
  WireSignature, WireServiceState, WirePriority, WireArchitecture, WireUac, WireIsolation, WireDpi,
  WireStackProtection, WireExtendedCfg, WireIoPriority, Toggle, WireServiceStartupType,
}
use uniproc_windows_agent.Wire.Outcome.{Pointer, Text, Wire}

pub record MitigationsMessage : Type 0 where
  pub dep : Wire Toggle
  pub stack_protection : Wire WireStackProtection
  pub extended_cfg : Wire WireExtendedCfg

pub record ProcessInfoMessage : Type 0 where
  pub pid : ℕ
  pub parent_pid : ℕ
  pub session_id : ℕ
  pub name : Text
  pub cmdline : Pointer (List Text)
  pub package_full_name : Text
  pub package_relative_app_id : Text
  pub is_service : Bool
  pub is_kernel_process : Bool
  pub is_windows_process : Bool
  pub signature : Wire WireSignature
  pub image_path : Text
  pub display_name : Text
  pub console_host_pid : ℕ
  pub start_time : ℕ
  pub sequence_number : ℕ
  pub user : Text
  pub architecture : Wire WireArchitecture
  pub elevated : Wire Toggle
  pub uac_virtualization : Wire WireUac
  pub isolation : Wire WireIsolation
  pub dpi_awareness : Wire WireDpi
  pub mitigations : Option (Pointer MitigationsMessage)
  pub publisher : Text

pub record ProcessStateMessage : Type 0 where
  pub pid : ℕ
  pub sequence_number : ℕ
  pub suspended : Wire Toggle
  pub efficiency_mode : Wire Toggle
  pub base_priority : Wire WirePriority
  pub power_throttling : Wire Toggle
  pub job_object_id : ℕ
  pub io_priority : Wire WireIoPriority
  pub vm_host : Wire Toggle

pub record ServiceStatsMessage : Type 0 where
  pub name : Text
  pub display_name : Text
  pub pid : ℕ
  pub state : Wire WireServiceState
  pub load_group : Text
  pub description : Text
  pub image_path : Text
  pub startup_type : Wire WireServiceStartupType
  pub delayed_auto : Bool
  pub account : Text
  pub service_type : ℕ
  pub accepted_controls : ℕ

pub record ServiceStatusMessage : Type 0 where
  pub state : Wire WireServiceState
  pub pid : ℕ
  pub exit_code : ℕ
  pub service_exit_code : ℕ
  pub checkpoint : ℕ
  pub wait_hint_ms : ℕ
