-- ===== src/Model.antt =====
-- crates/core/src/model.rs: what the core says about a process.
use uniproc_windows_agent.Base.{ℕ, Bool, Option, none, some, ◌==◌, nat_beq, if◌then◌else◌}
use uniproc_windows_agent.Base.Int.{ℤ, pos, negsuc}

pub data Architecture : Type 0 where
  unknown x86 x64 arm arm64 arm64_x86_compatible arm64_x64_compatible : Architecture

pub data UacVirtualization : Type 0 where
  unknown not_allowed disabled enabled : UacVirtualization

pub data Isolation : Type 0 where
  unknown unisolated app_container uwp silo : Isolation

pub data DpiAwareness : Type 0 where
  unknown unaware system per_monitor per_monitor_v2 unaware_gdi_scaled : DpiAwareness

pub data StackProtection : Type 0 where
  unknown off compatible strict compatible_audit strict_audit : StackProtection

pub data ExtendedCfg : Type 0 where
  unknown off audit on : ExtendedCfg

pub data IoPriority : Type 0 where
  unknown very_low low normal high critical : IoPriority

pub data ProcessPriority : Type 0 where
  idle below_normal normal above_normal high realtime : ProcessPriority

-- The class that a base priority (an `i32`) stands for.
unfoldable pub from_base : ℤ → Option ProcessPriority
from_base (pos n) =
    if n == 4
    then some ProcessPriority.idle
    else if n == 6
    then some ProcessPriority.below_normal
    else if n == 8
    then some ProcessPriority.normal
    else if n == 10
    then some ProcessPriority.above_normal
    else if n == 13
    then some ProcessPriority.high
    else if n == 24
    then some ProcessPriority.realtime
    else none
from_base (negsuc n) = none

pub record Mitigations : Type 0 where
  pub dep : Option Bool
  pub stack_protection : StackProtection
  pub extended_cfg : ExtendedCfg

pub record ProcessState : Type 0 where
  pub pid : ℕ
  pub sequence_number : ℕ
  pub suspended : Option Bool
  pub efficiency_mode : Option Bool
  pub base_priority : Option ProcessPriority
  pub power_throttling : Option Bool
  pub job_object_id : ℕ
  pub io_priority : IoPriority
  pub vm_host : Option Bool
