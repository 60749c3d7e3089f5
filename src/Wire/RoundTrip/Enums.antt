-- ===== src/Wire/RoundTrip/Enums.antt =====
-- Each value of the enumerations arrives as it was sent.
use uniproc_windows_agent.Base.{
  Bool, true, false, Option, none, some, nat_beq, string_beq, ◌≡◌, refl,
}
use uniproc_windows_agent.Model.{
  Architecture, DpiAwareness, ExtendedCfg, IoPriority, Isolation, ProcessPriority, StackProtection,
  UacVirtualization,
}
use uniproc_windows_agent.Report.{SignatureStatus}
use uniproc_windows_agent.Api.{ServiceState, ServiceStartType}
use uniproc_windows_agent.Sample.Machine.{GpuEngineKind, TemperatureCategory, TemperatureStatus}
use uniproc_windows_agent.Wire.Encode
use uniproc_windows_agent.Wire.Decode

pub signature_sent :
    (x : SignatureStatus) → Decode.Enums.signature (some (Encode.Enums.signature x)) ≡ x
unfolding Encode.Enums.signature Decode.Enums.signature
signature_sent SignatureStatus.unknown = refl
signature_sent SignatureStatus.unsigned = refl
signature_sent SignatureStatus.microsoft = refl
signature_sent SignatureStatus.third_party = refl

pub service_state_sent :
    (x : ServiceState) → Decode.Enums.service_state (some (Encode.Enums.service_state x)) ≡ x
unfolding Encode.Enums.service_state Decode.Enums.service_state
service_state_sent ServiceState.unknown = refl
service_state_sent ServiceState.stopped = refl
service_state_sent ServiceState.start_pending = refl
service_state_sent ServiceState.stop_pending = refl
service_state_sent ServiceState.running = refl
service_state_sent ServiceState.continue_pending = refl
service_state_sent ServiceState.pause_pending = refl
service_state_sent ServiceState.paused = refl

pub priority_sent :
    (x : ProcessPriority) → Decode.Enums.priority (some (Encode.Enums.priority x)) ≡ some x
unfolding Encode.Enums.priority Decode.Enums.priority
priority_sent ProcessPriority.idle = refl
priority_sent ProcessPriority.below_normal = refl
priority_sent ProcessPriority.normal = refl
priority_sent ProcessPriority.above_normal = refl
priority_sent ProcessPriority.high = refl
priority_sent ProcessPriority.realtime = refl

pub architecture_sent :
    (x : Architecture) → Decode.Enums.architecture (some (Encode.Enums.architecture x)) ≡ x
unfolding Encode.Enums.architecture Decode.Enums.architecture
architecture_sent Architecture.unknown = refl
architecture_sent Architecture.x86 = refl
architecture_sent Architecture.x64 = refl
architecture_sent Architecture.arm = refl
architecture_sent Architecture.arm64 = refl
architecture_sent Architecture.arm64_x86_compatible = refl
architecture_sent Architecture.arm64_x64_compatible = refl

pub uac_virtualization_sent :
    (x : UacVirtualization)
    → Decode.Enums.uac_virtualization (some (Encode.Enums.uac_virtualization x)) ≡ x
unfolding Encode.Enums.uac_virtualization Decode.Enums.uac_virtualization
uac_virtualization_sent UacVirtualization.unknown = refl
uac_virtualization_sent UacVirtualization.not_allowed = refl
uac_virtualization_sent UacVirtualization.disabled = refl
uac_virtualization_sent UacVirtualization.enabled = refl

pub isolation_sent : (x : Isolation) → Decode.Enums.isolation (some (Encode.Enums.isolation x)) ≡ x
unfolding Encode.Enums.isolation Decode.Enums.isolation
isolation_sent Isolation.unknown = refl
isolation_sent Isolation.unisolated = refl
isolation_sent Isolation.app_container = refl
isolation_sent Isolation.uwp = refl
isolation_sent Isolation.silo = refl

pub dpi_awareness_sent :
    (x : DpiAwareness) → Decode.Enums.dpi_awareness (some (Encode.Enums.dpi_awareness x)) ≡ x
unfolding Encode.Enums.dpi_awareness Decode.Enums.dpi_awareness
dpi_awareness_sent DpiAwareness.unknown = refl
dpi_awareness_sent DpiAwareness.unaware = refl
dpi_awareness_sent DpiAwareness.system = refl
dpi_awareness_sent DpiAwareness.per_monitor = refl
dpi_awareness_sent DpiAwareness.per_monitor_v2 = refl
dpi_awareness_sent DpiAwareness.unaware_gdi_scaled = refl

pub stack_protection_sent :
    (x : StackProtection)
    → Decode.Enums.stack_protection (some (Encode.Enums.stack_protection x)) ≡ x
unfolding Encode.Enums.stack_protection Decode.Enums.stack_protection
stack_protection_sent StackProtection.unknown = refl
stack_protection_sent StackProtection.off = refl
stack_protection_sent StackProtection.compatible = refl
stack_protection_sent StackProtection.strict = refl
stack_protection_sent StackProtection.compatible_audit = refl
stack_protection_sent StackProtection.strict_audit = refl

pub extended_cfg_sent :
    (x : ExtendedCfg) → Decode.Enums.extended_cfg (some (Encode.Enums.extended_cfg x)) ≡ x
unfolding Encode.Enums.extended_cfg Decode.Enums.extended_cfg
extended_cfg_sent ExtendedCfg.unknown = refl
extended_cfg_sent ExtendedCfg.off = refl
extended_cfg_sent ExtendedCfg.audit = refl
extended_cfg_sent ExtendedCfg.on = refl

pub io_priority_sent :
    (x : IoPriority) → Decode.Enums.io_priority (some (Encode.Enums.io_priority x)) ≡ x
unfolding Encode.Enums.io_priority Decode.Enums.io_priority
io_priority_sent IoPriority.unknown = refl
io_priority_sent IoPriority.very_low = refl
io_priority_sent IoPriority.low = refl
io_priority_sent IoPriority.normal = refl
io_priority_sent IoPriority.high = refl
io_priority_sent IoPriority.critical = refl

pub gpu_engine_kind_sent :
    (x : GpuEngineKind) → Decode.Enums.gpu_engine_kind (some (Encode.Enums.gpu_engine_kind x)) ≡ x
unfolding Encode.Enums.gpu_engine_kind Decode.Enums.gpu_engine_kind
gpu_engine_kind_sent GpuEngineKind.other = refl
gpu_engine_kind_sent GpuEngineKind.three_d = refl
gpu_engine_kind_sent GpuEngineKind.video_decode = refl
gpu_engine_kind_sent GpuEngineKind.video_encode = refl
gpu_engine_kind_sent GpuEngineKind.video_processing = refl
gpu_engine_kind_sent GpuEngineKind.scene_assembly = refl
gpu_engine_kind_sent GpuEngineKind.copy = refl
gpu_engine_kind_sent GpuEngineKind.overlay = refl
gpu_engine_kind_sent GpuEngineKind.crypto = refl
gpu_engine_kind_sent GpuEngineKind.video_codec = refl

pub toggle_sent : (x : Option Bool) → Decode.Enums.toggle (some (Encode.Enums.toggle x)) ≡ x
unfolding Encode.Enums.toggle Decode.Enums.toggle
toggle_sent none = refl
toggle_sent (some true) = refl
toggle_sent (some false) = refl

pub startup_type_sent :
    (x : ServiceStartType) → Decode.Enums.startup_type (some (Encode.Enums.startup_type x)) ≡ x
unfolding Encode.Enums.startup_type Decode.Enums.startup_type
startup_type_sent ServiceStartType.unknown = refl
startup_type_sent ServiceStartType.boot = refl
startup_type_sent ServiceStartType.system = refl
startup_type_sent ServiceStartType.automatic = refl
startup_type_sent ServiceStartType.manual = refl
startup_type_sent ServiceStartType.disabled = refl

pub temperature_status_sent :
    (x : TemperatureStatus)
    → Decode.Enums.temperature_status (some (Encode.Enums.temperature_status x)) ≡ x
unfolding Encode.Enums.temperature_status Decode.Enums.temperature_status
temperature_status_sent TemperatureStatus.unknown = refl
temperature_status_sent TemperatureStatus.available = refl
temperature_status_sent TemperatureStatus.unavailable = refl
temperature_status_sent TemperatureStatus.error = refl

pub temperature_category_sent :
    (x : TemperatureCategory)
    → Decode.Enums.temperature_category (some (Encode.Enums.temperature_category x)) ≡ x
unfolding Encode.Enums.temperature_category Decode.Enums.temperature_category
temperature_category_sent TemperatureCategory.unknown = refl
temperature_category_sent TemperatureCategory.cpu = refl
temperature_category_sent TemperatureCategory.gpu = refl
temperature_category_sent TemperatureCategory.memory = refl
temperature_category_sent TemperatureCategory.storage = refl
