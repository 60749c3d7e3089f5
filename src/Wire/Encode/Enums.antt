-- ===== src/Wire/Encode/Enums.antt =====
-- src/wire/encode.rs: the enumerations.
use uniproc_windows_agent.Base.{Bool, true, false, Option, none, some, nat_beq, string_beq}
use uniproc_windows_agent.Model.{
  Architecture, DpiAwareness, ExtendedCfg, IoPriority, Isolation, ProcessPriority, StackProtection,
  UacVirtualization,
}
use uniproc_windows_agent.Report.{SignatureStatus}
use uniproc_windows_agent.Api.{ServiceState, ServiceStartType}
use uniproc_windows_agent.Sample.Machine.{GpuEngineKind, TemperatureCategory, TemperatureStatus}
use uniproc_windows_agent.Wire.Schema.Enums.{
  WireSignature, WireServiceState, WirePriority, WireArchitecture, WireUac, WireIsolation, WireDpi,
  WireStackProtection, WireExtendedCfg, WireIoPriority, WireGpuEngineType, Toggle,
  WireServiceStartupType, WireTemperatureStatus, WireTemperatureCategory,
}

unfoldable pub signature : SignatureStatus → WireSignature
signature SignatureStatus.unknown = WireSignature.unknown
signature SignatureStatus.unsigned = WireSignature.unsigned
signature SignatureStatus.microsoft = WireSignature.microsoft
signature SignatureStatus.third_party = WireSignature.third_party

unfoldable pub service_state : ServiceState → WireServiceState
service_state ServiceState.unknown = WireServiceState.unknown
service_state ServiceState.stopped = WireServiceState.stopped
service_state ServiceState.start_pending = WireServiceState.start_pending
service_state ServiceState.stop_pending = WireServiceState.stop_pending
service_state ServiceState.running = WireServiceState.running
service_state ServiceState.continue_pending = WireServiceState.continue_pending
service_state ServiceState.pause_pending = WireServiceState.pause_pending
service_state ServiceState.paused = WireServiceState.paused

unfoldable pub priority : ProcessPriority → WirePriority
priority ProcessPriority.idle = WirePriority.idle
priority ProcessPriority.below_normal = WirePriority.below_normal
priority ProcessPriority.normal = WirePriority.normal
priority ProcessPriority.above_normal = WirePriority.above_normal
priority ProcessPriority.high = WirePriority.high
priority ProcessPriority.realtime = WirePriority.realtime

unfoldable pub architecture : Architecture → WireArchitecture
architecture Architecture.unknown = WireArchitecture.unknown
architecture Architecture.x86 = WireArchitecture.x86
architecture Architecture.x64 = WireArchitecture.x64
architecture Architecture.arm = WireArchitecture.arm
architecture Architecture.arm64 = WireArchitecture.arm64
architecture Architecture.arm64_x86_compatible = WireArchitecture.arm64_x86_compatible
architecture Architecture.arm64_x64_compatible = WireArchitecture.arm64_x64_compatible

unfoldable pub uac_virtualization : UacVirtualization → WireUac
uac_virtualization UacVirtualization.unknown = WireUac.unknown
uac_virtualization UacVirtualization.not_allowed = WireUac.not_allowed
uac_virtualization UacVirtualization.disabled = WireUac.disabled
uac_virtualization UacVirtualization.enabled = WireUac.enabled

unfoldable pub isolation : Isolation → WireIsolation
isolation Isolation.unknown = WireIsolation.unknown
isolation Isolation.unisolated = WireIsolation.unisolated
isolation Isolation.app_container = WireIsolation.app_container
isolation Isolation.uwp = WireIsolation.uwp
isolation Isolation.silo = WireIsolation.silo

unfoldable pub dpi_awareness : DpiAwareness → WireDpi
dpi_awareness DpiAwareness.unknown = WireDpi.unknown
dpi_awareness DpiAwareness.unaware = WireDpi.unaware
dpi_awareness DpiAwareness.system = WireDpi.system
dpi_awareness DpiAwareness.per_monitor = WireDpi.per_monitor
dpi_awareness DpiAwareness.per_monitor_v2 = WireDpi.per_monitor_v2
dpi_awareness DpiAwareness.unaware_gdi_scaled = WireDpi.unaware_gdi_scaled

unfoldable pub stack_protection : StackProtection → WireStackProtection
stack_protection StackProtection.unknown = WireStackProtection.unknown
stack_protection StackProtection.off = WireStackProtection.off
stack_protection StackProtection.compatible = WireStackProtection.compatible
stack_protection StackProtection.strict = WireStackProtection.strict
stack_protection StackProtection.compatible_audit = WireStackProtection.compatible_audit
stack_protection StackProtection.strict_audit = WireStackProtection.strict_audit

unfoldable pub extended_cfg : ExtendedCfg → WireExtendedCfg
extended_cfg ExtendedCfg.unknown = WireExtendedCfg.unknown
extended_cfg ExtendedCfg.off = WireExtendedCfg.off
extended_cfg ExtendedCfg.audit = WireExtendedCfg.audit
extended_cfg ExtendedCfg.on = WireExtendedCfg.on

unfoldable pub io_priority : IoPriority → WireIoPriority
io_priority IoPriority.unknown = WireIoPriority.unknown
io_priority IoPriority.very_low = WireIoPriority.very_low
io_priority IoPriority.low = WireIoPriority.low
io_priority IoPriority.normal = WireIoPriority.normal
io_priority IoPriority.high = WireIoPriority.high
io_priority IoPriority.critical = WireIoPriority.critical

unfoldable pub gpu_engine_kind : GpuEngineKind → WireGpuEngineType
gpu_engine_kind GpuEngineKind.other = WireGpuEngineType.other
gpu_engine_kind GpuEngineKind.three_d = WireGpuEngineType.three_d
gpu_engine_kind GpuEngineKind.video_decode = WireGpuEngineType.video_decode
gpu_engine_kind GpuEngineKind.video_encode = WireGpuEngineType.video_encode
gpu_engine_kind GpuEngineKind.video_processing = WireGpuEngineType.video_processing
gpu_engine_kind GpuEngineKind.scene_assembly = WireGpuEngineType.scene_assembly
gpu_engine_kind GpuEngineKind.copy = WireGpuEngineType.copy
gpu_engine_kind GpuEngineKind.overlay = WireGpuEngineType.overlay
gpu_engine_kind GpuEngineKind.crypto = WireGpuEngineType.crypto
gpu_engine_kind GpuEngineKind.video_codec = WireGpuEngineType.video_codec

unfoldable pub toggle : Option Bool → Toggle
toggle none = Toggle.unknown
toggle (some false) = Toggle.off
toggle (some true) = Toggle.on

unfoldable pub startup_type : ServiceStartType → WireServiceStartupType
startup_type ServiceStartType.unknown = WireServiceStartupType.unknown
startup_type ServiceStartType.boot = WireServiceStartupType.boot
startup_type ServiceStartType.system = WireServiceStartupType.system
startup_type ServiceStartType.automatic = WireServiceStartupType.automatic
startup_type ServiceStartType.manual = WireServiceStartupType.manual
startup_type ServiceStartType.disabled = WireServiceStartupType.disabled

unfoldable pub temperature_status : TemperatureStatus → WireTemperatureStatus
temperature_status TemperatureStatus.unknown = WireTemperatureStatus.unknown
temperature_status TemperatureStatus.available = WireTemperatureStatus.available
temperature_status TemperatureStatus.unavailable = WireTemperatureStatus.unavailable
temperature_status TemperatureStatus.error = WireTemperatureStatus.error

unfoldable pub temperature_category : TemperatureCategory → WireTemperatureCategory
temperature_category TemperatureCategory.unknown = WireTemperatureCategory.unknown
temperature_category TemperatureCategory.cpu = WireTemperatureCategory.cpu
temperature_category TemperatureCategory.gpu = WireTemperatureCategory.gpu
temperature_category TemperatureCategory.memory = WireTemperatureCategory.memory
temperature_category TemperatureCategory.storage = WireTemperatureCategory.storage
