-- ===== src/Wire/Decode/Enums.antt =====
-- src/wire/decode.rs: the enumerations. A value that this build does not know is `none`.
use uniproc_windows_agent.Base.{Bool, true, false, Option, none, some, nat_beq, string_beq}
use uniproc_windows_agent.Model.{
  Architecture, DpiAwareness, ExtendedCfg, IoPriority, Isolation, ProcessPriority, StackProtection,
  UacVirtualization,
}
use uniproc_windows_agent.Report.{SignatureStatus}
use uniproc_windows_agent.Api.{ServiceState, ServiceStartType}
use uniproc_windows_agent.Sample.Machine.{GpuEngineKind, TemperatureCategory, TemperatureStatus}
use uniproc_windows_agent.Wire.Schema.Enums.{
  WireSignature, WireServiceState, WirePriority, WireArchitecture, WireUac, WireIsolation, WireDpi,
  WireStackProtection, WireExtendedCfg, WireIoPriority, WireGpuEngineType, Toggle,
  WireServiceStartupType, WireTemperatureStatus, WireTemperatureCategory,
}
use uniproc_windows_agent.Wire.Outcome.{Wire}

unfoldable pub signature : Wire WireSignature → SignatureStatus
signature (some WireSignature.unsigned) = SignatureStatus.unsigned
signature (some WireSignature.microsoft) = SignatureStatus.microsoft
signature (some WireSignature.third_party) = SignatureStatus.third_party
signature (some WireSignature.unknown) = SignatureStatus.unknown
signature none = SignatureStatus.unknown

unfoldable pub service_state : Wire WireServiceState → ServiceState
service_state (some WireServiceState.stopped) = ServiceState.stopped
service_state (some WireServiceState.start_pending) = ServiceState.start_pending
service_state (some WireServiceState.stop_pending) = ServiceState.stop_pending
service_state (some WireServiceState.running) = ServiceState.running
service_state (some WireServiceState.continue_pending) = ServiceState.continue_pending
service_state (some WireServiceState.pause_pending) = ServiceState.pause_pending
service_state (some WireServiceState.paused) = ServiceState.paused
service_state (some WireServiceState.unknown) = ServiceState.unknown
service_state none = ServiceState.unknown

unfoldable pub priority : Wire WirePriority → Option ProcessPriority
priority (some WirePriority.idle) = some ProcessPriority.idle
priority (some WirePriority.below_normal) = some ProcessPriority.below_normal
priority (some WirePriority.normal) = some ProcessPriority.normal
priority (some WirePriority.above_normal) = some ProcessPriority.above_normal
priority (some WirePriority.high) = some ProcessPriority.high
priority (some WirePriority.realtime) = some ProcessPriority.realtime
priority (some WirePriority.unknown) = none
priority none = none

unfoldable pub architecture : Wire WireArchitecture → Architecture
architecture (some WireArchitecture.x86) = Architecture.x86
architecture (some WireArchitecture.x64) = Architecture.x64
architecture (some WireArchitecture.arm) = Architecture.arm
architecture (some WireArchitecture.arm64) = Architecture.arm64
architecture (some WireArchitecture.arm64_x86_compatible) = Architecture.arm64_x86_compatible
architecture (some WireArchitecture.arm64_x64_compatible) = Architecture.arm64_x64_compatible
architecture (some WireArchitecture.unknown) = Architecture.unknown
architecture none = Architecture.unknown

unfoldable pub uac_virtualization : Wire WireUac → UacVirtualization
uac_virtualization (some WireUac.not_allowed) = UacVirtualization.not_allowed
uac_virtualization (some WireUac.disabled) = UacVirtualization.disabled
uac_virtualization (some WireUac.enabled) = UacVirtualization.enabled
uac_virtualization (some WireUac.unknown) = UacVirtualization.unknown
uac_virtualization none = UacVirtualization.unknown

unfoldable pub isolation : Wire WireIsolation → Isolation
isolation (some WireIsolation.unisolated) = Isolation.unisolated
isolation (some WireIsolation.app_container) = Isolation.app_container
isolation (some WireIsolation.uwp) = Isolation.uwp
isolation (some WireIsolation.silo) = Isolation.silo
isolation (some WireIsolation.unknown) = Isolation.unknown
isolation none = Isolation.unknown

unfoldable pub dpi_awareness : Wire WireDpi → DpiAwareness
dpi_awareness (some WireDpi.unaware) = DpiAwareness.unaware
dpi_awareness (some WireDpi.system) = DpiAwareness.system
dpi_awareness (some WireDpi.per_monitor) = DpiAwareness.per_monitor
dpi_awareness (some WireDpi.per_monitor_v2) = DpiAwareness.per_monitor_v2
dpi_awareness (some WireDpi.unaware_gdi_scaled) = DpiAwareness.unaware_gdi_scaled
dpi_awareness (some WireDpi.unknown) = DpiAwareness.unknown
dpi_awareness none = DpiAwareness.unknown

unfoldable pub stack_protection : Wire WireStackProtection → StackProtection
stack_protection (some WireStackProtection.off) = StackProtection.off
stack_protection (some WireStackProtection.compatible) = StackProtection.compatible
stack_protection (some WireStackProtection.strict) = StackProtection.strict
stack_protection (some WireStackProtection.compatible_audit) = StackProtection.compatible_audit
stack_protection (some WireStackProtection.strict_audit) = StackProtection.strict_audit
stack_protection (some WireStackProtection.unknown) = StackProtection.unknown
stack_protection none = StackProtection.unknown

unfoldable pub extended_cfg : Wire WireExtendedCfg → ExtendedCfg
extended_cfg (some WireExtendedCfg.off) = ExtendedCfg.off
extended_cfg (some WireExtendedCfg.audit) = ExtendedCfg.audit
extended_cfg (some WireExtendedCfg.on) = ExtendedCfg.on
extended_cfg (some WireExtendedCfg.unknown) = ExtendedCfg.unknown
extended_cfg none = ExtendedCfg.unknown

unfoldable pub io_priority : Wire WireIoPriority → IoPriority
io_priority (some WireIoPriority.very_low) = IoPriority.very_low
io_priority (some WireIoPriority.low) = IoPriority.low
io_priority (some WireIoPriority.normal) = IoPriority.normal
io_priority (some WireIoPriority.high) = IoPriority.high
io_priority (some WireIoPriority.critical) = IoPriority.critical
io_priority (some WireIoPriority.unknown) = IoPriority.unknown
io_priority none = IoPriority.unknown

unfoldable pub gpu_engine_kind : Wire WireGpuEngineType → GpuEngineKind
gpu_engine_kind (some WireGpuEngineType.three_d) = GpuEngineKind.three_d
gpu_engine_kind (some WireGpuEngineType.video_decode) = GpuEngineKind.video_decode
gpu_engine_kind (some WireGpuEngineType.video_encode) = GpuEngineKind.video_encode
gpu_engine_kind (some WireGpuEngineType.video_processing) = GpuEngineKind.video_processing
gpu_engine_kind (some WireGpuEngineType.scene_assembly) = GpuEngineKind.scene_assembly
gpu_engine_kind (some WireGpuEngineType.copy) = GpuEngineKind.copy
gpu_engine_kind (some WireGpuEngineType.overlay) = GpuEngineKind.overlay
gpu_engine_kind (some WireGpuEngineType.crypto) = GpuEngineKind.crypto
gpu_engine_kind (some WireGpuEngineType.video_codec) = GpuEngineKind.video_codec
gpu_engine_kind (some WireGpuEngineType.other) = GpuEngineKind.other
gpu_engine_kind none = GpuEngineKind.other

unfoldable pub toggle : Wire Toggle → Option Bool
toggle (some Toggle.on) = some true
toggle (some Toggle.off) = some false
toggle (some Toggle.unknown) = none
toggle none = none

unfoldable pub startup_type : Wire WireServiceStartupType → ServiceStartType
startup_type (some WireServiceStartupType.boot) = ServiceStartType.boot
startup_type (some WireServiceStartupType.system) = ServiceStartType.system
startup_type (some WireServiceStartupType.automatic) = ServiceStartType.automatic
startup_type (some WireServiceStartupType.manual) = ServiceStartType.manual
startup_type (some WireServiceStartupType.disabled) = ServiceStartType.disabled
startup_type _ = ServiceStartType.unknown

unfoldable pub temperature_status : Wire WireTemperatureStatus → TemperatureStatus
temperature_status (some WireTemperatureStatus.available) = TemperatureStatus.available
temperature_status (some WireTemperatureStatus.unavailable) = TemperatureStatus.unavailable
temperature_status (some WireTemperatureStatus.error) = TemperatureStatus.error
temperature_status _ = TemperatureStatus.unknown

unfoldable pub temperature_category : Wire WireTemperatureCategory → TemperatureCategory
temperature_category (some WireTemperatureCategory.cpu) = TemperatureCategory.cpu
temperature_category (some WireTemperatureCategory.gpu) = TemperatureCategory.gpu
temperature_category (some WireTemperatureCategory.memory) = TemperatureCategory.memory
temperature_category (some WireTemperatureCategory.storage) = TemperatureCategory.storage
temperature_category _ = TemperatureCategory.unknown
