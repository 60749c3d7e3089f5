-- ===== src/Wire/Schema/Enums.antt =====
-- The enumerations of the windows schema, as src/wire/decode.rs lists their values.

pub data WireSignature : Type 0 where
  unknown unsigned microsoft third_party : WireSignature

pub data WireServiceState : Type 0 where
  unknown stopped start_pending stop_pending running continue_pending pause_pending paused :
      WireServiceState

pub data WirePriority : Type 0 where
  unknown idle below_normal normal above_normal high realtime : WirePriority

pub data WireArchitecture : Type 0 where
  unknown x86 x64 arm arm64 arm64_x86_compatible arm64_x64_compatible : WireArchitecture

pub data WireUac : Type 0 where
  unknown not_allowed disabled enabled : WireUac

pub data WireIsolation : Type 0 where
  unknown unisolated app_container uwp silo : WireIsolation

pub data WireDpi : Type 0 where
  unknown unaware system per_monitor per_monitor_v2 unaware_gdi_scaled : WireDpi

pub data WireStackProtection : Type 0 where
  unknown off compatible strict compatible_audit strict_audit : WireStackProtection

pub data WireExtendedCfg : Type 0 where
  unknown off audit on : WireExtendedCfg

pub data WireIoPriority : Type 0 where
  unknown very_low low normal high critical : WireIoPriority

pub data WireGpuEngineType : Type 0 where
  three_d video_decode video_encode video_processing scene_assembly copy overlay crypto video_codec
        other :
      WireGpuEngineType

pub data Toggle : Type 0 where
  unknown off on : Toggle

pub data WireServiceStartupType : Type 0 where
  unknown boot system automatic manual disabled : WireServiceStartupType

pub data WireTemperatureStatus : Type 0 where
  unknown available unavailable error : WireTemperatureStatus

pub data WireTemperatureCategory : Type 0 where
  unknown cpu gpu memory storage : WireTemperatureCategory
