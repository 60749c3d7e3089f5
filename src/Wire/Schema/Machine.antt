-- ===== src/Wire/Schema/Machine.antt =====
-- The machine's counters, as the setters of src/wire/encode.rs fill it and src/wire/decode.rs reads it.
use uniproc_windows_agent.Base.{ℕ, Bool, List, Option, nat_beq, string_beq}
use uniproc_windows_agent.Wire.Schema.Enums.{
  WireGpuEngineType, Toggle, WireTemperatureStatus, WireTemperatureCategory,
}
use uniproc_windows_agent.Wire.Outcome.{Pointer, Text, Wire}

pub record MachineSystemStatsMessage : Type 0 where
  pub process_count : ℕ
  pub thread_count : ℕ
  pub handle_count : ℕ
  pub uptime_ms : ℕ

pub record MachineMemoryMessage : Type 0 where
  pub total_physical : ℕ
  pub available_physical : ℕ
  pub commit_limit : ℕ
  pub committed : ℕ

pub record MachineDiskMessage : Type 0 where
  pub read_ops : ℕ
  pub write_ops : ℕ
  pub read_bytes : ℕ
  pub write_bytes : ℕ

pub record MachineNetworkMessage : Type 0 where
  pub rx_bytes : ℕ
  pub tx_bytes : ℕ

pub record MachineCpuMessage : Type 0 where
  pub idle_time : ℕ
  pub kernel_time : ℕ
  pub user_time : ℕ
  pub interrupt_time : ℕ
  pub dpc_time : ℕ
  pub max_mhz : ℕ
  pub current_mhz : ℕ

pub record MachineProcessorMessage : Type 0 where
  pub idle_time : ℕ
  pub kernel_time : ℕ
  pub user_time : ℕ
  pub interrupt_time : ℕ
  pub dpc_time : ℕ

pub record NetworkAdapterMessage : Type 0 where
  pub luid : ℕ
  pub name : Text
  pub description : Text
  pub if_type : ℕ
  pub hardware : Bool
  pub receive_link_speed : ℕ
  pub transmit_link_speed : ℕ
  pub rx_bytes : ℕ
  pub tx_bytes : ℕ

pub record GpuEngineMessage : Type 0 where
  pub ordinal : ℕ
  pub kind : Wire WireGpuEngineType
  pub name : Text
  pub running_time : ℕ
  pub frequency : ℕ
  pub max_frequency : ℕ

pub record GpuAdapterMessage : Type 0 where
  pub luid : ℕ
  pub name : Text
  pub dedicated_limit : ℕ
  pub dedicated_usage : ℕ
  pub shared_limit : ℕ
  pub shared_usage : ℕ
  pub temperature : ℕ
  pub fan_rpm : ℕ
  pub power : ℕ
  pub memory_frequency : ℕ
  pub engines : Pointer (List GpuEngineMessage)

pub record CpuInventoryMessage : Type 0 where
  pub active_package_count : ℕ
  pub physical_core_count : ℕ
  pub logical_processor_count : ℕ
  pub l1_cache_bytes : ℕ
  pub l2_cache_bytes : ℕ
  pub l3_cache_bytes : ℕ
  pub base_mhz : ℕ
  pub virtualization_hardware_supported : Wire Toggle
  pub virtualization_firmware_enabled : Wire Toggle
  pub hypervisor_present : Wire Toggle

pub data Reading : Type 0 where
  celsius : ℕ → Reading
  unavailable : Reading

pub record TemperatureSensorMessage : Type 0 where
  pub id : Text
  pub name : Text
  pub reading : Wire Reading

pub record TemperatureDeviceMessage : Type 0 where
  pub id : Text
  pub name : Text
  pub category : Wire WireTemperatureCategory
  pub status : Wire WireTemperatureStatus
  pub error : Text
  pub sensors : Pointer (List TemperatureSensorMessage)

pub record MachineTemperaturesMessage : Type 0 where
  pub status : Wire WireTemperatureStatus
  pub error : Text
  pub devices : Pointer (List TemperatureDeviceMessage)

pub record MachineSampleMessage : Type 0 where
  pub snapshot : ℕ
  pub sampled_at : ℕ
  pub cpu_name : Text
  pub system_stats : Option (Pointer MachineSystemStatsMessage)
  pub cpu_inventory : Option (Pointer CpuInventoryMessage)
  pub memory : Option (Pointer MachineMemoryMessage)
  pub disk : Option (Pointer MachineDiskMessage)
  pub network : Option (Pointer MachineNetworkMessage)
  pub cpu : Option (Pointer MachineCpuMessage)
  pub temperatures : Option (Pointer MachineTemperaturesMessage)
  pub processors : Option (Pointer (List MachineProcessorMessage))
  pub gpus : Option (Pointer (List GpuAdapterMessage))
  pub network_adapters : Option (Pointer (List NetworkAdapterMessage))
