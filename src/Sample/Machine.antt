-- ===== src/Sample/Machine.antt =====
-- crates/core/src/sample.rs: the machine's counters. An `f64` is its bits; a string of the heap or
-- shared is a string.
use uniproc_windows_agent.Base.{ℕ, Bool, String, List, Option, none, if◌then◌else◌}
use uniproc_windows_agent.Sample.Metrics.{MachineMetric, Sets}

pub data GpuEngineKind : Type 0 where
  other three_d video_decode video_encode video_processing scene_assembly copy overlay crypto
        video_codec :
      GpuEngineKind

pub data TemperatureStatus : Type 0 where
  unknown available unavailable error : TemperatureStatus

pub data TemperatureCategory : Type 0 where
  cpu gpu memory storage unknown : TemperatureCategory

pub record MachineCpu : Type 0 where
  pub idle_time : ℕ
  pub kernel_time : ℕ
  pub user_time : ℕ
  pub interrupt_time : ℕ
  pub dpc_time : ℕ
  pub max_mhz : ℕ
  pub current_mhz : ℕ

pub record MachineProcessor : Type 0 where
  pub idle_time : ℕ
  pub kernel_time : ℕ
  pub user_time : ℕ
  pub interrupt_time : ℕ
  pub dpc_time : ℕ

pub record MachineMemory : Type 0 where
  pub total_physical : ℕ
  pub available_physical : ℕ
  pub commit_limit : ℕ
  pub committed : ℕ

pub record MachineDisk : Type 0 where
  pub read_ops : ℕ
  pub write_ops : ℕ
  pub read_bytes : ℕ
  pub write_bytes : ℕ

pub record MachineNetwork : Type 0 where
  pub rx_bytes : ℕ
  pub tx_bytes : ℕ

pub record NetworkAdapter : Type 0 where
  pub luid : ℕ
  pub name : String
  pub description : String
  pub if_type : ℕ
  pub hardware : Bool
  pub receive_link_speed : ℕ
  pub transmit_link_speed : ℕ
  pub rx_bytes : ℕ
  pub tx_bytes : ℕ

pub record GpuEngine : Type 0 where
  pub ordinal : ℕ
  pub kind : GpuEngineKind
  pub name : String
  pub running_time : ℕ
  pub frequency : ℕ
  pub max_frequency : ℕ

pub record GpuAdapter : Type 0 where
  pub luid : ℕ
  pub name : String
  pub dedicated_limit : ℕ
  pub dedicated_usage : ℕ
  pub shared_limit : ℕ
  pub shared_usage : ℕ
  pub temperature : ℕ
  pub fan_rpm : ℕ
  pub power : ℕ
  pub memory_frequency : ℕ
  pub engines : List GpuEngine

pub record ProcessGpuEngine : Type 0 where
  pub row : ℕ
  pub adapter_luid : ℕ
  pub engine : ℕ
  pub running_time : ℕ

pub record TemperatureSensor : Type 0 where
  pub id : String
  pub name : String
  pub celsius : Option ℕ

pub record TemperatureDevice : Type 0 where
  pub id : String
  pub name : String
  pub category : TemperatureCategory
  pub status : TemperatureStatus
  pub error : String
  pub sensors : List TemperatureSensor

pub record MachineTemperatures : Type 0 where
  pub status : TemperatureStatus
  pub error : String
  pub devices : List TemperatureDevice

pub record MachineSystemStats : Type 0 where
  pub process_count : ℕ
  pub thread_count : ℕ
  pub handle_count : ℕ
  pub uptime_ms : ℕ

pub record CpuInventory : Type 0 where
  pub active_package_count : Option ℕ
  pub physical_core_count : Option ℕ
  pub logical_processor_count : Option ℕ
  pub l1_cache_bytes : Option ℕ
  pub l2_cache_bytes : Option ℕ
  pub l3_cache_bytes : Option ℕ
  pub base_mhz : Option ℕ
  pub virtualization_hardware_supported : Option Bool
  pub virtualization_firmware_enabled : Option Bool
  pub hypervisor_present : Option Bool

pub record MachineSample : Type 0 where
  pub cpu : Option MachineCpu
  pub cpu_name : Option String
  pub system_stats : Option MachineSystemStats
  pub cpu_inventory : Option CpuInventory
  pub memory : Option MachineMemory
  pub disk : Option MachineDisk
  pub network : Option MachineNetwork
  pub processors : Option (List MachineProcessor)
  pub gpus : Option (List GpuAdapter)
  pub network_adapters : Option (List NetworkAdapter)
  pub temperatures : Option MachineTemperatures

-- `filter(|_| wanted)`
unfoldable pub only_if {ℓ} : {A : Type ℓ} → Bool → Option A → Option A
only_if wanted group = if wanted then group else none

unfoldable pub project : (S : Sets) → S.machine.Carrier → MachineSample → MachineSample
project S wanted m =
    let has = S.machine.contains wanted in
    record {
      cpu = only_if (has MachineMetric.cpu) m.cpu;
      cpu_name = only_if (has MachineMetric.cpu) m.cpu_name;
      system_stats = only_if (has MachineMetric.cpu) m.system_stats;
      cpu_inventory = only_if (has MachineMetric.cpu) m.cpu_inventory;
      memory = only_if (has MachineMetric.memory) m.memory;
      disk = only_if (has MachineMetric.disk) m.disk;
      network = only_if (has MachineMetric.network) m.network;
      processors = only_if (has MachineMetric.processors) m.processors;
      gpus = only_if (has MachineMetric.gpu) m.gpus;
      network_adapters = only_if (has MachineMetric.network_adapters) m.network_adapters;
      temperatures = only_if (has MachineMetric.temperatures) m.temperatures;
    }
