-- ===== src/Wire/Encode/Machine.antt =====
-- src/wire/encode.rs: the machine's counters.
use mathlib.Core.Option
use uniproc_windows_agent.Base.{
  ℕ, String, map, Option, none, some, nat_beq, string_beq, if◌then◌else◌,
}
use uniproc_windows_agent.Sample.Machine.{
  CpuInventory, GpuAdapter, GpuEngine, MachineCpu, MachineDisk, MachineMemory, MachineNetwork,
  MachineProcessor, MachineSample, MachineSystemStats, MachineTemperatures, NetworkAdapter,
  TemperatureDevice, TemperatureSensor,
}
use uniproc_windows_agent.Wire.Schema.Machine.{
  MachineSystemStatsMessage, MachineMemoryMessage, MachineDiskMessage, MachineNetworkMessage,
  MachineCpuMessage, MachineProcessorMessage, NetworkAdapterMessage, GpuEngineMessage,
  GpuAdapterMessage, CpuInventoryMessage, Reading, celsius, unavailable, TemperatureSensorMessage,
  TemperatureDeviceMessage, MachineTemperaturesMessage, MachineSampleMessage,
}
use uniproc_windows_agent.Wire.Outcome.{Text}
use uniproc_windows_agent.Wire.Encode.Enums.{
  gpu_engine_kind, toggle, temperature_status, temperature_category,
}
use uniproc_windows_agent.Base.Words.{u32_max, u64_max, is_finite}

unfoldable pub system_stats : MachineSystemStats → MachineSystemStatsMessage
system_stats e = record {
  process_count = e.process_count;
  thread_count = e.thread_count;
  handle_count = e.handle_count;
  uptime_ms = e.uptime_ms;
}

unfoldable pub machine_memory : MachineMemory → MachineMemoryMessage
machine_memory e = record {
  total_physical = e.total_physical;
  available_physical = e.available_physical;
  commit_limit = e.commit_limit;
  committed = e.committed;
}

unfoldable pub machine_disk : MachineDisk → MachineDiskMessage
machine_disk e = record {
  read_ops = e.read_ops;
  write_ops = e.write_ops;
  read_bytes = e.read_bytes;
  write_bytes = e.write_bytes;
}

unfoldable pub machine_network : MachineNetwork → MachineNetworkMessage
machine_network e = record { rx_bytes = e.rx_bytes; tx_bytes = e.tx_bytes }

unfoldable pub machine_cpu : MachineCpu → MachineCpuMessage
machine_cpu e = record {
  idle_time = e.idle_time;
  kernel_time = e.kernel_time;
  user_time = e.user_time;
  interrupt_time = e.interrupt_time;
  dpc_time = e.dpc_time;
  max_mhz = e.max_mhz;
  current_mhz = e.current_mhz;
}

unfoldable pub machine_processor : MachineProcessor → MachineProcessorMessage
machine_processor e = record {
  idle_time = e.idle_time;
  kernel_time = e.kernel_time;
  user_time = e.user_time;
  interrupt_time = e.interrupt_time;
  dpc_time = e.dpc_time;
}

unfoldable pub network_adapter : NetworkAdapter → NetworkAdapterMessage
network_adapter e = record {
  luid = e.luid;
  name = some e.name;
  description = some e.description;
  if_type = e.if_type;
  hardware = e.hardware;
  receive_link_speed = e.receive_link_speed;
  transmit_link_speed = e.transmit_link_speed;
  rx_bytes = e.rx_bytes;
  tx_bytes = e.tx_bytes;
}

unfoldable pub gpu_engine : GpuEngine → GpuEngineMessage
gpu_engine e = record {
  ordinal = e.ordinal;
  kind = some (gpu_engine_kind e.kind);
  name = some e.name;
  running_time = e.running_time;
  frequency = e.frequency;
  max_frequency = e.max_frequency;
}

unfoldable pub gpu_adapter : GpuAdapter → GpuAdapterMessage
gpu_adapter e = record {
  luid = e.luid;
  name = some e.name;
  dedicated_limit = e.dedicated_limit;
  dedicated_usage = e.dedicated_usage;
  shared_limit = e.shared_limit;
  shared_usage = e.shared_usage;
  temperature = e.temperature;
  fan_rpm = e.fan_rpm;
  power = e.power;
  memory_frequency = e.memory_frequency;
  engines = some (map gpu_engine e.engines);
}

-- `unwrap_or` of a count.
unfoldable pub unwrap_or : ℕ → Option ℕ → ℕ
unwrap_or no_data none = no_data
unwrap_or no_data (some n) = n

unfoldable pub cpu_inventory : CpuInventory → CpuInventoryMessage
cpu_inventory e = record {
  active_package_count = unwrap_or u32_max e.active_package_count;
  physical_core_count = unwrap_or u32_max e.physical_core_count;
  logical_processor_count = unwrap_or u32_max e.logical_processor_count;
  l1_cache_bytes = unwrap_or u64_max e.l1_cache_bytes;
  l2_cache_bytes = unwrap_or u64_max e.l2_cache_bytes;
  l3_cache_bytes = unwrap_or u64_max e.l3_cache_bytes;
  base_mhz = unwrap_or u32_max e.base_mhz;
  virtualization_hardware_supported = some (toggle e.virtualization_hardware_supported);
  virtualization_firmware_enabled = some (toggle e.virtualization_firmware_enabled);
  hypervisor_present = some (toggle e.hypervisor_present);
}

unfoldable pub temperature_reading : Option ℕ → Reading
temperature_reading none = unavailable
temperature_reading (some value) = if is_finite value then celsius value else unavailable

unfoldable pub temperature_sensor : TemperatureSensor → TemperatureSensorMessage
temperature_sensor e = record {
  id = some e.id;
  name = some e.name;
  reading = some (temperature_reading e.celsius);
}

unfoldable pub temperature_device : TemperatureDevice → TemperatureDeviceMessage
temperature_device e = record {
  id = some e.id;
  name = some e.name;
  category = some (temperature_category e.category);
  status = some (temperature_status e.status);
  error = some e.error;
  sensors = some (map temperature_sensor e.sensors);
}

unfoldable pub temperatures : MachineTemperatures → MachineTemperaturesMessage
temperatures e = record {
  status = some (temperature_status e.status);
  error = some e.error;
  devices = some (map temperature_device e.devices);
}

-- A text that is not set is empty.
unfoldable pub cpu_name : Option String → Text
cpu_name none = some ""
cpu_name (some name) = some name

unfoldable pub machine_groups : ℕ → ℕ → MachineSample → MachineSampleMessage
machine_groups snapshot sampled_at m = record {
  snapshot = snapshot;
  sampled_at = sampled_at;
  cpu_name = cpu_name m.cpu_name;
  system_stats = Option.map (λ x. some (system_stats x)) m.system_stats;
  cpu_inventory = Option.map (λ x. some (cpu_inventory x)) m.cpu_inventory;
  memory = Option.map (λ x. some (machine_memory x)) m.memory;
  disk = Option.map (λ x. some (machine_disk x)) m.disk;
  network = Option.map (λ x. some (machine_network x)) m.network;
  cpu = Option.map (λ x. some (machine_cpu x)) m.cpu;
  temperatures = Option.map (λ x. some (temperatures x)) m.temperatures;
  processors = Option.map (λ x. some (map machine_processor x)) m.processors;
  gpus = Option.map (λ x. some (map gpu_adapter x)) m.gpus;
  network_adapters = Option.map (λ x. some (map network_adapter x)) m.network_adapters;
}
