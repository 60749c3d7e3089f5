-- ===== src/Wire/Decode/Machine.antt =====
-- src/wire/decode.rs: the machine's counters.
use uniproc_windows_agent.Base.{
  ℕ, String, Option, none, some, ◌==◌, nat_beq, string_beq, if◌then◌else◌,
}
use uniproc_windows_agent.Sample.Machine.{
  CpuInventory, GpuAdapter, GpuEngine, MachineCpu, MachineDisk, MachineMemory, MachineNetwork,
  MachineProcessor, MachineSample, MachineSystemStats, MachineTemperatures, NetworkAdapter,
  TemperatureDevice, TemperatureSensor,
}
use uniproc_windows_agent.Wire.Schema.Machine.{
  MachineSystemStatsMessage, MachineMemoryMessage, MachineDiskMessage, MachineNetworkMessage,
  MachineCpuMessage, MachineProcessorMessage, NetworkAdapterMessage, GpuEngineMessage,
  GpuAdapterMessage, CpuInventoryMessage, Reading, celsius, TemperatureSensorMessage,
  TemperatureDeviceMessage, MachineTemperaturesMessage, MachineSampleMessage,
}
use uniproc_windows_agent.Wire.Outcome.{
  Decoded, Text, Wire, decoded, ◌>>=◌, each, rows, group, text,
}
use uniproc_windows_agent.Wire.Decode.Enums.{
  gpu_engine_kind, toggle, temperature_status, temperature_category,
}
use uniproc_windows_agent.Base.Words.{u32_max, u64_max, is_finite}

unfoldable pub system_stats : MachineSystemStatsMessage → MachineSystemStats
system_stats m = record {
  process_count = m.process_count;
  thread_count = m.thread_count;
  handle_count = m.handle_count;
  uptime_ms = m.uptime_ms;
}

unfoldable pub machine_memory : MachineMemoryMessage → MachineMemory
machine_memory m = record {
  total_physical = m.total_physical;
  available_physical = m.available_physical;
  commit_limit = m.commit_limit;
  committed = m.committed;
}

unfoldable pub machine_disk : MachineDiskMessage → MachineDisk
machine_disk m = record {
  read_ops = m.read_ops;
  write_ops = m.write_ops;
  read_bytes = m.read_bytes;
  write_bytes = m.write_bytes;
}

unfoldable pub machine_network : MachineNetworkMessage → MachineNetwork
machine_network m = record { rx_bytes = m.rx_bytes; tx_bytes = m.tx_bytes }

unfoldable pub machine_cpu : MachineCpuMessage → MachineCpu
machine_cpu m = record {
  idle_time = m.idle_time;
  kernel_time = m.kernel_time;
  user_time = m.user_time;
  interrupt_time = m.interrupt_time;
  dpc_time = m.dpc_time;
  max_mhz = m.max_mhz;
  current_mhz = m.current_mhz;
}

unfoldable pub machine_processor : MachineProcessorMessage → MachineProcessor
machine_processor m = record {
  idle_time = m.idle_time;
  kernel_time = m.kernel_time;
  user_time = m.user_time;
  interrupt_time = m.interrupt_time;
  dpc_time = m.dpc_time;
}

unfoldable pub network_adapter : NetworkAdapterMessage → Decoded NetworkAdapter
network_adapter m = do
  name ← text m.name
  description ← text m.description
  decoded (record {
    luid = m.luid;
    name = name;
    description = description;
    if_type = m.if_type;
    hardware = m.hardware;
    receive_link_speed = m.receive_link_speed;
    transmit_link_speed = m.transmit_link_speed;
    rx_bytes = m.rx_bytes;
    tx_bytes = m.tx_bytes;
  })

unfoldable pub gpu_engine : GpuEngineMessage → Decoded GpuEngine
gpu_engine m = do
  name ← text m.name
  decoded (record {
    ordinal = m.ordinal;
    kind = gpu_engine_kind m.kind;
    name = name;
    running_time = m.running_time;
    frequency = m.frequency;
    max_frequency = m.max_frequency;
  })

unfoldable pub gpu_adapter : GpuAdapterMessage → Decoded GpuAdapter
gpu_adapter m = do
  name ← text m.name
  engines ← rows gpu_engine m.engines
  decoded (record {
    luid = m.luid;
    name = name;
    dedicated_limit = m.dedicated_limit;
    dedicated_usage = m.dedicated_usage;
    shared_limit = m.shared_limit;
    shared_usage = m.shared_usage;
    temperature = m.temperature;
    fan_rpm = m.fan_rpm;
    power = m.power;
    memory_frequency = m.memory_frequency;
    engines = engines;
  })

unfoldable pub value : ℕ → ℕ → Option ℕ
value no_data n = if n == no_data then none else some n

unfoldable pub cpu_inventory : CpuInventoryMessage → CpuInventory
cpu_inventory m = record {
  active_package_count = value u32_max m.active_package_count;
  physical_core_count = value u32_max m.physical_core_count;
  logical_processor_count = value u32_max m.logical_processor_count;
  l1_cache_bytes = value u64_max m.l1_cache_bytes;
  l2_cache_bytes = value u64_max m.l2_cache_bytes;
  l3_cache_bytes = value u64_max m.l3_cache_bytes;
  base_mhz = value u32_max m.base_mhz;
  virtualization_hardware_supported = toggle m.virtualization_hardware_supported;
  virtualization_firmware_enabled = toggle m.virtualization_firmware_enabled;
  hypervisor_present = toggle m.hypervisor_present;
}

unfoldable pub sensor_reading : Wire Reading → Option ℕ
sensor_reading (some (celsius value)) = if is_finite value then some value else none
sensor_reading _ = none

unfoldable pub temperature_sensor : TemperatureSensorMessage → Decoded TemperatureSensor
temperature_sensor m = do
  id ← text m.id
  name ← text m.name
  decoded (record { id = id; name = name; celsius = sensor_reading m.reading })

unfoldable pub temperature_device : TemperatureDeviceMessage → Decoded TemperatureDevice
temperature_device m = do
  id ← text m.id
  name ← text m.name
  error ← text m.error
  sensors ← rows temperature_sensor m.sensors
  decoded (record {
    id = id;
    name = name;
    category = temperature_category m.category;
    status = temperature_status m.status;
    error = error;
    sensors = sensors;
  })

unfoldable pub temperatures : MachineTemperaturesMessage → Decoded MachineTemperatures
temperatures m = do
  error ← text m.error
  devices ← rows temperature_device m.devices
  decoded (record { status = temperature_status m.status; error = error; devices = devices })

unfoldable pub cpu_name : Text → Decoded (Option String)
cpu_name t = do name ← text t; decoded (if name == "" then none else some name)

unfoldable pub machine_groups : MachineSampleMessage → Decoded MachineSample
machine_groups m = do
  system_stats ← group (λ x. decoded (system_stats x)) m.system_stats
  cpu_inventory ← group (λ x. decoded (cpu_inventory x)) m.cpu_inventory
  memory ← group (λ x. decoded (machine_memory x)) m.memory
  disk ← group (λ x. decoded (machine_disk x)) m.disk
  network ← group (λ x. decoded (machine_network x)) m.network
  cpu ← group (λ x. decoded (machine_cpu x)) m.cpu
  name ← cpu_name m.cpu_name
  temperature ← group temperatures m.temperatures
  processors ← group (each (λ x. decoded (machine_processor x))) m.processors
  gpus ← group (each gpu_adapter) m.gpus
  network_adapters ← group (each network_adapter) m.network_adapters
  decoded (record {
    cpu = cpu;
    cpu_name = name;
    system_stats = system_stats;
    cpu_inventory = cpu_inventory;
    memory = memory;
    disk = disk;
    network = network;
    processors = processors;
    gpus = gpus;
    network_adapters = network_adapters;
    temperatures = temperature;
  })
