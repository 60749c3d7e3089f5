-- ===== src/Wire/RoundTrip/Machine.antt =====
-- The machine's counters arrives as it was sent.
use mathlib.Core.Option
use uniproc_windows_agent.Base.{
  ℕ, String, map, Option, none, some, ◌==◌, nat_beq, string_beq, if◌then◌else◌, ◌≡◌, refl, ap,
  Bool-cases, inl, inr, arith,
}
use uniproc_windows_agent.Sample.Machine.{
  CpuInventory, GpuAdapter, GpuEngine, MachineCpu, MachineDisk, MachineMemory, MachineNetwork,
  MachineProcessor, MachineSample, MachineSystemStats, MachineTemperatures, NetworkAdapter,
  TemperatureDevice, TemperatureSensor,
}
use uniproc_windows_agent.Wire.Outcome.{
  decoded, each, each_sent, rows_sent, group_sent, group_received, each_received,
}
use uniproc_windows_agent.Wire.RoundTrip.Enums.{
  gpu_engine_kind_sent, toggle_sent, temperature_status_sent, temperature_category_sent,
}
use uniproc_windows_agent.Base.Words.{u32_max, u64_max, is_finite}
use uniproc_windows_agent.Wire.Encode
use uniproc_windows_agent.Wire.Decode

pub system_stats_sent :
    (e : MachineSystemStats) → Decode.Machine.system_stats (Encode.Machine.system_stats e) ≡ e
unfolding Encode.Machine.system_stats Decode.Machine.system_stats
system_stats_sent e = refl

pub machine_memory_sent :
    (e : MachineMemory) → Decode.Machine.machine_memory (Encode.Machine.machine_memory e) ≡ e
unfolding Encode.Machine.machine_memory Decode.Machine.machine_memory
machine_memory_sent e = refl

pub machine_disk_sent :
    (e : MachineDisk) → Decode.Machine.machine_disk (Encode.Machine.machine_disk e) ≡ e
unfolding Encode.Machine.machine_disk Decode.Machine.machine_disk
machine_disk_sent e = refl

pub machine_network_sent :
    (e : MachineNetwork) → Decode.Machine.machine_network (Encode.Machine.machine_network e) ≡ e
unfolding Encode.Machine.machine_network Decode.Machine.machine_network
machine_network_sent e = refl

pub machine_cpu_sent :
    (e : MachineCpu) → Decode.Machine.machine_cpu (Encode.Machine.machine_cpu e) ≡ e
unfolding Encode.Machine.machine_cpu Decode.Machine.machine_cpu
machine_cpu_sent e = refl

pub machine_processor_sent :
    (e : MachineProcessor)
    → Decode.Machine.machine_processor (Encode.Machine.machine_processor e) ≡ e
unfolding Encode.Machine.machine_processor Decode.Machine.machine_processor
machine_processor_sent e = refl

pub network_adapter_sent :
    (e : NetworkAdapter)
    → Decode.Machine.network_adapter (Encode.Machine.network_adapter e) ≡ decoded e
unfolding Encode.Machine.network_adapter Decode.Machine.network_adapter
network_adapter_sent e = refl

pub gpu_engine_sent :
    (e : GpuEngine) → Decode.Machine.gpu_engine (Encode.Machine.gpu_engine e) ≡ decoded e
unfolding Encode.Machine.gpu_engine Decode.Machine.gpu_engine
gpu_engine_sent e = rw (gpu_engine_kind_sent e.kind)

pub gpu_adapter_sent :
    (e : GpuAdapter) → Decode.Machine.gpu_adapter (Encode.Machine.gpu_adapter e) ≡ decoded e
unfolding Encode.Machine.gpu_adapter Decode.Machine.gpu_adapter
gpu_adapter_sent e =
    rw (rows_sent Decode.Machine.gpu_engine Encode.Machine.gpu_engine gpu_engine_sent e.engines)

-- A count that is the largest of its type is taken for none.
abbrev pub received_count : ℕ → Option ℕ → Option ℕ
received_count no_data none = none
received_count no_data (some n) = if n == no_data then none else some n

abbrev pub finite_only : Option ℕ → Option ℕ
finite_only none = none
finite_only (some value) = if is_finite value then some value else none

abbrev pub received_inventory : CpuInventory → CpuInventory
received_inventory e = record e {
  active_package_count = received_count u32_max e.active_package_count;
  physical_core_count = received_count u32_max e.physical_core_count;
  logical_processor_count = received_count u32_max e.logical_processor_count;
  l1_cache_bytes = received_count u64_max e.l1_cache_bytes;
  l2_cache_bytes = received_count u64_max e.l2_cache_bytes;
  l3_cache_bytes = received_count u64_max e.l3_cache_bytes;
  base_mhz = received_count u32_max e.base_mhz;
}

abbrev pub received_sensor : TemperatureSensor → TemperatureSensor
received_sensor e = record e { celsius = finite_only e.celsius }

abbrev pub received_device : TemperatureDevice → TemperatureDevice
received_device e = record e { sensors = map received_sensor e.sensors }

abbrev pub received_temperatures : MachineTemperatures → MachineTemperatures
received_temperatures e = record e { devices = map received_device e.devices }

abbrev pub received_name : Option String → Option String
received_name none = none
received_name (some name) = if name == "" then none else some name

-- What arrives of the machine's counters: a processor with an empty name has none, a count that is
-- the largest of its type is none, and so is a temperature that is not finite.
abbrev pub received_machine : MachineSample → MachineSample
received_machine m = record m {
  cpu_name = received_name m.cpu_name;
  cpu_inventory = Option.map received_inventory m.cpu_inventory;
  temperatures = Option.map received_temperatures m.temperatures;
}

count_received :
    (no_data : ℕ) (o : Option ℕ)
    → Decode.Machine.value no_data (Encode.Machine.unwrap_or no_data o) ≡ received_count no_data o
unfolding Decode.Machine.value Encode.Machine.unwrap_or
count_received no_data none = ground (arith, nat_beq.beq_iff no_data no_data)
count_received no_data (some n) = ground arith

cpu_inventory_received :
    (e : CpuInventory)
    → Decode.Machine.cpu_inventory (Encode.Machine.cpu_inventory e) ≡ received_inventory e
unfolding Encode.Machine.cpu_inventory Decode.Machine.cpu_inventory
cpu_inventory_received e = λ i. record {
  active_package_count = count_received u32_max e.active_package_count i;
  physical_core_count = count_received u32_max e.physical_core_count i;
  logical_processor_count = count_received u32_max e.logical_processor_count i;
  l1_cache_bytes = count_received u64_max e.l1_cache_bytes i;
  l2_cache_bytes = count_received u64_max e.l2_cache_bytes i;
  l3_cache_bytes = count_received u64_max e.l3_cache_bytes i;
  base_mhz = count_received u32_max e.base_mhz i;
  virtualization_hardware_supported = toggle_sent e.virtualization_hardware_supported i;
  virtualization_firmware_enabled = toggle_sent e.virtualization_firmware_enabled i;
  hypervisor_present = toggle_sent e.hypervisor_present i;
}

sensor_reading_received :
    (o : Option ℕ)
    → Decode.Machine.sensor_reading (some (Encode.Machine.temperature_reading o)) ≡ finite_only o
unfolding Encode.Machine.temperature_reading Decode.Machine.sensor_reading
sensor_reading_received none = refl
sensor_reading_received (some value) = elim (Bool-cases (is_finite value)) [
  | inl e ↦ rw e (rw e refl)
  | inr e ↦ rw e refl
]

temperature_sensor_received :
    (e : TemperatureSensor)
    → Decode.Machine.temperature_sensor (Encode.Machine.temperature_sensor e)
      ≡ decoded (received_sensor e)
unfolding Encode.Machine.temperature_sensor Decode.Machine.temperature_sensor
temperature_sensor_received e = rw (sensor_reading_received e.celsius)

temperature_device_received :
    (e : TemperatureDevice)
    → Decode.Machine.temperature_device (Encode.Machine.temperature_device e)
      ≡ decoded (received_device e)
unfolding Encode.Machine.temperature_device Decode.Machine.temperature_device
temperature_device_received e = rw (
  each_received Decode.Machine.temperature_sensor Encode.Machine.temperature_sensor received_sensor
      temperature_sensor_received e.sensors,
  temperature_category_sent e.category,
  temperature_status_sent e.status,
)

temperatures_received :
    (e : MachineTemperatures)
    → Decode.Machine.temperatures (Encode.Machine.temperatures e)
      ≡ decoded (received_temperatures e)
unfolding Encode.Machine.temperatures Decode.Machine.temperatures
temperatures_received e = rw (
  each_received Decode.Machine.temperature_device Encode.Machine.temperature_device received_device
      temperature_device_received e.devices,
  temperature_status_sent e.status,
)

cpu_name_received :
    (o : Option String)
    → Decode.Machine.cpu_name (Encode.Machine.cpu_name o) ≡ decoded (received_name o)
unfolding Decode.Machine.cpu_name Encode.Machine.cpu_name
cpu_name_received none = refl
cpu_name_received (some name) = refl

-- The machine's counters arrive as they were sent, but for an empty name of the processor, a count
-- that is the largest of its type and a temperature that is not finite, which arrive as none.
pub machine_groups_received :
    (snapshot sampled_at : ℕ) (m : MachineSample)
    → Decode.Machine.machine_groups (Encode.Machine.machine_groups snapshot sampled_at m)
      ≡ decoded (received_machine m)
unfolding Encode.Machine.machine_groups Decode.Machine.machine_groups
machine_groups_received snapshot sampled_at m = rw (
  group_sent (λ x. decoded (Decode.Machine.system_stats x)) Encode.Machine.system_stats
      (λ x. ap decoded (system_stats_sent x)) m.system_stats,
  group_received (λ x. decoded (Decode.Machine.cpu_inventory x)) Encode.Machine.cpu_inventory
      received_inventory (λ x. ap decoded (cpu_inventory_received x)) m.cpu_inventory,
  group_sent (λ x. decoded (Decode.Machine.machine_memory x)) Encode.Machine.machine_memory
      (λ x. ap decoded (machine_memory_sent x)) m.memory,
  group_sent (λ x. decoded (Decode.Machine.machine_disk x)) Encode.Machine.machine_disk
      (λ x. ap decoded (machine_disk_sent x)) m.disk,
  group_sent (λ x. decoded (Decode.Machine.machine_network x)) Encode.Machine.machine_network
      (λ x. ap decoded (machine_network_sent x)) m.network,
  group_sent (λ x. decoded (Decode.Machine.machine_cpu x)) Encode.Machine.machine_cpu
      (λ x. ap decoded (machine_cpu_sent x)) m.cpu,
  group_received Decode.Machine.temperatures Encode.Machine.temperatures received_temperatures
      temperatures_received m.temperatures,
  group_sent (each (λ x. decoded (Decode.Machine.machine_processor x)))
      (map Encode.Machine.machine_processor)
      (each_sent (λ x. decoded (Decode.Machine.machine_processor x))
        Encode.Machine.machine_processor (λ x. ap decoded (machine_processor_sent x)))
      m.processors,
  group_sent (each Decode.Machine.gpu_adapter) (map Encode.Machine.gpu_adapter)
      (each_sent Decode.Machine.gpu_adapter Encode.Machine.gpu_adapter gpu_adapter_sent) m.gpus,
  group_sent (each Decode.Machine.network_adapter) (map Encode.Machine.network_adapter)
      (each_sent Decode.Machine.network_adapter Encode.Machine.network_adapter network_adapter_sent)
      m.network_adapters,
  cpu_name_received m.cpu_name,
)
