-- ===== src/Wire/Decode/Metrics.antt =====
-- src/wire/decode.rs: the names of the counters.
use uniproc_windows_agent.Sample.Metrics.{ProcessMetric, MachineMetric}
use uniproc_windows_agent.Wire.Schema.Metrics.{WireProcessMetric, WireMachineMetric}

unfoldable pub process_metric : WireProcessMetric → ProcessMetric
process_metric WireProcessMetric.cpu_user_time = ProcessMetric.cpu_user_time
process_metric WireProcessMetric.cpu_kernel_time = ProcessMetric.cpu_kernel_time
process_metric WireProcessMetric.cpu_cycles = ProcessMetric.cpu_cycles
process_metric WireProcessMetric.working_set = ProcessMetric.working_set
process_metric WireProcessMetric.peak_working_set = ProcessMetric.peak_working_set
process_metric WireProcessMetric.private_working_set = ProcessMetric.private_working_set
process_metric WireProcessMetric.commit = ProcessMetric.commit
process_metric WireProcessMetric.paged_pool = ProcessMetric.paged_pool
process_metric WireProcessMetric.non_paged_pool = ProcessMetric.non_paged_pool
process_metric WireProcessMetric.page_faults = ProcessMetric.page_faults
process_metric WireProcessMetric.handles = ProcessMetric.handles
process_metric WireProcessMetric.threads = ProcessMetric.threads
process_metric WireProcessMetric.user_objects = ProcessMetric.user_objects
process_metric WireProcessMetric.gdi_objects = ProcessMetric.gdi_objects
process_metric WireProcessMetric.io_read_ops = ProcessMetric.io_read_ops
process_metric WireProcessMetric.io_write_ops = ProcessMetric.io_write_ops
process_metric WireProcessMetric.io_other_ops = ProcessMetric.io_other_ops
process_metric WireProcessMetric.io_read_bytes = ProcessMetric.io_read_bytes
process_metric WireProcessMetric.io_write_bytes = ProcessMetric.io_write_bytes
process_metric WireProcessMetric.io_other_bytes = ProcessMetric.io_other_bytes
process_metric WireProcessMetric.disk_read_ops = ProcessMetric.disk_read_ops
process_metric WireProcessMetric.disk_write_ops = ProcessMetric.disk_write_ops
process_metric WireProcessMetric.disk_flush_ops = ProcessMetric.disk_flush_ops
process_metric WireProcessMetric.disk_read_bytes = ProcessMetric.disk_read_bytes
process_metric WireProcessMetric.disk_write_bytes = ProcessMetric.disk_write_bytes
process_metric WireProcessMetric.net_rx_bytes = ProcessMetric.net_rx_bytes
process_metric WireProcessMetric.net_tx_bytes = ProcessMetric.net_tx_bytes
process_metric WireProcessMetric.virtual_size = ProcessMetric.virtual_size
process_metric WireProcessMetric.peak_virtual_size = ProcessMetric.peak_virtual_size
process_metric WireProcessMetric.peak_commit = ProcessMetric.peak_commit
process_metric WireProcessMetric.peak_paged_pool = ProcessMetric.peak_paged_pool
process_metric WireProcessMetric.peak_non_paged_pool = ProcessMetric.peak_non_paged_pool
process_metric WireProcessMetric.hard_faults = ProcessMetric.hard_faults
process_metric WireProcessMetric.peak_threads = ProcessMetric.peak_threads
process_metric WireProcessMetric.context_switches = ProcessMetric.context_switches
process_metric WireProcessMetric.gpu_dedicated = ProcessMetric.gpu_dedicated
process_metric WireProcessMetric.gpu_shared = ProcessMetric.gpu_shared
process_metric WireProcessMetric.gpu_engines = ProcessMetric.gpu_engines
process_metric WireProcessMetric.exclusive_mapped = ProcessMetric.exclusive_mapped
process_metric WireProcessMetric.vm_working_set = ProcessMetric.vm_working_set

unfoldable pub machine_metric : WireMachineMetric → MachineMetric
machine_metric WireMachineMetric.cpu = MachineMetric.cpu
machine_metric WireMachineMetric.memory = MachineMetric.memory
machine_metric WireMachineMetric.disk = MachineMetric.disk
machine_metric WireMachineMetric.network = MachineMetric.network
machine_metric WireMachineMetric.processors = MachineMetric.processors
machine_metric WireMachineMetric.gpu = MachineMetric.gpu
machine_metric WireMachineMetric.network_adapters = MachineMetric.network_adapters
machine_metric WireMachineMetric.temperatures = MachineMetric.temperatures
