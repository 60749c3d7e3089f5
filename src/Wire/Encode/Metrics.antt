-- ===== src/Wire/Encode/Metrics.antt =====
-- src/wire/encode.rs: the names of the counters.
use uniproc_windows_agent.Sample.Metrics.{ProcessMetric, MachineMetric}
use uniproc_windows_agent.Wire.Schema.Metrics.{WireProcessMetric, WireMachineMetric}

unfoldable pub process_metric : ProcessMetric → WireProcessMetric
process_metric ProcessMetric.cpu_user_time = WireProcessMetric.cpu_user_time
process_metric ProcessMetric.cpu_kernel_time = WireProcessMetric.cpu_kernel_time
process_metric ProcessMetric.cpu_cycles = WireProcessMetric.cpu_cycles
process_metric ProcessMetric.working_set = WireProcessMetric.working_set
process_metric ProcessMetric.peak_working_set = WireProcessMetric.peak_working_set
process_metric ProcessMetric.private_working_set = WireProcessMetric.private_working_set
process_metric ProcessMetric.commit = WireProcessMetric.commit
process_metric ProcessMetric.paged_pool = WireProcessMetric.paged_pool
process_metric ProcessMetric.non_paged_pool = WireProcessMetric.non_paged_pool
process_metric ProcessMetric.page_faults = WireProcessMetric.page_faults
process_metric ProcessMetric.handles = WireProcessMetric.handles
process_metric ProcessMetric.threads = WireProcessMetric.threads
process_metric ProcessMetric.user_objects = WireProcessMetric.user_objects
process_metric ProcessMetric.gdi_objects = WireProcessMetric.gdi_objects
process_metric ProcessMetric.io_read_ops = WireProcessMetric.io_read_ops
process_metric ProcessMetric.io_write_ops = WireProcessMetric.io_write_ops
process_metric ProcessMetric.io_other_ops = WireProcessMetric.io_other_ops
process_metric ProcessMetric.io_read_bytes = WireProcessMetric.io_read_bytes
process_metric ProcessMetric.io_write_bytes = WireProcessMetric.io_write_bytes
process_metric ProcessMetric.io_other_bytes = WireProcessMetric.io_other_bytes
process_metric ProcessMetric.disk_read_ops = WireProcessMetric.disk_read_ops
process_metric ProcessMetric.disk_write_ops = WireProcessMetric.disk_write_ops
process_metric ProcessMetric.disk_flush_ops = WireProcessMetric.disk_flush_ops
process_metric ProcessMetric.disk_read_bytes = WireProcessMetric.disk_read_bytes
process_metric ProcessMetric.disk_write_bytes = WireProcessMetric.disk_write_bytes
process_metric ProcessMetric.net_rx_bytes = WireProcessMetric.net_rx_bytes
process_metric ProcessMetric.net_tx_bytes = WireProcessMetric.net_tx_bytes
process_metric ProcessMetric.virtual_size = WireProcessMetric.virtual_size
process_metric ProcessMetric.peak_virtual_size = WireProcessMetric.peak_virtual_size
process_metric ProcessMetric.peak_commit = WireProcessMetric.peak_commit
process_metric ProcessMetric.peak_paged_pool = WireProcessMetric.peak_paged_pool
process_metric ProcessMetric.peak_non_paged_pool = WireProcessMetric.peak_non_paged_pool
process_metric ProcessMetric.hard_faults = WireProcessMetric.hard_faults
process_metric ProcessMetric.peak_threads = WireProcessMetric.peak_threads
process_metric ProcessMetric.context_switches = WireProcessMetric.context_switches
process_metric ProcessMetric.gpu_dedicated = WireProcessMetric.gpu_dedicated
process_metric ProcessMetric.gpu_shared = WireProcessMetric.gpu_shared
process_metric ProcessMetric.gpu_engines = WireProcessMetric.gpu_engines
process_metric ProcessMetric.exclusive_mapped = WireProcessMetric.exclusive_mapped
process_metric ProcessMetric.vm_working_set = WireProcessMetric.vm_working_set

unfoldable pub machine_metric : MachineMetric → WireMachineMetric
machine_metric MachineMetric.cpu = WireMachineMetric.cpu
machine_metric MachineMetric.memory = WireMachineMetric.memory
machine_metric MachineMetric.disk = WireMachineMetric.disk
machine_metric MachineMetric.network = WireMachineMetric.network
machine_metric MachineMetric.processors = WireMachineMetric.processors
machine_metric MachineMetric.gpu = WireMachineMetric.gpu
machine_metric MachineMetric.network_adapters = WireMachineMetric.network_adapters
machine_metric MachineMetric.temperatures = WireMachineMetric.temperatures
