-- ===== src/Wire/RoundTrip/Metrics.antt =====
-- Each counter is named as it was.
use uniproc_windows_agent.Base.{nat_beq, string_beq, ◌≡◌, refl}
use uniproc_windows_agent.Sample.Metrics.{ProcessMetric, MachineMetric}
use uniproc_windows_agent.Wire.Encode
use uniproc_windows_agent.Wire.Decode

pub process_metric_sent :
    (x : ProcessMetric) → Decode.Metrics.process_metric (Encode.Metrics.process_metric x) ≡ x
unfolding Encode.Metrics.process_metric Decode.Metrics.process_metric
process_metric_sent ProcessMetric.cpu_user_time = refl
process_metric_sent ProcessMetric.cpu_kernel_time = refl
process_metric_sent ProcessMetric.cpu_cycles = refl
process_metric_sent ProcessMetric.working_set = refl
process_metric_sent ProcessMetric.peak_working_set = refl
process_metric_sent ProcessMetric.private_working_set = refl
process_metric_sent ProcessMetric.commit = refl
process_metric_sent ProcessMetric.paged_pool = refl
process_metric_sent ProcessMetric.non_paged_pool = refl
process_metric_sent ProcessMetric.page_faults = refl
process_metric_sent ProcessMetric.handles = refl
process_metric_sent ProcessMetric.threads = refl
process_metric_sent ProcessMetric.user_objects = refl
process_metric_sent ProcessMetric.gdi_objects = refl
process_metric_sent ProcessMetric.io_read_ops = refl
process_metric_sent ProcessMetric.io_write_ops = refl
process_metric_sent ProcessMetric.io_other_ops = refl
process_metric_sent ProcessMetric.io_read_bytes = refl
process_metric_sent ProcessMetric.io_write_bytes = refl
process_metric_sent ProcessMetric.io_other_bytes = refl
process_metric_sent ProcessMetric.disk_read_ops = refl
process_metric_sent ProcessMetric.disk_write_ops = refl
process_metric_sent ProcessMetric.disk_flush_ops = refl
process_metric_sent ProcessMetric.disk_read_bytes = refl
process_metric_sent ProcessMetric.disk_write_bytes = refl
process_metric_sent ProcessMetric.net_rx_bytes = refl
process_metric_sent ProcessMetric.net_tx_bytes = refl
process_metric_sent ProcessMetric.virtual_size = refl
process_metric_sent ProcessMetric.peak_virtual_size = refl
process_metric_sent ProcessMetric.peak_commit = refl
process_metric_sent ProcessMetric.peak_paged_pool = refl
process_metric_sent ProcessMetric.peak_non_paged_pool = refl
process_metric_sent ProcessMetric.hard_faults = refl
process_metric_sent ProcessMetric.peak_threads = refl
process_metric_sent ProcessMetric.context_switches = refl
process_metric_sent ProcessMetric.gpu_dedicated = refl
process_metric_sent ProcessMetric.gpu_shared = refl
process_metric_sent ProcessMetric.gpu_engines = refl
process_metric_sent ProcessMetric.exclusive_mapped = refl
process_metric_sent ProcessMetric.vm_working_set = refl

pub machine_metric_sent :
    (x : MachineMetric) → Decode.Metrics.machine_metric (Encode.Metrics.machine_metric x) ≡ x
unfolding Encode.Metrics.machine_metric Decode.Metrics.machine_metric
machine_metric_sent MachineMetric.cpu = refl
machine_metric_sent MachineMetric.memory = refl
machine_metric_sent MachineMetric.disk = refl
machine_metric_sent MachineMetric.network = refl
machine_metric_sent MachineMetric.processors = refl
machine_metric_sent MachineMetric.gpu = refl
machine_metric_sent MachineMetric.network_adapters = refl
machine_metric_sent MachineMetric.temperatures = refl
