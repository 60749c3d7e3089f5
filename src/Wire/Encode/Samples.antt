-- ===== src/Wire/Encode/Samples.antt =====
-- src/wire/encode.rs: a sample, and what a subscriber asks for.
use mathlib.Core.Option
use uniproc_windows_agent.Base.{
  ℕ, ◌/◌, min, List, [], map, Option, none, some, nat_beq, string_beq, if◌then◌else◌,
}
use uniproc_windows_agent.Sample.Machine.{ProcessGpuEngine}
use uniproc_windows_agent.Wire.Schema.Samples.{
  ProcessGpuEngineMessage, MetricSpecMessage, ProcessColumnsMessage,
}
use uniproc_windows_agent.Wire.Outcome.{Pointer}
use uniproc_windows_agent.Base.Words.{u32_max}
use uniproc_windows_agent.Sample.Metrics.{Sets}
use uniproc_windows_agent.Sample.Counters.{Columns}
use uniproc_windows_agent.Sample.{MetricSpec, Sample, milli}
use uniproc_windows_agent.Wire.Schema.Machine.{MachineSampleMessage}
use uniproc_windows_agent.Wire.Encode.Machine.{machine_groups}
use uniproc_windows_agent.Wire.Encode.Metrics.{process_metric, machine_metric}

unfoldable pub process_gpu_engine : ProcessGpuEngine → ProcessGpuEngineMessage
process_gpu_engine e = record {
  row = e.row;
  adapter_luid = e.adapter_luid;
  engine = e.engine;
  running_time = e.running_time;
}

unfoldable pub metric_spec : {S : Sets} → MetricSpec S → MetricSpecMessage
metric_spec {S} spec = record {
  interval_ms = min (spec.interval / milli) u32_max;
  processes = some (map (λ m. some (process_metric m)) (S.process.members spec.processes));
  machine = some (map (λ m. some (machine_metric m)) (S.machine.members spec.machine));
}

unfoldable pub column : Option (List ℕ) → Option (Pointer (List ℕ))
column values = Option.map some values

-- A list that is not set is empty, and a column that is not set is not there.
unfoldable pub no_columns : ℕ → ℕ → ℕ → ProcessColumnsMessage
no_columns snapshot sampled_at passport_etag = record {
  snapshot = snapshot;
  sampled_at = sampled_at;
  passport_etag = passport_etag;
  pids = some [];
  sequence_numbers = some [];
  cpu_user_time = none;
  cpu_kernel_time = none;
  cpu_cycles = none;
  working_set = none;
  peak_working_set = none;
  private_working_set = none;
  commit = none;
  paged_pool = none;
  non_paged_pool = none;
  page_faults = none;
  handles = none;
  threads = none;
  user_objects = none;
  gdi_objects = none;
  io_read_ops = none;
  io_write_ops = none;
  io_other_ops = none;
  io_read_bytes = none;
  io_write_bytes = none;
  io_other_bytes = none;
  disk_read_ops = none;
  disk_write_ops = none;
  disk_flush_ops = none;
  disk_read_bytes = none;
  disk_write_bytes = none;
  net_rx_bytes = none;
  net_tx_bytes = none;
  virtual_size = none;
  peak_virtual_size = none;
  peak_commit = none;
  peak_paged_pool = none;
  peak_non_paged_pool = none;
  hard_faults = none;
  peak_threads = none;
  context_switches = none;
  gpu_dedicated = none;
  gpu_shared = none;
  exclusive_mapped = none;
  vm_working_set = none;
  gpu_engines = none;
}

unfoldable pub all_columns :
    ProcessColumnsMessage
    → List ℕ
    → List ℕ
    → Columns
    → Option (List ProcessGpuEngine)
    → ProcessColumnsMessage
all_columns out pids sequence_numbers c engines = record out {
  pids = some pids;
  sequence_numbers = some sequence_numbers;
  cpu_user_time = column c.cpu_user_time;
  cpu_kernel_time = column c.cpu_kernel_time;
  cpu_cycles = column c.cpu_cycles;
  working_set = column c.working_set;
  peak_working_set = column c.peak_working_set;
  private_working_set = column c.private_working_set;
  commit = column c.commit;
  paged_pool = column c.paged_pool;
  non_paged_pool = column c.non_paged_pool;
  page_faults = column c.page_faults;
  handles = column c.handles;
  threads = column c.threads;
  user_objects = column c.user_objects;
  gdi_objects = column c.gdi_objects;
  io_read_ops = column c.io_read_ops;
  io_write_ops = column c.io_write_ops;
  io_other_ops = column c.io_other_ops;
  io_read_bytes = column c.io_read_bytes;
  io_write_bytes = column c.io_write_bytes;
  io_other_bytes = column c.io_other_bytes;
  disk_read_ops = column c.disk_read_ops;
  disk_write_ops = column c.disk_write_ops;
  disk_flush_ops = column c.disk_flush_ops;
  disk_read_bytes = column c.disk_read_bytes;
  disk_write_bytes = column c.disk_write_bytes;
  net_rx_bytes = column c.net_rx_bytes;
  net_tx_bytes = column c.net_tx_bytes;
  virtual_size = column c.virtual_size;
  peak_virtual_size = column c.peak_virtual_size;
  peak_commit = column c.peak_commit;
  peak_paged_pool = column c.peak_paged_pool;
  peak_non_paged_pool = column c.peak_non_paged_pool;
  hard_faults = column c.hard_faults;
  peak_threads = column c.peak_threads;
  context_switches = column c.context_switches;
  gpu_dedicated = column c.gpu_dedicated;
  gpu_shared = column c.gpu_shared;
  exclusive_mapped = column c.exclusive_mapped;
  vm_working_set = column c.vm_working_set;
  gpu_engines = Option.map (λ es. some (map process_gpu_engine es)) engines;
}

unfoldable pub process_columns : {S : Sets} → Sample S → ProcessColumnsMessage
process_columns {S} sample =
    let out = no_columns sample.snapshot sample.sampled_at sample.passport_etag in
    if S.process.is_empty sample.wanted.processes
    then out
    else all_columns out sample.pids sample.sequence_numbers sample.columns sample.gpu_engines

unfoldable pub machine_sample : {S : Sets} → Sample S → MachineSampleMessage
machine_sample sample = machine_groups sample.snapshot sample.sampled_at sample.machine
