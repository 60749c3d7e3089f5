-- ===== src/Wire/Decode/Samples.antt =====
-- src/wire/decode.rs: a sample, and what a subscriber asks for.
use uniproc_windows_agent.Base.{ℕ, ◌*◌, List, [], ◌∷◌, Option, none, some, nat_beq, string_beq}
use uniproc_windows_agent.Sample.Machine.{ProcessGpuEngine}
use uniproc_windows_agent.Wire.Schema.Samples.{
  ProcessGpuEngineMessage, MetricSpecMessage, ProcessColumnsMessage,
}
use uniproc_windows_agent.Wire.Outcome.{
  Decoded, Pointer, Wire, decoded, ◌>>=◌, each, pointer, group,
}
use uniproc_windows_agent.Sample.Metrics.{Sets}
use uniproc_windows_agent.Sample.Counters.{Columns}
use uniproc_windows_agent.Sample.{MetricSpec, Sample, period, milli}
use uniproc_windows_agent.Wire.Schema.Machine.{MachineSampleMessage}
use uniproc_windows_agent.Wire.Decode.Machine.{machine_groups}
use uniproc_windows_agent.Wire.Decode.Metrics.{process_metric, machine_metric}

unfoldable pub process_gpu_engine : ProcessGpuEngineMessage → ProcessGpuEngine
process_gpu_engine m = record {
  row = m.row;
  adapter_luid = m.adapter_luid;
  engine = m.engine;
  running_time = m.running_time;
}

-- `filter_map(Result::ok)`: what this build does not know is left out.
unfoldable pub known : {A B : Type 0} → (A → B) → List (Wire A) → List B
known read [] = []
known read (none ∷ ms) = known read ms
known read (some m ∷ ms) = read m ∷ known read ms

unfoldable pub metric_spec : {S : Sets} → MetricSpecMessage → Decoded (MetricSpec S)
metric_spec {S} spec = do
  processes ← pointer spec.processes
  machine ← pointer spec.machine
  decoded (record {
    interval = spec.interval_ms * milli;
    processes = S.process.of_members (known process_metric processes);
    machine = S.machine.of_members (known machine_metric machine);
  })

unfoldable pub column : Option (Pointer (List ℕ)) → Decoded (Option (List ℕ))
column c = group decoded c

unfoldable pub columns : ProcessColumnsMessage → Decoded Columns
columns p = do
  cpu_user_time ← column p.cpu_user_time
  cpu_kernel_time ← column p.cpu_kernel_time
  cpu_cycles ← column p.cpu_cycles
  working_set ← column p.working_set
  peak_working_set ← column p.peak_working_set
  private_working_set ← column p.private_working_set
  commit ← column p.commit
  paged_pool ← column p.paged_pool
  non_paged_pool ← column p.non_paged_pool
  page_faults ← column p.page_faults
  handles ← column p.handles
  threads ← column p.threads
  user_objects ← column p.user_objects
  gdi_objects ← column p.gdi_objects
  io_read_ops ← column p.io_read_ops
  io_write_ops ← column p.io_write_ops
  io_other_ops ← column p.io_other_ops
  io_read_bytes ← column p.io_read_bytes
  io_write_bytes ← column p.io_write_bytes
  io_other_bytes ← column p.io_other_bytes
  disk_read_ops ← column p.disk_read_ops
  disk_write_ops ← column p.disk_write_ops
  disk_flush_ops ← column p.disk_flush_ops
  disk_read_bytes ← column p.disk_read_bytes
  disk_write_bytes ← column p.disk_write_bytes
  net_rx_bytes ← column p.net_rx_bytes
  net_tx_bytes ← column p.net_tx_bytes
  virtual_size ← column p.virtual_size
  peak_virtual_size ← column p.peak_virtual_size
  peak_commit ← column p.peak_commit
  peak_paged_pool ← column p.peak_paged_pool
  peak_non_paged_pool ← column p.peak_non_paged_pool
  hard_faults ← column p.hard_faults
  peak_threads ← column p.peak_threads
  context_switches ← column p.context_switches
  gpu_dedicated ← column p.gpu_dedicated
  gpu_shared ← column p.gpu_shared
  exclusive_mapped ← column p.exclusive_mapped
  vm_working_set ← column p.vm_working_set
  decoded (record {
    cpu_user_time = cpu_user_time;
    cpu_kernel_time = cpu_kernel_time;
    cpu_cycles = cpu_cycles;
    working_set = working_set;
    peak_working_set = peak_working_set;
    private_working_set = private_working_set;
    commit = commit;
    paged_pool = paged_pool;
    non_paged_pool = non_paged_pool;
    page_faults = page_faults;
    handles = handles;
    threads = threads;
    user_objects = user_objects;
    gdi_objects = gdi_objects;
    io_read_ops = io_read_ops;
    io_write_ops = io_write_ops;
    io_other_ops = io_other_ops;
    io_read_bytes = io_read_bytes;
    io_write_bytes = io_write_bytes;
    io_other_bytes = io_other_bytes;
    disk_read_ops = disk_read_ops;
    disk_write_ops = disk_write_ops;
    disk_flush_ops = disk_flush_ops;
    disk_read_bytes = disk_read_bytes;
    disk_write_bytes = disk_write_bytes;
    net_rx_bytes = net_rx_bytes;
    net_tx_bytes = net_tx_bytes;
    virtual_size = virtual_size;
    peak_virtual_size = peak_virtual_size;
    peak_commit = peak_commit;
    peak_paged_pool = peak_paged_pool;
    peak_non_paged_pool = peak_non_paged_pool;
    hard_faults = hard_faults;
    peak_threads = peak_threads;
    context_switches = context_switches;
    gpu_dedicated = gpu_dedicated;
    gpu_shared = gpu_shared;
    exclusive_mapped = exclusive_mapped;
    vm_working_set = vm_working_set;
  })

unfoldable pub sample :
    {S : Sets} → ProcessColumnsMessage → MachineSampleMessage → MetricSpec S → Decoded (Sample S)
sample p m wanted = do
  pids ← pointer p.pids
  sequence_numbers ← pointer p.sequence_numbers
  found ← columns p
  engines ← group (each (λ e. decoded (process_gpu_engine e))) p.gpu_engines
  machine ← machine_groups m
  decoded (record {
    snapshot = p.snapshot;
    sampled_at = p.sampled_at;
    period = period wanted;
    wanted = wanted;
    passport_etag = p.passport_etag;
    pids = pids;
    sequence_numbers = sequence_numbers;
    columns = found;
    gpu_engines = engines;
    machine = machine;
  })
