-- ===== src/Wire/RoundTrip/Samples.antt =====
-- A sample, and what a subscriber asks for arrives as it was sent.
use uniproc_windows_agent.Base.{ℕ, List, Option, nat_beq, string_beq, ◌≡◌, refl}
use uniproc_windows_agent.Sample.Machine.{ProcessGpuEngine}
use uniproc_windows_agent.Wire.Outcome.{decoded, group_sent}
use uniproc_windows_agent.Sample.Counters.{Columns}
use uniproc_windows_agent.Wire.Schema.Samples.{ProcessColumnsMessage}
use uniproc_windows_agent.Wire.Encode
use uniproc_windows_agent.Wire.Decode

pub process_gpu_engine_sent :
    (e : ProcessGpuEngine)
    → Decode.Samples.process_gpu_engine (Encode.Samples.process_gpu_engine e) ≡ e
unfolding Encode.Samples.process_gpu_engine Decode.Samples.process_gpu_engine
process_gpu_engine_sent e = refl

column_sent : (o : Option (List ℕ)) → Decode.Samples.column (Encode.Samples.column o) ≡ decoded o
unfolding Decode.Samples.column Encode.Samples.column
column_sent o = group_sent decoded (λ v. v) (λ v. refl) o

pub columns_sent :
    (out : ProcessColumnsMessage) (pids sequence_numbers : List ℕ) (c : Columns)
    (engines : Option (List ProcessGpuEngine))
    → Decode.Samples.columns (Encode.Samples.all_columns out pids sequence_numbers c engines)
      ≡ decoded c
unfolding Decode.Samples.columns Encode.Samples.all_columns
columns_sent out pids sequence_numbers c engines = rw (
  column_sent c.cpu_user_time,
  column_sent c.cpu_kernel_time,
  column_sent c.cpu_cycles,
  column_sent c.working_set,
  column_sent c.peak_working_set,
  column_sent c.private_working_set,
  column_sent c.commit,
  column_sent c.paged_pool,
  column_sent c.non_paged_pool,
  column_sent c.page_faults,
  column_sent c.handles,
  column_sent c.threads,
  column_sent c.user_objects,
  column_sent c.gdi_objects,
  column_sent c.io_read_ops,
  column_sent c.io_write_ops,
  column_sent c.io_other_ops,
  column_sent c.io_read_bytes,
  column_sent c.io_write_bytes,
  column_sent c.io_other_bytes,
  column_sent c.disk_read_ops,
  column_sent c.disk_write_ops,
  column_sent c.disk_flush_ops,
  column_sent c.disk_read_bytes,
  column_sent c.disk_write_bytes,
  column_sent c.net_rx_bytes,
  column_sent c.net_tx_bytes,
  column_sent c.virtual_size,
  column_sent c.peak_virtual_size,
  column_sent c.peak_commit,
  column_sent c.peak_paged_pool,
  column_sent c.peak_non_paged_pool,
  column_sent c.hard_faults,
  column_sent c.peak_threads,
  column_sent c.context_switches,
  column_sent c.gpu_dedicated,
  column_sent c.gpu_shared,
  column_sent c.exclusive_mapped,
  column_sent c.vm_working_set,
)
