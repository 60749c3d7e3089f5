-- ===== src/Sample/Counters.antt =====
-- crates/core/src/sample.rs: the process counters as columns, as the macro `columns!` writes them.
-- The trait `Extras` is a record of functions.
use uniproc_windows_agent.Base.{
  ℕ, Bool, false, negb, List, [], ◌∷◌, map, Option, none, some, ◌||◌, ◌==◌, nat_beq, if◌then◌else◌,
}
use uniproc_windows_agent.Base.Words.{u32_max, u64_max}
use uniproc_windows_agent.Snapshot.{Row}
use uniproc_windows_agent.Sample.Metrics.{ProcessMetric, has_gaps, Sets}

pub record Extras : Type 0 where
  pub user_objects : Row → ℕ
  pub gdi_objects : Row → ℕ
  pub net_rx_bytes : Row → ℕ
  pub net_tx_bytes : Row → ℕ
  pub gpu_dedicated : Row → ℕ
  pub gpu_shared : Row → ℕ
  pub exclusive_mapped : Row → ℕ
  pub vm_working_set : Row → ℕ

pub record Columns : Type 0 where
  pub cpu_user_time : Option (List ℕ)
  pub cpu_kernel_time : Option (List ℕ)
  pub cpu_cycles : Option (List ℕ)
  pub working_set : Option (List ℕ)
  pub peak_working_set : Option (List ℕ)
  pub private_working_set : Option (List ℕ)
  pub commit : Option (List ℕ)
  pub paged_pool : Option (List ℕ)
  pub non_paged_pool : Option (List ℕ)
  pub page_faults : Option (List ℕ)
  pub handles : Option (List ℕ)
  pub threads : Option (List ℕ)
  pub user_objects : Option (List ℕ)
  pub gdi_objects : Option (List ℕ)
  pub io_read_ops : Option (List ℕ)
  pub io_write_ops : Option (List ℕ)
  pub io_other_ops : Option (List ℕ)
  pub io_read_bytes : Option (List ℕ)
  pub io_write_bytes : Option (List ℕ)
  pub io_other_bytes : Option (List ℕ)
  pub disk_read_ops : Option (List ℕ)
  pub disk_write_ops : Option (List ℕ)
  pub disk_flush_ops : Option (List ℕ)
  pub disk_read_bytes : Option (List ℕ)
  pub disk_write_bytes : Option (List ℕ)
  pub net_rx_bytes : Option (List ℕ)
  pub net_tx_bytes : Option (List ℕ)
  pub virtual_size : Option (List ℕ)
  pub peak_virtual_size : Option (List ℕ)
  pub peak_commit : Option (List ℕ)
  pub peak_paged_pool : Option (List ℕ)
  pub peak_non_paged_pool : Option (List ℕ)
  pub hard_faults : Option (List ℕ)
  pub peak_threads : Option (List ℕ)
  pub context_switches : Option (List ℕ)
  pub gpu_dedicated : Option (List ℕ)
  pub gpu_shared : Option (List ℕ)
  pub exclusive_mapped : Option (List ℕ)
  pub vm_working_set : Option (List ℕ)

-- A wanted column out of the rows.
unfoldable pub built : Bool → (Row → ℕ) → List Row → Option (List ℕ)
built wanted value rows = if wanted then some (map value rows) else none

unfoldable pub build : (S : Sets) → S.process.Carrier → List Row → Extras → Columns
build S wanted rows x =
    let has = S.process.contains wanted in
    record {
      cpu_user_time = built (has ProcessMetric.cpu_user_time) (λ r. r.user_time) rows;
      cpu_kernel_time = built (has ProcessMetric.cpu_kernel_time) (λ r. r.kernel_time) rows;
      cpu_cycles = built (has ProcessMetric.cpu_cycles) (λ r. r.cycles) rows;
      working_set = built (has ProcessMetric.working_set) (λ r. r.working_set) rows;
      peak_working_set = built (has ProcessMetric.peak_working_set) (λ r. r.peak_working_set) rows;
      private_working_set =
          built (has ProcessMetric.private_working_set) (λ r. r.private_working_set) rows;
      commit = built (has ProcessMetric.commit) (λ r. r.commit) rows;
      paged_pool = built (has ProcessMetric.paged_pool) (λ r. r.paged_pool) rows;
      non_paged_pool = built (has ProcessMetric.non_paged_pool) (λ r. r.nonpaged_pool) rows;
      page_faults = built (has ProcessMetric.page_faults) (λ r. r.page_faults) rows;
      handles = built (has ProcessMetric.handles) (λ r. r.handles) rows;
      threads = built (has ProcessMetric.threads) (λ r. r.threads) rows;
      user_objects = built (has ProcessMetric.user_objects) x.user_objects rows;
      gdi_objects = built (has ProcessMetric.gdi_objects) x.gdi_objects rows;
      io_read_ops = built (has ProcessMetric.io_read_ops) (λ r. r.io_read_ops) rows;
      io_write_ops = built (has ProcessMetric.io_write_ops) (λ r. r.io_write_ops) rows;
      io_other_ops = built (has ProcessMetric.io_other_ops) (λ r. r.io_other_ops) rows;
      io_read_bytes = built (has ProcessMetric.io_read_bytes) (λ r. r.io_read_bytes) rows;
      io_write_bytes = built (has ProcessMetric.io_write_bytes) (λ r. r.io_write_bytes) rows;
      io_other_bytes = built (has ProcessMetric.io_other_bytes) (λ r. r.io_other_bytes) rows;
      disk_read_ops = built (has ProcessMetric.disk_read_ops) (λ r. r.disk_read_ops) rows;
      disk_write_ops = built (has ProcessMetric.disk_write_ops) (λ r. r.disk_write_ops) rows;
      disk_flush_ops = built (has ProcessMetric.disk_flush_ops) (λ r. r.disk_flush_ops) rows;
      disk_read_bytes = built (has ProcessMetric.disk_read_bytes) (λ r. r.disk_read_bytes) rows;
      disk_write_bytes = built (has ProcessMetric.disk_write_bytes) (λ r. r.disk_write_bytes) rows;
      net_rx_bytes = built (has ProcessMetric.net_rx_bytes) x.net_rx_bytes rows;
      net_tx_bytes = built (has ProcessMetric.net_tx_bytes) x.net_tx_bytes rows;
      virtual_size = built (has ProcessMetric.virtual_size) (λ r. r.virtual_size) rows;
      peak_virtual_size =
          built (has ProcessMetric.peak_virtual_size) (λ r. r.peak_virtual_size) rows;
      peak_commit = built (has ProcessMetric.peak_commit) (λ r. r.peak_commit) rows;
      peak_paged_pool = built (has ProcessMetric.peak_paged_pool) (λ r. r.peak_paged_pool) rows;
      peak_non_paged_pool =
          built (has ProcessMetric.peak_non_paged_pool) (λ r. r.peak_nonpaged_pool) rows;
      hard_faults = built (has ProcessMetric.hard_faults) (λ r. r.hard_faults) rows;
      peak_threads = built (has ProcessMetric.peak_threads) (λ r. r.peak_threads) rows;
      context_switches = built (has ProcessMetric.context_switches) (λ r. r.context_switches) rows;
      gpu_dedicated = built (has ProcessMetric.gpu_dedicated) x.gpu_dedicated rows;
      gpu_shared = built (has ProcessMetric.gpu_shared) x.gpu_shared rows;
      exclusive_mapped = built (has ProcessMetric.exclusive_mapped) x.exclusive_mapped rows;
      vm_working_set = built (has ProcessMetric.vm_working_set) x.vm_working_set rows;
    }

unfoldable pub kept : Bool → Option (List ℕ) → Option (List ℕ)
kept wanted column = if wanted then column else none

unfoldable pub project : (S : Sets) → S.process.Carrier → Columns → Columns
project S wanted c =
    let has = S.process.contains wanted in
    record {
      cpu_user_time = kept (has ProcessMetric.cpu_user_time) c.cpu_user_time;
      cpu_kernel_time = kept (has ProcessMetric.cpu_kernel_time) c.cpu_kernel_time;
      cpu_cycles = kept (has ProcessMetric.cpu_cycles) c.cpu_cycles;
      working_set = kept (has ProcessMetric.working_set) c.working_set;
      peak_working_set = kept (has ProcessMetric.peak_working_set) c.peak_working_set;
      private_working_set = kept (has ProcessMetric.private_working_set) c.private_working_set;
      commit = kept (has ProcessMetric.commit) c.commit;
      paged_pool = kept (has ProcessMetric.paged_pool) c.paged_pool;
      non_paged_pool = kept (has ProcessMetric.non_paged_pool) c.non_paged_pool;
      page_faults = kept (has ProcessMetric.page_faults) c.page_faults;
      handles = kept (has ProcessMetric.handles) c.handles;
      threads = kept (has ProcessMetric.threads) c.threads;
      user_objects = kept (has ProcessMetric.user_objects) c.user_objects;
      gdi_objects = kept (has ProcessMetric.gdi_objects) c.gdi_objects;
      io_read_ops = kept (has ProcessMetric.io_read_ops) c.io_read_ops;
      io_write_ops = kept (has ProcessMetric.io_write_ops) c.io_write_ops;
      io_other_ops = kept (has ProcessMetric.io_other_ops) c.io_other_ops;
      io_read_bytes = kept (has ProcessMetric.io_read_bytes) c.io_read_bytes;
      io_write_bytes = kept (has ProcessMetric.io_write_bytes) c.io_write_bytes;
      io_other_bytes = kept (has ProcessMetric.io_other_bytes) c.io_other_bytes;
      disk_read_ops = kept (has ProcessMetric.disk_read_ops) c.disk_read_ops;
      disk_write_ops = kept (has ProcessMetric.disk_write_ops) c.disk_write_ops;
      disk_flush_ops = kept (has ProcessMetric.disk_flush_ops) c.disk_flush_ops;
      disk_read_bytes = kept (has ProcessMetric.disk_read_bytes) c.disk_read_bytes;
      disk_write_bytes = kept (has ProcessMetric.disk_write_bytes) c.disk_write_bytes;
      net_rx_bytes = kept (has ProcessMetric.net_rx_bytes) c.net_rx_bytes;
      net_tx_bytes = kept (has ProcessMetric.net_tx_bytes) c.net_tx_bytes;
      virtual_size = kept (has ProcessMetric.virtual_size) c.virtual_size;
      peak_virtual_size = kept (has ProcessMetric.peak_virtual_size) c.peak_virtual_size;
      peak_commit = kept (has ProcessMetric.peak_commit) c.peak_commit;
      peak_paged_pool = kept (has ProcessMetric.peak_paged_pool) c.peak_paged_pool;
      peak_non_paged_pool = kept (has ProcessMetric.peak_non_paged_pool) c.peak_non_paged_pool;
      hard_faults = kept (has ProcessMetric.hard_faults) c.hard_faults;
      peak_threads = kept (has ProcessMetric.peak_threads) c.peak_threads;
      context_switches = kept (has ProcessMetric.context_switches) c.context_switches;
      gpu_dedicated = kept (has ProcessMetric.gpu_dedicated) c.gpu_dedicated;
      gpu_shared = kept (has ProcessMetric.gpu_shared) c.gpu_shared;
      exclusive_mapped = kept (has ProcessMetric.exclusive_mapped) c.exclusive_mapped;
      vm_working_set = kept (has ProcessMetric.vm_working_set) c.vm_working_set;
    }

unfoldable pub holds : ℕ → List ℕ → Bool
holds n [] = false
holds n (v ∷ values) = v == n || holds n values

unfoldable pub filled : Bool → ℕ → Option (List ℕ) → Option (List ℕ)
filled gaps no_data none = none
filled gaps no_data (some values) =
    if negb gaps || negb (holds no_data values) then some values else none

unfoldable pub without_gaps : Columns → Columns
without_gaps c = record {
  cpu_user_time = filled (has_gaps ProcessMetric.cpu_user_time) u64_max c.cpu_user_time;
  cpu_kernel_time = filled (has_gaps ProcessMetric.cpu_kernel_time) u64_max c.cpu_kernel_time;
  cpu_cycles = filled (has_gaps ProcessMetric.cpu_cycles) u64_max c.cpu_cycles;
  working_set = filled (has_gaps ProcessMetric.working_set) u64_max c.working_set;
  peak_working_set = filled (has_gaps ProcessMetric.peak_working_set) u64_max c.peak_working_set;
  private_working_set =
      filled (has_gaps ProcessMetric.private_working_set) u64_max c.private_working_set;
  commit = filled (has_gaps ProcessMetric.commit) u64_max c.commit;
  paged_pool = filled (has_gaps ProcessMetric.paged_pool) u64_max c.paged_pool;
  non_paged_pool = filled (has_gaps ProcessMetric.non_paged_pool) u64_max c.non_paged_pool;
  page_faults = filled (has_gaps ProcessMetric.page_faults) u32_max c.page_faults;
  handles = filled (has_gaps ProcessMetric.handles) u32_max c.handles;
  threads = filled (has_gaps ProcessMetric.threads) u32_max c.threads;
  user_objects = filled (has_gaps ProcessMetric.user_objects) u32_max c.user_objects;
  gdi_objects = filled (has_gaps ProcessMetric.gdi_objects) u32_max c.gdi_objects;
  io_read_ops = filled (has_gaps ProcessMetric.io_read_ops) u64_max c.io_read_ops;
  io_write_ops = filled (has_gaps ProcessMetric.io_write_ops) u64_max c.io_write_ops;
  io_other_ops = filled (has_gaps ProcessMetric.io_other_ops) u64_max c.io_other_ops;
  io_read_bytes = filled (has_gaps ProcessMetric.io_read_bytes) u64_max c.io_read_bytes;
  io_write_bytes = filled (has_gaps ProcessMetric.io_write_bytes) u64_max c.io_write_bytes;
  io_other_bytes = filled (has_gaps ProcessMetric.io_other_bytes) u64_max c.io_other_bytes;
  disk_read_ops = filled (has_gaps ProcessMetric.disk_read_ops) u64_max c.disk_read_ops;
  disk_write_ops = filled (has_gaps ProcessMetric.disk_write_ops) u64_max c.disk_write_ops;
  disk_flush_ops = filled (has_gaps ProcessMetric.disk_flush_ops) u64_max c.disk_flush_ops;
  disk_read_bytes = filled (has_gaps ProcessMetric.disk_read_bytes) u64_max c.disk_read_bytes;
  disk_write_bytes = filled (has_gaps ProcessMetric.disk_write_bytes) u64_max c.disk_write_bytes;
  net_rx_bytes = filled (has_gaps ProcessMetric.net_rx_bytes) u64_max c.net_rx_bytes;
  net_tx_bytes = filled (has_gaps ProcessMetric.net_tx_bytes) u64_max c.net_tx_bytes;
  virtual_size = filled (has_gaps ProcessMetric.virtual_size) u64_max c.virtual_size;
  peak_virtual_size = filled (has_gaps ProcessMetric.peak_virtual_size) u64_max c.peak_virtual_size;
  peak_commit = filled (has_gaps ProcessMetric.peak_commit) u64_max c.peak_commit;
  peak_paged_pool = filled (has_gaps ProcessMetric.peak_paged_pool) u64_max c.peak_paged_pool;
  peak_non_paged_pool =
      filled (has_gaps ProcessMetric.peak_non_paged_pool) u64_max c.peak_non_paged_pool;
  hard_faults = filled (has_gaps ProcessMetric.hard_faults) u32_max c.hard_faults;
  peak_threads = filled (has_gaps ProcessMetric.peak_threads) u32_max c.peak_threads;
  context_switches = filled (has_gaps ProcessMetric.context_switches) u64_max c.context_switches;
  gpu_dedicated = filled (has_gaps ProcessMetric.gpu_dedicated) u64_max c.gpu_dedicated;
  gpu_shared = filled (has_gaps ProcessMetric.gpu_shared) u64_max c.gpu_shared;
  exclusive_mapped = filled (has_gaps ProcessMetric.exclusive_mapped) u64_max c.exclusive_mapped;
  vm_working_set = filled (has_gaps ProcessMetric.vm_working_set) u64_max c.vm_working_set;
}
