-- ===== src/Wire/Schema/Samples.antt =====
-- A sample, and what a subscriber asks for, as the setters of src/wire/encode.rs fill it and src/wire/decode.rs reads it.
use uniproc_windows_agent.Base.{ℕ, List, Option, nat_beq, string_beq}
use uniproc_windows_agent.Wire.Outcome.{Pointer, Wire}
use uniproc_windows_agent.Wire.Schema.Metrics.{WireProcessMetric, WireMachineMetric}

pub record ProcessGpuEngineMessage : Type 0 where
  pub row : ℕ
  pub adapter_luid : ℕ
  pub engine : ℕ
  pub running_time : ℕ

pub record MetricSpecMessage : Type 0 where
  pub interval_ms : ℕ
  pub processes : Pointer (List (Wire WireProcessMetric))
  pub machine : Pointer (List (Wire WireMachineMetric))

pub record ProcessColumnsMessage : Type 0 where
  pub snapshot : ℕ
  pub sampled_at : ℕ
  pub passport_etag : ℕ
  pub pids : Pointer (List ℕ)
  pub sequence_numbers : Pointer (List ℕ)
  pub cpu_user_time : Option (Pointer (List ℕ))
  pub cpu_kernel_time : Option (Pointer (List ℕ))
  pub cpu_cycles : Option (Pointer (List ℕ))
  pub working_set : Option (Pointer (List ℕ))
  pub peak_working_set : Option (Pointer (List ℕ))
  pub private_working_set : Option (Pointer (List ℕ))
  pub commit : Option (Pointer (List ℕ))
  pub paged_pool : Option (Pointer (List ℕ))
  pub non_paged_pool : Option (Pointer (List ℕ))
  pub page_faults : Option (Pointer (List ℕ))
  pub handles : Option (Pointer (List ℕ))
  pub threads : Option (Pointer (List ℕ))
  pub user_objects : Option (Pointer (List ℕ))
  pub gdi_objects : Option (Pointer (List ℕ))
  pub io_read_ops : Option (Pointer (List ℕ))
  pub io_write_ops : Option (Pointer (List ℕ))
  pub io_other_ops : Option (Pointer (List ℕ))
  pub io_read_bytes : Option (Pointer (List ℕ))
  pub io_write_bytes : Option (Pointer (List ℕ))
  pub io_other_bytes : Option (Pointer (List ℕ))
  pub disk_read_ops : Option (Pointer (List ℕ))
  pub disk_write_ops : Option (Pointer (List ℕ))
  pub disk_flush_ops : Option (Pointer (List ℕ))
  pub disk_read_bytes : Option (Pointer (List ℕ))
  pub disk_write_bytes : Option (Pointer (List ℕ))
  pub net_rx_bytes : Option (Pointer (List ℕ))
  pub net_tx_bytes : Option (Pointer (List ℕ))
  pub virtual_size : Option (Pointer (List ℕ))
  pub peak_virtual_size : Option (Pointer (List ℕ))
  pub peak_commit : Option (Pointer (List ℕ))
  pub peak_paged_pool : Option (Pointer (List ℕ))
  pub peak_non_paged_pool : Option (Pointer (List ℕ))
  pub hard_faults : Option (Pointer (List ℕ))
  pub peak_threads : Option (Pointer (List ℕ))
  pub context_switches : Option (Pointer (List ℕ))
  pub gpu_dedicated : Option (Pointer (List ℕ))
  pub gpu_shared : Option (Pointer (List ℕ))
  pub exclusive_mapped : Option (Pointer (List ℕ))
  pub vm_working_set : Option (Pointer (List ℕ))
  pub gpu_engines : Option (Pointer (List ProcessGpuEngineMessage))
