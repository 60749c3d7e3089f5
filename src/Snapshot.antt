-- ===== src/Snapshot.antt =====
-- crates/core/src/snapshot.rs: a row of the kernel's process list. Reading the list itself is a
-- system call over raw memory.
use uniproc_windows_agent.Base.{ℕ, Bool, String, ◌==◌, nat_beq, string_beq, ◌&&◌, ◌||◌}
use uniproc_windows_agent.Base.Int.{ℤ}

abbrev pub idle_process_pid : ℕ
idle_process_pid = 0

abbrev pub system_process_pid : ℕ
system_process_pid = 4

-- The names of `KERNEL_PSEUDO_PROCESSES`.
is_kernel_name : String → Bool
is_kernel_name name = name == "Registry" || name == "Memory Compression" || name == "Secure System"

unfoldable pub is_kernel_pseudo_process : ℕ → ℕ → String → Bool
unfolding is_kernel_name
is_kernel_pseudo_process pid parent_pid image_name =
    pid == idle_process_pid
    || pid == system_process_pid
    || (parent_pid == system_process_pid && is_kernel_name image_name)

-- Counters are cumulative and raw; every field is an unsigned word, but `base_priority`.
pub record Row : Type 0 where
  pub offset : ℕ
  pub end : ℕ
  pub pid : ℕ
  pub parent_pid : ℕ
  pub session_id : ℕ
  pub sequence_number : ℕ
  pub create_time : ℕ
  pub base_priority : ℤ
  pub handles : ℕ
  pub threads : ℕ
  pub peak_threads : ℕ
  pub suspended : Bool
  pub user_time : ℕ
  pub kernel_time : ℕ
  pub cycles : ℕ
  pub context_switches : ℕ
  pub working_set : ℕ
  pub peak_working_set : ℕ
  pub private_working_set : ℕ
  pub virtual_size : ℕ
  pub peak_virtual_size : ℕ
  pub commit : ℕ
  pub peak_commit : ℕ
  pub paged_pool : ℕ
  pub peak_paged_pool : ℕ
  pub nonpaged_pool : ℕ
  pub peak_nonpaged_pool : ℕ
  pub page_faults : ℕ
  pub hard_faults : ℕ
  pub io_read_ops : ℕ
  pub io_write_ops : ℕ
  pub io_other_ops : ℕ
  pub io_read_bytes : ℕ
  pub io_write_bytes : ℕ
  pub io_other_bytes : ℕ
  pub disk_read_ops : ℕ
  pub disk_write_ops : ℕ
  pub disk_flush_ops : ℕ
  pub disk_read_bytes : ℕ
  pub disk_write_bytes : ℕ
  pub job_object_id : ℕ
