-- ===== src/Sample/Metrics.antt =====
-- crates/core/src/sample.rs: the counters a subscriber can want, and sets of them.
use uniproc_windows_agent.Base.{Bool, true, false, List, ◌↔◌, ◌||◌, ◌≡◌, ◌≢◌}

pub data ProcessMetric : Type 0 where
  cpu_user_time cpu_kernel_time cpu_cycles working_set peak_working_set private_working_set commit
        paged_pool non_paged_pool page_faults handles threads user_objects gdi_objects io_read_ops
        io_write_ops io_other_ops io_read_bytes io_write_bytes io_other_bytes disk_read_ops
        disk_write_ops disk_flush_ops disk_read_bytes disk_write_bytes net_rx_bytes net_tx_bytes
        virtual_size peak_virtual_size peak_commit peak_paged_pool peak_non_paged_pool hard_faults
        peak_threads context_switches gpu_dedicated gpu_shared gpu_engines exclusive_mapped
        vm_working_set :
      ProcessMetric

pub data MachineMetric : Type 0 where
  cpu memory disk network processors gpu network_adapters temperatures : MachineMetric

unfoldable pub has_gaps : ProcessMetric → Bool
has_gaps ProcessMetric.page_faults = false
has_gaps ProcessMetric.hard_faults = false
has_gaps _ = true

-- `enumset::EnumSet` of `E`: the operations used of it, with their documented behaviour.
pub record EnumSet (E : Type 0) : Type 1 where
  pub Carrier : Type 0
  pub empty : Carrier
  pub contains : Carrier → E → Bool
  pub union : Carrier → Carrier → Carrier
  pub is_superset : Carrier → Carrier → Bool
  pub is_empty : Carrier → Bool
  pub members : Carrier → List E
  pub of_members : List E → Carrier
  pub remove : Carrier → E → Carrier
  pub contains-empty : (m : E) → contains empty m ≡ false
  pub contains-union :
      (s t : Carrier) (m : E) → contains (union s t) m ≡ (contains s m || contains t m)
  pub is_superset_iff :
      (s t : Carrier)
      → (is_superset s t ≡ true) ↔ ((m : E) → contains t m ≡ true → contains s m ≡ true)
  pub is_empty_iff : (s : Carrier) → (is_empty s ≡ true) ↔ ((m : E) → contains s m ≡ false)
  pub of_members-members : (s : Carrier) → of_members (members s) ≡ s
  pub contains-remove_self : (s : Carrier) (m : E) → contains (remove s m) m ≡ false
  pub contains-remove : (s : Carrier) (m k : E) → k ≢ m → contains (remove s m) k ≡ contains s k

-- The two sets of the program.
pub record Sets : Type 1 where
  pub process : EnumSet ProcessMetric
  pub machine : EnumSet MachineMetric
