-- ===== src/Wire/Schema/Metrics.antt =====
-- The names of the counters in the windows schema, as src/wire/decode.rs lists them.

pub data WireProcessMetric : Type 0 where
  cpu_user_time cpu_kernel_time cpu_cycles working_set peak_working_set private_working_set commit
        paged_pool non_paged_pool page_faults handles threads user_objects gdi_objects io_read_ops
        io_write_ops io_other_ops io_read_bytes io_write_bytes io_other_bytes disk_read_ops
        disk_write_ops disk_flush_ops disk_read_bytes disk_write_bytes net_rx_bytes net_tx_bytes
        virtual_size peak_virtual_size peak_commit peak_paged_pool peak_non_paged_pool hard_faults
        peak_threads context_switches gpu_dedicated gpu_shared gpu_engines exclusive_mapped
        vm_working_set :
      WireProcessMetric

pub data WireMachineMetric : Type 0 where
  cpu memory disk network processors gpu network_adapters temperatures : WireMachineMetric
