-- ===== src/Sample/Project.antt =====
-- What a subscriber sees of a sample does not depend on what the others want.
use uniproc_windows_agent.Base.{
  ℕ, Bool, true, negb, List, [], Option, ◌≡◌, if◌then◌else◌, arith, Bool-cases, inl, inr,
}
use uniproc_windows_agent.Snapshot.{Row}
use uniproc_windows_agent.Sample.Metrics.{ProcessMetric, MachineMetric, Sets}
use uniproc_windows_agent.Sample.Machine.{MachineSample, only_if}
use uniproc_windows_agent.Sample.Counters.{Columns, Extras, built, kept}
use uniproc_windows_agent.Sample.Counters
use uniproc_windows_agent.Sample.Machine
use uniproc_windows_agent.Sample.{MetricSpec, Sample, covers, project}

kept-kept :
    (w u : Bool) (c : Option (List ℕ)) → (w ≡ true → u ≡ true) → kept w (kept u c) ≡ kept w c
unfolding kept
kept-kept w u c h = ground (arith, h)

kept-built :
    (w u : Bool) (value : Row → ℕ) (rows : List Row)
    → (w ≡ true → u ≡ true)
    → kept w (built u value rows) ≡ built w value rows
unfolding kept built
kept-built w u value rows h = ground (arith, h)

only_if-only_if {ℓ} :
    {A : Type ℓ} (w u : Bool) (g : Option A)
    → (w ≡ true → u ≡ true)
    → only_if w (only_if u g) ≡ only_if w g
unfolding only_if
only_if-only_if w u g h = ground (arith, h)

module _ (S : Sets) where
  columns_project-project :
      (w u : S.process.Carrier) (c : Columns)
      → S.process.is_superset u w ≡ true
      → Counters.project S w (Counters.project S u c) ≡ Counters.project S w c
  unfolding Counters.project
  columns_project-project w u c sup =
      let has = (S.process.is_superset_iff u w).0 sup in
      let same : (m : ProcessMetric) (c : Option (List ℕ))
          → kept (S.process.contains w m) (kept (S.process.contains u m) c)
            ≡ kept (S.process.contains w m) c =
        λ m c. kept-kept _ _ c (has m) in
      λ i. record {
        cpu_user_time = same ProcessMetric.cpu_user_time c.cpu_user_time i;
        cpu_kernel_time = same ProcessMetric.cpu_kernel_time c.cpu_kernel_time i;
        cpu_cycles = same ProcessMetric.cpu_cycles c.cpu_cycles i;
        working_set = same ProcessMetric.working_set c.working_set i;
        peak_working_set = same ProcessMetric.peak_working_set c.peak_working_set i;
        private_working_set = same ProcessMetric.private_working_set c.private_working_set i;
        commit = same ProcessMetric.commit c.commit i;
        paged_pool = same ProcessMetric.paged_pool c.paged_pool i;
        non_paged_pool = same ProcessMetric.non_paged_pool c.non_paged_pool i;
        page_faults = same ProcessMetric.page_faults c.page_faults i;
        handles = same ProcessMetric.handles c.handles i;
        threads = same ProcessMetric.threads c.threads i;
        user_objects = same ProcessMetric.user_objects c.user_objects i;
        gdi_objects = same ProcessMetric.gdi_objects c.gdi_objects i;
        io_read_ops = same ProcessMetric.io_read_ops c.io_read_ops i;
        io_write_ops = same ProcessMetric.io_write_ops c.io_write_ops i;
        io_other_ops = same ProcessMetric.io_other_ops c.io_other_ops i;
        io_read_bytes = same ProcessMetric.io_read_bytes c.io_read_bytes i;
        io_write_bytes = same ProcessMetric.io_write_bytes c.io_write_bytes i;
        io_other_bytes = same ProcessMetric.io_other_bytes c.io_other_bytes i;
        disk_read_ops = same ProcessMetric.disk_read_ops c.disk_read_ops i;
        disk_write_ops = same ProcessMetric.disk_write_ops c.disk_write_ops i;
        disk_flush_ops = same ProcessMetric.disk_flush_ops c.disk_flush_ops i;
        disk_read_bytes = same ProcessMetric.disk_read_bytes c.disk_read_bytes i;
        disk_write_bytes = same ProcessMetric.disk_write_bytes c.disk_write_bytes i;
        net_rx_bytes = same ProcessMetric.net_rx_bytes c.net_rx_bytes i;
        net_tx_bytes = same ProcessMetric.net_tx_bytes c.net_tx_bytes i;
        virtual_size = same ProcessMetric.virtual_size c.virtual_size i;
        peak_virtual_size = same ProcessMetric.peak_virtual_size c.peak_virtual_size i;
        peak_commit = same ProcessMetric.peak_commit c.peak_commit i;
        peak_paged_pool = same ProcessMetric.peak_paged_pool c.peak_paged_pool i;
        peak_non_paged_pool = same ProcessMetric.peak_non_paged_pool c.peak_non_paged_pool i;
        hard_faults = same ProcessMetric.hard_faults c.hard_faults i;
        peak_threads = same ProcessMetric.peak_threads c.peak_threads i;
        context_switches = same ProcessMetric.context_switches c.context_switches i;
        gpu_dedicated = same ProcessMetric.gpu_dedicated c.gpu_dedicated i;
        gpu_shared = same ProcessMetric.gpu_shared c.gpu_shared i;
        exclusive_mapped = same ProcessMetric.exclusive_mapped c.exclusive_mapped i;
        vm_working_set = same ProcessMetric.vm_working_set c.vm_working_set i;
      }

  -- The columns built for what everybody wants, projected to what one wants, are the columns built
  -- for that one alone, when its set is among the wanted.
  pub project-build :
      (w u : S.process.Carrier) (rows : List Row) (x : Extras)
      → S.process.is_superset u w ≡ true
      → Counters.project S w (Counters.build S u rows x) ≡ Counters.build S w rows x
  unfolding Counters.project Counters.build
  project-build w u rows x sup =
      let has = (S.process.is_superset_iff u w).0 sup in
      let same : (m : ProcessMetric) (value : Row → ℕ)
          → kept (S.process.contains w m) (built (S.process.contains u m) value rows)
            ≡ built (S.process.contains w m) value rows =
        λ m value. kept-built _ _ value rows (has m) in
      λ i. record {
        cpu_user_time = same ProcessMetric.cpu_user_time (λ r. r.user_time) i;
        cpu_kernel_time = same ProcessMetric.cpu_kernel_time (λ r. r.kernel_time) i;
        cpu_cycles = same ProcessMetric.cpu_cycles (λ r. r.cycles) i;
        working_set = same ProcessMetric.working_set (λ r. r.working_set) i;
        peak_working_set = same ProcessMetric.peak_working_set (λ r. r.peak_working_set) i;
        private_working_set = same ProcessMetric.private_working_set (λ r. r.private_working_set) i;
        commit = same ProcessMetric.commit (λ r. r.commit) i;
        paged_pool = same ProcessMetric.paged_pool (λ r. r.paged_pool) i;
        non_paged_pool = same ProcessMetric.non_paged_pool (λ r. r.nonpaged_pool) i;
        page_faults = same ProcessMetric.page_faults (λ r. r.page_faults) i;
        handles = same ProcessMetric.handles (λ r. r.handles) i;
        threads = same ProcessMetric.threads (λ r. r.threads) i;
        user_objects = same ProcessMetric.user_objects x.user_objects i;
        gdi_objects = same ProcessMetric.gdi_objects x.gdi_objects i;
        io_read_ops = same ProcessMetric.io_read_ops (λ r. r.io_read_ops) i;
        io_write_ops = same ProcessMetric.io_write_ops (λ r. r.io_write_ops) i;
        io_other_ops = same ProcessMetric.io_other_ops (λ r. r.io_other_ops) i;
        io_read_bytes = same ProcessMetric.io_read_bytes (λ r. r.io_read_bytes) i;
        io_write_bytes = same ProcessMetric.io_write_bytes (λ r. r.io_write_bytes) i;
        io_other_bytes = same ProcessMetric.io_other_bytes (λ r. r.io_other_bytes) i;
        disk_read_ops = same ProcessMetric.disk_read_ops (λ r. r.disk_read_ops) i;
        disk_write_ops = same ProcessMetric.disk_write_ops (λ r. r.disk_write_ops) i;
        disk_flush_ops = same ProcessMetric.disk_flush_ops (λ r. r.disk_flush_ops) i;
        disk_read_bytes = same ProcessMetric.disk_read_bytes (λ r. r.disk_read_bytes) i;
        disk_write_bytes = same ProcessMetric.disk_write_bytes (λ r. r.disk_write_bytes) i;
        net_rx_bytes = same ProcessMetric.net_rx_bytes x.net_rx_bytes i;
        net_tx_bytes = same ProcessMetric.net_tx_bytes x.net_tx_bytes i;
        virtual_size = same ProcessMetric.virtual_size (λ r. r.virtual_size) i;
        peak_virtual_size = same ProcessMetric.peak_virtual_size (λ r. r.peak_virtual_size) i;
        peak_commit = same ProcessMetric.peak_commit (λ r. r.peak_commit) i;
        peak_paged_pool = same ProcessMetric.peak_paged_pool (λ r. r.peak_paged_pool) i;
        peak_non_paged_pool = same ProcessMetric.peak_non_paged_pool (λ r. r.peak_nonpaged_pool) i;
        hard_faults = same ProcessMetric.hard_faults (λ r. r.hard_faults) i;
        peak_threads = same ProcessMetric.peak_threads (λ r. r.peak_threads) i;
        context_switches = same ProcessMetric.context_switches (λ r. r.context_switches) i;
        gpu_dedicated = same ProcessMetric.gpu_dedicated x.gpu_dedicated i;
        gpu_shared = same ProcessMetric.gpu_shared x.gpu_shared i;
        exclusive_mapped = same ProcessMetric.exclusive_mapped x.exclusive_mapped i;
        vm_working_set = same ProcessMetric.vm_working_set x.vm_working_set i;
      }

  machine_project-project :
      (w u : S.machine.Carrier) (c : MachineSample)
      → S.machine.is_superset u w ≡ true
      → Machine.project S w (Machine.project S u c) ≡ Machine.project S w c
  unfolding Machine.project
  machine_project-project w u c sup =
      let has = (S.machine.is_superset_iff u w).0 sup in
      λ i. record {
        cpu = only_if-only_if _ _ c.cpu (has MachineMetric.cpu) i;
        cpu_name = only_if-only_if _ _ c.cpu_name (has MachineMetric.cpu) i;
        system_stats = only_if-only_if _ _ c.system_stats (has MachineMetric.cpu) i;
        cpu_inventory = only_if-only_if _ _ c.cpu_inventory (has MachineMetric.cpu) i;
        memory = only_if-only_if _ _ c.memory (has MachineMetric.memory) i;
        disk = only_if-only_if _ _ c.disk (has MachineMetric.disk) i;
        network = only_if-only_if _ _ c.network (has MachineMetric.network) i;
        processors = only_if-only_if _ _ c.processors (has MachineMetric.processors) i;
        gpus = only_if-only_if _ _ c.gpus (has MachineMetric.gpu) i;
        network_adapters =
            only_if-only_if _ _ c.network_adapters (has MachineMetric.network_adapters) i;
        temperatures = only_if-only_if _ _ c.temperatures (has MachineMetric.temperatures) i;
      }

  wider-is_empty :
      (w u : S.process.Carrier)
      → S.process.is_superset u w ≡ true
      → S.process.is_empty u ≡ true
      → S.process.is_empty w ≡ true
  wider-is_empty w u sup none_wanted = (S.process.is_empty_iff w).1 (λ m.
      elim (Bool-cases (S.process.contains w m)) [
        | inl e ↦ absurd (
            ground (
              arith,
              (S.process.is_superset_iff u w).0 sup m e,
              (S.process.is_empty_iff u).0 none_wanted m,
            ))
        | inr e ↦ e
      ])

  -- What a subscriber gets of a sample already cut down to a spec that covers its own is what it
  -- gets of the whole sample: cutting for others first takes nothing away.
  pub project-project :
      (w u : MetricSpec S) (s : Sample S)
      → covers u w ≡ true
      → project w (project u s) ≡ project w s
  unfolding project covers
  project-project w u s sup =
      let all = S.process.is_superset_iff u.processes w.processes in
      let processes : S.process.is_superset u.processes w.processes ≡ true = ground (arith, sup) in
      let machine : S.machine.is_superset u.machine w.machine ≡ true = ground (arith, sup) in
      let empty = wider-is_empty w.processes u.processes processes in
      let pids : (if negb (S.process.is_empty w.processes) then (project u s).pids else [])
          ≡ (if negb (S.process.is_empty w.processes) then s.pids else []) =
        ground (arith, empty) in
      let numbers : (if negb (S.process.is_empty w.processes)
            then (project u s).sequence_numbers
            else [])
          ≡ (if negb (S.process.is_empty w.processes) then s.sequence_numbers else []) =
        ground (arith, empty) in
      λ i. record s {
        wanted = w;
        pids = pids i;
        sequence_numbers = numbers i;
        columns = columns_project-project w.processes u.processes s.columns processes i;
        gpu_engines =
            only_if-only_if _ _ s.gpu_engines (all.0 processes ProcessMetric.gpu_engines) i;
        machine = machine_project-project w.machine u.machine s.machine machine i;
      }
