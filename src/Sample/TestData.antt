-- ===== src/Sample/TestData.antt =====
-- A sample of two processes, for the tests.
use uniproc_windows_agent.Base.{List, [], ◌∷◌, none, some}
use uniproc_windows_agent.Snapshot.{Row}
use uniproc_windows_agent.State.TestData.{row}
use uniproc_windows_agent.Sample.ListSet.{sets}
use uniproc_windows_agent.Sample.Metrics.{MachineMetric, ProcessMetric}
use uniproc_windows_agent.Sample.{MetricSpec, Sample}
use uniproc_windows_agent.Sample.Counters.{Extras}
use uniproc_windows_agent.Sample.Counters

abbrev pub wants : List ProcessMetric → MetricSpec sets
wants processes = record {
  interval = 1_000_000_000;
  processes = processes;
  machine = MachineMetric.cpu ∷ [];
}

abbrev pub narrow : MetricSpec sets
narrow = wants (ProcessMetric.handles ∷ [])

abbrev pub wide : MetricSpec sets
wide = wants (ProcessMetric.handles ∷ ProcessMetric.user_objects ∷ [])

abbrev pub extras : Extras
extras = record {
  user_objects = λ r. 3;
  gdi_objects = λ r. 4;
  net_rx_bytes = λ r. 0;
  net_tx_bytes = λ r. 0;
  gpu_dedicated = λ r. 0;
  gpu_shared = λ r. 0;
  exclusive_mapped = λ r. 0;
  vm_working_set = λ r. 0;
}

abbrev pub rows : List Row
rows = row 4 1 ∷ row 8 2 ∷ []

abbrev pub sample : Sample sets
sample = record {
  snapshot = 7;
  sampled_at = 100;
  period = 1_000_000_000;
  wanted = wide;
  passport_etag = 0;
  pids = 4 ∷ 8 ∷ [];
  sequence_numbers = 1 ∷ 2 ∷ [];
  columns = Counters.build sets wide.processes rows extras;
  gpu_engines = none;
  machine = record {
    cpu = none;
    cpu_name = some "cpu";
    system_stats = none;
    cpu_inventory = none;
    memory = none;
    disk = none;
    network = none;
    processors = none;
    gpus = none;
    network_adapters = none;
    temperatures = none;
  };
}
