-- ===== src/State/System.antt =====
-- crates/core/src/state/mod.rs: the core's picture of the machine, its processes, what they sent and
-- received, and the machine's totals.
use uniproc_windows_agent.Base.{
  ℕ, ◌+◌, ◌-◌, ◌≤◌, ◌<◌, String, List, [], ◌∷◌, All, ◌≡◌, ◌≢◌, sym, ap, ◌∙◌, suc, some, arith,
}
use uniproc_windows_agent.Base.Words.{add64, sub64, u64_mod}
use uniproc_windows_agent.Model.{ProcessState}
use uniproc_windows_agent.Snapshot.{Row}
use uniproc_windows_agent.Report.{Diff}
use uniproc_windows_agent.State.Events.{
  DiskDeltas, Image, NetDelta, NetDeltas, StateChange, disk, network, NetworkEvent, add_net,
  add_net_by,
}
use uniproc_windows_agent.State.Entry.{ImageRequest, Sighted}
use uniproc_windows_agent.State.Table.{ProcessTable, pending}
use uniproc_windows_agent.State.Table
use uniproc_windows_agent.State.Network.{
  NetworkCounters, NetworkStats, charge, counters_get, retain_listed, retain_listed-get,
}
use uniproc_windows_agent.State.Table.Lookup.{in_rows, sequence_of}
use uniproc_windows_agent.State.Table.Exact.{IsTable, reconcile_exact}

pub record MachineTotals : Type 0 where
  pub disk_read_bytes : ℕ
  pub disk_write_bytes : ℕ
  pub disk_read_ops : ℕ
  pub disk_write_ops : ℕ
  pub net_rx_bytes : ℕ
  pub net_tx_bytes : ℕ

pub record SystemState : Type 0 where
  pub processes : ProcessTable
  pub network : NetworkCounters
  pub machine_totals : MachineTotals

unfoldable pub new : SystemState
unfolding Table.new
new = record {
  processes = Table.new;
  network = [];
  machine_totals = record {
    disk_read_bytes = 0;
    disk_write_bytes = 0;
    disk_read_ops = 0;
    disk_write_ops = 0;
    net_rx_bytes = 0;
    net_tx_bytes = 0;
  };
}

unfoldable pub total_disk : DiskDeltas → MachineTotals → MachineTotals
total_disk [] t = t
total_disk ((_, d) ∷ deltas) t = total_disk deltas (record t {
  disk_read_bytes = add64 t.disk_read_bytes d.read_bytes;
  disk_read_ops = add64 t.disk_read_ops d.read_ops;
  disk_write_bytes = add64 t.disk_write_bytes d.write_bytes;
  disk_write_ops = add64 t.disk_write_ops d.write_ops;
})

abbrev pub total_delta : NetDelta → MachineTotals → MachineTotals
total_delta d t = record t {
  net_rx_bytes = add64 t.net_rx_bytes (sub64 d.rx_bytes d.loopback_rx_bytes);
  net_tx_bytes = add64 t.net_tx_bytes (sub64 d.tx_bytes d.loopback_tx_bytes);
}

unfoldable pub total_network : NetDeltas → MachineTotals → MachineTotals
total_network [] t = t
total_network ((_, d) ∷ deltas) t = total_network deltas (total_delta d t)

unfoldable pub apply : StateChange → SystemState → SystemState
apply (disk deltas) s = record s { machine_totals = total_disk deltas s.machine_totals }
apply (network deltas) s = record s {
  machine_totals = total_network deltas s.machine_totals;
  network = charge deltas s.processes.processes s.network;
}

unfoldable pub reconcile :
    List Row → (Row → Sighted) → SystemState → SystemState × List ImageRequest
reconcile rows sight s =
    let (processes, asked) = Table.reconcile rows sight s.processes in
    (
      record s { processes = processes; network = retain_listed processes.processes s.network },
      asked,
    )

unfoldable pub judge : Image → SystemState → SystemState
judge image s = record s { processes = Table.judge image s.processes }

unfoldable pub observe : ProcessState → SystemState → SystemState
observe state s = record s { processes = Table.observe state s.processes }

unfoldable pub take : {Sample : Type 0} → Diff Sample → SystemState → Diff Sample × SystemState
take diff s =
    let (diff', processes) = Table.take diff s.processes in
    (diff', record s { processes = processes })

unfoldable pub pending_images : SystemState → List String
pending_images s = pending s.processes.images

unfoldable pub network_of : ℕ → ℕ → SystemState → NetworkStats
network_of pid sequence_number s = counters_get pid sequence_number s.network

-- The bytes that passed no loopback address.
unfoldable pub outside_rx : NetDeltas → ℕ
outside_rx [] = 0
outside_rx ((_, d) ∷ deltas) = (d.rx_bytes - d.loopback_rx_bytes) + outside_rx deltas

unfoldable pub outside_tx : NetDeltas → ℕ
outside_tx [] = 0
outside_tx ((_, d) ∷ deltas) = (d.tx_bytes - d.loopback_tx_bytes) + outside_tx deltas

-- A delta's loopback bytes are among its bytes.
abbrev pub IsNetDelta : NetDelta → Type 0
IsNetDelta d =
    (d.loopback_rx_bytes ≤ d.rx_bytes)
    × (d.loopback_tx_bytes ≤ d.tx_bytes)
    × (d.rx_bytes < u64_mod)
    × (d.tx_bytes < u64_mod)

total_network-outside :
    (deltas : NetDeltas) (t : MachineTotals)
    → All (λ kv. IsNetDelta kv.1) deltas
    → t.net_rx_bytes + outside_rx deltas < u64_mod
    → t.net_tx_bytes + outside_tx deltas < u64_mod
    → let t' = total_network deltas t in
      (t'.net_rx_bytes ≡ t.net_rx_bytes + outside_rx deltas)
      × (t'.net_tx_bytes ≡ t.net_tx_bytes + outside_tx deltas)
unfolding total_network outside_rx outside_tx add64 sub64
total_network-outside [] t h hr ht = (omega arith, omega arith)
total_network-outside ((_, d) ∷ deltas) t h hr ht =
    let (low, hig, sr, st) = h.0 in
    let rx : add64 t.net_rx_bytes (sub64 d.rx_bytes d.loopback_rx_bytes)
        ≡ t.net_rx_bytes + (d.rx_bytes - d.loopback_rx_bytes) =
      omega (arith, low, sr, hr) in
    let tx : add64 t.net_tx_bytes (sub64 d.tx_bytes d.loopback_tx_bytes)
        ≡ t.net_tx_bytes + (d.tx_bytes - d.loopback_tx_bytes) =
      omega (arith, hig, st, ht) in
    let rest =
      total_network-outside deltas (total_delta d t) h.1 (omega (arith, rx, hr))
        (omega (arith, tx, ht)) in
    (omega (arith, rest.0, rx), omega (arith, rest.1, tx))

-- A delta that holds no more loopback bytes than bytes goes on so whatever event is added, while its
-- bytes fit a u64.
pub add_net-IsNetDelta :
    (d : NetDelta) (e : NetworkEvent)
    → IsNetDelta d
    → d.rx_bytes + e.size < u64_mod
    → d.tx_bytes + e.size < u64_mod
    → IsNetDelta (add_net d e)
unfolding add_net add_net_by add64
add_net-IsNetDelta d e h hr ht = ground (arith, h)

-- A batch of network deltas adds to the machine's totals exactly the bytes that passed no loopback
-- address, where each delta's loopback bytes are among its bytes and the sums fit a u64.
pub apply_network :
    (deltas : NetDeltas) (s : SystemState)
    → All (λ kv. IsNetDelta kv.1) deltas
    → s.machine_totals.net_rx_bytes + outside_rx deltas < u64_mod
    → s.machine_totals.net_tx_bytes + outside_tx deltas < u64_mod
    → let t = (apply (network deltas) s).machine_totals in
      (t.net_rx_bytes ≡ s.machine_totals.net_rx_bytes + outside_rx deltas)
      × (t.net_tx_bytes ≡ s.machine_totals.net_tx_bytes + outside_tx deltas)
unfolding apply
apply_network deltas s = total_network-outside deltas s.machine_totals

-- After a snapshot nothing is counted for a process that is not the last row of its pid: what the
-- processes before it sent and received is forgotten. The reconcile counter has not run over.
pub reconcile_forgets :
    (rows : List Row) (sight : Row → Sighted) (s : SystemState) (pid sequence_number : ℕ)
    → IsTable s.processes
    → suc s.processes.reconciled < u64_mod
    → in_rows pid rows ≢ some sequence_number
    → network_of pid sequence_number (reconcile rows sight s).0
      ≡ record { sent_bytes = 0; recv_bytes = 0 }
unfolding reconcile network_of
reconcile_forgets rows sight s pid sequence_number v small other =
    let table = (Table.reconcile rows sight s.processes).0.processes in
    retain_listed-get table pid sequence_number s.network (λ e at same. other (
      sym (reconcile_exact rows sight s.processes pid v small)
      ∙ (ap sequence_of at ∙ ap some same)))
