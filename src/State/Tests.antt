-- ===== src/State/Tests.antt =====
-- What the core counts, at concrete inputs.
use native.Mathlib.Omega.{arith}
use uniproc_windows_agent.Base.{ℕ, ◌+◌, true, [], ◌∷◌, ◌≡◌, refl, nat_beq}
use uniproc_windows_agent.Base.Map.{get, insert}
use uniproc_windows_agent.Base.Words.{add64}
use uniproc_windows_agent.State.Events.{NetDelta, NetDeltas, network, NetworkEvent, add_net, recv}
use uniproc_windows_agent.State.TestData.{row, sight}
use uniproc_windows_agent.State.Entry.{ProcessEntry, sighted}
use uniproc_windows_agent.State.Table.{Listed}
use uniproc_windows_agent.State.Table.Keep.{new-IsTable}
use uniproc_windows_agent.State.Table.Lookup.{in_rows}
use uniproc_windows_agent.State.Table
use uniproc_windows_agent.State.Network.{
  charge, charge_get, counters_get, received_by, sent_by, stats_of, charge_one, charged,
  counted_for,
}
use uniproc_windows_agent.State.System.{
  SystemState, apply, apply_network, network_of, new, outside_rx, outside_tx, IsNetDelta,
  add_net-IsNetDelta, reconcile, reconcile_forgets,
}

abbrev delta : ℕ → ℕ → NetDelta
delta rx tx = record {
  rx_bytes = rx;
  tx_bytes = tx;
  rx_packets = 1;
  tx_packets = 1;
  loopback_rx_bytes = 1;
  loopback_tx_bytes = 2;
}

abbrev batch : NetDeltas
batch = (100, delta 10 20) ∷ (777, delta 5 5) ∷ []

apply_network_example :
    let t = (apply (network batch) new).machine_totals in
    (t.net_rx_bytes ≡ new.machine_totals.net_rx_bytes + outside_rx batch)
    × (t.net_tx_bytes ≡ new.machine_totals.net_tx_bytes + outside_tx batch)
unfolding new outside_rx outside_tx
apply_network_example = apply_network batch new (omega arith) (omega arith) (omega arith)

abbrev counting : SystemState
counting = record new {
  network =
      (10, record { sequence_number = 99; stats = record { sent_bytes = 7; recv_bytes = 8 } }) ∷ [];
}

reconcile_forgets_example :
    network_of 10 99 (reconcile (row 10 100 ∷ []) sight counting).0
    ≡ record { sent_bytes = 0; recv_bytes = 0 }
unfolding new in_rows
reconcile_forgets_example =
    reconcile_forgets (row 10 100 ∷ []) sight counting 10 99 new-IsTable
      (unfold Table.new in omega arith) (λ same. absurd (ground (arith, same)))

abbrev entry : ProcessEntry
entry = sighted (row 10 100) (sight (row 10 100))

abbrev listed : Listed
listed = (10, entry) ∷ []

abbrev traffic : NetDeltas
traffic = (10, delta 3 4) ∷ (20, delta 5 6) ∷ (10, delta 7 8) ∷ []

charge_get_example :
    let was = counters_get 10 entry.sequence_number counting.network in
    let is = counters_get 10 entry.sequence_number (charge traffic listed counting.network) in
    (is.sent_bytes ≡ was.sent_bytes + sent_by 10 traffic)
    × (is.recv_bytes ≡ was.recv_bytes + received_by 10 traffic)
unfolding get sighted counters_get stats_of sent_by received_by
charge_get_example =
    charge_get listed 10 entry refl traffic counting.network (omega arith) (omega arith)

old_traffic_dropped :
    counters_get 10 100 (charge traffic listed counting.network)
    ≡ record { sent_bytes = 12; recv_bytes = 10 }
unfolding get insert add64 sighted counters_get stats_of charge charge_one charged counted_for
old_traffic_dropped = refl

abbrev received : NetworkEvent
received = record { pid = 10; event_type = recv; size = 5; loopback = true }

add_net-IsNetDelta_example : IsNetDelta (add_net (delta 10 20) received)
add_net-IsNetDelta_example =
    add_net-IsNetDelta (delta 10 20) received (omega arith) (omega arith) (omega arith)
