-- ===== src/State/Events.antt =====
-- crates/core/src/state/events.rs: what the providers tell the state. Counters are `u64`, and
-- their sums wrap as in a release build.
use uniproc_windows_agent.Base.{ℕ, Bool, String, List, if◌then◌else◌}
use uniproc_windows_agent.Base.Words.{add64}

pub data ProcessSignature : Type 0 where
  unknown unsigned microsoft third_party : ProcessSignature

pub record ImageVerdict : Type 0 where
  pub signature : ProcessSignature
  pub is_windows_process : Bool
  pub display_name : String
  pub publisher : String

pub record Image : Type 0 where
  pub path : String
  pub verdict : ImageVerdict

pub data DiskEventType : Type 0 where
  read write : DiskEventType

pub record DiskEvent : Type 0 where
  pub event_type : DiskEventType
  pub transfer_size : ℕ

pub record DiskDelta : Type 0 where
  pub read_bytes : ℕ
  pub write_bytes : ℕ
  pub read_ops : ℕ
  pub write_ops : ℕ

add_disk_by : DiskEventType → DiskDelta → ℕ → DiskDelta
unfolding add64
add_disk_by read d size = record d {
  read_bytes = add64 d.read_bytes size;
  read_ops = add64 d.read_ops 1;
}
add_disk_by write d size = record d {
  write_bytes = add64 d.write_bytes size;
  write_ops = add64 d.write_ops 1;
}

unfoldable pub add_disk : DiskDelta → DiskEvent → DiskDelta
unfolding add_disk_by
add_disk d e = add_disk_by e.event_type d e.transfer_size

pub data NetworkEventType : Type 0 where
  send recv connect accept : NetworkEventType

pub record NetworkEvent : Type 0 where
  pub pid : ℕ
  pub event_type : NetworkEventType
  pub size : ℕ
  pub loopback : Bool

pub record NetDelta : Type 0 where
  pub rx_bytes : ℕ
  pub tx_bytes : ℕ
  pub rx_packets : ℕ
  pub tx_packets : ℕ
  pub loopback_rx_bytes : ℕ
  pub loopback_tx_bytes : ℕ

unfoldable pub add_net_by : NetworkEventType → NetDelta → ℕ → Bool → NetDelta
unfolding add64
add_net_by send d size loopback = record d {
  tx_bytes = add64 d.tx_bytes size;
  tx_packets = add64 d.tx_packets 1;
  loopback_tx_bytes = if loopback then add64 d.loopback_tx_bytes size else d.loopback_tx_bytes;
}
add_net_by recv d size loopback = record d {
  rx_bytes = add64 d.rx_bytes size;
  rx_packets = add64 d.rx_packets 1;
  loopback_rx_bytes = if loopback then add64 d.loopback_rx_bytes size else d.loopback_rx_bytes;
}
add_net_by connect d size loopback = d
add_net_by accept d size loopback = d

unfoldable pub add_net : NetDelta → NetworkEvent → NetDelta
unfolding add_net_by
add_net d e = add_net_by e.event_type d e.size e.loopback

-- Keyed by pid, and by thread id.
abbrev pub NetDeltas : Type 0
NetDeltas = List (ℕ × NetDelta)

abbrev pub DiskDeltas : Type 0
DiskDeltas = List (ℕ × DiskDelta)

pub data StateChange : Type 0 where
  disk : DiskDeltas → StateChange
  network : NetDeltas → StateChange
