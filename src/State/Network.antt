-- ===== src/State/Network.antt =====
-- crates/core/src/state/network.rs: the bytes each listed process sent and received.
use uniproc_windows_agent.Base.{
  ℕ, ◌+◌, ◌<◌, Bool, true, false, negb, List, [], ◌∷◌, Option, none, some, ◌==◌, nat_beq,
  if◌then◌else◌, ◌≡◌, ◌≢◌, refl, ap, sym, ◌∙◌, Bool-cases, Option-cases, inl, inr, arith,
}
use uniproc_windows_agent.Base.Map.{get, insert, get-insert}
use uniproc_windows_agent.Base.Words.{add64, u64_mod}
use uniproc_windows_agent.State.Events.{NetDelta, NetDeltas}
use uniproc_windows_agent.State.Entry.{ProcessEntry}
use uniproc_windows_agent.State.Table.{Listed}

pub record NetworkStats : Type 0 where
  pub sent_bytes : ℕ
  pub recv_bytes : ℕ

pub record Counted : Type 0 where
  pub sequence_number : ℕ
  pub stats : NetworkStats

abbrev pub NetworkCounters : Type 0
NetworkCounters = List (ℕ × Counted)

abbrev pub fresh : ℕ → Counted
fresh sequence_number = record {
  sequence_number = sequence_number;
  stats = record { sent_bytes = 0; recv_bytes = 0 };
}

-- What is counted for the process that the table lists: what another process left is not its own.
unfoldable pub counted_for : ProcessEntry → Option Counted → Counted
counted_for entry none = fresh entry.sequence_number
counted_for entry (some c) =
    if negb (c.sequence_number == entry.sequence_number) then fresh entry.sequence_number else c

unfoldable pub charged : NetDelta → Counted → Counted
charged d c = record c {
  stats = record {
    sent_bytes = add64 c.stats.sent_bytes d.tx_bytes;
    recv_bytes = add64 c.stats.recv_bytes d.rx_bytes;
  };
}

-- The body of the loop of `charge`: traffic of a pid that the table does not list is dropped.
unfoldable pub charge_one : ℕ → NetDelta → Option ProcessEntry → NetworkCounters → NetworkCounters
charge_one pid d none counters = counters
charge_one pid d (some entry) counters =
    insert pid (charged d (counted_for entry (get pid counters))) counters

unfoldable pub charge : NetDeltas → Listed → NetworkCounters → NetworkCounters
charge [] table counters = counters
charge ((pid, d) ∷ deltas) table counters =
    charge deltas table (charge_one pid d (get pid table) counters)

unfoldable pub is_listed : Option ProcessEntry → Counted → Bool
is_listed none c = false
is_listed (some e) c = e.sequence_number == c.sequence_number

unfoldable pub retain_listed : Listed → NetworkCounters → NetworkCounters
retain_listed table [] = []
retain_listed table ((pid, c) ∷ counters) =
    let rest = retain_listed table counters in
    if is_listed (get pid table) c then (pid, c) ∷ rest else rest

unfoldable pub stats_of : ℕ → Option Counted → NetworkStats
stats_of sequence_number none = (fresh 0).stats
stats_of sequence_number (some c) =
    if c.sequence_number == sequence_number then c.stats else (fresh 0).stats

unfoldable pub counters_get : ℕ → ℕ → NetworkCounters → NetworkStats
counters_get pid sequence_number counters = stats_of sequence_number (get pid counters)

-- The bytes that the deltas say the pid sent, and received.
unfoldable pub sent_by : ℕ → NetDeltas → ℕ
sent_by pid [] = 0
sent_by pid ((p, d) ∷ deltas) =
    let rest = sent_by pid deltas in if p == pid then d.tx_bytes + rest else rest

unfoldable pub received_by : ℕ → NetDeltas → ℕ
received_by pid [] = 0
received_by pid ((p, d) ∷ deltas) =
    let rest = received_by pid deltas in if p == pid then d.rx_bytes + rest else rest

module _ (table : Listed) (pid : ℕ) (e : ProcessEntry) (listed : get pid table ≡ some e) where
  -- One delta charged to the process listed.
  stats-charged :
      (d : NetDelta) (o : Option Counted)
      → let was = stats_of e.sequence_number o in
        let is = stats_of e.sequence_number (some (charged d (counted_for e o))) in
        (is.sent_bytes ≡ add64 was.sent_bytes d.tx_bytes)
        × (is.recv_bytes ≡ add64 was.recv_bytes d.rx_bytes)
  unfolding stats_of charged counted_for
  stats-charged d none = ground (arith, nat_beq.beq_iff e.sequence_number e.sequence_number)
  stats-charged d (some c) = ground (
    arith,
    nat_beq.beq_iff e.sequence_number e.sequence_number,
    nat_beq.beq_iff c.sequence_number e.sequence_number,
  )

  charge_one-get :
      (p : ℕ) (d : NetDelta) (o : Option ProcessEntry) (counters : NetworkCounters)
      → o ≡ get p table
      → let was = counters_get pid e.sequence_number counters in
        let is = counters_get pid e.sequence_number (charge_one p d o counters) in
        (is.sent_bytes ≡ (if p == pid then add64 was.sent_bytes d.tx_bytes else was.sent_bytes))
        × (is.recv_bytes ≡ (if p == pid then add64 was.recv_bytes d.rx_bytes else was.recv_bytes))
  unfolding charge_one counters_get
  charge_one-get p d none counters at = elim (Bool-cases (p == pid)) [
    | inl f ↦ absurd (cc (at, ap (λ k. get k table) ((nat_beq.beq_iff p pid).0 f), listed))
    | inr f ↦ rw f (refl, refl)
  ]
  charge_one-get p d (some entry) counters at = elim (Bool-cases (p == pid)) [
    | inl f ↦
        let same = (nat_beq.beq_iff p pid).0 f in
        let mine : entry ≡ e = ground (arith, at, ap (λ k. get k table) same, listed) in
        rw
          (
            get-insert p pid (charged d (counted_for entry (get p counters))) counters,
            f,
            same,
            mine,
          )
          (stats-charged d (get pid counters))
    | inr f ↦
        rw (get-insert p pid (charged d (counted_for entry (get p counters))) counters, f)
          (refl, refl)
  ]

  -- A batch of deltas charges the process listed with all the bytes of its pid, while the sums fit
  -- a u64.
  pub charge_get :
      (deltas : NetDeltas) (counters : NetworkCounters)
      → let was = counters_get pid e.sequence_number counters in
        let is = counters_get pid e.sequence_number (charge deltas table counters) in
        was.sent_bytes + sent_by pid deltas < u64_mod
        → was.recv_bytes + received_by pid deltas < u64_mod
        → (is.sent_bytes ≡ was.sent_bytes + sent_by pid deltas)
          × (is.recv_bytes ≡ was.recv_bytes + received_by pid deltas)
  unfolding charge sent_by received_by add64
  charge_get [] counters hs hr = (omega arith, omega arith)
  charge_get ((p, d) ∷ deltas) counters hs hr =
      let next = charge_one p d (get p table) counters in
      let one = charge_one-get p d (get p table) counters refl in
      let rest = charge_get deltas next in grind (arith, one, rest, hs, hr)

-- What `retain_listed` keeps is of a process listed.
retained-is_listed :
    (table : Listed) (pid : ℕ) (c : Counted) (counters : NetworkCounters)
    → get pid (retain_listed table counters) ≡ some c
    → is_listed (get pid table) c ≡ true
unfolding retain_listed get
retained-is_listed table pid c [] = λ h. absurd (cc)
retained-is_listed table pid c ((p, d) ∷ counters) =
    let later = retained-is_listed table pid c counters in
    elim (Bool-cases (is_listed (get p table) d)) [
      | inl f ↦
          let same : p ≡ pid → is_listed (get pid table) d ≡ true =
            λ q. sym (ap (λ k. is_listed (get k table) d) q) ∙ f in
          rw (f, retain_listed) (λ h. ground (arith, h, same, later))
      | inr f ↦ rw (f, retain_listed) later
    ]

listed_under :
    (o : Option ProcessEntry) (c : Counted)
    → is_listed o c ≡ true
    → (e : ProcessEntry) × (o ≡ some e) × (e.sequence_number ≡ c.sequence_number)
unfolding is_listed
listed_under none c h = absurd (ground (arith, h))
listed_under (some e) c h = (e, refl, (nat_beq.beq_iff e.sequence_number c.sequence_number).0 h)

-- A process that the table does not list has nothing counted once the unlisted are forgotten.
pub retain_listed-get :
    (table : Listed) (pid sequence_number : ℕ) (counters : NetworkCounters)
    → ((e : ProcessEntry) → get pid table ≡ some e → e.sequence_number ≢ sequence_number)
    → counters_get pid sequence_number (retain_listed table counters)
      ≡ record { sent_bytes = 0; recv_bytes = 0 }
unfolding counters_get stats_of
retain_listed-get table pid sequence_number counters unlisted =
    elim (Option-cases (get pid (retain_listed table counters))) [
      | inl e ↦ rw e refl
      | inr (c, e) ↦
          let (entry, at, same) =
            listed_under (get pid table) c (retained-is_listed table pid c counters e) in
          rw e (elim (Bool-cases (c.sequence_number == sequence_number)) [
            | inl g ↦
                absurd (
                  unlisted entry at
                    (same ∙ (nat_beq.beq_iff c.sequence_number sequence_number).0 g))
            | inr g ↦ rw g refl
          ])
    ]
