-- ===== src/ProcessEvents/History/Read.antt =====
-- crates/core/src/process_events/history.rs: what one watcher reads, and what it is told it missed.
use Prim.Native.Nat.{min, max}
use native.Mathlib.Nat.{zero-add, add-zero, suc-add}
use mathlib.Core.Path.{◌∙◌}
use uniproc_windows_agent.Base.{
  ℕ, zero, suc, ◌+◌, ◌-◌, ◌≤◌, ◌<◌, Bool, true, false, List, [], ◌∷◌, Option, none, some, ◌&&◌,
  ◌==◌, nat_beq, ltb, if◌then◌else◌, length, drop, take, length-drop, ◌≡◌, refl, sym, ap, inl, inr,
  Bool-cases, arith,
}
use uniproc_windows_agent.Base.Words.{u64_mod, add64, u32_max, saturate32, saturating_add32}
use uniproc_windows_agent.ProcessEvents.{ProcessEvent, ProcessEventBatch}
use uniproc_windows_agent.ProcessEvents.History.{
  Entry, History, Cursor, collect, read_from, skipped, read,
}
use uniproc_windows_agent.ProcessEvents.History.Hold.{Holds, events_of}

-- The kernel's losses before each of the first `n` entries.
unfoldable pub lost_in : ℕ → List Entry → ℕ
lost_in zero es = 0
lost_in (suc n) [] = 0
lost_in (suc n) (e ∷ es) = e.lost_before + lost_in n es

collect-take :
    (m b : ℕ) (any : Bool) (lost : ℕ) (es : List Entry)
    → let r = (collect m b any lost es).0 in r ≡ take (length r) (events_of es)
unfolding collect
collect-take m b any lost [] = refl
collect-take m b any lost (e ∷ es) =
    let sum = add64 b e.bytes in
    elim (Bool-cases (any && ltb m sum)) [
      | inl stop ↦ rw (stop, collect)
      | inr more ↦
          rw (more, collect)
            (ap (λ r. e.event ∷ r)
              (collect-take m sum true (saturating_add32 lost e.lost_before) es))
    ]

collect-lost :
    (m b : ℕ) (any : Bool) (lost : ℕ) (es : List Entry)
    → lost ≤ u32_max
    → let r = collect m b any lost es in r.1 ≡ min (lost + lost_in (length r.0) es) u32_max
unfolding collect lost_in saturating_add32
collect-lost m b any lost [] h = omega arith
collect-lost m b any lost (e ∷ es) h =
    let sum = add64 b e.bytes in
    let lost' = saturating_add32 lost e.lost_before in
    let small : lost' ≤ u32_max = omega arith in
    elim (Bool-cases (any && ltb m sum)) [
      | inl stop ↦ rw (stop, collect) (omega arith)
      | inr more ↦ rw (more, collect) (omega (arith, collect-lost m sum true lost' es small))
    ]

collect_some :
    (m b lost : ℕ) (es : List Entry) → 0 < length es → 0 < length (collect m b false lost es).0
unfolding collect
collect_some m b lost [] h = h
collect_some m b lost (e ∷ es) h = omega arith

length-collect :
    (m b : ℕ) (any : Bool) (lost : ℕ) (es : List Entry)
    → length (collect m b any lost es).0 ≤ length es
unfolding collect
length-collect m b any lost [] = omega arith
length-collect m b any lost (e ∷ es) =
    let sum = add64 b e.bytes in
    elim (Bool-cases (any && ltb m sum)) [
      | inl stop ↦ rw (stop, collect) (omega arith)
      | inr more ↦
          rw (more, collect)
            (omega (arith, length-collect m sum true (saturating_add32 lost e.lost_before) es))
    ]

events_of-drop : (n : ℕ) (es : List Entry) → events_of (drop n es) ≡ drop n (events_of es)
events_of-drop zero es = refl
events_of-drop (suc n) [] = refl
events_of-drop (suc n) (e ∷ es) = events_of-drop n es

length-events_of : (es : List Entry) → length (events_of es) ≡ length es
length-events_of [] = refl
length-events_of (e ∷ es) = ap suc (length-events_of es)

drop-drop {ℓ} : {A : Type ℓ} (n m : ℕ) (xs : List A) → drop m (drop n xs) ≡ drop (n + m) xs
drop-drop zero m xs = rw zero-add
drop-drop (suc n) zero [] = rw add-zero
drop-drop (suc n) (suc m) [] = rw suc-add
drop-drop (suc n) m (x ∷ xs) = rw suc-add (drop-drop n m xs)

-- The entries a read starts from are the events from its index on.
events_from :
    (all : List ProcessEvent) (h : History) (at : ℕ)
    → Holds all h
    → h.first ≤ at
    → events_of (drop (at - h.first) h.entries) ≡ drop at all
events_from all h at w le =
    let sum : h.first + (at - h.first) ≡ at = omega arith in
    events_of-drop (at - h.first) h.entries
    ∙ (ap (drop (at - h.first)) w.held
        ∙ (drop-drop h.first (at - h.first) all ∙ ap (λ n. drop n all) sum))

abbrev pub sent : Option ProcessEventBatch → List ProcessEvent
sent none = []
sent (some batch) = batch.events

-- A cursor that no read has moved stands at 0.
abbrev pub IsFresh : Cursor → Type 0
IsFresh c = c.started ≡ false → c.next ≡ 0

-- A watcher's cursor is never past the events pushed.
abbrev pub IsCursor : List ProcessEvent → Cursor → Type 0
IsCursor all c = (c.next ≤ length all) × IsFresh c

-- A read goes on where the watcher was, or at the first event held where that one is gone.
read_from-max : (h : History) (c : Cursor) → IsFresh c → read_from h c ≡ max c.next h.first
unfolding read_from
read_from-max h c fresh = elim (Bool-cases c.started) [
  | inl e ↦ ground (arith, e)
  | inr e ↦ ground (arith, e, fresh e)
]

-- The events let go since the watcher's last read.
abbrev pub missed : History → Cursor → ℕ
missed h c = if c.started then h.first - c.next else 0

skipped-missed : (h : History) (c : Cursor) → skipped h c ≡ min (missed h c) u32_max
unfolding skipped saturate32
skipped-missed h c = ground arith

read_from-within :
    (all : List ProcessEvent) (h : History) (c : Cursor)
    → Holds all h
    → IsCursor all c
    → (h.first ≤ read_from h c) × (read_from h c ≤ length all)
unfolding read_from
read_from-within all h c w v = ground (arith, w.within, v.0)

read_sent :
    (h : History) (c : Cursor) (m : ℕ)
    → sent (read h c m).0
      ≡ (collect m 0 false (skipped h c) (drop (read_from h c - h.first) h.entries)).0
unfolding read
read_sent h c m = ground arith

read_at :
    (h : History) (c : Cursor) (m : ℕ)
    → let r = read h c m in r.1.next ≡ add64 (read_from h c) (length (sent r.0))
unfolding read
read_at h c m = ground arith

read_started : (h : History) (c : Cursor) (m : ℕ) → (read h c m).1.started ≡ true
unfolding read
read_started h c m = refl

length-sent :
    (all : List ProcessEvent) (h : History) (c : Cursor) (m : ℕ)
    → Holds all h
    → IsCursor all c
    → read_from h c + length (sent (read h c m).0) ≤ length all
length-sent all h c m w v =
    let (low, high) = read_from-within all h c w v in
    let at = read_from h c in
    let es = drop (at - h.first) h.entries in
    let same = ap length (events_from all h at w low) in
    omega (
      arith,
      ap length (read_sent h c m),
      length-collect m 0 false (skipped h c) es,
      same,
      length-events_of es,
      length-drop at all,
      low,
      high,
    )

sent_from :
    (all : List ProcessEvent) (h : History) (c : Cursor) (m : ℕ)
    → Holds all h
    → IsCursor all c
    → sent (read h c m).0 ≡ take (length (sent (read h c m).0)) (drop (read_from h c) all)
sent_from all h c m w v =
    let at = read_from h c in
    let es = drop (at - h.first) h.entries in
    read_sent h c m
    ∙ (collect-take m 0 false (skipped h c) es
        ∙ (ap (λ r. take (length r) (events_of es)) (sym (read_sent h c m))
            ∙ ap (take (length (sent (read h c m).0)))
                (events_from all h at w (read_from-within all h c w v).0)))

-- A watcher is sent the events pushed that follow what it has read, or that follow those let go
-- where these are more, in their order, each once and none left out up to where the read ends; its
-- cursor goes on just past the last one sent. Its cursor is not past the events pushed, at 0 before
-- its first read, and is so again. All events are fewer than 2 ^ 64.
pub read_events :
    (all : List ProcessEvent) (h : History) (c : Cursor) (m : ℕ)
    → length all < u64_mod
    → Holds all h
    → IsCursor all c
    → let r = read h c m in
      let at = max c.next h.first in
      (sent r.0 ≡ take (length (sent r.0)) (drop at all))
      × (r.1.next ≡ at + length (sent r.0))
      × IsCursor all r.1
read_events all h c m few w v =
    let at = read_from-max h c v.1 in
    let fits = length-sent all h c m w v in
    let next : (read h c m).1.next ≡ max c.next h.first + length (sent (read h c m).0) =
      unfold add64 in omega (arith, read_at h c m, fits, at) in
    (
      sent_from all h c m w v ∙ ap (λ n. take (length (sent (read h c m).0)) (drop n all)) at,
      next,
      (omega (arith, next, fits, at), (λ e. absurd (ground (arith, e, read_started h c m)))),
    )

-- A watcher that has not read all the events pushed has read further after any read, however small
-- the read's bound. Its cursor is not past the events pushed, and at 0 before its first read; all
-- events are fewer than 2 ^ 64.
pub read_progress :
    (all : List ProcessEvent) (h : History) (c : Cursor) (m : ℕ)
    → length all < u64_mod
    → Holds all h
    → IsCursor all c
    → c.next < length all
    → c.next < (read h c m).1.next
read_progress all h c m few w v more =
    let (low, high) = read_from-within all h c w v in
    let at = read_from h c in
    let es = drop (at - h.first) h.entries in
    let held : length es ≡ length all - at =
      omega
        (arith, ap length (events_from all h at w low), length-events_of es, length-drop at all) in
    let (same, next, within) = read_events all h c m few w v in
    let some : 0 < length es → 0 < length (sent (read h c m).0) =
      λ any. omega (arith, collect_some m 0 (skipped h c) es any, ap length (read_sent h c m)) in
    ground (arith, held, some, next, read_from-max h c v.1, more)

skipped-small : (h : History) (c : Cursor) → skipped h c ≤ u32_max
unfolding skipped saturate32
skipped-small h c = ground arith

-- What a read tells of losses, when they are `lost` in all.
abbrev pub IsTold : ℕ → Cursor → Option ProcessEventBatch → Type 0
IsTold lost c none = (lost ≡ 0) × (c.started ≡ true)
IsTold lost c (some batch) = batch.lost ≡ lost

read-IsTold :
    (h : History) (c : Cursor) (m : ℕ)
    → IsTold
        (collect m 0 false (skipped h c) (drop (read_from h c - h.first) h.entries)).1
        c
        (read h c m).0
unfolding read
read-IsTold h c m =
    let r = collect m 0 false (skipped h c) (drop (read_from h c - h.first) h.entries) in
    elim (Bool-cases (length r.0 == 0 && r.1 == 0 && c.started)) [
      | inl e ↦ rw e (ground arith)
      | inr e ↦ rw e refl
    ]

-- The entries a read goes through are those held from the place it goes on at.
entries_from :
    (h : History) (c : Cursor)
    → IsFresh c
    → drop (read_from h c - h.first) h.entries ≡ drop (c.next - h.first) h.entries
entries_from h c fresh = ap (λ n. drop n h.entries) (ground (arith, read_from-max h c fresh))

-- A read says what was missed: its batch counts, saturating at the largest u32, the events let go
-- that a watcher that began has not read, and the kernel's losses before each event sent. A read
-- answers nothing only to a watcher that began, and when there is no loss to tell. A cursor is at 0
-- before its first read.
pub read_lost :
    (h : History) (c : Cursor) (m : ℕ)
    → IsFresh c
    → let es = drop (c.next - h.first) h.entries in
      IsTold (min (missed h c + lost_in (length (sent (read h c m).0)) es) u32_max) c (read h c m).0
read_lost h c m fresh =
    let es = drop (read_from h c - h.first) h.entries in
    let told = collect-lost m 0 false (skipped h c) es (skipped-small h c) in
    let n = length (sent (read h c m).0) in
    let sum : min (missed h c + lost_in n (drop (c.next - h.first) h.entries)) u32_max
        ≡ (collect m 0 false (skipped h c) es).1 =
      ap (λ xs. min (missed h c + lost_in n xs) u32_max) (sym (entries_from h c fresh))
      ∙ (omega (arith, skipped-missed h c)
          ∙ (ap (λ r. min (skipped h c + lost_in (length r) es) u32_max) (read_sent h c m)
              ∙ sym told)) in
    rw sum (read-IsTold h c m)
