-- ===== src/ProcessEvents/History.antt =====
-- crates/core/src/process_events/history.rs: the recent events, held for watchers. The deque is a
-- list, its front first. What a text takes on the heap, and the sizes of the structs, belong to
-- `smol_str` and the compiler and are parameters.
pub mod Hold
pub mod Trim
pub mod Read
mod Tests
use Prim.Native.Nat.{max}
use uniproc_windows_agent.Base.{
  ℕ, zero, suc, ◌+◌, ◌-◌, ◌≤◌, ◌<◌, Bool, true, false, negb, String, List, [], ◌∷◌, ◌++◌, Option,
  none, some, ◌&&◌, ◌||◌, ◌==◌, nat_beq, ltb, leb, if◌then◌else◌, length, drop,
}
use uniproc_windows_agent.Base.Words.{add64, sub64, saturate32, saturating_add32}
use uniproc_windows_agent.ProcessEvents.{
  ProcessEvent, ProcessEventBatch, ProcessEventKind, ProcessStarted, started, exited,
}

pub record Sizes : Type 0 where
  pub heap : String → ℕ
  pub of_entry : ℕ
  pub of_event : ℕ
  pub of_name : ℕ

pub record Entry : Type 0 where
  pub event : ProcessEvent
  pub bytes : ℕ
  pub lost_before : ℕ

pub record History : Type 0 where
  pub entries : List Entry
  pub first : ℕ
  pub bytes : ℕ
  pub history_from : ℕ
  pub max_age : ℕ
  pub max_bytes : ℕ
  pub lost : ℕ

pub record Cursor : Type 0 where
  pub next : ℕ
  pub started : Bool

names_bytes : Sizes → List String → ℕ
names_bytes z [] = 0
names_bytes z (name ∷ names) = z.of_name + z.heap name + names_bytes z names

kind_bytes : Sizes → ProcessEventKind → ℕ
unfolding names_bytes
kind_bytes z (started s) =
    z.heap s.image_path
    + z.heap s.command_line
    + z.heap s.user
    + z.heap s.package_full_name
    + z.heap s.working_directory
    + z.heap s.scheduled_task
    + names_bytes z s.parent_services
kind_bytes z (exited e) = 0

unfoldable pub event_bytes : Sizes → ProcessEvent → ℕ
unfolding kind_bytes
event_bytes z event = z.of_entry + z.of_event + kind_bytes z event.kind

unfoldable pub new : ℕ → ℕ → ℕ → History
new started_at max_age max_bytes = record {
  entries = [];
  first = 0;
  bytes = 0;
  history_from = started_at;
  max_age = max_age;
  max_bytes = max_bytes;
  lost = 0;
}

-- The loop of `push` that lets go of the oldest entries.
unfoldable pub let_go : ℕ → List Entry → History → History
let_go cutoff [] h = record h { entries = [] }
let_go cutoff (oldest ∷ rest) h =
    let too_old = ltb oldest.event.time cutoff in
    let too_many = ltb h.max_bytes h.bytes && ltb 1 (length (oldest ∷ rest)) in
    let shorter = let_go cutoff rest (record h {
      bytes = sub64 h.bytes oldest.bytes;
      first = add64 h.first 1;
      history_from = max h.history_from (add64 oldest.event.time 1);
    }) in
    if too_old || too_many then shorter else record h { entries = oldest ∷ rest }

unfoldable pub push : Sizes → ProcessEvent → ℕ → History → History
push z event now h =
    let bytes = event_bytes z event in
    let entry : Entry = record { event = event; bytes = bytes; lost_before = h.lost } in
    let_go (now - h.max_age) (h.entries ++ entry ∷ [])
      (record h { lost = 0; bytes = add64 h.bytes bytes })

image_in : ℕ → ℕ → ProcessEvent → ProcessEventKind → Option String
image_in pid sequence_number event (started s) =
    if event.pid == pid && event.sequence_number == sequence_number then some s.image_path else none
image_in pid sequence_number event (exited e) = none

-- The search runs from the newest entry back: a later find wins.
image_among : ℕ → ℕ → List Entry → Option String
unfolding image_in
image_among pid sequence_number [] = none
image_among pid sequence_number (entry ∷ entries) = elim (image_among pid sequence_number entries) [
  | none ↦ image_in pid sequence_number entry.event entry.event.kind
  | some image ↦ some image
]

unfoldable pub image_of : ℕ → ℕ → History → Option String
unfolding image_among
image_of pid sequence_number h = image_among pid sequence_number h.entries

unfoldable pub kernel_lost : ℕ → History → History
unfolding saturating_add32
kernel_lost count h = record h { lost = saturating_add32 h.lost count }

-- The loop of `read`: the events taken, and the count of lost events with theirs.
unfoldable pub collect : ℕ → ℕ → Bool → ℕ → List Entry → List ProcessEvent × ℕ
collect max_bytes bytes any lost [] = ([], lost)
collect max_bytes bytes any lost (entry ∷ entries) =
    let sum = add64 bytes entry.bytes in
    let more = collect max_bytes sum true (saturating_add32 lost entry.lost_before) entries in
    if any && ltb max_bytes sum then ([], lost) else (entry.event ∷ more.0, more.1)

-- Where a read starts: a watcher that fell behind goes on at the first entry held.
unfoldable pub read_from : History → Cursor → ℕ
read_from h c = if c.started then (if ltb c.next h.first then h.first else c.next) else h.first

unfoldable pub skipped : History → Cursor → ℕ
skipped h c =
    if c.started then (if ltb c.next h.first then saturate32 (h.first - c.next) else 0) else 0

unfoldable pub read : History → Cursor → ℕ → Option ProcessEventBatch × Cursor
read h c max_bytes =
    let at = read_from h c in
    let (events, lost) = collect max_bytes 0 false (skipped h c) (drop (at - h.first) h.entries) in
    let cursor : Cursor = record { next = add64 at (length events); started = true } in
    let batch : ProcessEventBatch = record {
      history_from = if c.started then 0 else h.history_from;
      events = events;
      lost = lost;
    } in
    (if length events == 0 && lost == 0 && c.started then none else some batch, cursor)
