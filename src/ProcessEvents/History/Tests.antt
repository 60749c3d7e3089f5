-- ===== src/ProcessEvents/History/Tests.antt =====
-- The history at concrete events: three exits at the times 5, 6 and 20, held for 10.
use Prim.Native.Nat.{min, max}
use native.Mathlib.Omega.{arith}
use uniproc_windows_agent.Base.{
  ℕ, List, [], ◌∷◌, ◌++◌, All, ◌≤◌, length, drop, take, ◌≡◌, refl, ◌<◌, ◌+◌, ◌-◌, true,
}
use uniproc_windows_agent.Base.Words.{u32_max, add64, sub64, saturate32}
use uniproc_windows_agent.ProcessEvents.{ProcessEvent, exited}
use uniproc_windows_agent.ProcessEvents.History.{
  Sizes, History, Cursor, event_bytes, new, let_go, push, collect, read_from, skipped, read,
}
use uniproc_windows_agent.ProcessEvents.History.Hold.{
  Holds, events_of, sum_bytes, push-Holds, new-Holds,
}
use uniproc_windows_agent.ProcessEvents.History.Trim.{IsTrim, entry_of, push-IsTrim, push_young}
use uniproc_windows_agent.ProcessEvents.History.Read.{
  sent, IsCursor, read_events, read_progress, read_lost, lost_in, missed, IsTold,
}

abbrev sizes : Sizes
sizes = record { heap = (λ s. 8); of_entry = 40; of_event = 200; of_name = 24 }

abbrev exit_at : ℕ → ProcessEvent
exit_at time = record {
  pid = 100;
  sequence_number = time;
  time = time;
  kind = exited (record {
    image_path = "";
    image_name = "";
    start_time = 0;
    exit_code = 1;
    cpu_cycles = 0;
    io_read_ops = 0;
    io_write_ops = 0;
    io_read_bytes = 0;
    io_write_bytes = 0;
    peak_commit = 0;
    handles = 0;
    hard_faults = 0;
  });
}

abbrev empty : History
empty = new 0 10 1000

abbrev one : History
one = push sizes (exit_at 5) 5 empty

abbrev two : History
two = push sizes (exit_at 6) 6 one

abbrev three : History
three = push sizes (exit_at 20) 20 two

abbrev pushed : List ProcessEvent
pushed = exit_at 5 ∷ exit_at 6 ∷ []

push-Holds_example : Holds (exit_at 5 ∷ []) (push sizes (exit_at 5) 5 empty)
unfolding new event_bytes sum_bytes
push-Holds_example =
    push-Holds sizes [] (exit_at 5) 5 empty (omega arith) (omega arith) (new-Holds 0 10 1000)

two-Holds : Holds pushed two
unfolding new event_bytes sum_bytes push let_go add64
two-Holds =
    push-Holds sizes (exit_at 5 ∷ []) (exit_at 6) 6 one (omega arith) (omega arith)
      push-Holds_example

abbrev begun : Cursor
begun = record { next = 1; started = true }

read_events_example :
    let r = read two begun 1 in
    let at = max begun.next two.first in
    (sent r.0 ≡ take (length (sent r.0)) (drop at pushed))
    × (r.1.next ≡ at + length (sent r.0))
    × IsCursor pushed r.1
read_events_example =
    read_events pushed two begun 1 (omega arith) two-Holds
      (omega arith, (λ e. absurd (ground (arith, e))))

-- Events out of order: the one of time 12 stays behind the one of time 20, though it is older than
-- the hold.
abbrev unordered : History
unordered = push sizes (exit_at 12) 20 (push sizes (exit_at 20) 20 empty)

push-IsTrim_example :
    IsTrim
      (25 - 10)
      1000
      (unordered.entries ++ entry_of sizes (exit_at 25) unordered ∷ [])
      (push sizes (exit_at 25) 25 unordered).entries
unfolding new event_bytes sum_bytes push let_go add64
push-IsTrim_example = push-IsTrim sizes (exit_at 25) 25 unordered (omega arith) refl

unordered_kept :
    events_of (push sizes (exit_at 25) 25 unordered).entries
    ≡ exit_at 20 ∷ exit_at 12 ∷ exit_at 25 ∷ []
unfolding new event_bytes push let_go add64
unordered_kept = refl

push_young_example : All (λ e. 20 - 10 ≤ e.event.time) three.entries
unfolding new event_bytes sum_bytes push let_go add64
push_young_example = push_young sizes (exit_at 20) 20 two (omega arith) refl (omega arith)

abbrev behind : Cursor
behind = record { next = 0; started = true }

read_lost_example :
    let es = drop (0 - three.first) three.entries in
    IsTold
      (min (missed three behind + lost_in (length (sent (read three behind 1000).0)) es) u32_max)
      behind
      (read three behind 1000).0
read_lost_example = read_lost three behind 1000 (λ e. absurd (ground (arith, e)))

skipped_two : skipped three behind ≡ 2
unfolding new event_bytes push let_go skipped saturate32 add64 sub64
skipped_two = refl

read_progress_example : 1 < (read two begun 1).1.next
read_progress_example =
    read_progress pushed two begun 1 (omega arith) two-Holds
      (omega arith, (λ e. absurd (ground (arith, e)))) (omega arith)

read_once : (sent (read two begun 1).0 ≡ exit_at 6 ∷ []) × ((read two begun 1).1.next ≡ 2)
unfolding new event_bytes push let_go read_from read collect skipped add64
read_once = (refl, refl)

aged_out : (events_of three.entries ≡ exit_at 20 ∷ []) × (three.history_from ≡ 7)
unfolding new event_bytes push let_go add64 sub64
aged_out = (refl, refl)
