-- ===== src/ProcessEvents/Assemble/Tests.antt =====
-- A start, its command line and its exit, out of order, at concrete times.
use uniproc_windows_agent.Base.{ℕ, ◌+◌, ◌*◌, List, [], ◌∷◌, map, none, All, ◌≡◌, refl}
use uniproc_windows_agent.Base.Words.{saturating_add64}
use uniproc_windows_agent.ProcessEvents.{ProcessEvent}
use uniproc_windows_agent.ProcessEvents.Assemble.{
  Assembler, Created, Ended, Launched, Resolve, into_event, of_created, of_ended, of_launched,
  order, second, services_of, user_of, command_line_of,
}
use uniproc_windows_agent.ProcessEvents.Assemble.Pairing.{
  abs_diff, add, change_start, half_distance, least, near, nearer, nearest_start, start_distance,
  swap_remove, take_nearest,
}
use uniproc_windows_agent.ProcessEvents.Assemble.Release.{
  exit_due, has_gone, has_instance, insert_pending, names_scheduler, pass, release, sort_pending,
  start_due, waited,
}
use uniproc_windows_agent.ProcessEvents.Assemble.Account.{
  event_id, event_order, pending_id, release_account, times,
}
use uniproc_windows_agent.ProcessEvents.Assemble.Sorted.{IsSorted, release-IsSorted}
use uniproc_windows_agent.ProcessEvents.Assemble.Ready.{IsWaiting, release-IsWaiting, starts}
use uniproc_windows_agent.ProcessEvents.Assemble.After.{IsAfterStart, release_after}
use uniproc_windows_agent.ProcessEvents.Assemble.Nearest.{IsTaken, take_nearest-IsTaken}

-- Its state counts what it was asked.
abbrev resolve : Resolve ℕ
resolve = record {
  image_path = λ r nt. (nt, r + 1);
  user = λ r sid. ("user", r + 1);
  parent_services = λ r pid. ([], r + 1);
}

abbrev at : ℕ
at = 100 * second

abbrev created : ℕ → Created
created pid = record {
  pid = pid;
  sequence_number = pid;
  time = at;
  parent_pid = 4;
  parent_sequence_number = 1;
  session_id = 1;
  image = "a.exe";
  elevated = none;
  package_full_name = "";
  working_directory = "";
}

abbrev half : ℕ → ℕ → Launched
half pid time = record { pid = pid; time = time; sid = []; command_line = "a.exe -v" }

abbrev ended : ℕ → Ended
ended pid = record {
  pid = pid;
  sequence_number = pid;
  time = at + 5;
  exited = record {
    image_path = "";
    image_name = "a.exe";
    start_time = at;
    exit_code = 1;
    cpu_cycles = 0;
    io_read_ops = 0;
    io_write_ops = 0;
    io_read_bytes = 0;
    io_write_bytes = 0;
    peak_commit = 0;
    handles = 0;
    hard_faults = 0;
  };
}

abbrev empty : Assembler
empty = record { pending = []; launched = []; scheduled = []; went = [] }

-- The first process's exit came before its start, and its command line before both; the second
-- still waits for its command line.
abbrev told : Assembler
told =
    add (of_created (created 8)) (
      add (of_ended (ended 8))
        (add (of_created (created 12)) (add (of_launched (half 8 at)) empty)))

abbrev done : List ProcessEvent × Assembler × ℕ
done = release resolve (at + 10) 0 told

release_named :
    (map event_id done.0 ≡ ((8, 8), (at, 0)) ∷ ((8, 8), (at + 5, 1)) ∷ [])
    × (map pending_id done.1.pending ≡ ((12, 12), (at, 0)) ∷ [])
unfolding add release pass start_due exit_due waited take_nearest least half_distance near abs_diff
    nearer nearest_start start_distance change_start sort_pending insert_pending has_instance
    has_gone into_event user_of services_of names_scheduler order saturating_add64 command_line_of
    swap_remove
release_named = (refl, refl)

release_account_example :
    times event_id ((8, 8), (at, 0)) done.0 + times pending_id ((8, 8), (at, 0)) done.1.pending
    ≡ times pending_id ((8, 8), (at, 0)) told.pending
release_account_example = release_account resolve (at + 10) ((8, 8), (at, 0)) 0 told

release-IsSorted_example : IsSorted event_order done.0
release-IsSorted_example = release-IsSorted resolve (at + 10) 0 told

release-IsWaiting_example :
    All (IsWaiting (at + 10) (λ k. has_instance k (starts done.1.pending))) done.1.pending
release-IsWaiting_example = release-IsWaiting resolve (at + 10) 0 told

release_after_example : All (λ e. IsAfterStart done.1.pending e e.kind) done.0
release_after_example = release_after resolve (at + 10) 0 told

abbrev halves : List Launched
halves = half 8 (at + 9) ∷ half 12 at ∷ half 8 (at + 3) ∷ []

take_nearest-IsTaken_example :
    let (taken, left) = take_nearest (λ h. h.pid) (λ h. h.time) 8 at halves in
    IsTaken (half_distance (λ h. h.pid) (λ h. h.time) 8 at) halves taken left
take_nearest-IsTaken_example = take_nearest-IsTaken (λ h. h.pid) (λ h. h.time) 8 at halves
