-- ===== src/ProcessEvents/Assemble.antt =====
-- crates/core/src/process_events/assemble.rs: a start is put together from what different sessions
-- tell of it, and the events go out in order of time. Times are in ticks of 100 ns.
mod Tests
pub mod Pairing
pub mod Release
pub mod Sorted
pub mod Ready
pub mod After
pub mod Nearest
pub mod Account
use mathlib.Core.Option
use uniproc_windows_agent.Base.{
  ℕ, ◌+◌, ◌/◌, Bool, true, false, negb, String, List, [], ◌∷◌, ◌++◌, Option, none, some, ◌==◌, ◌&&◌,
  ◌||◌, nat_beq, string_beq, pair_beq, leb, ltb, if◌then◌else◌,
}
use uniproc_windows_agent.ProcessEvents.{
  ProcessEvent, ProcessExited, ProcessStarted, exited, started,
}

abbrev pub second : ℕ
second = 10_000_000

abbrev pub paired_within : ℕ
paired_within = second

abbrev pub waits_at_most : ℕ
waits_at_most = second + second / 4

pub record Created : Type 0 where
  pub pid : ℕ
  pub sequence_number : ℕ
  pub time : ℕ
  pub parent_pid : ℕ
  pub parent_sequence_number : ℕ
  pub session_id : ℕ
  pub image : String
  pub elevated : Option Bool
  pub package_full_name : String
  pub working_directory : String

pub record Launched : Type 0 where
  pub pid : ℕ
  pub time : ℕ
  pub sid : List ℕ
  pub command_line : String

pub record Scheduled : Type 0 where
  pub pid : ℕ
  pub time : ℕ
  pub task : String

pub record Ended : Type 0 where
  pub pid : ℕ
  pub sequence_number : ℕ
  pub time : ℕ
  pub exited : ProcessExited

pub data Raw : Type 0 where
  of_created : Created → Raw
  of_launched : Launched → Raw
  of_scheduled : Scheduled → Raw
  of_ended : Ended → Raw

-- The trait `Resolve`, whose methods may change what is behind it.
pub record Resolve (R : Type 0) : Type 0 where
  pub image_path : R → String → String × R
  pub user : R → List ℕ → String × R
  pub parent_services : R → ℕ → List String × R

pub record Start : Type 0 where
  pub created : Created
  pub launched : Option Launched
  pub task : String
  pub services : Option (List String)

pub data Pending : Type 0 where
  start : Start → Pending
  exit : Ended → Pending

pub record Assembler : Type 0 where
  pub pending : List Pending
  pub launched : List Launched
  pub scheduled : List Scheduled
  pub went : List (ℕ × ℕ × ℕ)

unfoldable pub order : Pending → ℕ × ℕ
order (start s) = (s.created.time, 0)
order (exit ended) = (ended.time, 1)

module _ {R : Type 0} (resolve : Resolve R) where
  unfoldable pub user_of : R → Option Launched → String × R
  user_of r none = ("", r)
  user_of r (some half) = resolve.user r half.sid

  unfoldable pub services_of : R → ℕ → Option (List String) → List String × R
  services_of r parent none = resolve.parent_services r parent
  services_of r parent (some services) = (services, r)

  unfoldable pub command_line_of : Option Launched → String
  command_line_of none = ""
  command_line_of (some half) = half.command_line

  unfoldable pub into_event : R → Pending → ProcessEvent × R
  into_event r (start s) =
      let c = s.created in
      let (path, r1) = resolve.image_path r c.image in
      let (user, r2) = user_of r1 s.launched in
      let (services, r3) = services_of r2 c.parent_pid s.services in
      (
        record {
          pid = c.pid;
          sequence_number = c.sequence_number;
          time = c.time;
          kind = started (record {
            parent_pid = c.parent_pid;
            parent_sequence_number = c.parent_sequence_number;
            session_id = c.session_id;
            image_path = path;
            command_line = command_line_of s.launched;
            user = user;
            elevated = c.elevated;
            package_full_name = c.package_full_name;
            working_directory = c.working_directory;
            scheduled_task = s.task;
            parent_services = services;
          });
        },
        r3,
      )
  into_event r (exit ended) = (
    record {
      pid = ended.pid;
      sequence_number = ended.sequence_number;
      time = ended.time;
      kind = exited ended.exited;
    },
    r,
  )
