-- ===== src/Lib.antt =====
-- The uniproc windows agent: a service that keeps a picture of the machine's processes and
-- services, and tells its subscribers what changed.
--
-- The core (crates/core) samples the machine at the intervals that the subscribers ask for. A
-- snapshot is a list of rows; the process table takes each snapshot over, asks for verdicts on the
-- images that the processes run, and tells by diffs what joined, changed and left. The agent
-- (src) applies the diffs to its picture and publishes it.
--
--   Model, Snapshot, Report  crates/core/src/model.rs, snapshot.rs (the row), report.rs
--   State.Events             crates/core/src/state/events.rs
--   State.Entry              crates/core/src/state/process.rs: `ProcessEntry`, and what
--                            crates/core/src/providers/process reads of a process
--   State.Table              crates/core/src/state/process.rs: `ProcessTable`. Its children hold the
--                            proofs: Images, Reconcile and Judge on the counts of the images, Lookup,
--                            Exact and Keep on what a snapshot leaves listed, Follow, Diffs, Verdicts
--                            and Run on the diffs
--   State.Network, State.System
--                            crates/core/src/state/network.rs, mod.rs: what each process sent and
--                            received, and the machine's totals
--   ProcessEvents            crates/core/src/process_events/mod.rs (the data), history.rs: its
--                            children Hold and Trim on what is held and let go, Read on what
--                            a watcher is sent
--   ProcessEvents.Assemble   crates/core/src/process_events/assemble.rs: Pairing joins the halves of a
--                            start, Release lets the events out; Nearest, Account, Sorted, Ready and
--                            After hold the proofs
--   Sample                   crates/core/src/sample.rs: Metrics and Covers on the sets of counters,
--                            Counters and Machine on what a sample carries, Project on subscribers
--   Schedule                 crates/core/src/schedule.rs: Groups, Serve and Sampled hold the proofs
--   Api, Watch               src/api.rs, src/watch.rs: the changes between two snapshots
--   Feed, Sampler            src/feed.rs (the published value, the list of the gone), src/sampler.rs:
--                            subscriptions. Sampler's children are Serve on the demand, Deliver and
--                            Run on what the subscribers are handed
--   Wire                     src/wire: Schema has the messages, Encode and Decode both directions
--                            (encode.rs, decode.rs), Version what an older agent takes (mod.rs), and
--                            RoundTrip the proofs: Merge, Delta, Merged, ListForms and Updates on a
--                            watch update, Projected on samples, Specs on what is asked for
--                            Session follows a watch from src/watch.rs over the loop `push` of
--                            crates/rpc/src/handler.rs to the listener of src/remote/mod.rs
--   Base                     lists, maps, words and tests that the others share
--
-- Numbers are natural numbers; a machine word wraps or saturates where the source's does. Hash maps
-- are association lists, shared pointers what they point to, instants and durations nanoseconds.
-- Every loop is structural recursion, so no fuel is used. The sets of `enumset` are a parameter
-- (Sample.Metrics.EnumSet) with their documented laws, which Sample.ListSet fulfils by lists; the
-- heap sizes of texts are a parameter of the history.
--
-- A message of the wire is a record that reads what was set, and a list in it is as long as the list
-- it is set from, which is shorter than the 2 ^ 29 rows that a message can hold. A union or an
-- enumeration of a newer schema reads as none, and so does a pointer in a malformed message. An f64
-- is its bits. A row that no setter touched is a parameter.
--
-- Not modelled: threads, locks and channels, system calls and ETW callbacks over raw memory, the
-- asynchronous clients and servers, generated bindings, and what the dependencies do.
mod Base
pub mod Model
pub mod Snapshot
pub mod Report
pub mod ProcessEvents
pub mod State
pub mod Api
pub mod Watch
pub mod Sample
pub mod Schedule
pub mod Feed
pub mod Sampler
pub mod Wire
