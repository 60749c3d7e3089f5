-- ===== src/Wire/Tests.antt =====
-- Two small snapshots, a sample and a spec on their way over the wire.
use native.Mathlib.Omega.{arith}
use uniproc_windows_agent.Base.{
  ◌-◌, ◌+◌, ◌≤◌, true, false, [], ◌∷◌, none, some, ◌&&◌, ◌≡◌, ◌≢◌, refl,
}
use uniproc_windows_agent.Api.{Changes, Snapshot}
use uniproc_windows_agent.Watch.{changes}
use uniproc_windows_agent.Watch.TestData.{info_beq, earlier, later, snapshot}
use uniproc_windows_agent.State.Entry.{state_beq}
use uniproc_windows_agent.Sample.Metrics.{MachineMetric, ProcessMetric}
use uniproc_windows_agent.Base.{List}
use uniproc_windows_agent.Wire.Session.{push, push-told, told}
use uniproc_windows_agent.Sample.{MetricSpec, Sample, period, project, milli}
use uniproc_windows_agent.Sample.ListSet.{sets}
use uniproc_windows_agent.Sample.TestData.{narrow, wide, sample}
use uniproc_windows_agent.ProcessEvents.{ProcessEventBatch, ProcessStarted, exited, started}
use uniproc_windows_agent.Wire.Outcome.{decoded, refused, never_came, other_base}
use uniproc_windows_agent.Wire.Schema.Lists.{ProcessInfoMessage, ProcessStateMessage}
use uniproc_windows_agent.Wire.Encode
use uniproc_windows_agent.Wire.Decode
use uniproc_windows_agent.Wire.Encode.Updates.{update}
use uniproc_windows_agent.Wire.Decode.Updates.{lists}
use uniproc_windows_agent.Wire.RoundTrip.Updates.{first_update, update_heard}
use uniproc_windows_agent.Wire.RoundTrip.Refusals.{nothing_held, other_held}
use uniproc_windows_agent.Wire.RoundTrip.Projected.{received, sample_sent}
use uniproc_windows_agent.Wire.RoundTrip.Specs.{heard, period_heard, metric_spec-heard}
use uniproc_windows_agent.Wire.RoundTrip.Events.{process_event_batch_sent}
use uniproc_windows_agent.Wire.Version.{Version, known_to, known_to_exact, at_least}

-- Rows that no setter has touched.
abbrev blank_info : ProcessInfoMessage
blank_info = record {
  pid = 0;
  parent_pid = 0;
  session_id = 0;
  name = some "";
  cmdline = some [];
  package_full_name = some "";
  package_relative_app_id = some "";
  is_service = false;
  is_kernel_process = false;
  is_windows_process = false;
  signature = none;
  image_path = some "";
  display_name = some "";
  console_host_pid = 0;
  start_time = 0;
  sequence_number = 0;
  user = some "";
  architecture = none;
  elevated = none;
  uac_virtualization = none;
  isolation = none;
  dpi_awareness = none;
  mitigations = none;
  publisher = some "";
}

abbrev blank_state : ProcessStateMessage
blank_state = record {
  pid = 0;
  sequence_number = 0;
  suspended = none;
  efficiency_mode = none;
  base_priority = none;
  power_throttling = none;
  job_object_id = 0;
  io_priority = none;
  vm_host = none;
}

update_heard_example :
    let c = changes ⦃i = info_beq⦄ (some earlier) later in
    lists (some earlier) (update blank_info blank_state later c (some earlier))
    ≡ decoded (some (later, c))
update_heard_example =
    update_heard ⦃i = info_beq⦄ blank_info blank_state earlier later (omega arith) (omega arith)
      (refl, refl) (refl, refl)
      ((λ h. absurd (omega (arith, h))), (λ h. absurd (omega (arith, h))), (λ h. refl))
      (refl, (refl, tt))

first_update_example :
    let c = changes ⦃i = info_beq⦄ none later in
    lists none (update blank_info blank_state later c none) ≡ decoded (some (later, c))
first_update_example = first_update ⦃i = info_beq⦄ blank_info blank_state later refl

abbrev moved : Changes
moved = changes ⦃i = info_beq⦄ (some earlier) later

nothing_held_example :
    lists none (update blank_info blank_state later moved (some earlier)) ≡ refused never_came
nothing_held_example = nothing_held blank_info blank_state earlier later moved

abbrev latest : Snapshot
latest = snapshot 3 [] []

other_held_example :
    lists (some latest) (update blank_info blank_state later moved (some earlier))
    ≡ refused (other_base 1 3)
other_held_example =
    other_held blank_info blank_state earlier later latest moved (λ h. absurd (omega (arith, h)))
      (λ h. absurd (omega (arith, h)))

sample_sent_example :
    Decode.Samples.sample
      (Encode.Samples.process_columns (project narrow sample))
      (Encode.Samples.machine_sample (project narrow sample))
      narrow
    ≡ decoded (received narrow (project narrow sample))
sample_sent_example = sample_sent narrow sample

metric_spec-heard_example :
    Decode.Samples.metric_spec (Encode.Samples.metric_spec wide) ≡ decoded (heard wide)
metric_spec-heard_example = metric_spec-heard wide

period_heard_example :
    (period (heard wide) ≤ period wide) × (period wide ≤ period (heard wide) + (milli - 1))
period_heard_example = period_heard wide (heard wide) (metric_spec-heard wide)

abbrev start : ProcessStarted
start = record {
  parent_pid = 4;
  parent_sequence_number = 1;
  session_id = 1;
  image_path = "C:\\a.exe";
  command_line = "a.exe -v";
  user = "user";
  elevated = some true;
  package_full_name = "";
  working_directory = "C:\\";
  scheduled_task = "";
  parent_services = "one" ∷ "two" ∷ [];
}

abbrev batch : ProcessEventBatch
batch = record {
  history_from = 3;
  events =
      record { pid = 8; sequence_number = 2; time = 5; kind = started start }
      ∷ record {
        pid = 8;
        sequence_number = 2;
        time = 9;
        kind = exited (record {
          image_path = "C:\\a.exe";
          image_name = "a.exe";
          start_time = 5;
          exit_code = 1;
          cpu_cycles = 7;
          io_read_ops = 0;
          io_write_ops = 0;
          io_read_bytes = 0;
          io_write_bytes = 0;
          peak_commit = 0;
          handles = 0;
          hard_faults = 0;
        });
      }
      ∷ [];
  lost = 1;
}

process_event_batch_sent_example :
    Decode.Events.process_event_batch (Encode.Events.process_event_batch batch) ≡ decoded batch
process_event_batch_sent_example = process_event_batch_sent batch

abbrev older : Version
older = record { major = 2; minor = 8 }

abbrev asks : MetricSpec sets
asks = record {
  interval = 1_000_000_000;
  processes =
      ProcessMetric.handles ∷ ProcessMetric.vm_working_set ∷ ProcessMetric.exclusive_mapped ∷ [];
  machine = MachineMetric.cpu ∷ MachineMetric.temperatures ∷ [];
}

known_to_exact_example :
    let known = known_to older asks in
    let wants = sets.process.contains asks.processes in
    let vm = ProcessMetric.vm_working_set in
    let mapped = ProcessMetric.exclusive_mapped in
    let heat = MachineMetric.temperatures in
    (sets.process.contains known.processes vm ≡ (wants vm && at_least older 2 13))
    × (sets.process.contains known.processes mapped ≡ (wants mapped && at_least older 2 6))
    × (sets.machine.contains known.machine heat
        ≡ (sets.machine.contains asks.machine heat && at_least older 2 11))
    × ((m : ProcessMetric)
        → m ≢ vm
        → m ≢ mapped
        → sets.process.contains known.processes m ≡ wants m)
    × ((m : MachineMetric)
        → m ≢ heat
        → sets.machine.contains known.machine m ≡ sets.machine.contains asks.machine m)
known_to_exact_example = known_to_exact older asks

abbrev published : List (Snapshot × Sample sets)
published = (earlier, sample) ∷ (later, sample) ∷ []

push-told_example :
    push ⦃i = info_beq⦄ blank_info blank_state narrow none none
      (record { spec = narrow; snapshot = none })
      published
    ≡ (
      told ⦃i = info_beq⦄ blank_info blank_state narrow none published,
      record { spec = narrow; snapshot = some later },
    )
push-told_example = push-told ⦃i = info_beq⦄ blank_info blank_state narrow none published (
  refl,
  (
    (
      omega arith,
      omega arith,
      (refl, refl),
      (refl, refl),
      ((λ h. absurd (omega (arith, h))), (λ h. absurd (omega (arith, h))), (λ h. refl)),
      (refl, (refl, tt)),
    ),
    tt,
  ),
)
