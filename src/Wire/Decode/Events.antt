-- ===== src/Wire/Decode/Events.antt =====
-- src/wire/decode.rs: a batch of process events.
use uniproc_windows_agent.Base.{nat_beq, string_beq}
use uniproc_windows_agent.ProcessEvents.{
  ProcessEvent, ProcessEventBatch, ProcessEventKind, ProcessExited, ProcessStarted, started, exited,
}
use uniproc_windows_agent.Wire.Schema.Events.{
  ProcessStartedMessage, ProcessExitedMessage, EventBody, ProcessEventMessage,
  ProcessEventBatchMessage,
}
use uniproc_windows_agent.Wire.Outcome.{Decoded, decoded, ◌>>=◌, pointer, rows, text}
use uniproc_windows_agent.Wire.Decode.Enums.{toggle}

unfoldable pub process_started : ProcessStartedMessage → Decoded ProcessStarted
process_started m = do
  image_path ← text m.image_path
  command_line ← text m.command_line
  user ← text m.user
  package_full_name ← text m.package_full_name
  working_directory ← text m.working_directory
  scheduled_task ← text m.scheduled_task
  parent_services ← rows text m.parent_services
  decoded (record {
    parent_pid = m.parent_pid;
    parent_sequence_number = m.parent_sequence_number;
    session_id = m.session_id;
    image_path = image_path;
    command_line = command_line;
    user = user;
    elevated = toggle m.elevated;
    package_full_name = package_full_name;
    working_directory = working_directory;
    scheduled_task = scheduled_task;
    parent_services = parent_services;
  })

unfoldable pub process_exited : ProcessExitedMessage → Decoded ProcessExited
process_exited m = do
  image_path ← text m.image_path
  image_name ← text m.image_name
  decoded (record {
    image_path = image_path;
    image_name = image_name;
    start_time = m.start_time;
    exit_code = m.exit_code;
    cpu_cycles = m.cpu_cycles;
    io_read_ops = m.io_read_ops;
    io_write_ops = m.io_write_ops;
    io_read_bytes = m.io_read_bytes;
    io_write_bytes = m.io_write_bytes;
    peak_commit = m.peak_commit;
    handles = m.handles;
    hard_faults = m.hard_faults;
  })

unfoldable pub event_kind : EventBody → Decoded ProcessEventKind
event_kind (EventBody.started p) = do m ← pointer p; s ← process_started m; decoded (started s)
event_kind (EventBody.exited p) = do m ← pointer p; x ← process_exited m; decoded (exited x)

unfoldable pub process_event : ProcessEventMessage → Decoded ProcessEvent
process_event e = do
  body ← pointer e.body
  kind ← event_kind body
  decoded (record { pid = e.pid; sequence_number = e.sequence_number; time = e.time; kind = kind })

unfoldable pub process_event_batch : ProcessEventBatchMessage → Decoded ProcessEventBatch
process_event_batch batch = do
  events ← rows process_event batch.events
  decoded (record { history_from = batch.history_from; events = events; lost = batch.lost })
