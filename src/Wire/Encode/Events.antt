-- ===== src/Wire/Encode/Events.antt =====
-- src/wire/encode.rs: a batch of process events.
use uniproc_windows_agent.Base.{map, some, nat_beq, string_beq}
use uniproc_windows_agent.ProcessEvents.{
  ProcessEvent, ProcessEventBatch, ProcessEventKind, ProcessExited, ProcessStarted, started, exited,
}
use uniproc_windows_agent.Wire.Schema.Events.{
  ProcessStartedMessage, ProcessExitedMessage, EventBody, ProcessEventMessage,
  ProcessEventBatchMessage,
}
use uniproc_windows_agent.Wire.Encode.Enums.{toggle}

unfoldable pub process_started : ProcessStarted → ProcessStartedMessage
process_started e = record {
  parent_pid = e.parent_pid;
  parent_sequence_number = e.parent_sequence_number;
  session_id = e.session_id;
  image_path = some e.image_path;
  command_line = some e.command_line;
  user = some e.user;
  elevated = some (toggle e.elevated);
  package_full_name = some e.package_full_name;
  working_directory = some e.working_directory;
  scheduled_task = some e.scheduled_task;
  parent_services = some (map some e.parent_services);
}

unfoldable pub process_exited : ProcessExited → ProcessExitedMessage
process_exited e = record {
  image_path = some e.image_path;
  image_name = some e.image_name;
  start_time = e.start_time;
  exit_code = e.exit_code;
  cpu_cycles = e.cpu_cycles;
  io_read_ops = e.io_read_ops;
  io_write_ops = e.io_write_ops;
  io_read_bytes = e.io_read_bytes;
  io_write_bytes = e.io_write_bytes;
  peak_commit = e.peak_commit;
  handles = e.handles;
  hard_faults = e.hard_faults;
}

unfoldable pub event_body : ProcessEventKind → EventBody
event_body (started s) = EventBody.started (some (process_started s))
event_body (exited x) = EventBody.exited (some (process_exited x))

unfoldable pub process_event : ProcessEvent → ProcessEventMessage
process_event event = record {
  pid = event.pid;
  sequence_number = event.sequence_number;
  time = event.time;
  body = some (event_body event.kind);
}

unfoldable pub process_event_batch : ProcessEventBatch → ProcessEventBatchMessage
process_event_batch batch = record {
  history_from = batch.history_from;
  lost = batch.lost;
  events = some (map process_event batch.events);
}
