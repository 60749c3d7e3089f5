-- ===== src/Wire/RoundTrip/Events.antt =====
-- A batch of process events arrives as it was sent.
use uniproc_windows_agent.Base.{nat_beq, string_beq, ◌≡◌, refl}
use uniproc_windows_agent.ProcessEvents.{
  ProcessEvent, ProcessEventBatch, ProcessEventKind, ProcessExited, ProcessStarted, started, exited,
}
use uniproc_windows_agent.Wire.Outcome.{decoded, rows_sent, texts}
use uniproc_windows_agent.Wire.RoundTrip.Enums.{toggle_sent}
use uniproc_windows_agent.Wire.Encode
use uniproc_windows_agent.Wire.Decode

pub process_started_sent :
    (e : ProcessStarted)
    → Decode.Events.process_started (Encode.Events.process_started e) ≡ decoded e
unfolding Encode.Events.process_started Decode.Events.process_started
process_started_sent e = rw (toggle_sent e.elevated, texts e.parent_services)

pub process_exited_sent :
    (e : ProcessExited) → Decode.Events.process_exited (Encode.Events.process_exited e) ≡ decoded e
unfolding Encode.Events.process_exited Decode.Events.process_exited
process_exited_sent e = refl

event_kind_sent :
    (k : ProcessEventKind) → Decode.Events.event_kind (Encode.Events.event_body k) ≡ decoded k
unfolding Encode.Events.event_body Decode.Events.event_kind
event_kind_sent (started s) = rw (process_started_sent s)
event_kind_sent (exited x) = rw (process_exited_sent x)

process_event_sent :
    (e : ProcessEvent) → Decode.Events.process_event (Encode.Events.process_event e) ≡ decoded e
unfolding Encode.Events.process_event Decode.Events.process_event
process_event_sent e = rw (event_kind_sent e.kind)

-- A batch of process events arrives as it was sent.
pub process_event_batch_sent :
    (batch : ProcessEventBatch)
    → Decode.Events.process_event_batch (Encode.Events.process_event_batch batch) ≡ decoded batch
unfolding Encode.Events.process_event_batch Decode.Events.process_event_batch
process_event_batch_sent batch = rw (rows_sent _ _ process_event_sent batch.events)
