-- ===== src/Wire/RoundTrip/Lists.antt =====
-- A row of the lists arrives as it was sent.
use uniproc_windows_agent.Base.{Option, none, some, nat_beq, string_beq, ◌≡◌, refl, ap}
use uniproc_windows_agent.Model.{Mitigations, ProcessPriority, ProcessState}
use uniproc_windows_agent.Api.{ServiceStats, ServiceStatus, ProcessInfo}
use uniproc_windows_agent.Wire.Outcome.{decoded, group_sent, texts}
use uniproc_windows_agent.Wire.RoundTrip.Enums.{
  signature_sent, service_state_sent, priority_sent, architecture_sent, uac_virtualization_sent,
  isolation_sent, dpi_awareness_sent, stack_protection_sent, extended_cfg_sent, io_priority_sent,
  toggle_sent, startup_type_sent,
}
use uniproc_windows_agent.Wire.Schema.Enums.{WirePriority}
use uniproc_windows_agent.Wire.Encode
use uniproc_windows_agent.Wire.Decode

pub mitigations_sent : (e : Mitigations) → Decode.Lists.mitigations (Encode.Lists.mitigations e) ≡ e
unfolding Encode.Lists.mitigations Decode.Lists.mitigations
mitigations_sent e =
    rw (
      toggle_sent e.dep,
      stack_protection_sent e.stack_protection,
      extended_cfg_sent e.extended_cfg,
    )

pub process_info_sent :
    (e : ProcessInfo) → Decode.Lists.process_info (Encode.Lists.process_info e) ≡ decoded e
unfolding Encode.Lists.process_info Decode.Lists.process_info
process_info_sent e = rw (
  texts e.cmdline,
  signature_sent e.signature,
  architecture_sent e.architecture,
  toggle_sent e.elevated,
  uac_virtualization_sent e.uac_virtualization,
  isolation_sent e.isolation,
  dpi_awareness_sent e.dpi_awareness,
  group_sent (λ m. decoded (Decode.Lists.mitigations m)) Encode.Lists.mitigations
      (λ m. ap decoded (mitigations_sent m)) e.mitigations,
)

base_priority_sent :
    (x : Option ProcessPriority)
    → Decode.Enums.priority
        (some (elim x [ none ↦ WirePriority.unknown | some p ↦ Encode.Enums.priority p ]))
      ≡ x
unfolding Decode.Enums.priority
base_priority_sent none = refl
base_priority_sent (some p) = priority_sent p

pub process_state_sent :
    (e : ProcessState) → Decode.Lists.process_state (Encode.Lists.process_state e) ≡ e
unfolding Encode.Lists.process_state Decode.Lists.process_state
process_state_sent e = rw (
  toggle_sent e.suspended,
  toggle_sent e.efficiency_mode,
  base_priority_sent e.base_priority,
  toggle_sent e.power_throttling,
  io_priority_sent e.io_priority,
  toggle_sent e.vm_host,
)

pub service_stats_sent :
    (e : ServiceStats) → Decode.Lists.service_stats (Encode.Lists.service_stats e) ≡ decoded e
unfolding Encode.Lists.service_stats Decode.Lists.service_stats
service_stats_sent e = rw (service_state_sent e.state, startup_type_sent e.startup_type)

pub service_status_sent :
    (e : ServiceStatus) → Decode.Lists.service_status (Encode.Lists.service_status e) ≡ e
unfolding Encode.Lists.service_status Decode.Lists.service_status
service_status_sent e = rw (service_state_sent e.state)
