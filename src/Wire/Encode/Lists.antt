-- ===== src/Wire/Encode/Lists.antt =====
-- src/wire/encode.rs: a row of the lists.
use mathlib.Core.Option
use uniproc_windows_agent.Base.{map, none, some, nat_beq, string_beq}
use uniproc_windows_agent.Model.{Mitigations, ProcessState}
use uniproc_windows_agent.Api.{ServiceStats, ServiceStatus, ProcessInfo}
use uniproc_windows_agent.Wire.Schema.Enums.{WirePriority}
use uniproc_windows_agent.Wire.Schema.Lists.{
  MitigationsMessage, ProcessInfoMessage, ProcessStateMessage, ServiceStatsMessage,
  ServiceStatusMessage,
}
use uniproc_windows_agent.Wire.Encode.Enums.{
  signature, service_state, priority, architecture, uac_virtualization, isolation, dpi_awareness,
  stack_protection, extended_cfg, io_priority, toggle, startup_type,
}

unfoldable pub mitigations : Mitigations → MitigationsMessage
mitigations e = record {
  dep = some (toggle e.dep);
  stack_protection = some (stack_protection e.stack_protection);
  extended_cfg = some (extended_cfg e.extended_cfg);
}

unfoldable pub process_info : ProcessInfo → ProcessInfoMessage
process_info e = record {
  pid = e.pid;
  parent_pid = e.parent_pid;
  session_id = e.session_id;
  name = some e.name;
  cmdline = some (map some e.cmdline);
  package_full_name = some e.package_full_name;
  package_relative_app_id = some e.package_relative_app_id;
  is_service = e.is_service;
  is_kernel_process = e.is_kernel_process;
  is_windows_process = e.is_windows_process;
  signature = some (signature e.signature);
  image_path = some e.image_path;
  display_name = some e.display_name;
  console_host_pid = e.console_host_pid;
  start_time = e.start_time;
  sequence_number = e.sequence_number;
  user = some e.user;
  architecture = some (architecture e.architecture);
  elevated = some (toggle e.elevated);
  uac_virtualization = some (uac_virtualization e.uac_virtualization);
  isolation = some (isolation e.isolation);
  dpi_awareness = some (dpi_awareness e.dpi_awareness);
  mitigations = Option.map (λ m. some (mitigations m)) e.mitigations;
  publisher = some e.publisher;
}

unfoldable pub process_state : ProcessState → ProcessStateMessage
process_state e = record {
  pid = e.pid;
  sequence_number = e.sequence_number;
  suspended = some (toggle e.suspended);
  efficiency_mode = some (toggle e.efficiency_mode);
  base_priority = some (elim e.base_priority [ none ↦ WirePriority.unknown | some p ↦ priority p ]);
  power_throttling = some (toggle e.power_throttling);
  job_object_id = e.job_object_id;
  io_priority = some (io_priority e.io_priority);
  vm_host = some (toggle e.vm_host);
}

unfoldable pub service_stats : ServiceStats → ServiceStatsMessage
service_stats e = record {
  name = some e.name;
  display_name = some e.display_name;
  pid = e.pid;
  state = some (service_state e.state);
  load_group = some e.load_group;
  description = some e.description;
  image_path = some e.image_path;
  startup_type = some (startup_type e.startup_type);
  delayed_auto = e.delayed_auto;
  account = some e.account;
  service_type = e.service_type;
  accepted_controls = e.accepted_controls;
}

unfoldable pub service_status : ServiceStatus → ServiceStatusMessage
service_status e = record {
  state = some (service_state e.state);
  pid = e.pid;
  exit_code = e.exit_code;
  service_exit_code = e.service_exit_code;
  checkpoint = e.checkpoint;
  wait_hint_ms = e.wait_hint_ms;
}
