-- ===== src/Wire/Decode/Lists.antt =====
-- src/wire/decode.rs: a row of the lists.
use uniproc_windows_agent.Base.{nat_beq, string_beq}
use uniproc_windows_agent.Model.{Mitigations, ProcessState}
use uniproc_windows_agent.Api.{ServiceStats, ServiceStatus, ProcessInfo}
use uniproc_windows_agent.Wire.Schema.Lists.{
  MitigationsMessage, ProcessInfoMessage, ProcessStateMessage, ServiceStatsMessage,
  ServiceStatusMessage,
}
use uniproc_windows_agent.Wire.Outcome.{Decoded, decoded, ◌>>=◌, rows, group, text}
use uniproc_windows_agent.Wire.Decode.Enums.{
  signature, service_state, priority, architecture, uac_virtualization, isolation, dpi_awareness,
  stack_protection, extended_cfg, io_priority, toggle, startup_type,
}

unfoldable pub mitigations : MitigationsMessage → Mitigations
mitigations m = record {
  dep = toggle m.dep;
  stack_protection = stack_protection m.stack_protection;
  extended_cfg = extended_cfg m.extended_cfg;
}

unfoldable pub process_info : ProcessInfoMessage → Decoded ProcessInfo
process_info m = do
  name ← text m.name
  cmdline ← rows text m.cmdline
  package_full_name ← text m.package_full_name
  package_relative_app_id ← text m.package_relative_app_id
  image_path ← text m.image_path
  display_name ← text m.display_name
  user ← text m.user
  mitigations ← group (λ m. decoded (mitigations m)) m.mitigations
  publisher ← text m.publisher
  decoded (record {
    pid = m.pid;
    parent_pid = m.parent_pid;
    session_id = m.session_id;
    name = name;
    cmdline = cmdline;
    package_full_name = package_full_name;
    package_relative_app_id = package_relative_app_id;
    is_service = m.is_service;
    is_kernel_process = m.is_kernel_process;
    is_windows_process = m.is_windows_process;
    signature = signature m.signature;
    image_path = image_path;
    display_name = display_name;
    console_host_pid = m.console_host_pid;
    start_time = m.start_time;
    sequence_number = m.sequence_number;
    user = user;
    architecture = architecture m.architecture;
    elevated = toggle m.elevated;
    uac_virtualization = uac_virtualization m.uac_virtualization;
    isolation = isolation m.isolation;
    dpi_awareness = dpi_awareness m.dpi_awareness;
    mitigations = mitigations;
    publisher = publisher;
  })

unfoldable pub process_state : ProcessStateMessage → ProcessState
process_state m = record {
  pid = m.pid;
  sequence_number = m.sequence_number;
  suspended = toggle m.suspended;
  efficiency_mode = toggle m.efficiency_mode;
  base_priority = priority m.base_priority;
  power_throttling = toggle m.power_throttling;
  job_object_id = m.job_object_id;
  io_priority = io_priority m.io_priority;
  vm_host = toggle m.vm_host;
}

unfoldable pub service_stats : ServiceStatsMessage → Decoded ServiceStats
service_stats m = do
  name ← text m.name
  display_name ← text m.display_name
  load_group ← text m.load_group
  description ← text m.description
  image_path ← text m.image_path
  account ← text m.account
  decoded (record {
    name = name;
    display_name = display_name;
    pid = m.pid;
    state = service_state m.state;
    load_group = load_group;
    description = description;
    image_path = image_path;
    startup_type = startup_type m.startup_type;
    delayed_auto = m.delayed_auto;
    account = account;
    service_type = m.service_type;
    accepted_controls = m.accepted_controls;
  })

unfoldable pub service_status : ServiceStatusMessage → ServiceStatus
service_status m = record {
  state = service_state m.state;
  pid = m.pid;
  exit_code = m.exit_code;
  service_exit_code = m.service_exit_code;
  checkpoint = m.checkpoint;
  wait_hint_ms = m.wait_hint_ms;
}
