-- ===== src/Watch/TestData.antt =====
-- Two small snapshots, for the tests.
use mathlib.Core.Bool.{decide, decide_iff}
use native.Mathlib.Decide.{ℕ_discrete}
use native.Mathlib.Omega.{arith}
use uniproc_windows_agent.Base.{
  ℕ, false, String, List, [], ◌∷◌, none, some, Beq, nat_beq, pair_beq, string_beq, Bool-cases, inl,
  inr,
}
use uniproc_windows_agent.Model.{
  ProcessState, IoPriority, Architecture, UacVirtualization, Isolation, DpiAwareness,
}
use uniproc_windows_agent.Report.{SignatureStatus}
use uniproc_windows_agent.State.Entry.{state_beq}
use uniproc_windows_agent.Api.{ProcessInfo, Snapshot}

abbrev pub string_discrete : Discrete String
string_discrete a b = elim (Bool-cases (string_beq.beq a b)) [
  | inl e ↦ yes ((string_beq.beq_iff a b).0 e)
  | inr e ↦ no (λ same. absurd (ground (arith, e, same, (string_beq.beq_iff a b).1 same)))
]

abbrev pub info_discrete : Discrete ProcessInfo
info_discrete = hlevel (ℕ_discrete, string_discrete)

abbrev pub info_beq : Beq ProcessInfo
info_beq = record {
  beq = λ a b. decide (info_discrete a b);
  beq_iff = λ a b. decide_iff (info_discrete a b);
}

abbrev pub info : ℕ → ℕ → String → ProcessInfo
info pid sequence_number display_name = record {
  pid = pid;
  parent_pid = 4;
  session_id = 1;
  name = "a.exe";
  cmdline = [];
  package_full_name = "";
  package_relative_app_id = "";
  is_service = false;
  is_kernel_process = false;
  is_windows_process = false;
  signature = SignatureStatus.unknown;
  image_path = "";
  display_name = display_name;
  console_host_pid = 0;
  start_time = 0;
  sequence_number = sequence_number;
  user = "";
  architecture = Architecture.unknown;
  elevated = none;
  uac_virtualization = UacVirtualization.unknown;
  isolation = Isolation.unknown;
  dpi_awareness = DpiAwareness.unknown;
  mitigations = none;
  publisher = "";
}

abbrev pub running : ℕ → ℕ → ProcessState
running pid sequence_number = record {
  pid = pid;
  sequence_number = sequence_number;
  suspended = some false;
  efficiency_mode = none;
  base_priority = none;
  power_throttling = none;
  job_object_id = 0;
  io_priority = IoPriority.unknown;
  vm_host = none;
}

abbrev pub snapshot : ℕ → List ProcessInfo → List ProcessState → Snapshot
snapshot etag processes states = record {
  services = record { etag = 1; value = [] };
  processes = record { etag = etag; value = processes };
  states = record { etag = etag; value = record { passport_etag = etag; states = states } };
}

abbrev pub earlier : Snapshot
earlier = snapshot 1 (info 4 1 "" ∷ info 8 2 "" ∷ []) (running 4 1 ∷ running 8 2 ∷ [])

abbrev pub later : Snapshot
later = snapshot 2 (info 4 1 "Four" ∷ info 8 9 "" ∷ []) (running 4 1 ∷ running 8 9 ∷ [])
