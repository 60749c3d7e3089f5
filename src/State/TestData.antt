-- ===== src/State/TestData.antt =====
-- Rows and what is read of their processes, for the tests.
use uniproc_windows_agent.Base.{ℕ, false, List, [], ◌∷◌, none}
use uniproc_windows_agent.Base.Int.{pos}
use uniproc_windows_agent.Model.{Architecture, DpiAwareness, Isolation, UacVirtualization}
use uniproc_windows_agent.Snapshot.{Row}
use uniproc_windows_agent.State.Entry.{Passport, Sighted}

abbrev pub row : ℕ → ℕ → Row
row pid sequence_number = record {
  offset = 0;
  end = 0;
  pid = pid;
  parent_pid = 4;
  session_id = 1;
  sequence_number = sequence_number;
  create_time = 0;
  base_priority = pos 8;
  handles = 0;
  threads = 1;
  peak_threads = 1;
  suspended = false;
  user_time = 0;
  kernel_time = 0;
  cycles = 0;
  context_switches = 0;
  working_set = 0;
  peak_working_set = 0;
  private_working_set = 0;
  virtual_size = 0;
  peak_virtual_size = 0;
  commit = 0;
  peak_commit = 0;
  paged_pool = 0;
  peak_paged_pool = 0;
  nonpaged_pool = 0;
  peak_nonpaged_pool = 0;
  page_faults = 0;
  hard_faults = 0;
  io_read_ops = 0;
  io_write_ops = 0;
  io_other_ops = 0;
  io_read_bytes = 0;
  io_write_bytes = 0;
  io_other_bytes = 0;
  disk_read_ops = 0;
  disk_write_ops = 0;
  disk_flush_ops = 0;
  disk_read_bytes = 0;
  disk_write_bytes = 0;
  job_object_id = 0;
}

abbrev pub no_passport : Passport
no_passport = record {
  user = "";
  architecture = Architecture.unknown;
  elevated = none;
  uac_virtualization = UacVirtualization.unknown;
  isolation = Isolation.unknown;
  dpi_awareness = DpiAwareness.unknown;
  mitigations = none;
}

-- Every process runs `a.exe`.
abbrev pub sight : Row → Sighted
sight r = record {
  image_name = "a.exe";
  is_kernel_process = false;
  read = record {
    command_line = [];
    image_path = "a.exe";
    package_full_name = "";
    package_relative_app_id = "";
    console_host_pid = 0;
    passport = no_passport;
  };
}

abbrev pub rows : List Row
rows = row 10 100 ∷ row 20 200 ∷ []
