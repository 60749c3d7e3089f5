-- ===== src/State/Table/Tests.antt =====
-- Runs of the process table, and its theorems at concrete inputs.
use uniproc_windows_agent.Base.Words.{add64}
use uniproc_windows_agent.Base.{
  ℕ, true, List, [], ◌∷◌, none, some, nat_beq, string_beq, ◌≡◌, refl, arith,
}
use uniproc_windows_agent.Base.Map.{get, insert, remove}
use uniproc_windows_agent.State.Events.{Image, ProcessSignature}
use uniproc_windows_agent.State.Entry.{sighted}
use uniproc_windows_agent.State.TestData.{row, rows, sight}
use uniproc_windows_agent.State.Table.{
  ProcessTable, reconcile, take, new, list_rows, list_row, known, relist, join, run_image, replaced,
  release, sweep,
}
use uniproc_windows_agent.State.Table.Images.{IsCounted, running}
use uniproc_windows_agent.State.Table.Reconcile.{reconcile-IsCounted}
use uniproc_windows_agent.State.Table.Lookup.{sequence_of, in_rows}
use uniproc_windows_agent.State.Table.Exact.{reconcile_exact}
use uniproc_windows_agent.State.Table.Keep.{new-IsTable}
use uniproc_windows_agent.State.Table.Follow.{follow, passport_of}
use uniproc_windows_agent.State.Table.Diffs.{empty_diff}
use uniproc_windows_agent.State.Table.Run.{
  Event, reconciles, judges, takes, run, nothing, run_follows,
}

abbrev verdict : Image
verdict = record {
  path = "a.exe";
  verdict = record {
    signature = ProcessSignature.microsoft;
    is_windows_process = true;
    display_name = "A";
    publisher = "B";
  };
}

two : ProcessTable
two = (reconcile rows sight new).0

-- The pid 20 is in use again and the pid 10 is gone: one process runs the image still.
reused_counts :
    get "a.exe" (reconcile (row 20 201 ∷ []) sight two).0.images
    ≡ some (record { verdict = none; processes = 1 })
unfolding two reconcile list_rows list_row known relist join run_image replaced release sweep get
    insert remove sighted new add64
reused_counts = refl

new-IsCounted : IsCounted new.images new.processes
unfolding new get running
new-IsCounted p = refl

reconcile-IsCounted_example : IsCounted two.images two.processes
unfolding two
reconcile-IsCounted_example =
    reconcile-IsCounted rows sight new (unfold new in omega arith) new-IsCounted

reconcile_exact_example : sequence_of (get 20 (reconcile rows sight new).0.processes) ≡ some 200
unfolding in_rows
reconcile_exact_example = reconcile_exact rows sight new 20 new-IsTable (unfold new in omega arith)

abbrev history : List (Event ℕ)
history =
    reconciles rows sight ∷ takes none ∷ judges verdict ∷ reconciles (row 20 201 ∷ []) sight ∷ []

run_follows_example :
    let s = run history (new, nothing) in
    follow {Sample = ℕ} (take (empty_diff none) s.0).0 s.1 20 ≡ passport_of (get 20 s.0.processes)
run_follows_example = run_follows history none 20 (omega arith)
