-- ===== src/Sample/Tests.antt =====
-- Samples and specs over a concrete set type, lists.
use mathlib.Core.Bool.{decide}
use uniproc_windows_agent.Base.{[], ◌∷◌, some, ◌≡◌, refl}
use uniproc_windows_agent.Sample.TestData.{narrow, wide, sample, rows, extras}
use uniproc_windows_agent.Sample.ListSet.{sets}
use uniproc_windows_agent.Sample.{covers, project}
use uniproc_windows_agent.Sample.Counters.{Columns, Extras, kept, built}
use uniproc_windows_agent.Sample.Counters
use uniproc_windows_agent.Sample.Project.{project-project, project-build}

project-project_example : project narrow (project wide sample) ≡ project narrow sample
unfolding covers decide
project-project_example = project-project sets narrow wide sample refl

project-build_example :
    Counters.project sets narrow.processes (Counters.build sets wide.processes rows extras)
    ≡ Counters.build sets narrow.processes rows extras
unfolding decide
project-build_example = project-build sets narrow.processes wide.processes rows extras refl

handles_kept : (project narrow sample).columns.handles ≡ some (0 ∷ 0 ∷ [])
unfolding project Counters.project Counters.build kept built decide
handles_kept = refl
