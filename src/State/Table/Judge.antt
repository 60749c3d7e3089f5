-- ===== src/State/Table/Judge.antt =====
-- Verdicts and states leave the images counted, and change only what they are about.
use uniproc_windows_agent.Base.{
  ℕ, String, [], ◌∷◌, some, ◌&&◌, ◌==◌, nat_beq, string_beq, if◌then◌else◌, ◌≡◌, refl, ap, arith,
  Option-cases, inl, inr,
}
use uniproc_windows_agent.Base.Map.{get, insert, get-insert, KeySet}
use uniproc_windows_agent.Model.{ProcessState}
use uniproc_windows_agent.State.Events.{Image, ImageVerdict}
use uniproc_windows_agent.State.Entry.{judged, state_beq}
use uniproc_windows_agent.State.Table.{
  ProcessTable, Running, Images, Listed, judge_all, judge, observe,
}
use uniproc_windows_agent.State.Table.Images.{IsCounted, Tally, running, runs_at, running-insert}

running-judge_all :
    (p : String) (image : Image) (m : Listed) (passports : KeySet ℕ)
    → running p (judge_all image m passports).0 ≡ running p m
unfolding judge_all judged running
running-judge_all p image [] passports = refl
running-judge_all p image ((pid, e) ∷ m) passports =
    let mine = e.image_path == image.path in
    let moved = (judged e image.verdict).1 in
    ground (
      arith,
      running-judge_all p image m (if mine && moved then insert e.pid tt passports else passports),
    )

verdict-Tally :
    (p path : String) (images : Images) (r : Running) (v : ImageVerdict) (n : ℕ)
    → get path images ≡ some r
    → Tally (get p images) n
    → Tally (get p (insert path (record r { verdict = some v }) images)) n
verdict-Tally p path images r v n e h =
    ground
      (arith, get-insert path p (record r { verdict = some v }) images, string_beq.beq_iff path p)

-- A verdict moves no count.
pub judge-IsCounted :
    (image : Image) (t : ProcessTable)
    → IsCounted t.images t.processes
    → IsCounted (judge image t).images (judge image t).processes
unfolding judge
judge-IsCounted image t h p = elim (Option-cases (get image.path t.images)) [
  | inl e ↦ rw (e, judge) (h p)
  | inr (r, e) ↦
      rw (e, judge)
        (rw (running-judge_all p image t.processes t.passports)
          (verdict-Tally p image.path t.images r image.verdict (running p t.processes) e (h p)))
]

-- Nor does a state.
pub observe-IsCounted :
    (state : ProcessState) (t : ProcessTable)
    → IsCounted t.images t.processes
    → IsCounted (observe state t).images (observe state t).processes
unfolding observe
observe-IsCounted state t h p = elim (Option-cases (get state.pid t.processes)) [
  | inl e ↦ rw (e, observe) (h p)
  | inr (w, e) ↦
      rw (e, observe)
        (let same : running p (insert state.pid (record w { state = state }) t.processes)
              ≡ running p t.processes =
            omega (
              arith,
              running-insert p state.pid (record w { state = state }) t.processes,
              ap (runs_at p) e,
            ) in
          ground (arith, same, h p))
]
