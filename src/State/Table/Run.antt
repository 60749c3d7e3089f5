-- ===== src/State/Table/Run.antt =====
-- Any history of the table: snapshots, verdicts, states and takes, as the supervisor makes them.
use native.Mathlib.Nat.{add-zero}
use mathlib.Core.Path.{◌∙◌, subst}
use uniproc_windows_agent.Base.Words.{u64_mod}
use uniproc_windows_agent.Base.{
  ℕ, suc, ◌+◌, ◌≤◌, ◌<◌, List, [], ◌∷◌, Option, none, some, ◌&&◌, ◌==◌, negb, nat_beq, string_beq,
  if◌then◌else◌, ◌≡◌, refl, ap, arith, Option-cases, Bool-cases, inl, inr, length,
}
use uniproc_windows_agent.Base.Map.{get, insert, get-insert, KeySet}
use uniproc_windows_agent.Snapshot.{Row}
use uniproc_windows_agent.Model.{ProcessState}
use uniproc_windows_agent.State.Events.{Image}
use uniproc_windows_agent.State.Entry.{ProcessEntry, Sighted, judged, state_beq, signature_beq}
use uniproc_windows_agent.State.Table.{
  ProcessTable, Listed, reconcile, judge_all, judge, observe, take, new,
}
use uniproc_windows_agent.State.Table.Lookup.{IsUnique, insert-IsUnique}
use uniproc_windows_agent.State.Table.Exact.{IsTable, IsEntry, next_reconcile}
use uniproc_windows_agent.State.Table.Follow.{
  View, all_leave, follow, passport_of, IsFollowed, get_hit,
}
use uniproc_windows_agent.State.Table.Keep.{new-IsTable, reconcile-IsTable, reconcile-reconciled}
use uniproc_windows_agent.State.Table.Diffs.{
  empty_diff, reconcile-IsFollowed, observe-IsFollowed, take-IsFollowed, follow-take,
}
use uniproc_windows_agent.State.Table.Verdicts.{judge-IsFollowed}

judged_at : Image → Option ProcessEntry → Option ProcessEntry
judged_at image none = none
judged_at image (some e) =
    some (if e.image_path == image.path then (judged e image.verdict).0 else e)

get-judge_all :
    (image : Image) (m : Listed) (ps : KeySet ℕ) (q : ℕ)
    → get q (judge_all image m ps).0 ≡ judged_at image (get q m)
unfolding judge_all get judged_at
get-judge_all image [] ps q = refl
get-judge_all image ((k, e) ∷ m) ps q = elim (Bool-cases (k == q)) [
  | inl hit ↦ rw hit
  | inr miss ↦ rw miss (get-judge_all image m _ q)
]

judge_all-IsUnique :
    (image : Image) (m : Listed) (ps : KeySet ℕ) → IsUnique m → IsUnique (judge_all image m ps).0
unfolding judge_all judged_at
judge_all-IsUnique image [] ps u = tt
judge_all-IsUnique image ((k, e) ∷ m) ps u =
    (get-judge_all image m _ k ∙ ap (judged_at image) u.0, judge_all-IsUnique image m _ u.1)

judged_at-IsEntry :
    (image : Image) (q last : ℕ) (o : Option ProcessEntry)
    → IsEntry q last o
    → IsEntry q last (judged_at image o)
unfolding judged_at judged
judged_at-IsEntry image q last none h = tt
judged_at-IsEntry image q last (some e) h = ground arith

pub judge-IsTable : (image : Image) (t : ProcessTable) → IsTable t → IsTable (judge image t)
unfolding judge
judge-IsTable image t w = elim (Option-cases (get image.path t.images)) [
  | inl e ↦ rw (e, judge) w
  | inr (r, e) ↦
      rw (e, judge)
        (record {
          unique = judge_all-IsUnique image t.processes t.passports w.unique;
          entries = λ q.
              rw get-judge_all
                (judged_at-IsEntry image q t.reconciled (get q t.processes) (w.entries q));
        })
]

stated-IsEntry :
    (state : ProcessState) (q last : ℕ) (e : ProcessEntry) (m : Listed)
    → get state.pid m ≡ some e
    → ((p : ℕ) → IsEntry p last (get p m))
    → IsEntry q last (get q (insert state.pid (record e { state = state }) m))
stated-IsEntry state q last e m at h = rw get-insert (elim (Bool-cases (state.pid == q)) [
  | inl hit ↦ rw hit (rw (get_hit state.pid q m (some e) at hit) at (h q))
  | inr miss ↦ rw miss (h q)
])

pub observe-IsTable :
    (state : ProcessState) (t : ProcessTable) → IsTable t → IsTable (observe state t)
unfolding observe
observe-IsTable state t w = elim (Option-cases (get state.pid t.processes)) [
  | inl e ↦ rw (e, observe) w
  | inr (x, e) ↦
      rw (e, observe)
        (elim (Bool-cases (x.sequence_number == state.sequence_number && negb (x.state == state))) [
          | inl moved ↦ rw moved (record {
            unique = insert-IsUnique state.pid (record x { state = state }) t.processes w.unique;
            entries = λ q. stated-IsEntry state q t.reconciled x t.processes e w.entries;
          })
          | inr idle ↦ rw idle w
        ])
]

-- What happens to the table. A `take` hands its diff to the follower.
pub data Event (Sample : Type 0) : Type 0 where
  reconciles : List Row → (Row → Sighted) → Event Sample
  judges : Image → Event Sample
  observes : ProcessState → Event Sample
  takes : Option Sample → Event Sample

unfoldable pub step : {Sample : Type 0} → Event Sample → ProcessTable × View → ProcessTable × View
step (reconciles rows sight) (t, v) = ((reconcile rows sight t).0, v)
step (judges image) (t, v) = (judge image t, v)
step (observes state) (t, v) = (observe state t, v)
step (takes sample) (t, v) =
    ((take (empty_diff sample) t).1, follow (take (empty_diff sample) t).0 v)

unfoldable pub run :
    {Sample : Type 0} → List (Event Sample) → ProcessTable × View → ProcessTable × View
run [] s = s
run (e ∷ es) s = run es (step e s)

-- In step, after `n` snapshots at most.
pub record IsGood (n : ℕ) (s : ProcessTable × View) : Type 0 where
  pub table : IsTable s.0
  pub followed : IsFollowed s.0 s.1
  pub few : s.0.reconciled ≤ n

judge-reconciled : (image : Image) (t : ProcessTable) → (judge image t).reconciled ≡ t.reconciled
unfolding judge
judge-reconciled image t = ground arith

observe-reconciled :
    (state : ProcessState) (t : ProcessTable) → (observe state t).reconciled ≡ t.reconciled
unfolding observe
observe-reconciled state t = ground arith

take-IsTable :
    {Sample : Type 0} (sample : Option Sample) (t : ProcessTable)
    → IsTable t
    → IsTable (take (empty_diff sample) t).1
unfolding take
take-IsTable sample t w = record { unique = w.unique; entries = w.entries }

step-IsGood :
    {Sample : Type 0} (n : ℕ) (e : Event Sample) (s : ProcessTable × View)
    → suc n < u64_mod
    → IsGood n s
    → IsGood (suc n) (step e s)
unfolding step
step-IsGood n (reconciles rows sight) (t, v) small g =
    let fits : suc t.reconciled < u64_mod = omega (arith, g.few) in
    record {
      table = reconcile-IsTable rows sight t g.table fits;
      followed = reconcile-IsFollowed rows sight t v g.table g.followed;
      few = rw (reconcile-reconciled, next_reconcile t.reconciled fits) (omega (arith, g.few));
    }
step-IsGood n (judges image) (t, v) small g = record {
  table = judge-IsTable image t g.table;
  followed = judge-IsFollowed image t v g.table g.followed;
  few = omega (arith, judge-reconciled image t, g.few);
}
step-IsGood n (observes state) (t, v) small g = record {
  table = observe-IsTable state t g.table;
  followed = observe-IsFollowed state t v g.followed;
  few = omega (arith, observe-reconciled state t, g.few);
}
step-IsGood n (takes sample) (t, v) small g = record {
  table = take-IsTable sample t g.table;
  followed = take-IsFollowed sample t v g.table g.followed;
  few = unfold take in omega (arith, g.few);
}

run-IsGood :
    {Sample : Type 0} (n : ℕ) (es : List (Event Sample)) (s : ProcessTable × View)
    → n + length es < u64_mod
    → IsGood n s
    → IsGood (n + length es) (run es s)
unfolding run
run-IsGood n [] s small g = rw add-zero g
run-IsGood n (e ∷ es) s small g =
    let one_more : suc n + length es ≡ n + suc (length es) = omega arith in
    subst (λ k. IsGood k (run es (step e s))) one_more
      (run-IsGood (suc n) es (step e s) (omega arith) (step-IsGood n e s (omega arith) g))

abbrev pub nothing : View
nothing pid = none

start-IsGood : IsGood 0 (new, nothing)
unfolding new all_leave get
start-IsGood = record { table = new-IsTable; followed = λ pid. refl; few = omega arith }

-- After any history of snapshots, verdicts, states and takes, a follower that applied every diff
-- taken, and applies the next one, holds for each pid exactly the passport of the process that the
-- table lists there, and nothing where it lists none. The history has fewer than 2 ^ 64 events.
pub run_follows :
    {Sample : Type 0} (es : List (Event Sample)) (sample : Option Sample) (pid : ℕ)
    → length es < u64_mod
    → let s = run es (new, nothing) in
      follow (take (empty_diff sample) s.0).0 s.1 pid ≡ passport_of (get pid s.0.processes)
run_follows es sample pid small =
    let s = run es (new, nothing) in
    let g = run-IsGood 0 es (new, nothing) (omega arith) start-IsGood in
    follow-take sample s.0 s.1 pid g.table g.followed
