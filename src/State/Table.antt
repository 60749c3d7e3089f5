-- ===== src/State/Table.antt =====
-- crates/core/src/state/process.rs: the processes the last snapshot listed, the verdicts on the
-- images they run, and what changed since the last `take`. Hash maps and sets are association
-- lists in iteration order. `sight` is a function of the row; what `ask` is handed is the second
-- result of `reconcile`.
pub mod Images
pub mod Reconcile
pub mod Judge
pub mod Lookup
pub mod Exact
pub mod Keep
pub mod Follow
pub mod Diffs
pub mod Verdicts
pub mod Run
mod Tests
use uniproc_windows_agent.Base.{
  ℕ, ◌+◌, ◌-◌, ◌%◌, Bool, true, false, String, List, [], ◌∷◌, ◌++◌, Option, none, some, ◌&&◌, ◌==◌,
  nat_beq, string_beq, negb, if◌then◌else◌,
}
use uniproc_windows_agent.Base.Map.{get, insert, remove, KeySet}
use uniproc_windows_agent.Base.Words.{u32_mod, add64}
use uniproc_windows_agent.Model.{ProcessState}
use uniproc_windows_agent.Snapshot.{Row}
use uniproc_windows_agent.Report.{Diff, Process, passport}
use uniproc_windows_agent.State.Events.{Image, ImageVerdict}
use uniproc_windows_agent.State.Entry.{
  ProcessEntry, ImageRequest, Sighted, sighted, judged, state_beq,
}

-- An image some listed process runs: its verdict once judged, and how many listed processes run it.
pub record Running : Type 0 where
  pub verdict : Option ImageVerdict
  pub processes : ℕ

abbrev pub Images : Type 0
Images = List (String × Running)

abbrev pub Listed : Type 0
Listed = List (ℕ × ProcessEntry)

pub record ProcessTable : Type 0 where
  pub processes : Listed
  pub images : Images
  pub reconciled : ℕ
  pub gone : List (ℕ × ℕ)
  pub passports : KeySet ℕ
  pub states : KeySet ℕ

unfoldable pub new : ProcessTable
new = record { processes = []; images = []; reconciled = 0; gone = []; passports = []; states = [] }

-- The last process of an image lets it go; the count is a `u32`.
unfoldable pub release : Images → String → Images
release images path = elim (get path images) [
  | none ↦ images
  | some running ↦
      let left = (running.processes + u32_mod - 1) % u32_mod in
      if left == 0
      then remove path images
      else insert path (record running { processes = left }) images
]

-- One more process runs the entry's image: the images, and the entry under the verdict they hold.
unfoldable pub run_image : ProcessEntry → Images → Images × ProcessEntry
unfolding judged
run_image e images = if e.image_path == "" then (images, e) else elim (get e.image_path images) [
  | none ↦ (insert e.image_path (record { verdict = none; processes = 1 }) images, e)
  | some running ↦ (
    insert e.image_path (record running { processes = (running.processes + 1) % u32_mod }) images,
    elim running.verdict [ none ↦ e | some verdict ↦ (judged e verdict).0 ],
  )
]

unfoldable pub request : ProcessEntry → List ImageRequest
request e =
    if e.image_path == ""
    then []
    else record {
      path = e.image_path;
      package_full_name = e.package_name;
      package_relative_app_id = e.package_relative_app_id;
    }
      ∷ []

-- What the insert of an entry over `earlier` leaves: the images and who is gone.
unfoldable pub replaced : ℕ → Option ProcessEntry → Images → List (ℕ × ℕ) → Images × List (ℕ × ℕ)
replaced pid none images gone = (images, gone)
replaced pid (some earlier) images gone =
    (release images earlier.image_path, gone ++ (pid, earlier.sequence_number) ∷ [])

-- A process joins: the body of the loop over the rows past its `continue`.
unfoldable pub join : Row → ProcessEntry → ProcessTable → ProcessTable × List ImageRequest
join row e t =
    let (images, entry) = run_image e t.images in
    let (images', gone) = replaced row.pid (get row.pid t.processes) images t.gone in
    (
      record t {
        processes = insert row.pid entry t.processes;
        images = images';
        gone = gone;
        passports = insert row.pid tt t.passports;
        states = insert row.pid tt t.states;
      },
      request e,
    )

-- Whether the table lists the row's process already.
unfoldable pub known : Row → Option ProcessEntry → Bool
known row none = false
known row (some e) = e.sequence_number == row.sequence_number

unfoldable pub relist : ℕ → ℕ → Option ProcessEntry → Listed → Listed
relist pid now none processes = processes
relist pid now (some e) processes = insert pid (record e { listed = now }) processes

unfoldable pub list_row :
    (Row → Sighted) → ℕ → Row → ProcessTable → ProcessTable × List ImageRequest
list_row sight now row t =
    let at = get row.pid t.processes in
    if known row at
    then (record t { processes = relist row.pid now at t.processes }, [])
    else join row (record (sighted row (sight row)) { listed = now }) t

unfoldable pub list_rows :
    (Row → Sighted) → ℕ → List Row → ProcessTable → ProcessTable × List ImageRequest
list_rows sight now [] t = (t, [])
list_rows sight now (row ∷ rows) t =
    let (t', asked) = list_row sight now row t in
    let (t'', more) = list_rows sight now rows t' in (t'', asked ++ more)

-- The `retain` over the processes, with all that its closure changes.
unfoldable pub sweep : ℕ → Listed → ProcessTable → ProcessTable
sweep now [] t = t
sweep now ((pid, e) ∷ rest) t = sweep now rest (
    if e.listed == now then record t { processes = t.processes ++ (pid, e) ∷ [] } else record t {
      images = release t.images e.image_path;
      gone = t.gone ++ (pid, e.sequence_number) ∷ [];
      passports = remove pid t.passports;
      states = remove pid t.states;
    })

unfoldable pub reconcile :
    List Row → (Row → Sighted) → ProcessTable → ProcessTable × List ImageRequest
reconcile rows sight t =
    let now = add64 t.reconciled 1 in
    let (t', asked) = list_rows sight now rows (record t { reconciled = now }) in
    (sweep now t'.processes (record t' { processes = [] }), asked)

-- The loop of `judge` over the processes: those of the image take the verdict.
unfoldable pub judge_all : Image → Listed → KeySet ℕ → Listed × KeySet ℕ
judge_all image [] passports = ([], passports)
judge_all image ((pid, e) ∷ rest) passports =
    let (e', moved) = judged e image.verdict in
    let mine = e.image_path == image.path in
    let (rest', passports') =
      judge_all image rest (if mine && moved then insert e.pid tt passports else passports) in
    ((pid, if mine then e' else e) ∷ rest', passports')

unfoldable pub judge : Image → ProcessTable → ProcessTable
judge image t = elim (get image.path t.images) [
  | none ↦ t
  | some running ↦
      let (processes, passports) = judge_all image t.processes t.passports in
      record t {
        processes = processes;
        passports = passports;
        images = insert image.path (record running { verdict = some image.verdict }) t.images;
      }
]

unfoldable pub observe : ProcessState → ProcessTable → ProcessTable
observe state t = elim (get state.pid t.processes) [
  | none ↦ t
  | some e ↦
      if e.sequence_number == state.sequence_number && negb (e.state == state)
      then record t {
        processes = insert state.pid (record e { state = state }) t.processes;
        states = insert state.pid tt t.states;
      }
      else t
]

-- The entries of the drained pids that are listed.
unfoldable pub drained {ℓ} : {B : Type ℓ} → (ProcessEntry → B) → Listed → KeySet ℕ → List B
drained f processes [] = []
drained f processes ((pid, _) ∷ pids) = elim (get pid processes) [
  | none ↦ drained f processes pids
  | some e ↦ f e ∷ drained f processes pids
]

unfoldable pub take : {Sample : Type 0} → Diff Sample → ProcessTable → Diff Sample × ProcessTable
take diff t = (
  record diff {
    gone = diff.gone ++ t.gone;
    passports = diff.passports ++ drained passport t.processes t.passports;
    states = diff.states ++ drained (λ e. e.state) t.processes t.states;
  },
  record t { gone = []; passports = []; states = [] },
)

-- The images asked for and not judged yet.
unfoldable pub pending : Images → List String
pending [] = []
pending ((path, running) ∷ images) =
    let rest = pending images in elim running.verdict [ none ↦ path ∷ rest | some _ ↦ rest ]
