-- ===== src/State/Table/Diffs.antt =====
-- The diffs tell everything: a follower that is in step stays in step under every operation, and
-- after a `take` it holds exactly what the table lists.
use mathlib.Core.List.{append-nil, append_assoc}
use mathlib.Core.Path.{◌∙◌, subst}
use uniproc_windows_agent.Base.Words.{add64}
use uniproc_windows_agent.Base.{
  ℕ, false, List, [], ◌∷◌, ◌++◌, Option, none, some, ◌&&◌, ◌==◌, negb, nat_beq, string_beq,
  if◌then◌else◌, ◌≡◌, refl, arith, Option-cases, Bool-cases, inl, inr,
}
use uniproc_windows_agent.Base.Map.{get, remove, get-insert, get-remove, beq_refl}
use uniproc_windows_agent.Snapshot.{Row}
use uniproc_windows_agent.Model.{ProcessState}
use uniproc_windows_agent.Report.{Diff, Process, passport}
use uniproc_windows_agent.State.Entry.{ProcessEntry, Sighted, state_beq, signature_beq}
use uniproc_windows_agent.State.Table.{
  ProcessTable, Images, Listed, release, run_image, replaced, join, known, relist, list_row,
  list_rows, sweep, reconcile, observe, take,
}
use uniproc_windows_agent.State.Table.Lookup.{IsUnique}
use uniproc_windows_agent.State.Table.Exact.{IsTable, list_rows-IsUnique}
use uniproc_windows_agent.State.Table.Follow.{
  View, all_leave, follow, passport_of, InStep, IsFollowed, all_leave_one, InStep-without,
  InStep-same, all_enter-drained, told, get_hit,
}

-- A new entry where nothing is held is in step, told anew.
replaced-InStep :
    (pid : ℕ) (o : Option ProcessEntry) (d : Option (Unit {0})) (images : Images)
    (gone : List (ℕ × ℕ)) (v : View)
    → InStep d o (all_leave gone v pid)
    → all_leave (replaced pid o images gone).1 v pid ≡ none
unfolding replaced
replaced-InStep pid none none images gone v h = h
replaced-InStep pid none (some u) images gone v h = absurd h
replaced-InStep pid (some e) d images gone v h =
    rw (all_leave_one gone pid e.sequence_number pid v, beq_refl) (InStep-without d e _ h)

replaced_ne :
    (k pid : ℕ) (o : Option ProcessEntry) (images : Images) (gone : List (ℕ × ℕ)) (v : View)
    → (k == pid) ≡ false
    → all_leave (replaced k o images gone).1 v pid ≡ all_leave gone v pid
unfolding replaced
replaced_ne k pid none images gone v miss = refl
replaced_ne k pid (some e) images gone v miss =
    all_leave_one gone k e.sequence_number pid v ∙ rw miss

InStep-none :
    (e : ProcessEntry) (u : Unit {0}) (x : Option Process) → x ≡ none → InStep (some u) (some e) x
InStep-none e u x h = rw h tt

join-IsFollowed :
    (row : Row) (e : ProcessEntry) (t : ProcessTable) (v : View)
    → IsFollowed t v
    → IsFollowed (join row e t).0 v
unfolding join
join-IsFollowed row e t v h pid =
    let images = (run_image e t.images).0 in
    let o = get row.pid t.processes in
    rw get-insert (
      rw get-insert (elim (Bool-cases (row.pid == pid)) [
        | inl hit ↦ rw hit (
            rw
              (subst (λ q. all_leave (replaced row.pid o images t.gone).1 v q ≡ none)
                ((nat_beq.beq_iff row.pid pid).0 hit)
                (replaced-InStep row.pid o (get row.pid t.passports) images t.gone v (h row.pid)))
              tt)
        | inr miss ↦ rw miss (rw (replaced_ne row.pid pid o images t.gone v miss) (h pid))
      ]))

relist-InStep :
    (k now pid : ℕ) (o : Option ProcessEntry) (m : Listed) (d : Option (Unit {0}))
    (x : Option Process)
    → get k m ≡ o
    → InStep d (get pid m) x
    → InStep d (get pid (relist k now o m)) x
unfolding relist passport
relist-InStep k now pid none m d x at h = h
relist-InStep k now pid (some e) m d x at h = rw get-insert (elim (Bool-cases (k == pid)) [
  | inl hit ↦ rw hit (
      InStep-same d e (record e { listed = now }) x refl refl
        (rw (get_hit k pid m (some e) at hit) at h))
  | inr miss ↦ rw miss h
])

list_row-IsFollowed :
    (sight : Row → Sighted) (now : ℕ) (row : Row) (t : ProcessTable) (v : View)
    → IsFollowed t v
    → IsFollowed (list_row sight now row t).0 v
unfolding list_row
list_row-IsFollowed sight now row t v h = elim (Bool-cases (known row (get row.pid t.processes))) [
  | inl k ↦
      rw (k, list_row)
        (λ pid.
          relist-InStep row.pid now pid (get row.pid t.processes) t.processes (get pid t.passports)
            (all_leave t.gone v pid) refl (h pid))
  | inr k ↦ rw (k, list_row) (join-IsFollowed row _ t v h)
]

list_rows-IsFollowed :
    (sight : Row → Sighted) (now : ℕ) (rows : List Row) (t : ProcessTable) (v : View)
    → IsFollowed t v
    → IsFollowed (list_rows sight now rows t).0 v
unfolding list_rows
list_rows-IsFollowed sight now [] t v h = h
list_rows-IsFollowed sight now (row ∷ rows) t v h =
    list_rows-IsFollowed sight now rows (list_row sight now row t).0 v
      (list_row-IsFollowed sight now row t v h)

-- One entry of a list of distinct keys taken out.
get_middle :
    (k pid : ℕ) (e : ProcessEntry) (m n : Listed)
    → IsUnique (m ++ (k, e) ∷ n)
    → (get k (m ++ (k, e) ∷ n) ≡ some e)
      × (get pid (m ++ n) ≡ (if k == pid then none else get pid (m ++ (k, e) ∷ n)))
      × IsUnique (m ++ n)
unfolding get
get_middle k pid e [] n u = (ground arith, ground (arith, get_hit k pid n none u.0), u.1)
get_middle k pid e ((j, w) ∷ m) n u =
    let (at, out, unique) = get_middle k pid e m n u.1 in
    let (_, out_j, _) = get_middle k j e m n u.1 in
    let apart = get_hit j k (m ++ (k, e) ∷ n) none u.0 in
    (
      ground (arith, at, apart),
      ground (arith, at, out, apart, nat_beq.beq_iff j pid, nat_beq.beq_iff k pid),
      (ground (arith, out_j, u.0), unique),
    )

-- The sweep tells each process it drops as gone.
leave-InStep :
    (k pid : ℕ) (e : ProcessEntry) (t : ProcessTable) (m n : Listed) (v : View)
    → IsUnique (m ++ (k, e) ∷ n)
    → InStep (get pid t.passports) (get pid (m ++ (k, e) ∷ n)) (all_leave t.gone v pid)
    → InStep
        (get pid (remove k t.passports))
        (get pid (m ++ n))
        (all_leave (t.gone ++ (k, e.sequence_number) ∷ []) v pid)
leave-InStep k pid e t m n v u h =
    let (at, out, _) = get_middle k pid e m n u in
    rw (get-remove, out, all_leave_one t.gone k e.sequence_number pid v)
      (elim (Bool-cases (k == pid)) [
        | inl hit ↦ rw hit (
            InStep-without (get pid t.passports) e _
              (rw (get_hit k pid (m ++ (k, e) ∷ n) (some e) at hit) at h))
        | inr miss ↦ rw miss h
      ])

sweep-IsFollowed :
    (now : ℕ) (rest : Listed) (t : ProcessTable) (v : View)
    → IsUnique (t.processes ++ rest)
    → ((pid : ℕ)
        → InStep (get pid t.passports) (get pid (t.processes ++ rest)) (all_leave t.gone v pid))
    → IsFollowed (sweep now rest t) v
unfolding sweep
sweep-IsFollowed now [] t v u h = λ pid. rw append-nil at (h pid)
sweep-IsFollowed now ((k, e) ∷ rest) t v u h = elim (Bool-cases (e.listed == now)) [
  | inl stays ↦
      rw (stays, sweep)
        (sweep-IsFollowed now rest (record t { processes = t.processes ++ (k, e) ∷ [] }) v
          (rw append_assoc u) (λ pid. rw append_assoc (h pid)))
  | inr leaves ↦
      rw (leaves, sweep)
        (sweep-IsFollowed now rest
          (record t {
            images = release t.images e.image_path;
            gone = t.gone ++ (k, e.sequence_number) ∷ [];
            passports = remove k t.passports;
            states = remove k t.states;
          })
          v ((get_middle k k e t.processes rest u).2)
          (λ pid. leave-InStep k pid e t t.processes rest v u (h pid)))
]

pub reconcile-IsFollowed :
    (rows : List Row) (sight : Row → Sighted) (t : ProcessTable) (v : View)
    → IsTable t
    → IsFollowed t v
    → IsFollowed (reconcile rows sight t).0 v
unfolding reconcile
reconcile-IsFollowed rows sight t v w h =
    let now = add64 t.reconciled 1 in
    let t' = (list_rows sight now rows (record t { reconciled = now })).0 in
    sweep-IsFollowed now t'.processes (record t' { processes = [] }) v
      (list_rows-IsUnique sight now rows (record t { reconciled = now }) w.unique)
      (list_rows-IsFollowed sight now rows (record t { reconciled = now }) v h)

told-InStep :
    (d : Option (Unit {0})) (o : Option ProcessEntry) (x : Option Process)
    → InStep d o x
    → told d o x ≡ passport_of o
told-InStep none o x h = h
told-InStep (some u) none x h = absurd h
told-InStep (some u) (some e) x h = refl

abbrev pub empty_diff : {Sample : Type 0} → Option Sample → Diff Sample
empty_diff sample = record { gone = []; passports = []; states = []; sample = sample }

-- A follower in step that applies the diff taken holds exactly the passports of the listed
-- processes.
pub follow-take :
    {Sample : Type 0} (sample : Option Sample) (t : ProcessTable) (v : View) (pid : ℕ)
    → IsTable t
    → IsFollowed t v
    → follow (take (empty_diff sample) t).0 v pid ≡ passport_of (get pid t.processes)
unfolding follow take
follow-take sample t v pid w h =
    all_enter-drained t.processes t.reconciled t.passports (all_leave t.gone v) pid w.entries
    ∙ told-InStep (get pid t.passports) (get pid t.processes) _ (h pid)

pub take-IsFollowed :
    {Sample : Type 0} (sample : Option Sample) (t : ProcessTable) (v : View)
    → IsTable t
    → IsFollowed t v
    → IsFollowed (take (empty_diff sample) t).1 (follow (take (empty_diff sample) t).0 v)
unfolding take get all_leave
take-IsFollowed sample t v w h pid = follow-take sample t v pid w h

pub observe-IsFollowed :
    (state : ProcessState) (t : ProcessTable) (v : View)
    → IsFollowed t v
    → IsFollowed (observe state t) v
unfolding observe passport
observe-IsFollowed state t v h pid = elim (Option-cases (get state.pid t.processes)) [
  | inl e ↦ rw (e, observe) (h pid)
  | inr (w, e) ↦
      rw (e, observe)
        (elim (Bool-cases (w.sequence_number == state.sequence_number && negb (w.state == state))) [
          | inl moved ↦ rw moved (
              rw get-insert (elim (Bool-cases (state.pid == pid)) [
                | inl hit ↦ rw hit (
                    InStep-same (get pid t.passports) w (record w { state = state }) _ refl refl
                      (rw (get_hit state.pid pid t.processes (some w) e hit) at (h pid)))
                | inr miss ↦ rw miss (h pid)
              ]))
          | inr idle ↦ rw idle (h pid)
        ])
]
