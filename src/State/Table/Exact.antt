-- ===== src/State/Table/Exact.antt =====
-- `reconcile` makes the table exactly the snapshot's processes.
use uniproc_windows_agent.Base.Words.{add64, u64_mod}
use uniproc_windows_agent.Base.{
  ℕ, suc, ◌≤◌, ◌<◌, List, [], ◌∷◌, Option, none, some, nat_beq, string_beq, ◌≡◌, refl, arith,
  Option-cases, Bool-cases, inl, inr,
}
use uniproc_windows_agent.Base.Map.{get}
use uniproc_windows_agent.Snapshot.{Row}
use uniproc_windows_agent.State.Entry.{ProcessEntry, Sighted}
use uniproc_windows_agent.State.Table.{
  ProcessTable, join, known, relist, list_row, list_rows, reconcile,
}
use uniproc_windows_agent.State.Table.Lookup.{
  in_rows, sequence_of, sweep-keep, IsUnique, kept, get-keep, insert-IsUnique, Fits, get-list_rows,
}

-- What a table keeps: every pid stands once, under an entry of that pid, which an earlier or the
-- last snapshot listed.
abbrev pub IsEntry : ℕ → ℕ → Option ProcessEntry → Type 0
IsEntry pid last none = Unit
IsEntry pid last (some e) = (e.pid ≡ pid) × (e.listed ≤ last)

pub record IsTable (t : ProcessTable) : Type 0 where
  pub unique : IsUnique t.processes
  pub entries : (pid : ℕ) → IsEntry pid t.reconciled (get pid t.processes)

kept_old : (pid last : ℕ) (o : Option ProcessEntry) → IsEntry pid last o → kept (suc last) o ≡ none
kept_old pid last none h = refl
kept_old pid last (some e) h = ground arith

list_row-IsUnique :
    (sight : Row → Sighted) (now : ℕ) (row : Row) (t : ProcessTable)
    → IsUnique t.processes
    → IsUnique (list_row sight now row t).0.processes
unfolding list_row relist join
list_row-IsUnique sight now row t u = elim (Bool-cases (known row (get row.pid t.processes))) [
  | inl k ↦
      rw (k, list_row)
        (elim (Option-cases (get row.pid t.processes)) [
          | inl e ↦ rw (e, relist) u
          | inr (w, e) ↦ rw (e, relist) (insert-IsUnique row.pid _ t.processes u)
        ])
  | inr k ↦ rw (k, list_row) (insert-IsUnique row.pid _ t.processes u)
]

pub list_rows-IsUnique :
    (sight : Row → Sighted) (now : ℕ) (rows : List Row) (t : ProcessTable)
    → IsUnique t.processes
    → IsUnique (list_rows sight now rows t).0.processes
unfolding list_rows
list_rows-IsUnique sight now [] t u = u
list_rows-IsUnique sight now (row ∷ rows) t u =
    list_rows-IsUnique sight now rows (list_row sight now row t).0
      (list_row-IsUnique sight now row t u)

-- The entry of each pid after a snapshot.
pub get-reconcile :
    (rows : List Row) (sight : Row → Sighted) (t : ProcessTable) (pid : ℕ)
    → IsUnique t.processes
    → let now = add64 t.reconciled 1 in
      get pid (reconcile rows sight t).0.processes
      ≡ kept now (get pid (list_rows sight now rows (record t { reconciled = now })).0.processes)
unfolding reconcile
get-reconcile rows sight t pid u =
    let now = add64 t.reconciled 1 in
    let t' = (list_rows sight now rows (record t { reconciled = now })).0 in
    rw sweep-keep (
      get-keep now pid t'.processes
        (list_rows-IsUnique sight now rows (record t { reconciled = now }) u))

Fits-kept :
    (q : Option ℕ) (pid last now : ℕ) (o o' : Option ProcessEntry)
    → now ≡ suc last
    → IsEntry pid last o
    → Fits q now o o'
    → sequence_of (kept now o') ≡ q
Fits-kept none pid last now o o' e h f = rw (f, e, kept_old pid last o h)
Fits-kept (some n) pid last now o o' e h f = rw (f.1) (f.0)

pub next_reconcile : (last : ℕ) → suc last < u64_mod → add64 last 1 ≡ suc last
unfolding add64
next_reconcile last h = omega arith

-- After a snapshot a pid is listed exactly when a row has it, under the sequence number of its last
-- row: processes that joined are there, those that left are not, and a pid in use again is the new
-- process. The reconcile counter has not run over.
pub reconcile_exact :
    (rows : List Row) (sight : Row → Sighted) (t : ProcessTable) (pid : ℕ)
    → IsTable t
    → suc t.reconciled < u64_mod
    → sequence_of (get pid (reconcile rows sight t).0.processes) ≡ in_rows pid rows
reconcile_exact rows sight t pid v small =
    let now = add64 t.reconciled 1 in
    rw (get-reconcile rows sight t pid v.unique) (
      Fits-kept (in_rows pid rows) pid t.reconciled now (get pid t.processes) _
        (next_reconcile t.reconciled small) (v.entries pid)
        (get-list_rows sight now pid rows (record t { reconciled = now })))
