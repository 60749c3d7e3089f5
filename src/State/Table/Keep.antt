-- ===== src/State/Table/Keep.antt =====
-- Every operation keeps the table well formed.
use uniproc_windows_agent.Base.Words.{add64, u64_mod}
use uniproc_windows_agent.Base.{
  ℕ, suc, ◌≤◌, ◌<◌, List, [], ◌∷◌, Option, none, some, ◌==◌, nat_beq, string_beq, ◌≡◌, refl, arith,
  Option-cases, Bool-cases, inl, inr,
}
use uniproc_windows_agent.Base.Map.{get, insert, get-insert}
use uniproc_windows_agent.Snapshot.{Row}
use uniproc_windows_agent.State.Entry.{ProcessEntry, Sighted, sighted, state_beq}
use uniproc_windows_agent.State.Table.{
  ProcessTable, Listed, run_image, join, known, relist, list_row, list_rows, sweep, reconcile, new,
}
use uniproc_windows_agent.State.Table.Lookup.{
  keep, sweep-keep, IsUnique, kept, get-keep, run_image_fields,
}
use uniproc_windows_agent.State.Table.Exact.{
  IsTable, IsEntry, list_rows-IsUnique, get-reconcile, next_reconcile,
}

pub new-IsTable : IsTable new
unfolding new get
new-IsTable = record { unique = tt; entries = λ pid. tt }

keep-IsUnique : (now : ℕ) (m : Listed) → IsUnique m → IsUnique (keep now m)
unfolding keep
keep-IsUnique now [] u = tt
keep-IsUnique now ((k, e) ∷ m) u = ground (arith, keep-IsUnique now m u.1, get-keep now k m u.1)

IsEntry-mono : (pid a b : ℕ) (o : Option ProcessEntry) → a ≤ b → IsEntry pid a o → IsEntry pid b o
IsEntry-mono pid a b none h e = tt
IsEntry-mono pid a b (some w) h e = (e.0, omega arith)

insert-IsEntry :
    (k pid now : ℕ) (e : ProcessEntry) (m : Listed)
    → e.pid ≡ k
    → e.listed ≤ now
    → IsEntry pid now (get pid m)
    → IsEntry pid now (get pid (insert k e m))
insert-IsEntry k pid now e m same old h = rw get-insert (elim (Bool-cases (k == pid)) [
  | inl hit ↦ rw hit (ground (arith, nat_beq.beq_iff k pid), old)
  | inr miss ↦ rw miss h
])

list_row-IsEntry :
    (sight : Row → Sighted) (now pid : ℕ) (row : Row) (t : ProcessTable)
    → ((q : ℕ) → IsEntry q now (get q t.processes))
    → IsEntry pid now (get pid (list_row sight now row t).0.processes)
unfolding list_row relist join sighted
list_row-IsEntry sight now pid row t h = elim (Bool-cases (known row (get row.pid t.processes))) [
  | inl k ↦
      rw (k, list_row)
        (elim (Option-cases (get row.pid t.processes)) [
          | inl e ↦ rw (e, relist) (h pid)
          | inr (w, e) ↦
              rw (e, relist)
                (insert-IsEntry row.pid pid now _ t.processes ((rw e at (h row.pid)).0)
                  (omega arith) (h pid))
        ])
  | inr k ↦
      rw (k, list_row)
        (let e = record (sighted row (sight row)) { listed = now } in
          let fields = run_image_fields e t.images in
          insert-IsEntry row.pid pid now (run_image e t.images).1 t.processes fields.2
            (omega (arith, fields.1)) (h pid))
]

list_rows-IsEntry :
    (sight : Row → Sighted) (now : ℕ) (rows : List Row) (t : ProcessTable)
    → ((q : ℕ) → IsEntry q now (get q t.processes))
    → (pid : ℕ) → IsEntry pid now (get pid (list_rows sight now rows t).0.processes)
unfolding list_rows
list_rows-IsEntry sight now [] t h = h
list_rows-IsEntry sight now (row ∷ rows) t h =
    list_rows-IsEntry sight now rows (list_row sight now row t).0
      (λ q. list_row-IsEntry sight now q row t h)

kept-IsEntry :
    (pid now : ℕ) (o : Option ProcessEntry) → IsEntry pid now o → IsEntry pid now (kept now o)
kept-IsEntry pid now none h = tt
kept-IsEntry pid now (some e) h = ground arith

list_rows-reconciled :
    (sight : Row → Sighted) (now : ℕ) (rows : List Row) (t : ProcessTable)
    → (list_rows sight now rows t).0.reconciled ≡ t.reconciled
unfolding list_rows list_row join
list_rows-reconciled sight now [] t = refl
list_rows-reconciled sight now (row ∷ rows) t =
    ground (arith, list_rows-reconciled sight now rows (list_row sight now row t).0)

sweep-reconciled :
    (now : ℕ) (m : Listed) (t : ProcessTable) → (sweep now m t).reconciled ≡ t.reconciled
unfolding sweep
sweep-reconciled now [] t = refl
sweep-reconciled now ((pid, e) ∷ m) t = elim (Bool-cases (e.listed == now)) [
  | inl h ↦ rw (h, sweep) (sweep-reconciled now m _)
  | inr h ↦ rw (h, sweep) (sweep-reconciled now m _)
]

pub reconcile-reconciled :
    (rows : List Row) (sight : Row → Sighted) (t : ProcessTable)
    → (reconcile rows sight t).0.reconciled ≡ add64 t.reconciled 1
unfolding reconcile
reconcile-reconciled rows sight t =
    rw sweep-reconciled (list_rows-reconciled sight (add64 t.reconciled 1) rows _)

reconcile-IsUnique :
    (rows : List Row) (sight : Row → Sighted) (t : ProcessTable)
    → IsUnique t.processes
    → IsUnique (reconcile rows sight t).0.processes
unfolding reconcile
reconcile-IsUnique rows sight t u =
    let now = add64 t.reconciled 1 in
    rw sweep-keep
      (keep-IsUnique now _ (list_rows-IsUnique sight now rows (record t { reconciled = now }) u))

pub reconcile-IsTable :
    (rows : List Row) (sight : Row → Sighted) (t : ProcessTable)
    → IsTable t
    → suc t.reconciled < u64_mod
    → IsTable (reconcile rows sight t).0
reconcile-IsTable rows sight t v small =
    let now = add64 t.reconciled 1 in
    let t' = (list_rows sight now rows (record t { reconciled = now })).0 in
    record {
      unique = reconcile-IsUnique rows sight t v.unique;
      entries = λ pid.
          rw (get-reconcile rows sight t pid v.unique, reconcile-reconciled)
            (kept-IsEntry pid now (get pid t'.processes) (
              list_rows-IsEntry sight now rows (record t { reconciled = now })
                (λ q.
                  IsEntry-mono q t.reconciled now (get q t.processes)
                    (omega (arith, next_reconcile t.reconciled small)) (v.entries q))
                pid));
    }
