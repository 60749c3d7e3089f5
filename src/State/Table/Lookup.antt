-- ===== src/State/Table/Lookup.antt =====
-- What `reconcile` makes of the entry of one pid.
use mathlib.Core.List.{append-nil, append_assoc}
use mathlib.Core.Path.{◌∙◌, subst}
use uniproc_windows_agent.Base.{
  ℕ, true, false, List, [], ◌∷◌, ◌++◌, Option, none, some, ◌==◌, nat_beq, string_beq, if◌then◌else◌,
  ◌≡◌, refl, arith, Option-cases, Bool-cases, inl, inr,
}
use uniproc_windows_agent.Base.Map.{get, insert, remove, get-insert, beq_refl}
use uniproc_windows_agent.Snapshot.{Row}
use uniproc_windows_agent.State.Entry.{ProcessEntry, Sighted, judged, sighted}
use uniproc_windows_agent.State.Table.{
  ProcessTable, Images, Listed, release, run_image, join, known, relist, list_row, list_rows, sweep,
}

-- What a table that is exactly the snapshot answers for a pid: the sequence number of the last row
-- of that pid.
unfoldable pub in_rows : ℕ → List Row → Option ℕ
in_rows pid [] = none
in_rows pid (row ∷ rows) =
    let rest = in_rows pid rows in
    elim rest [ none ↦ if row.pid == pid then some row.sequence_number else none | some n ↦ some n ]

abbrev pub sequence_of : Option ProcessEntry → Option ℕ
sequence_of none = none
sequence_of (some e) = some e.sequence_number

-- The entries that a sweep keeps.
unfoldable pub keep : ℕ → Listed → Listed
keep now [] = []
keep now ((pid, e) ∷ m) = let rest = keep now m in if e.listed == now then (pid, e) ∷ rest else rest

pub sweep-keep :
    (now : ℕ) (m : Listed) (t : ProcessTable)
    → (sweep now m t).processes ≡ t.processes ++ keep now m
unfolding sweep keep
sweep-keep now [] t = rw append-nil
sweep-keep now ((pid, e) ∷ m) t = elim (Bool-cases (e.listed == now)) [
  | inl h ↦
      rw (h, sweep, keep)
        (sweep-keep now m (record t { processes = t.processes ++ (pid, e) ∷ [] })
          ∙ append_assoc t.processes ((pid, e) ∷ []) (keep now m))
  | inr h ↦
      rw (h, sweep, keep)
        (sweep-keep now m (record t {
          images = release t.images e.image_path;
          gone = t.gone ++ (pid, e.sequence_number) ∷ [];
          passports = remove pid t.passports;
          states = remove pid t.states;
        }))
]

-- Every key of the map stands once.
abbrev pub IsUnique {ℓ} : {V : Type ℓ} → List (ℕ × V) → Type ℓ
IsUnique [] = Unit
IsUnique ((k, _) ∷ m) = (get k m ≡ none) × IsUnique m

abbrev pub kept : ℕ → Option ProcessEntry → Option ProcessEntry
kept now none = none
kept now (some e) = if e.listed == now then some e else none

pub get-keep : (now pid : ℕ) (m : Listed) → IsUnique m → get pid (keep now m) ≡ kept now (get pid m)
unfolding get keep
get-keep now pid [] u = refl
get-keep now pid ((k, e) ∷ m) u = ground (arith, get-keep now pid m u.1, nat_beq.beq_iff k pid)

pub insert-IsUnique : (k : ℕ) (e : ProcessEntry) (m : Listed) → IsUnique m → IsUnique (insert k e m)
unfolding insert get
insert-IsUnique k e [] u = (refl, tt)
insert-IsUnique k e ((j, w) ∷ m) u = ground (arith, insert-IsUnique k e m u.1, get-insert k j e m)

pub run_image_fields :
    (e : ProcessEntry) (images : Images)
    → let e' = (run_image e images).1 in
      (e'.sequence_number ≡ e.sequence_number) × (e'.listed ≡ e.listed) × (e'.pid ≡ e.pid)
unfolding run_image judged
run_image_fields e images = ground arith

-- What the listing of the rows so far makes of the entry `o` of a pid, by what the rows say of it.
abbrev pub Fits : Option ℕ → ℕ → Option ProcessEntry → Option ProcessEntry → Type 0
Fits none now o o' = o' ≡ o
Fits (some n) now o o' = (sequence_of o' ≡ some n) × (kept now o' ≡ o')

pub get-list_row_ne :
    (sight : Row → Sighted) (now pid : ℕ) (row : Row) (t : ProcessTable)
    → (row.pid == pid) ≡ false
    → get pid (list_row sight now row t).0.processes ≡ get pid t.processes
unfolding list_row relist join
get-list_row_ne sight now pid row t h = elim (Bool-cases (known row (get row.pid t.processes))) [
  | inl k ↦
      rw (k, list_row)
        (elim (Option-cases (get row.pid t.processes)) [
          | inl e ↦ rw (e, relist)
          | inr (w, e) ↦ rw (e, relist) (rw (get-insert, h))
        ])
  | inr k ↦ rw (k, list_row) (rw (get-insert, h))
]

get-relist :
    (row : Row) (now : ℕ) (m : Listed) (o : Option ProcessEntry)
    → known row o ≡ true
    → Fits (some row.sequence_number) now none (get row.pid (relist row.pid now o m))
unfolding relist known
get-relist row now m none h = cc
get-relist row now m (some w) h =
    rw (get-insert, beq_refl) (ground arith, ground (arith, nat_beq.beq_iff now now))

get-join :
    (row : Row) (e : ProcessEntry) (now : ℕ) (t : ProcessTable)
    → e.sequence_number ≡ row.sequence_number
    → e.listed ≡ now
    → Fits (some row.sequence_number) now none (get row.pid (join row e t).0.processes)
unfolding join
get-join row e now t same fresh =
    let fields = run_image_fields e t.images in
    rw (get-insert, beq_refl)
      (ground (arith, fields), ground (arith, fields, nat_beq.beq_iff now now))

pub get-list_row_self :
    (sight : Row → Sighted) (now : ℕ) (row : Row) (t : ProcessTable)
    → Fits (some row.sequence_number) now none (get row.pid (list_row sight now row t).0.processes)
unfolding list_row sighted
get-list_row_self sight now row t = elim (Bool-cases (known row (get row.pid t.processes))) [
  | inl k ↦ rw (k, list_row) (get-relist row now t.processes (get row.pid t.processes) k)
  | inr k ↦ rw (k, list_row) (get-join row _ now t refl refl)
]

pub get-list_rows :
    (sight : Row → Sighted) (now pid : ℕ) (rows : List Row) (t : ProcessTable)
    → Fits
        (in_rows pid rows)
        now
        (get pid t.processes)
        (get pid (list_rows sight now rows t).0.processes)
unfolding list_rows in_rows
get-list_rows sight now pid [] t = refl
get-list_rows sight now pid (row ∷ rows) t =
    let t' = (list_row sight now row t).0 in
    let later = get-list_rows sight now pid rows t' in
    elim (Option-cases (in_rows pid rows)) [
      | inr (n, e) ↦ rw (e, in_rows) (rw e at later)
      | inl e ↦ elim (Bool-cases (row.pid == pid)) [
        | inl hit ↦
            rw (e, in_rows, hit)
              (rw (rw e at later) (
                subst (λ q. Fits (some row.sequence_number) now none (get q t'.processes))
                  ((nat_beq.beq_iff row.pid pid).0 hit) (get-list_row_self sight now row t)))
        | inr miss ↦
            rw (e, in_rows, miss) ((rw e at later) ∙ get-list_row_ne sight now pid row t miss)
      ]
    ]
