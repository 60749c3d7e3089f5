-- ===== src/State/Table/Reconcile.antt =====
-- `reconcile` keeps the count of every image, whatever rows it is given.
use native.Mathlib.Nat.{add-zero}
use uniproc_windows_agent.Base.Words.{add64, u32_mod}
use uniproc_windows_agent.Base.{
  ℕ, suc, ◌+◌, ◌≤◌, ◌<◌, String, List, [], ◌∷◌, ◌++◌, none, ◌==◌, nat_beq, string_beq, ◌≡◌, arith,
  Bool-cases, inl, inr, length, length-append,
}
use uniproc_windows_agent.Base.Map.{get, remove}
use uniproc_windows_agent.Snapshot.{Row}
use uniproc_windows_agent.State.Entry.{Sighted}
use uniproc_windows_agent.State.Table.{
  ProcessTable, Images, Listed, release, known, list_row, list_rows, sweep, reconcile,
}
use uniproc_windows_agent.State.Table.Images.{
  IsCounted, Tally, Tally-zero, running, running-empty, running-le-length, join-IsCounted,
  relist-IsCounted, length-relist, length-join, release-Tally, runs-le-one, running_move,
  running_split, running-nil,
}

list_row-IsCounted :
    (sight : Row → Sighted) (now : ℕ) (row : Row) (t : ProcessTable)
    → suc (length t.processes) < u32_mod
    → IsCounted t.images t.processes
    → let t' = (list_row sight now row t).0 in
      IsCounted t'.images t'.processes × (length t'.processes ≤ suc (length t.processes))
unfolding list_row
list_row-IsCounted sight now row t small h =
    elim (Bool-cases (known row (get row.pid t.processes))) [
      | inl e ↦
          rw (e, list_row)
            (
              relist-IsCounted row.pid now t.images t.processes h,
              length-relist row.pid now t.processes,
            )
      | inr e ↦ rw (e, list_row) (join-IsCounted row _ t small h, length-join row _ t)
    ]

list_rows-IsCounted :
    (sight : Row → Sighted) (now : ℕ) (rows : List Row) (t : ProcessTable)
    → suc (length t.processes + length rows) < u32_mod
    → IsCounted t.images t.processes
    → let t' = (list_rows sight now rows t).0 in
      IsCounted t'.images t'.processes × (length t'.processes ≤ length t.processes + length rows)
unfolding list_rows
list_rows-IsCounted sight now [] t small h = (h, omega arith)
list_rows-IsCounted sight now (row ∷ rows) t small h =
    let t' = (list_row sight now row t).0 in
    let (counted, short) = list_row-IsCounted sight now row t (omega arith) h in
    let (counted', short') = list_rows-IsCounted sight now rows t' (omega arith) counted in
    (counted', omega arith)

-- While the sweep goes on, the images count what is kept so far with what is still to come.
abbrev IsSplit : Images → Listed → Listed → Type 0
IsSplit images kept rest = (p : String) → Tally (get p images) (running p kept + running p rest)

IsSplit-none :
    (images : Images) (kept rest : Listed) → IsSplit images kept rest → get "" images ≡ none
IsSplit-none images kept rest h =
    Tally-zero _ (rw (running-empty kept, running-empty rest) at (h ""))

sweep-IsCounted :
    (now : ℕ) (rest : Listed) (t : ProcessTable)
    → length t.processes + length rest < u32_mod
    → IsSplit t.images t.processes rest
    → IsCounted (sweep now rest t).images (sweep now rest t).processes
unfolding sweep running
sweep-IsCounted now [] t small h = λ p. rw add-zero at (h p)
sweep-IsCounted now ((pid, e) ∷ rest) t small h = elim (Bool-cases (e.listed == now)) [
  | inl stays ↦
      rw (stays, sweep)
        (sweep-IsCounted now rest (record t { processes = t.processes ++ (pid, e) ∷ [] })
          (omega (arith, length-append t.processes ((pid, e) ∷ [])))
          (λ p. rw (running_move p pid e t.processes rest) (h p)))
  | inr leaves ↦
      rw (leaves, sweep)
        (sweep-IsCounted now rest
          (record t {
            images = release t.images e.image_path;
            gone = t.gone ++ (pid, e.sequence_number) ∷ [];
            passports = remove pid t.passports;
            states = remove pid t.states;
          })
          (omega arith)
          (λ p.
            release-Tally p e.image_path t.images (running p t.processes + running p rest)
              (IsSplit-none t.images t.processes ((pid, e) ∷ rest) h)
              (omega (
                arith,
                running-le-length p t.processes,
                running-le-length p rest,
                runs-le-one p e.image_path,
              ))
              (rw (← running_split p pid e t.processes rest) (h p))))
]

-- After any snapshot each image is counted once for every listed process that runs it, and an image
-- that no listed process runs is not held. The processes before and the rows fit a `u32` together.
pub reconcile-IsCounted :
    (rows : List Row) (sight : Row → Sighted) (t : ProcessTable)
    → suc (length t.processes + length rows) < u32_mod
    → IsCounted t.images t.processes
    → IsCounted (reconcile rows sight t).0.images (reconcile rows sight t).0.processes
unfolding reconcile
reconcile-IsCounted rows sight t small h =
    let now = add64 t.reconciled 1 in
    let t' = (list_rows sight now rows (record t { reconciled = now })).0 in
    let (counted, short) =
      list_rows-IsCounted sight now rows (record t { reconciled = now }) small h in
    sweep-IsCounted now t'.processes (record t' { processes = [] }) (omega arith)
      (λ p. rw (running-nil p t'.processes) (counted p))
