-- ===== src/State/Table/Images.antt =====
-- The images of the process table: each is counted once for every listed process that runs it, and
-- is forgotten with the last one.
use uniproc_windows_agent.Base.Words.{u32_mod}
use uniproc_windows_agent.Base.{
  ℕ, suc, ◌+◌, ◌-◌, ◌%◌, ◌≤◌, ◌<◌, String, List, [], ◌∷◌, ◌++◌, Option, none, some, ◌==◌, nat_beq,
  string_beq, if◌then◌else◌, ◌≡◌, refl, ap, arith, Option-cases, inl, inr, length,
}
use uniproc_windows_agent.Base.Map.{get, insert, get-insert, get-remove}
use uniproc_windows_agent.Snapshot.{Row}
use uniproc_windows_agent.State.Entry.{ProcessEntry, judged}
use uniproc_windows_agent.State.Table.{
  ProcessTable, Running, Images, Listed, release, run_image, replaced, join, relist,
}

-- 1 if a process of image `path` counts for the image `p`.
abbrev pub runs : String → String → ℕ
runs p path = if path == "" then 0 else if path == p then 1 else 0

-- How many listed processes run the image `p`.
unfoldable pub running : String → Listed → ℕ
running p [] = 0
running p ((_, e) ∷ m) = runs p e.image_path + running p m

abbrev pub runs_at : String → Option ProcessEntry → ℕ
runs_at p none = 0
runs_at p (some e) = runs p e.image_path

-- The images hold a count of exactly `n`, and nothing for an image that nobody runs.
abbrev pub Tally : Option Running → ℕ → Type 0
Tally none n = n ≡ 0
Tally (some r) n = (r.processes ≡ n) × (0 < n)

pub running-insert :
    (p : String) (k : ℕ) (e : ProcessEntry) (m : Listed)
    → running p (insert k e m) + runs_at p (get k m) ≡ running p m + runs p e.image_path
unfolding running insert get
running-insert p k e [] = ground arith
running-insert p k e ((j, w) ∷ m) = ground (arith, running-insert p k e m)

pub running-le-length : (p : String) (m : Listed) → running p m ≤ length m
unfolding running
running-le-length p [] = omega arith
running-le-length p ((_, e) ∷ m) = ground (arith, running-le-length p m)

pub length-insert : (k : ℕ) (e : ProcessEntry) (m : Listed) → length (insert k e m) ≤ suc (length m)
unfolding insert
length-insert k e [] = omega arith
length-insert k e ((j, w) ∷ m) = ground (arith, length-insert k e m)

-- The count of an image after one of its processes left.
pub lessen : Option Running → Option Running
lessen none = none
lessen (some r) =
    let left = (r.processes + u32_mod - 1) % u32_mod in
    if left == 0 then none else some (record r { processes = left })

pub get-release :
    (p path : String) (images : Images)
    → get p (release images path) ≡ (if path == p then lessen (get path images) else get p images)
unfolding release lessen
get-release p path images = elim (Option-cases (get path images)) [
  | inl e ↦ rw (e, release, lessen) (ground (arith, string_beq.beq_iff path p))
  | inr (r, e) ↦
      rw (e, release, lessen)
        (let left = (r.processes + u32_mod - 1) % u32_mod in
          ground (
            arith,
            get-remove path p images,
            get-insert path p (record r { processes = left }) images,
          ))
]

pub lessen-none : lessen none ≡ none
unfolding lessen
lessen-none = refl

pub lessen-Tally :
    (o : Option Running) (n : ℕ) → suc n < u32_mod → Tally o (suc n) → Tally (lessen o) n
unfolding lessen
lessen-Tally none n small h = absurd (omega arith)
lessen-Tally (some r) n small h = ground arith

-- Taking one process of `path` away.
pub release-Tally :
    (p path : String) (images : Images) (n : ℕ)
    → get "" images ≡ none
    → n + runs p path < u32_mod
    → Tally (get p images) (n + runs p path)
    → Tally (get p (release images path)) n
release-Tally p path images n empty small h = ground (
  arith,
  get-release p path images,
  lessen-none,
  lessen-Tally (get p images) n,
  string_beq.beq_iff path p,
  string_beq.beq_iff path "",
)

-- The entry that a join leaves under an image.
pub raise : Option Running → Option Running
raise none = some (record { verdict = none; processes = 1 })
raise (some r) = some (record r { processes = (r.processes + 1) % u32_mod })

pub get-run_image :
    (p : String) (e : ProcessEntry) (images : Images)
    → get p (run_image e images).0 ≡ (
        if e.image_path == ""
        then get p images
        else if e.image_path == p
        then raise (get e.image_path images)
        else get p images)
unfolding run_image raise
get-run_image p e images = elim (Option-cases (get e.image_path images)) [
  | inl h ↦
      rw (h, run_image, raise)
        (ground
          (arith, get-insert e.image_path p (record { verdict = none; processes = 1 }) images))
  | inr (r, h) ↦
      rw (h, run_image, raise)
        (ground (
          arith,
          get-insert e.image_path p (record r { processes = (r.processes + 1) % u32_mod }) images,
        ))
]

pub raise-Tally :
    (o : Option Running) (n : ℕ) → suc n < u32_mod → Tally o n → Tally (raise o) (suc n)
unfolding raise
raise-Tally none n small h = ground arith
raise-Tally (some r) n small h = ground arith

pub run_image-Tally :
    (p : String) (e : ProcessEntry) (images : Images) (n : ℕ)
    → suc n < u32_mod
    → Tally (get p images) n
    → Tally (get p (run_image e images).0) (n + runs p e.image_path)
run_image-Tally p e images n small h = ground (
  arith,
  get-run_image p e images,
  raise-Tally (get p images) n small h,
  string_beq.beq_iff e.image_path p,
)

-- Every image's count is the number of listed processes that run it.
abbrev pub IsCounted : Images → Listed → Type 0
IsCounted images m = (p : String) → Tally (get p images) (running p m)

pub running-empty : (m : Listed) → running "" m ≡ 0
unfolding running
running-empty [] = refl
running-empty ((_, e) ∷ m) = ground (arith, running-empty m)

pub Tally-zero : (o : Option Running) → Tally o 0 → o ≡ none
Tally-zero none h = refl
Tally-zero (some r) h = absurd (omega arith)

pub replaced-Tally :
    (p : String) (pid : ℕ) (o : Option ProcessEntry) (images : Images) (gone : List (ℕ × ℕ)) (n : ℕ)
    → get "" images ≡ none
    → n + runs_at p o < u32_mod
    → Tally (get p images) (n + runs_at p o)
    → Tally (get p (replaced pid o images gone).0) n
unfolding replaced
replaced-Tally p pid none images gone n empty small h = ground arith
replaced-Tally p pid (some e) images gone n empty small h =
    release-Tally p e.image_path images n empty small h

pub run_image-image_path :
    (e : ProcessEntry) (images : Images) → (run_image e images).1.image_path ≡ e.image_path
unfolding run_image judged
run_image-image_path e images = ground arith

pub runs-le-one : (p path : String) → runs p path ≤ 1
runs-le-one p path = ground arith

pub runs_empty : (path : String) → runs "" path ≡ 0
runs_empty path = ground arith

pub run_image-none :
    (e : ProcessEntry) (images : Images) (m : Listed)
    → IsCounted images m
    → get "" (run_image e images).0 ≡ none
run_image-none e images m h = Tally-zero _ (
    rw runs_empty at (run_image-Tally "" e images 0 (omega arith) (rw (running-empty m) at (h ""))))

pub join-IsCounted :
    (row : Row) (e : ProcessEntry) (t : ProcessTable)
    → suc (length t.processes) < u32_mod
    → IsCounted t.images t.processes
    → IsCounted (join row e t).0.images (join row e t).0.processes
unfolding join
join-IsCounted row e t small h p =
    let e' = (run_image e t.images).1 in
    let m = t.processes in
    let balance = running-insert p row.pid e' m in
    let same = ap (runs p) (run_image-image_path e t.images) in
    replaced-Tally p row.pid (get row.pid m) (run_image e t.images).0 t.gone
      (running p (insert row.pid e' m)) (run_image-none e t.images m h)
      (omega (arith, balance, runs-le-one p e'.image_path, running-le-length p m))
      (rw (balance, same)
        (run_image-Tally p e t.images (running p m) (omega (arith, running-le-length p m)) (h p)))

-- What the listing of a row may change of the images and of what they count.
pub relist-IsCounted :
    (pid now : ℕ) (images : Images) (m : Listed)
    → IsCounted images m
    → IsCounted images (relist pid now (get pid m) m)
unfolding relist
relist-IsCounted pid now images m h p = elim (Option-cases (get pid m)) [
  | inl e ↦ rw (e, relist) (h p)
  | inr (w, e) ↦
      rw (e, relist)
        (let same : running p (insert pid (record w { listed = now }) m) ≡ running p m =
            omega (arith, running-insert p pid (record w { listed = now }) m, ap (runs_at p) e) in
          rw same (h p))
]

pub length-relist :
    (pid now : ℕ) (m : Listed) → length (relist pid now (get pid m) m) ≤ suc (length m)
unfolding relist
length-relist pid now m = elim (Option-cases (get pid m)) [
  | inl e ↦ rw (e, relist) (omega arith)
  | inr (w, e) ↦ rw (e, relist) (length-insert pid (record w { listed = now }) m)
]

pub length-join :
    (row : Row) (e : ProcessEntry) (t : ProcessTable)
    → length (join row e t).0.processes ≤ suc (length t.processes)
unfolding join
length-join row e t = length-insert row.pid (run_image e t.images).1 t.processes

pub running-append : (p : String) (m n : Listed) → running p (m ++ n) ≡ running p m + running p n
unfolding running
running-append p [] n = omega arith
running-append p ((_, e) ∷ m) n = omega (arith, running-append p m n)

pub running_move :
    (p : String) (pid : ℕ) (e : ProcessEntry) (kept rest : Listed)
    → running p (kept ++ (pid, e) ∷ []) + running p rest
      ≡ running p kept + running p ((pid, e) ∷ rest)
unfolding running
running_move p pid e kept rest = omega (arith, running-append p kept ((pid, e) ∷ []))

pub running_split :
    (p : String) (pid : ℕ) (e : ProcessEntry) (kept rest : Listed)
    → running p kept + running p ((pid, e) ∷ rest)
      ≡ running p kept + running p rest + runs p e.image_path
unfolding running
running_split p pid e kept rest = omega arith

pub running-nil : (p : String) (m : Listed) → running p [] + running p m ≡ running p m
unfolding running
running-nil p m = omega arith
