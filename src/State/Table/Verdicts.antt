-- ===== src/State/Table/Verdicts.antt =====
-- A verdict keeps a follower of the diffs in step: each process whose passport it moves is told.
use mathlib.Core.Path.{◌∙◌}
use uniproc_windows_agent.Base.{
  ℕ, Bool, true, false, [], ◌∷◌, Option, none, some, ◌&&◌, ◌==◌, nat_beq, string_beq, if◌then◌else◌,
  ◌≡◌, refl, ap, arith, Option-cases, Bool-cases, inl, inr,
}
use uniproc_windows_agent.Base.Map.{get, insert, get-insert, KeySet, beq_refl}
use uniproc_windows_agent.Report.{Process, passport}
use uniproc_windows_agent.State.Events.{Image, ImageVerdict}
use uniproc_windows_agent.State.Entry.{ProcessEntry, judged, state_beq, signature_beq}
use uniproc_windows_agent.State.Table.{ProcessTable, Listed, judge_all, judge}
use uniproc_windows_agent.State.Table.Lookup.{IsUnique}
use uniproc_windows_agent.State.Table.Exact.{IsTable, IsEntry}
use uniproc_windows_agent.State.Table.Follow.{
  View, all_leave, InStep, IsFollowed, InStep-told, InStep-same, get_hit,
}

-- A verdict that moves nothing leaves the passport as it is.
passport-judged :
    (e : ProcessEntry) (verdict : ImageVerdict)
    → (judged e verdict).1 ≡ false
    → passport (judged e verdict).0 ≡ passport e
unfolding passport judged
passport-judged e verdict h = ground (
  arith,
  signature_beq.beq_iff e.signature verdict.signature,
  string_beq.beq_iff e.display_name verdict.display_name,
  string_beq.beq_iff e.publisher verdict.publisher,
)

abbrev IsKeyed : Listed → Type 0
IsKeyed [] = Unit
IsKeyed ((k, e) ∷ m) = (e.pid ≡ k) × IsKeyed m

tail-IsEntry :
    (k last : ℕ) (e : ProcessEntry) (m : Listed) (q : ℕ)
    → get k m ≡ none
    → IsEntry q last (get q ((k, e) ∷ m))
    → IsEntry q last (get q m)
unfolding get
tail-IsEntry k last e m q u h = elim (Bool-cases (k == q)) [
  | inl hit ↦ rw (get_hit k q m none u hit) tt
  | inr miss ↦ rw miss at h
]

keyed : (last : ℕ) (m : Listed) → IsUnique m → ((q : ℕ) → IsEntry q last (get q m)) → IsKeyed m
unfolding get
keyed last [] u h = tt
keyed last ((k, e) ∷ m) u h =
    ((rw beq_refl at (h k)).0, keyed last m u.1 (λ q. tail-IsEntry k last e m q u.0 (h q)))

tell : Bool → ProcessEntry → KeySet ℕ → KeySet ℕ
tell b e ps = if b then insert e.pid tt ps else ps

get-tell_ne :
    (b : Bool) (e : ProcessEntry) (ps : KeySet ℕ) (pid : ℕ)
    → (e.pid == pid) ≡ false
    → get pid (tell b e ps) ≡ get pid ps
unfolding tell
get-tell_ne true e ps pid miss = get-insert e.pid pid tt ps ∙ rw miss
get-tell_ne false e ps pid miss = refl

get_cons_none :
    (k pid : ℕ) (e : ProcessEntry) (m : Listed)
    → get pid ((k, e) ∷ m) ≡ none
    → ((k == pid) ≡ false) × (get pid m ≡ none)
unfolding get
get_cons_none k pid e m h = ground arith

-- Verdicts tell no pid that the list does not hold.
judge_all_ne :
    (image : Image) (m : Listed) (ps : KeySet ℕ) (pid : ℕ)
    → IsKeyed m
    → get pid m ≡ none
    → get pid (judge_all image m ps).1 ≡ get pid ps
unfolding judge_all tell
judge_all_ne image [] ps pid w h = refl
judge_all_ne image ((k, e) ∷ m) ps pid w h =
    let b = e.image_path == image.path && (judged e image.verdict).1 in
    let (miss, none_here) = get_cons_none k pid e m h in
    judge_all_ne image m (tell b e ps) pid w.1 none_here
    ∙ get-tell_ne b e ps pid (ap (λ q. q == pid) w.0 ∙ miss)

sequence-judged :
    (e : ProcessEntry) (verdict : ImageVerdict)
    → (judged e verdict).0.sequence_number ≡ e.sequence_number
unfolding judged
sequence-judged e verdict = refl

InStep-judged :
    (mine : Bool) (verdict : ImageVerdict) (e : ProcessEntry) (ps : KeySet ℕ) (pid : ℕ)
    (x : Option Process)
    → (e.pid == pid) ≡ true
    → InStep (get pid ps) (some e) x
    → InStep
        (get pid (tell (mine && (judged e verdict).1) e ps))
        (some (if mine then (judged e verdict).0 else e))
        x
unfolding tell
InStep-judged false verdict e ps pid x hit h = h
InStep-judged true verdict e ps pid x hit h = elim (Bool-cases ((judged e verdict).1)) [
  | inl moved ↦ rw moved (
      rw get-insert
        (rw hit (InStep-told (get pid ps) e (judged e verdict).0 x (sequence-judged e verdict) h)))
  | inr idle ↦ rw idle (
      InStep-same (get pid ps) e (judged e verdict).0 x (passport-judged e verdict idle)
        (sequence-judged e verdict) h)
]

judge_all-InStep :
    (image : Image) (m : Listed) (ps : KeySet ℕ) (pid : ℕ) (x : Option Process)
    → IsKeyed m
    → IsUnique m
    → InStep (get pid ps) (get pid m) x
    → InStep (get pid (judge_all image m ps).1) (get pid (judge_all image m ps).0) x
unfolding judge_all get tell
judge_all-InStep image [] ps pid x w u h = h
judge_all-InStep image ((k, e) ∷ m) ps pid x w u h =
    let mine = e.image_path == image.path in
    let ps' = tell (mine && (judged e image.verdict).1) e ps in
    elim (Bool-cases (k == pid)) [
      | inl hit ↦
          rw (hit, judge_all_ne image m ps' pid w.1 (get_hit k pid m none u.0 hit))
            (InStep-judged mine image.verdict e ps pid x (ap (λ q. q == pid) w.0 ∙ hit)
              (rw hit at h))
      | inr miss ↦ rw miss (
          judge_all-InStep image m ps' pid x w.1 u.1 (
            rw
              (get-tell_ne (mine && (judged e image.verdict).1) e ps pid
                (ap (λ q. q == pid) w.0 ∙ miss))
              (rw miss at h)))
    ]

pub judge-IsFollowed :
    (image : Image) (t : ProcessTable) (v : View)
    → IsTable t
    → IsFollowed t v
    → IsFollowed (judge image t) v
unfolding judge
judge-IsFollowed image t v w h pid = elim (Option-cases (get image.path t.images)) [
  | inl e ↦ rw (e, judge) (h pid)
  | inr (r, e) ↦
      rw (e, judge)
        (judge_all-InStep image t.processes t.passports pid (all_leave t.gone v pid)
          (keyed t.reconciled t.processes w.unique w.entries) w.unique (h pid))
]
