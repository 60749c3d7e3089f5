-- ===== src/State/Table/Follow.antt =====
-- What a follower of the diffs holds: it takes out each process that is gone, if it still holds
-- that very one, and then puts the passports in. A table and a follower are in step while the
-- pending changes make up the difference.
use mathlib.Core.Path.{◌∙◌}
use uniproc_windows_agent.Base.{
  ℕ, Bool, true, false, List, [], ◌∷◌, ◌++◌, Option, none, some, ◌==◌, nat_beq, string_beq,
  if◌then◌else◌, ◌≡◌, refl, ap, arith, Option-cases, inl, inr,
}
use uniproc_windows_agent.Base.Map.{get, KeySet}
use uniproc_windows_agent.Report.{Diff, Process, passport}
use uniproc_windows_agent.State.Entry.{ProcessEntry}
use uniproc_windows_agent.State.Table.{ProcessTable, Listed, drained}
use uniproc_windows_agent.State.Table.Exact.{IsEntry}

abbrev pub View : Type 0
View = ℕ → Option Process

abbrev pub without : ℕ → Option Process → Option Process
without n none = none
without n (some p) = if p.sequence_number == n then none else some p

abbrev pub leave : ℕ → ℕ → View → View
leave k n v pid = if k == pid then without n (v pid) else v pid

unfoldable pub all_leave : List (ℕ × ℕ) → View → View
all_leave [] v = v
all_leave ((k, n) ∷ gone) v = all_leave gone (leave k n v)

abbrev pub enter : Process → View → View
enter p v pid = if p.pid == pid then some p else v pid

unfoldable pub all_enter : List Process → View → View
all_enter [] v = v
all_enter (p ∷ ps) v = all_enter ps (enter p v)

unfoldable pub follow : {Sample : Type 0} → Diff Sample → View → View
follow diff v = all_enter diff.passports (all_leave diff.gone v)

-- What the table says of a pid.
abbrev pub passport_of : Option ProcessEntry → Option Process
passport_of none = none
passport_of (some e) = some (passport e)

abbrev pub IsPrior : Option Process → ℕ → Type 0
IsPrior none n = Unit
IsPrior (some p) n = p.sequence_number ≡ n

-- A pid that is to be told anew is listed, and the follower holds nothing or the same process;
-- any other pid reads in the follower as in the table.
abbrev pub InStep : Option (Unit {0}) → Option ProcessEntry → Option Process → Type 0
InStep none o x = x ≡ passport_of o
InStep (some _) none x = ⊥
InStep (some _) (some e) x = IsPrior x e.sequence_number

abbrev pub IsFollowed : ProcessTable → View → Type 0
IsFollowed t v =
    (pid : ℕ) → InStep (get pid t.passports) (get pid t.processes) (all_leave t.gone v pid)

pub all_leave-append :
    (g h : List (ℕ × ℕ)) (v : View) → all_leave (g ++ h) v ≡ all_leave h (all_leave g v)
unfolding all_leave
all_leave-append [] h v = refl
all_leave-append ((k, n) ∷ g) h v = all_leave-append g h (leave k n v)

pub all_leave_one :
    (g : List (ℕ × ℕ)) (k n pid : ℕ) (v : View)
    → all_leave (g ++ (k, n) ∷ []) v pid ≡ leave k n (all_leave g v) pid
unfolding all_leave
all_leave_one g k n pid v = rw all_leave-append

-- Once its going is told, a pid whose process left is held no more.
pub InStep-without :
    (d : Option (Unit {0})) (e : ProcessEntry) (x : Option Process)
    → InStep d (some e) x
    → without e.sequence_number x ≡ none
unfolding passport
InStep-without none e none h = refl
InStep-without none e (some p) h = ground arith
InStep-without (some u) e none h = refl
InStep-without (some u) e (some p) h = ground arith

-- Telling a listed pid anew is always right.
pub InStep-told :
    (d : Option (Unit {0})) (e e' : ProcessEntry) (x : Option Process)
    → e'.sequence_number ≡ e.sequence_number
    → InStep d (some e) x
    → InStep (some tt) (some e') x
unfolding passport
InStep-told none e e' none same h = tt
InStep-told none e e' (some p) same h = ground arith
InStep-told (some u) e e' none same h = tt
InStep-told (some u) e e' (some p) same h = ground arith

-- A change that the passport does not show leaves the follower in step.
pub InStep-same :
    (d : Option (Unit {0})) (e e' : ProcessEntry) (x : Option Process)
    → passport e' ≡ passport e
    → e'.sequence_number ≡ e.sequence_number
    → InStep d (some e) x
    → InStep d (some e') x
InStep-same none e e' x same seq h = rw same h
InStep-same (some u) e e' x same seq h = rw seq h

abbrev pub told : Option (Unit {0}) → Option ProcessEntry → Option Process → Option Process
told none o x = x
told (some _) none x = x
told (some _) (some e) x = some (passport e)

told-none : (d : Option (Unit {0})) (x : Option Process) → told d none x ≡ x
told-none none x = refl
told-none (some u) x = refl

told_hit :
    (d : Option (Unit {0})) (e : ProcessEntry) (v : View) (pid : ℕ)
    → (e.pid == pid) ≡ true
    → told d (some e) (enter (passport e) v pid) ≡ some (passport e)
unfolding passport
told_hit none e v pid h = rw h
told_hit (some u) e v pid h = refl

told-enter :
    (d : Option (Unit {0})) (o : Option ProcessEntry) (e : ProcessEntry) (u : Unit {0}) (v : View)
    (pid : ℕ) (b : Bool)
    → (e.pid == pid) ≡ b
    → (b ≡ true → o ≡ some e)
    → told d o (enter (passport e) v pid) ≡ told (if b then some u else d) o (v pid)
unfolding passport
told-enter d o e u v pid true hit at = rw (at refl) (told_hit d e v pid hit)
told-enter d o e u v pid false miss at = rw miss

told_absent :
    (d : Option (Unit {0})) (o : Option ProcessEntry) (u : Unit {0}) (x : Option Process) (b : Bool)
    → (b ≡ true → o ≡ none)
    → told d o x ≡ told (if b then some u else d) o x
told_absent d o u x true h = rw (h refl) (told-none d x)
told_absent d o u x false h = refl

pub get_hit :
    (k pid : ℕ) (m : Listed) (o : Option ProcessEntry)
    → get k m ≡ o
    → (k == pid) ≡ true
    → get pid m ≡ o
get_hit k pid m o e h = rw (← (nat_beq.beq_iff k pid).0 h) e

pub all_enter-drained :
    (m : Listed) (last : ℕ) (pids : KeySet ℕ) (v : View) (pid : ℕ)
    → ((q : ℕ) → IsEntry q last (get q m))
    → all_enter (drained passport m pids) v pid ≡ told (get pid pids) (get pid m) (v pid)
unfolding all_enter drained get
all_enter-drained m last [] v pid h = refl
all_enter-drained m last ((k, u) ∷ pids) v pid h = elim (Option-cases (get k m)) [
  | inl e ↦
      rw (e, drained)
        (all_enter-drained m last pids v pid h
          ∙ told_absent (get pid pids) (get pid m) u (v pid) (k == pid) (get_hit k pid m none e))
  | inr (w, e) ↦
      rw (e, drained)
        (all_enter-drained m last pids (enter (passport w) v) pid h
          ∙ told-enter (get pid pids) (get pid m) w u v pid (k == pid)
              (ap (λ q. q == pid) ((rw e at (h k)).0)) (get_hit k pid m (some w) e))
]
