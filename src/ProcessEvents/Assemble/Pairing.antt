-- ===== src/ProcessEvents/Assemble/Pairing.antt =====
-- crates/core/src/process_events/assemble.rs: the halves of a start, joined as they come.
use mathlib.Core.Option
use uniproc_windows_agent.Base.{
  ℕ, suc, zero, ◌+◌, ◌-◌, Bool, true, false, String, List, [], ◌∷◌, ◌++◌, Option, none, some,
  get_elem?, ◌==◌, ◌&&◌, nat_beq, string_beq, leb, if◌then◌else◌,
}
use uniproc_windows_agent.ProcessEvents.Assemble.{
  Assembler, Pending, Raw, Scheduled, Start, exit, of_created, of_ended, of_launched, of_scheduled,
  paired_within, start,
}

unfoldable pub abs_diff : ℕ → ℕ → ℕ
abs_diff a b = (a - b) + (b - a)

unfoldable pub near : ℕ → ℕ → Bool
near a b = leb (abs_diff a b) paired_within

-- Of one element's distance and the least of those behind it, the less, and of equal ones the first.
unfoldable pub nearer : Option ℕ → Option (ℕ × ℕ) → Option (ℕ × ℕ)
nearer none rest = rest
nearer (some d) none = some (d, 0)
nearer (some d) (some found) = if leb d found.0 then some (d, 0) else some found

-- `filter` and `min_by_key`: the distance and the place of the first of the least distant.
unfoldable pub least : {A : Type 0} → (A → Option ℕ) → List A → Option (ℕ × ℕ)
least distance [] = none
least distance (x ∷ xs) = nearer (distance x) (Option.map (λ p. (p.0, suc p.1)) (least distance xs))

unfoldable pub last_of : {A : Type 0} → A → List A → A
last_of x [] = x
last_of x (y ∷ ys) = last_of y ys

unfoldable pub but_last : {A : Type 0} → A → List A → List A
but_last x [] = []
but_last x (y ∷ ys) = x ∷ but_last y ys

-- The last element takes the place of the one that is removed.
unfoldable pub swap_remove : {A : Type 0} → ℕ → List A → List A
swap_remove n [] = []
swap_remove zero (x ∷ []) = []
swap_remove zero (x ∷ y ∷ ys) = last_of y ys ∷ but_last y ys
swap_remove (suc n) (x ∷ xs) = x ∷ swap_remove n xs

module _ {H : Type 0} (pid_of time_of : H → ℕ) (pid time : ℕ) where
  unfoldable pub half_distance : H → Option ℕ
  half_distance half =
      if pid_of half == pid && near (time_of half) time
      then some (abs_diff (time_of half) time)
      else none

  -- The half that is taken, and those that are left.
  unfoldable pub take_nearest : List H → Option H × List H
  take_nearest halves = elim (least half_distance halves) [
    | none ↦ (none, halves)
    | some found ↦ (get_elem? halves found.1, swap_remove found.1 halves)
  ]

module _ (pid time : ℕ) (open_to : Start → Bool) where
  unfoldable pub start_distance : Pending → Option ℕ
  start_distance (exit ended) = none
  start_distance (start s) =
      if s.created.pid == pid && near s.created.time time && open_to s
      then some (abs_diff s.created.time time)
      else none

  unfoldable pub nearest_start : List Pending → Option ℕ
  nearest_start pending = Option.map (λ p. p.1) (least start_distance pending)

-- The start at a place, as `f` changes it.
unfoldable pub change_start : (Start → Start) → ℕ → List Pending → List Pending
change_start f n [] = []
change_start f zero (start s ∷ ps) = start (f s) ∷ ps
change_start f zero (exit ended ∷ ps) = exit ended ∷ ps
change_start f (suc n) (p ∷ ps) = p ∷ change_start f n ps

abbrev pub no_launch : Start → Bool
no_launch s = elim s.launched [ none ↦ true | some half ↦ false ]

abbrev pub no_task : Start → Bool
no_task s = s.task == ""

abbrev pub task_of : Option Scheduled → String
task_of none = ""
task_of (some half) = half.task

unfoldable pub add : Raw → Assembler → Assembler
add (of_created created) a =
    let launched = take_nearest (λ h. h.pid) (λ h. h.time) created.pid created.time a.launched in
    let task = take_nearest (λ h. h.pid) (λ h. h.time) created.pid created.time a.scheduled in
    record a {
      pending =
          a.pending
          ++ start (record {
            created = created;
            launched = launched.0;
            task = task_of task.0;
            services = none;
          })
            ∷ [];
      launched = launched.1;
      scheduled = task.1;
    }
add (of_launched half) a = elim (nearest_start half.pid half.time no_launch a.pending) [
  | some n ↦ record a {
    pending = change_start (λ s. record s { launched = some half }) n a.pending;
  }
  | none ↦ record a { launched = a.launched ++ half ∷ [] }
]
add (of_scheduled half) a = elim (nearest_start half.pid half.time no_task a.pending) [
  | some n ↦ record a { pending = change_start (λ s. record s { task = half.task }) n a.pending }
  | none ↦ record a { scheduled = a.scheduled ++ half ∷ [] }
]
add (of_ended ended) a = record a { pending = a.pending ++ exit ended ∷ [] }
