-- ===== src/ProcessEvents/History/Trim.antt =====
-- crates/core/src/process_events/history.rs: what `push` lets go of.
use uniproc_windows_agent.Base.{
  ℕ, zero, suc, ◌+◌, ◌-◌, ◌≤◌, ◌<◌, List, [], ◌∷◌, ◌++◌, ◌&&◌, ◌||◌, ltb, length, drop, ◌≡◌, refl,
  ◌⊎◌, inl, inr, All, Bool-cases, arith,
}
use uniproc_windows_agent.Base.Words.{u64_mod, add64, sub64}
use uniproc_windows_agent.ProcessEvents.{ProcessEvent}
use uniproc_windows_agent.ProcessEvents.History.{Sizes, Entry, History, event_bytes, let_go, push}
use uniproc_windows_agent.ProcessEvents.History.Hold.{popped, sum_bytes, sum_bytes-append}

-- The first one is not older than the cutoff, and all of them fit, or there is but one.
abbrev pub IsFit : ℕ → ℕ → List Entry → Type 0
IsFit cutoff max_bytes [] = Unit
IsFit cutoff max_bytes (e ∷ es) =
    (cutoff ≤ e.event.time) × ((sum_bytes (e ∷ es) ≤ max_bytes) ⊎ (length (e ∷ es) ≤ 1))

-- Of `es` just so many are let go, from the front, that those left are fit.
abbrev pub IsTrim : ℕ → ℕ → List Entry → List Entry → Type 0
IsTrim cutoff max_bytes es left =
    (n : ℕ) × (left ≡ drop n es)
    × IsFit cutoff max_bytes left
    × ((k : ℕ) → k < n → ¬ IsFit cutoff max_bytes (drop k es))

IsTrim-cons :
    (cutoff max_bytes : ℕ) (e : Entry) (es left : List Entry)
    → ¬ IsFit cutoff max_bytes (e ∷ es)
    → IsTrim cutoff max_bytes es left
    → IsTrim cutoff max_bytes (e ∷ es) left
IsTrim-cons cutoff max_bytes e es left unfit (n, same, fit, least) = (suc n, same, fit, least_at)
  where
    least_at : (k : ℕ) → k < suc n → ¬ IsFit cutoff max_bytes (drop k (e ∷ es))
    least_at zero below = unfit
    least_at (suc k) below = least k (omega arith)

let_go-IsTrim :
    (cutoff : ℕ) (es : List Entry) (h : History)
    → sum_bytes es < u64_mod
    → h.bytes ≡ sum_bytes es
    → IsTrim cutoff h.max_bytes es (let_go cutoff es h).entries
unfolding let_go
let_go-IsTrim cutoff [] h light weighed = (0, refl, tt, (λ k below. absurd (omega (arith, below))))
let_go-IsTrim cutoff (oldest ∷ rest) h light weighed =
    let goes =
      ltb oldest.event.time cutoff || (ltb h.max_bytes h.bytes && ltb 1 (length (oldest ∷ rest))) in
    elim (Bool-cases goes) [
      | inl go ↦
          let unfit : ¬ IsFit cutoff h.max_bytes (oldest ∷ rest) =
            λ fit. ground (arith, go, fit.0, fit.1, weighed) in
          rw (go, let_go)
            (IsTrim-cons cutoff h.max_bytes oldest rest
              (let_go cutoff rest (popped oldest h)).entries unfit
              (let_go-IsTrim cutoff rest (popped oldest h)
                (unfold sum_bytes in omega (arith, light))
                (unfold sum_bytes sub64 in omega (arith, weighed, light))))
      | inr stay ↦
          rw (stay, let_go)
            (0, refl, ground (arith, stay, weighed), (λ k below. absurd (omega (arith, below))))
    ]

-- What a push adds at the end.
abbrev pub entry_of : Sizes → ProcessEvent → History → Entry
entry_of z event h = record { event = event; bytes = event_bytes z event; lost_before = h.lost }

-- A push adds the event at the end and then lets go of events from the front, just so many that the
-- oldest of those left is not before the cutoff and that those left fit in `max_bytes` or are but
-- one: with any fewer gone, one of these fails. The bytes that the history counts are those of what
-- it holds, and with the event's are fewer than 2 ^ 64.
pub push-IsTrim :
    (z : Sizes) (event : ProcessEvent) (now : ℕ) (h : History)
    → sum_bytes h.entries + event_bytes z event < u64_mod
    → h.bytes ≡ sum_bytes h.entries
    → IsTrim
        (now - h.max_age)
        h.max_bytes
        (h.entries ++ entry_of z event h ∷ [])
        (push z event now h).entries
unfolding push
push-IsTrim z event now h light weighed =
    let es = h.entries ++ entry_of z event h ∷ [] in
    let sum : sum_bytes es ≡ sum_bytes h.entries + event_bytes z event =
      sum_bytes-append h.entries (entry_of z event h) in
    let_go-IsTrim (now - h.max_age) es
      (record h { lost = 0; bytes = add64 h.bytes (event_bytes z event) })
      (omega (arith, sum, light)) (unfold add64 in omega (arith, sum, light, weighed))

-- No event is older than one before it.
abbrev pub IsInTime : List Entry → Type 0
IsInTime [] = Unit
IsInTime (e ∷ es) = All (λ later. e.event.time ≤ later.event.time) es × IsInTime es

IsInTime-drop : (n : ℕ) (es : List Entry) → IsInTime es → IsInTime (drop n es)
IsInTime-drop zero es h = h
IsInTime-drop (suc n) [] h = tt
IsInTime-drop (suc n) (e ∷ es) h = IsInTime-drop n es h.1

young_behind :
    (cutoff n : ℕ) (es : List Entry)
    → cutoff ≤ n
    → All (λ later. n ≤ later.event.time) es
    → All (λ e. cutoff ≤ e.event.time) es
young_behind cutoff n [] le h = tt
young_behind cutoff n (e ∷ es) le h = (omega (arith, h.0), young_behind cutoff n es le h.1)

All-young :
    (cutoff max_bytes : ℕ) (es : List Entry)
    → IsInTime es
    → IsFit cutoff max_bytes es
    → All (λ e. cutoff ≤ e.event.time) es
All-young cutoff max_bytes [] h fit = tt
All-young cutoff max_bytes (e ∷ es) h fit = (fit.0, young_behind cutoff e.event.time es fit.0 h.0)

-- While the events held, with the one pushed at their end, are in order of time, a push leaves no
-- event before the cutoff. The bytes that the history counts are those of what it holds, and with
-- the event's are fewer than 2 ^ 64.
pub push_young :
    (z : Sizes) (event : ProcessEvent) (now : ℕ) (h : History)
    → sum_bytes h.entries + event_bytes z event < u64_mod
    → h.bytes ≡ sum_bytes h.entries
    → IsInTime (h.entries ++ entry_of z event h ∷ [])
    → All (λ e. now - h.max_age ≤ e.event.time) (push z event now h).entries
push_young z event now h light weighed timely =
    let (n, same, fit, least) = push-IsTrim z event now h light weighed in
    All-young (now - h.max_age) h.max_bytes (push z event now h).entries
      (rw same (IsInTime-drop n (h.entries ++ entry_of z event h ∷ []) timely)) fit
