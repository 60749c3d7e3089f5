-- ===== src/ProcessEvents/History/Hold.antt =====
-- crates/core/src/process_events/history.rs: what the history holds of the events pushed.
use Prim.Native.Nat.{max}
use mathlib.Core.Path.{◌∙◌}
use mathlib.Core.List.{map-append}
use uniproc_windows_agent.Base.{
  ℕ, zero, suc, ◌+◌, ◌-◌, ◌≤◌, ◌<◌, List, [], ◌∷◌, ◌++◌, map, ◌&&◌, ◌||◌, nat_beq, ltb, length,
  drop, length-append, ◌≡◌, refl, sym, ap, inl, inr, Bool-cases, arith,
}
use uniproc_windows_agent.Base.Words.{u64_mod, add64, sub64}
use uniproc_windows_agent.ProcessEvents.{ProcessEvent}
use uniproc_windows_agent.ProcessEvents.History.{
  Sizes, Entry, History, event_bytes, new, let_go, push,
}

abbrev pub events_of : List Entry → List ProcessEvent
events_of = map (λ e. e.event)

unfoldable pub sum_bytes : List Entry → ℕ
sum_bytes [] = 0
sum_bytes (e ∷ es) = e.bytes + sum_bytes es

-- Of all the events ever pushed the history holds those from the index `first` on.
pub record Holds (all : List ProcessEvent) (h : History) : Type 0 where
  pub held : events_of h.entries ≡ drop h.first all
  pub within : h.first ≤ length all
  pub weighed : h.bytes ≡ sum_bytes h.entries

module _ {ℓ} {A : Type ℓ} where
  drop-cons :
      (n : ℕ) (xs ys : List A) (y : A)
      → y ∷ ys ≡ drop n xs
      → (ys ≡ drop (suc n) xs) × (n < length xs)
  drop-cons zero [] ys y h = absurd (cc)
  drop-cons zero (x ∷ xs) ys y h = ground arith
  drop-cons (suc n) [] ys y h = absurd (cc)
  drop-cons (suc n) (x ∷ xs) ys y h =
      let (same, short) = drop-cons n xs ys y h in (same, omega arith)

  drop-append : (n : ℕ) (xs ys : List A) → n ≤ length xs → drop n (xs ++ ys) ≡ drop n xs ++ ys
  drop-append zero xs ys h = refl
  drop-append (suc n) [] ys h = absurd (omega arith)
  drop-append (suc n) (x ∷ xs) ys h = drop-append n xs ys (omega arith)

abbrev pub popped : Entry → History → History
popped oldest h = record h {
  bytes = sub64 h.bytes oldest.bytes;
  first = add64 h.first 1;
  history_from = max h.history_from (add64 oldest.event.time 1);
}

popped-Holds :
    (all : List ProcessEvent) (oldest : Entry) (rest : List Entry) (h : History)
    → length all < u64_mod
    → sum_bytes (oldest ∷ rest) < u64_mod
    → Holds all (record h { entries = oldest ∷ rest })
    → Holds all (record (popped oldest h) { entries = rest })
unfolding sum_bytes add64 sub64
popped-Holds all oldest rest h few light w =
    let (later, short) = drop-cons h.first all (events_of rest) oldest.event w.held in
    let next : add64 h.first 1 ≡ suc h.first = omega arith in
    record {
      held = later ∙ ap (λ n. drop n all) (sym next);
      within = omega arith;
      weighed = omega (arith, w.weighed);
    }

let_go-Holds :
    (cutoff : ℕ) (all : List ProcessEvent) (es : List Entry) (h : History)
    → length all < u64_mod
    → sum_bytes es < u64_mod
    → Holds all (record h { entries = es })
    → Holds all (let_go cutoff es h)
unfolding let_go
let_go-Holds cutoff all [] h few light w = w
let_go-Holds cutoff all (oldest ∷ rest) h few light w =
    let goes =
      ltb oldest.event.time cutoff || (ltb h.max_bytes h.bytes && ltb 1 (length (oldest ∷ rest))) in
    elim (Bool-cases goes) [
      | inl go ↦
          rw (go, let_go)
            (let_go-Holds cutoff all rest (popped oldest h) few (unfold sum_bytes in omega arith)
              (popped-Holds all oldest rest h few light w))
      | inr stay ↦ rw (stay, let_go) w
    ]

pub sum_bytes-append :
    (es : List Entry) (e : Entry) → sum_bytes (es ++ e ∷ []) ≡ sum_bytes es + e.bytes
unfolding sum_bytes
sum_bytes-append [] e = omega arith
sum_bytes-append (x ∷ es) e = omega (arith, sum_bytes-append es e)

-- After a push the history holds the last events up to the one pushed, in their order and with none
-- left out, under the right index and weight. All events and their bytes are fewer than 2 ^ 64.
pub push-Holds :
    (z : Sizes) (all : List ProcessEvent) (event : ProcessEvent) (now : ℕ) (h : History)
    → suc (length all) < u64_mod
    → sum_bytes h.entries + event_bytes z event < u64_mod
    → Holds all h
    → Holds (all ++ event ∷ []) (push z event now h)
unfolding push
push-Holds z all event now h few light w =
    let e : Entry = record { event = event; bytes = event_bytes z event; lost_before = h.lost } in
    let h' = record h { lost = 0; bytes = add64 h.bytes (event_bytes z event) } in
    let_go-Holds (now - h.max_age) (all ++ event ∷ []) (h.entries ++ e ∷ []) h'
      (omega (arith, length-append all (event ∷ []))) (omega (arith, sum_bytes-append h.entries e))
      (record {
        held =
            map-append _ h.entries (e ∷ [])
            ∙ (ap (λ es. es ++ event ∷ []) w.held
                ∙ sym (drop-append h.first all (event ∷ []) w.within));
        within = omega (arith, w.within, length-append all (event ∷ []));
        weighed = unfold add64 in omega (arith, w.weighed, sum_bytes-append h.entries e);
      })

pub new-Holds : (started_at max_age max_bytes : ℕ) → Holds [] (new started_at max_age max_bytes)
unfolding new sum_bytes
new-Holds started_at max_age max_bytes = record {
  held = refl;
  within = omega arith;
  weighed = refl;
}
