-- ===== src/Wire/Outcome.antt =====
-- src/wire/decode.rs: `capnp::Result`, and how the parts of a message are read. A pointer to a text,
-- a list or a struct may be malformed, and a union or an enumeration may hold a value that this
-- build's schema does not know: both are `none`. What the library says of a malformed message is
-- one refusal here.
use mathlib.Core.Option
use uniproc_windows_agent.Base.{ℕ, String, List, [], ◌∷◌, map, Option, none, some, ◌≡◌, refl}

pub data Refusal : Type 0 where
  malformed never_came : Refusal
  other_base : (base held : ℕ) → Refusal

pub data Decoded (A : Type 0) : Type 0 where
  decoded : A → Decoded A
  refused : Refusal → Decoded A

infixl 5 ◌>>=◌
abbrev pub ◌>>=◌ : {A B : Type 0} → Decoded A → (A → Decoded B) → Decoded B
refused why >>= then_read = refused why
decoded value >>= then_read = then_read value

abbrev pub Pointer : Type 0 → Type 0
Pointer A = Option A

abbrev pub Wire : Type 0 → Type 0
Wire A = Option A

abbrev pub Text : Type 0
Text = Pointer String

abbrev pub pointer : {A : Type 0} → Pointer A → Decoded A
pointer none = refused malformed
pointer (some a) = decoded a

abbrev pub text : Text → Decoded String
text t = pointer t

module _ {A M : Type 0} where
  -- `iter().map(read).collect::<capnp::Result<_>>()`
  unfoldable pub each : (M → Decoded A) → List M → Decoded (List A)
  each read [] = decoded []
  each read (m ∷ ms) = do a ← read m; rest ← each read ms; decoded (a ∷ rest)

  abbrev pub rows : (M → Decoded A) → Pointer (List M) → Decoded (List A)
  rows read p = pointer p >>= each read

  -- A part that a message may leave out.
  unfoldable pub group : (M → Decoded A) → Option (Pointer M) → Decoded (Option A)
  group read none = decoded none
  group read (some p) = do m ← pointer p; a ← read m; decoded (some a)

  module _ (read : M → Decoded A) (send : A → M) where
    pub each_sent :
        ((a : A) → read (send a) ≡ decoded a) → (xs : List A) → each read (map send xs) ≡ decoded xs
    unfolding each
    each_sent same [] = refl
    each_sent same (x ∷ xs) = rw (same x, each_sent same xs)

    pub rows_sent :
        ((a : A) → read (send a) ≡ decoded a)
        → (xs : List A) → rows read (some (map send xs)) ≡ decoded xs
    rows_sent same xs = each_sent same xs

    pub group_sent :
        ((a : A) → read (send a) ≡ decoded a)
        → (o : Option A) → group read (Option.map (λ a. some (send a)) o) ≡ decoded o
    unfolding group
    group_sent same none = refl
    group_sent same (some a) = rw (same a)

  -- What is sent as `a` arrives as `keep a`.
  module _ (read : M → Decoded A) (send : A → M) (keep : A → A) where
    pub each_received :
        ((a : A) → read (send a) ≡ decoded (keep a))
        → (xs : List A) → each read (map send xs) ≡ decoded (map keep xs)
    unfolding each
    each_received same [] = refl
    each_received same (x ∷ xs) = rw (same x, each_received same xs)

    pub group_received :
        ((a : A) → read (send a) ≡ decoded (keep a))
        → (o : Option A)
        → group read (Option.map (λ a. some (send a)) o) ≡ decoded (Option.map keep o)
    unfolding group
    group_received same none = refl
    group_received same (some a) = rw (same a)

pub texts : (xs : List String) → rows text (some (map some xs)) ≡ decoded xs
texts xs = each_sent text some (λ t. refl) xs
