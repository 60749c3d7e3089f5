-- ===== src/Base/Eq.antt =====
-- Equality tests of keys, as an interface: `PartialEq` with its law.
use Prim.Native.Nat.{ℕ}
use Prim.Native.String.{String}
use mathlib.Core.Path.{◌≡◌}
use mathlib.Core.Logic.{◌↔◌}
use mathlib.Core.Bool.{Bool, true, false, ◌&&◌}
use native.Mathlib.Omega.{arith}
use text.Mathlib.Text.{◌==◌ as str_eq}
use text.Mathlib.TextEquality.{eq_iff}
use uniproc_windows_agent.Base.Tests.{eqb, eqb_iff}

pub record Beq {ℓ} (A : Type ℓ) : Type ℓ where
  pub beq : A → A → Bool
  pub beq_iff : (x y : A) → (beq x y ≡ true) ↔ (x ≡ y)

instance abbrev pub nat_beq : Beq ℕ
nat_beq = record { beq = eqb; beq_iff = eqb_iff }

instance abbrev pub string_beq : Beq String
string_beq = record { beq = str_eq; beq_iff = eq_iff }

abbrev pub same : Bool → Bool → Bool
same true b = b
same false true = false
same false false = true

pub same_iff : (a b : Bool) → (same a b ≡ true) ↔ (a ≡ b)
same_iff a b = ground arith

instance abbrev pub bool_beq : Beq Bool
bool_beq = record { beq = same; beq_iff = same_iff }

module _ {ℓ κ} {A : Type ℓ} {B : Type κ} ⦃a : Beq A⦄ ⦃b : Beq B⦄ where
  abbrev pub both : A × B → A × B → Bool
  both x y = a.beq x.0 y.0 && b.beq x.1 y.1

  pub both_iff : (x y : A × B) → (both x y ≡ true) ↔ (x ≡ y)
  both_iff x y = ground (arith, a.beq_iff x.0 y.0, b.beq_iff x.1 y.1)

  instance abbrev pub pair_beq : Beq (A × B)
  pair_beq = record { beq = both; beq_iff = both_iff }

infix 50 ◌==◌
abbrev pub ◌==◌ {ℓ} : {A : Type ℓ} ⦃e : Beq A⦄ → A → A → Bool
◌==◌ ⦃e⦄ = e.beq
