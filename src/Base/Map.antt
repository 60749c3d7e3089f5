-- ===== src/Base/Map.antt =====
-- Hash maps and hash sets as association lists in iteration order. `insert` writes over the entry
-- of its key or adds one at the end, `remove` takes every entry of its key out.
use mathlib.Core.Path.{◌≡◌, refl}
use mathlib.Core.Bool.{Bool, true, false}
use mathlib.Core.Option.{Option, none, some}
use mathlib.Core.List.{List, [], ◌∷◌}
use native.Mathlib.Omega.{arith}
use uniproc_windows_agent.Base.Tests.{if◌then◌else◌}
use uniproc_windows_agent.Base.Eq.{Beq, ◌==◌}

pub beq_refl {ℓ} : {K : Type ℓ} ⦃e : Beq K⦄ (k : K) → (k == k) ≡ true
beq_refl ⦃e⦄ k = (e.beq_iff k k).1 refl

module _ {ℓ κ} {K : Type ℓ} {V : Type κ} ⦃e : Beq K⦄ where
  unfoldable pub get : K → List (K × V) → Option V
  get k [] = none
  get k ((j, v) ∷ m) = if j == k then some v else get k m

  unfoldable pub insert : K → V → List (K × V) → List (K × V)
  insert k v [] = (k, v) ∷ []
  insert k v ((j, w) ∷ m) = if j == k then (j, v) ∷ m else (j, w) ∷ insert k v m

  unfoldable pub remove : K → List (K × V) → List (K × V)
  remove k [] = []
  remove k ((j, w) ∷ m) = let rest = remove k m in if j == k then rest else (j, w) ∷ rest

  pub get-insert :
      (k j : K) (v : V) (m : List (K × V))
      → get j (insert k v m) ≡ (if k == j then some v else get j m)
  unfolding get insert
  get-insert k j v [] = refl
  get-insert k j v ((i, w) ∷ m) =
      ground (arith, get-insert k j v m, e.beq_iff k j, e.beq_iff i k, e.beq_iff i j)

  pub get-remove :
      (k j : K) (m : List (K × V)) → get j (remove k m) ≡ (if k == j then none else get j m)
  unfolding get remove
  get-remove k j [] = ground arith
  get-remove k j ((i, w) ∷ m) =
      ground (arith, get-remove k j m, e.beq_iff k j, e.beq_iff i k, e.beq_iff i j)

-- A hash set, as the hash map of its keys to nothing.
abbrev pub KeySet {ℓ} : Type ℓ → Type ℓ
KeySet K = List (K × Unit {0})

unfoldable pub contains {ℓ κ} : {K : Type ℓ} {V : Type κ} ⦃e : Beq K⦄ → K → List (K × V) → Bool
unfolding get
contains k m = elim (get k m) [ none ↦ false | some _ ↦ true ]
