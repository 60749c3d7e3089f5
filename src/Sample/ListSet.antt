-- ===== src/Sample/ListSet.antt =====
-- Sets of counters as lists: a type that keeps what `EnumSet` promises, for the tests.
use mathlib.Core.Bool.{decide, decide_iff}
use native.Mathlib.Omega.{arith}
use uniproc_windows_agent.Base.{
  Bool, true, false, List, [], ◌∷◌, ◌++◌, Beq, ◌==◌, ◌||◌, ◌&&◌, ◌≡◌, ◌≢◌, ◌↔◌, refl, sym,
  Bool-cases, inl, inr, if◌then◌else◌,
}
use uniproc_windows_agent.Sample.Metrics.{EnumSet, MachineMetric, ProcessMetric, Sets}

module _ {E : Type 0} ⦃b : Beq E⦄ where
  abbrev pub has : List E → E → Bool
  has [] m = false
  has (x ∷ xs) m = x == m || has xs m

  abbrev pub has_all : List E → List E → Bool
  has_all s [] = true
  has_all s (x ∷ xs) = has s x && has_all s xs

  abbrev pub has_none : List E → Bool
  has_none [] = true
  has_none (x ∷ xs) = false

  pub has-append : (s t : List E) (m : E) → has (s ++ t) m ≡ (has s m || has t m)
  has-append [] t m = refl
  has-append (x ∷ s) t m = ground (arith, has-append s t m)

  pub has_head : (x : E) (xs : List E) → has (x ∷ xs) x ≡ true
  has_head x xs = ground (arith, b.beq_iff x x)

  pub has_all→ : (s t : List E) → has_all s t ≡ true → (m : E) → has t m ≡ true → has s m ≡ true
  has_all→ s [] h m = λ e. absurd (ground (arith, e))
  has_all→ s (x ∷ t) h m = λ e. elim (Bool-cases (x == m)) [
    | inl f ↦ rw (sym ((b.beq_iff x m).0 f)) (ground (arith, h))
    | inr f ↦ has_all→ s t (ground (arith, h)) m (ground (arith, e, f))
  ]

  pub →has_all : (s t : List E) → ((m : E) → has t m ≡ true → has s m ≡ true) → has_all s t ≡ true
  →has_all s [] h = refl
  →has_all s (x ∷ t) h =
      ground (arith, h x (has_head x t), →has_all s t (λ m e. h m (ground (arith, e))))

  pub has_none_iff : (s : List E) → (has_none s ≡ true) ↔ ((m : E) → has s m ≡ false)
  has_none_iff [] = ((λ h m. refl), (λ h. refl))
  has_none_iff (x ∷ s) =
      ((λ h. absurd (ground (arith, h))), (λ h. absurd (ground (arith, h x, has_head x s))))

  abbrev pub without : List E → E → List E
  without [] m = []
  without (x ∷ xs) m = let rest = without xs m in if x == m then rest else x ∷ rest

  pub has-without_self : (s : List E) (m : E) → has (without s m) m ≡ false
  has-without_self [] m = refl
  has-without_self (x ∷ s) m = ground (arith, has-without_self s m)

  pub has-without : (s : List E) (m k : E) → k ≢ m → has (without s m) k ≡ has s k
  has-without [] m k other = refl
  has-without (x ∷ s) m k other =
      ground (arith, has-without s m k other, b.beq_iff x m, b.beq_iff x k)

  abbrev pub list_set : EnumSet E
  list_set = record {
    Carrier = List E;
    empty = [];
    contains = has;
    union = λ s t. s ++ t;
    is_superset = has_all;
    is_empty = has_none;
    members = λ s. s;
    of_members = λ s. s;
    remove = without;
    contains-empty = λ m. refl;
    contains-union = has-append;
    is_superset_iff = λ s t. (has_all→ s t, →has_all s t);
    is_empty_iff = has_none_iff;
    of_members-members = λ s. refl;
    contains-remove_self = has-without_self;
    contains-remove = has-without;
  }

abbrev pub process_discrete : Discrete ProcessMetric
process_discrete = hlevel

abbrev pub process_beq : Beq ProcessMetric
process_beq = record {
  beq = λ a b. decide (process_discrete a b);
  beq_iff = λ a b. decide_iff (process_discrete a b);
}

abbrev pub machine_discrete : Discrete MachineMetric
machine_discrete = hlevel

abbrev pub machine_beq : Beq MachineMetric
machine_beq = record {
  beq = λ a b. decide (machine_discrete a b);
  beq_iff = λ a b. decide_iff (machine_discrete a b);
}

abbrev pub sets : Sets
sets = record { process = list_set ⦃b = process_beq⦄; machine = list_set ⦃b = machine_beq⦄ }
