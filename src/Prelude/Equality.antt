-- ===== src/Prelude/Equality.antt =====
-- Python's `==` on the values that serve as dictionary keys, as an interface with instances.
use Prim.Native.Nat.{ℕ}
use Prim.Native.String.{String}
use mathlib.Core.Path.{◌≡◌, ap}
use mathlib.Core.Logic.{◌↔◌}
use mathlib.Core.Bool.{Bool, true, ◌&&◌}
use native.Mathlib.Omega.{arith}
use text.Mathlib.Text.{◌==◌ as str_eq}
use text.Mathlib.TextEquality.{eq_iff}
use coroutines_kafka_consume.Prelude.Tests.{nat_beq, nat_beq_iff}

pub record HasEq {ℓ} (A : Type ℓ) : Type ℓ where
  pub equal : A → A → Bool
  pub equal_iff : (x y : A) → (equal x y ≡ true) ↔ (x ≡ y)

instance abbrev pub string_eq : HasEq String
string_eq = record { equal = str_eq; equal_iff = eq_iff }

instance abbrev pub nat_eq : HasEq ℕ
nat_eq = record { equal = nat_beq; equal_iff = nat_beq_iff }

-- Python's `==`
infix 50 ◌==◌
abbrev pub ◌==◌ {ℓ} : {A : Type ℓ} ⦃e : HasEq A⦄ → A → A → Bool
◌==◌ ⦃e⦄ x y = e.equal x y

-- Tuples compare field by field.
module _ {ℓ κ} {A : Type ℓ} {B : Type κ} ⦃a : HasEq A⦄ ⦃b : HasEq B⦄ where
  abbrev pub pair_beq : A × B → A × B → Bool
  pair_beq p q = a.equal p.0 q.0 && b.equal p.1 q.1

  pub pair_beq_iff : (p q : A × B) → (pair_beq p q ≡ true) ↔ (p ≡ q)
  pair_beq_iff p q = (
    (λ h. ground (arith, a.equal_iff p.0 q.0, b.equal_iff p.1 q.1)),
    (λ h. ground (
      arith,
      a.equal_iff p.0 q.0,
      b.equal_iff p.1 q.1,
      ap (λ (t : A × B). t.0) h,
      ap (λ (t : A × B). t.1) h,
    )),
  )

  instance abbrev pub pair_eq : HasEq (A × B)
  pair_eq = record { equal = pair_beq; equal_iff = pair_beq_iff }

pub beq_self {ℓ} : {A : Type ℓ} ⦃e : HasEq A⦄ (x : A) → (x == x) ≡ true
beq_self ⦃e⦄ x = (e.equal_iff x x).1 (λ i. x)
