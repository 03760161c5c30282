-- ===== src/Dict/Unique.antt =====
-- A dictionary holds a key once. The association lists that the operations build do.
use coroutines_kafka_consume.Prelude.{
  ℕ, ◌+◌, ◌≡◌, refl, Option, none, some, [], ◌∷◌, arith, HasEq, sum_by, beq_self,
}
use coroutines_kafka_consume.Dict.{Dict, lookup, insert, erase, lookup-insert, lookup-erase}

module _ {ℓ κ} {K : Type ℓ} {V : Type κ} ⦃e : HasEq K⦄ where
  abbrev pub Unique : Dict K V → Type κ
  Unique [] = Unit
  Unique ((k, v) ∷ d) = (lookup k d ≡ none) × Unique d

  pub insert-Unique : (k : K) (v : V) (d : Dict K V) → Unique d → Unique (insert k v d)
  unfolding insert lookup
  insert-Unique k v [] u = (refl, tt)
  insert-Unique k v ((j, w) ∷ d) u =
      ground
        (arith, e.equal_iff j k, e.equal_iff k j, lookup-insert k j v d, insert-Unique k v d u.1)

  pub erase-Unique : (k : K) (d : Dict K V) → Unique d → Unique (erase k d)
  unfolding erase
  erase-Unique k [] u = tt
  erase-Unique k ((j, w) ∷ d) u =
      ground (arith, e.equal_iff j k, e.equal_iff k j, lookup-erase k j d, erase-Unique k d u.1)

  pub lookup_inserted : (k : K) (v : V) (d : Dict K V) → lookup k (insert k v d) ≡ some v
  lookup_inserted k v d = ground (arith, lookup-insert k k v d, beq_self k)

  -- Erasing a key that is not there changes nothing.
  pub erase_missing : (k : K) (d : Dict K V) → lookup k d ≡ none → erase k d ≡ d
  unfolding erase lookup
  erase_missing k [] h = refl
  erase_missing k ((j, w) ∷ d) h = ground (arith, erase_missing k d)

-- What the entry of a key contributes to a sum over the values.
abbrev pub measure {κ} : {V : Type κ} → (V → ℕ) → Option V → ℕ
measure f none = 0
measure f (some v) = f v

-- The sum of a measure over the values of a dictionary.
abbrev pub sum_values {ℓ κ} : {K : Type ℓ} {V : Type κ} → (V → ℕ) → Dict K V → ℕ
sum_values f d = sum_by (λ p. f p.1) d

module _ {ℓ κ} {K : Type ℓ} {V : Type κ} ⦃e : HasEq K⦄ where
  pub sum_values-insert :
      (f : V → ℕ) (k : K) (v : V) (d : Dict K V)
      → sum_values f (insert k v d) + measure f (lookup k d) ≡ sum_values f d + f v
  unfolding insert lookup
  sum_values-insert f k v [] = omega arith
  sum_values-insert f k v ((j, w) ∷ d) = ground (arith, sum_values-insert f k v d)

  pub sum_values-erase :
      (f : V → ℕ) (k : K) (d : Dict K V)
      → Unique d
      → sum_values f (erase k d) + measure f (lookup k d) ≡ sum_values f d
  unfolding erase lookup
  sum_values-erase f k [] u = omega arith
  sum_values-erase f k ((j, w) ∷ d) u =
      ground (arith, e.equal_iff j k, erase_missing j d u.0, sum_values-erase f k d u.1)
