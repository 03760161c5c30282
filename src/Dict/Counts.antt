-- ===== src/Dict/Counts.antt =====
-- Dictionaries of counters: `d[k] = d.get(k, 0) + 1`, and the sums of such counters.
use coroutines_kafka_consume.Prelude.{ℕ, ◌+◌, ◌*◌, ◌≡◌, [], ◌∷◌, arith, HasEq, ◌==◌, if◌then◌else◌}
use coroutines_kafka_consume.Dict.{Dict, lookup, insert, get_or, lookup-insert}

-- sum(d.values())
abbrev pub total {ℓ} : {K : Type ℓ} → Dict K ℕ → ℕ
total [] = 0
total ((k, n) ∷ d) = n + total d

-- sum(f(k) * n for k, n in d.items())
abbrev pub weigh {ℓ} : {K : Type ℓ} → (K → ℕ) → Dict K ℕ → ℕ
weigh f [] = 0
weigh f ((k, n) ∷ d) = f k * n + weigh f d

module _ {ℓ} {K : Type ℓ} ⦃e : HasEq K⦄ where
  -- d[k] = d.get(k, 0) + n
  unfoldable pub add_to : K → ℕ → Dict K ℕ → Dict K ℕ
  add_to k n d = insert k (get_or k 0 d + n) d

  -- d[k] = d.get(k, 0) + 1
  unfoldable pub bump : K → Dict K ℕ → Dict K ℕ
  unfolding add_to
  bump k d = add_to k 1 d

  total-insert : (k : K) (n : ℕ) (d : Dict K ℕ) → total (insert k n d) + get_or k 0 d ≡ total d + n
  unfolding insert get_or lookup
  total-insert k n [] = omega arith
  total-insert k n ((j, m) ∷ d) = ground (arith, total-insert k n d)

  pub total-add_to : (k : K) (n : ℕ) (d : Dict K ℕ) → total (add_to k n d) ≡ total d + n
  unfolding add_to
  total-add_to k n d = omega (arith, total-insert k (get_or k 0 d + n) d)

  pub total-bump : (k : K) (d : Dict K ℕ) → total (bump k d) ≡ total d + 1
  unfolding bump
  total-bump k d = total-add_to k 1 d

  weigh-insert :
      (f : K → ℕ) (k : K) (n : ℕ) (d : Dict K ℕ)
      → weigh f (insert k n d) + f k * get_or k 0 d ≡ weigh f d + f k * n
  unfolding insert get_or lookup
  weigh-insert f k n [] = omega arith
  weigh-insert f k n ((j, m) ∷ d) = ground (arith, e.equal_iff j k, weigh-insert f k n d)

  pub weigh-add_to :
      (f : K → ℕ) (k : K) (n : ℕ) (d : Dict K ℕ) → weigh f (add_to k n d) ≡ weigh f d + f k * n
  unfolding add_to
  weigh-add_to f k n d = omega (arith, weigh-insert f k (get_or k 0 d + n) d)

  pub weigh-bump : (f : K → ℕ) (k : K) (d : Dict K ℕ) → weigh f (bump k d) ≡ weigh f d + f k
  unfolding bump
  weigh-bump f k d = omega (arith, weigh-add_to f k 1 d)

  pub get_or-add_to :
      (k j : K) (n : ℕ) (d : Dict K ℕ)
      → get_or j 0 (add_to k n d) ≡ (if k == j then get_or j 0 d + n else get_or j 0 d)
  unfolding add_to get_or
  get_or-add_to k j n d = ground (arith, e.equal_iff k j, lookup-insert k j (get_or k 0 d + n) d)
