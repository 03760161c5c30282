-- ===== src/Audit/Late/Shards.antt =====
-- A history that is split into shards, each group in one shard: the shards together have as many
-- late events as the whole.
use coroutines_kafka_consume.Prelude.{
  ℕ, zero, suc, ◌+◌, ◌<◌, ◌≡◌, refl, Bool, ◌&&◌, List, [], ◌∷◌, arith, HasEq, if◌then◌else◌, ltb,
  leb, nat_beq,
}
use coroutines_kafka_consume.Prelude.Int.{ℤ}
use coroutines_kafka_consume.Audit.Late.{to_number, exceeds, lates}

-- The sum of `f` over the `k` numbers from `i`.
unfoldable pub sum_range : ℕ → ℕ → (ℕ → ℕ) → ℕ
sum_range i zero f = 0
sum_range i (suc k) f = f i + sum_range (i + 1) k f

abbrev indicator : ℕ → ℕ → ℕ → ℕ
indicator m c j = if nat_beq m j then c else 0

sum_range-indicator :
    (i k m c : ℕ) (f g : ℕ → ℕ)
    → ((j : ℕ) → g j ≡ indicator m c j + f j)
    → sum_range i k g ≡ (if leb i m && ltb m (i + k) then c else 0) + sum_range i k f
unfolding sum_range
sum_range-indicator i zero m c f g h = ground arith
sum_range-indicator i (suc k) m c f g h =
    ground (arith, h i, sum_range-indicator (i + 1) k m c f g h)

sum_range-zero : (i k : ℕ) (f : ℕ → ℕ) → ((j : ℕ) → f j ≡ 0) → sum_range i k f ≡ 0
unfolding sum_range
sum_range-zero i zero f h = refl
sum_range-zero i (suc k) f h = omega (arith, h i, sum_range-zero (i + 1) k f h)

module _ {ℓ} {A : Type ℓ} (shard : A → ℕ) where
  -- The events of one shard, in order.
  unfoldable pub select : ℕ → List A → List A
  select j [] = []
  select j (a ∷ rest) =
      let others = select j rest in if nat_beq (shard a) j then a ∷ others else others

module _ {ℓ κ} {A : Type ℓ} {G : Type κ} ⦃e : HasEq G⦄ (group : A → G) (offset : A → ℤ)
    (p : A → Bool) (shard : A → ℕ)
    (together : (a b : A) → group a ≡ group b → shard a ≡ shard b) where
  exceeds-select :
      (j : ℕ) (a : A) (x : ℤ) (earlier : List A)
      → shard a ≡ j
      → exceeds group offset (select shard j earlier) (group a) x
        ≡ exceeds group offset earlier (group a) x
  unfolding exceeds select
  exceeds-select j a x [] h = refl
  exceeds-select j a x (b ∷ earlier) h =
      ground (arith, e.equal_iff (group b) (group a), together b a, exceeds-select j a x earlier h)

  lates-select_cons :
      (j : ℕ) (a : A) (earlier rest : List A)
      → lates group offset p (select shard j earlier) (select shard j (a ∷ rest))
        ≡ indicator
            (shard a)
            (to_number (p a && exceeds group offset earlier (group a) (offset a)))
            j
          + lates group offset p (select shard j (a ∷ earlier)) (select shard j rest)
  unfolding lates select
  lates-select_cons j a earlier rest = ground (arith, exceeds-select j a (offset a) earlier)

  module _ (n : ℕ) (in_range : (a : A) → shard a < n) where
    lates-shards_after :
        (earlier rest : List A)
        → sum_range 0 n (λ j. lates group offset p (select shard j earlier) (select shard j rest))
          ≡ lates group offset p earlier rest
    unfolding lates
    lates-shards_after earlier [] = sum_range-zero 0 n _ (λ j. unfold select in refl)
    lates-shards_after earlier (a ∷ rest) = ground (
      arith,
      sum_range-indicator 0 n (shard a)
          (to_number (p a && exceeds group offset earlier (group a) (offset a)))
          (λ j. lates group offset p (select shard j (a ∷ earlier)) (select shard j rest))
          (λ j. lates group offset p (select shard j earlier) (select shard j (a ∷ rest)))
          (λ j. lates-select_cons j a earlier rest),
      lates-shards_after (a ∷ earlier) rest,
      in_range a,
    )

    -- Counting shard by shard, each from an empty history, counts every late event once.
    pub lates-shards :
        (events : List A)
        → sum_range 0 n (λ j. lates group offset p [] (select shard j events))
          ≡ lates group offset p [] events
    unfolding select
    lates-shards events = lates-shards_after [] events
