-- ===== src/Audit/Late.antt =====
-- What it means that an event is out of order: an earlier event of its group has a greater offset.
-- The order checks of analyze-audit.py keep only one offset for each group; this is the definition
-- over the whole history that they are measured against, with the facts that relate the two.
pub mod Shards
use coroutines_kafka_consume.Prelude.{
  ℕ, ◌+◌, ◌≡◌, Bool, true, false, ◌&&◌, ◌||◌, Option, none, some, List, [], ◌∷◌, arith, HasEq, ◌==◌,
  if◌then◌else◌,
}
use coroutines_kafka_consume.Prelude.Int.{ℤ, ltb_ℤ}

abbrev pub to_number : Bool → ℕ
to_number true = 1
to_number false = 0

abbrev pub above : ℤ → Option ℤ → Bool
above x none = false
above x (some last) = ltb_ℤ x last

-- The last offset of a group, when an offset `x` of the group arrives.
abbrev pub advance : ℤ → Option ℤ → Option ℤ
advance x none = some x
advance x (some last) = if ltb_ℤ last x then some x else some last

module _ {ℓ κ} {A : Type ℓ} {G : Type κ} ⦃e : HasEq G⦄ (group : A → G) (offset : A → ℤ) where
  -- Some earlier event of group `g` has an offset above `x`.
  unfoldable pub exceeds : List A → G → ℤ → Bool
  exceeds [] g x = false
  exceeds (a ∷ earlier) g x = (group a == g && ltb_ℤ x (offset a)) || exceeds earlier g x

  -- The number of events of interest that come late, after the events of `earlier`.
  unfoldable pub lates : (A → Bool) → List A → List A → ℕ
  lates p earlier [] = 0
  lates p earlier (a ∷ rest) =
      to_number (p a && exceeds earlier (group a) (offset a)) + lates p (a ∷ earlier) rest

  -- One offset for each group stands for the whole history.
  abbrev pub Tracks : (G → Option ℤ) → List A → Type κ
  Tracks last earlier = (g : G) (x : ℤ) → exceeds earlier g x ≡ above x (last g)

  pub Tracks-nil : (last : G → Option ℤ) → ((g : G) → last g ≡ none) → Tracks last []
  unfolding exceeds
  Tracks-nil last h g x = ground (arith, h g)

  pub Tracks-cons :
      (last last' : G → Option ℤ) (a : A) (earlier : List A)
      → Tracks last earlier
      → ((g : G) → last' g ≡ (if group a == g then advance (offset a) (last (group a)) else last g))
      → Tracks last' (a ∷ earlier)
  unfolding exceeds
  Tracks-cons last last' a earlier t h g x = ground (arith, e.equal_iff (group a) g, h g, t g x)
