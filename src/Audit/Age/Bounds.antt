-- ===== src/Audit/Age/Bounds.antt =====
-- What the summary of the ages says of all of them.
use coroutines_kafka_consume.Prelude.{
  ℕ, ◌≤◌, ◌≡◌, refl, Bool, true, false, ◌||◌, Option, none, some, List, [], ◌∷◌, arith, nat_beq,
  length, sum_by,
}
use coroutines_kafka_consume.Audit.Age
use coroutines_kafka_consume.Audit.Age.{OnlineAgeStats, new_ages, min_seen, max_seen}

-- The summary of the ages that were added, the newest first.
unfoldable pub add_ages : List ℕ → OnlineAgeStats
add_ages [] = new_ages
add_ages (age ∷ ages) = Age.add age (add_ages ages)

abbrev pub itself : ℕ → ℕ
itself n = n

abbrev AtLeast : ℕ → List ℕ → Type 0
AtLeast m [] = Unit
AtLeast m (age ∷ ages) = (m ≤ age) × AtLeast m ages

abbrev AtMost : ℕ → List ℕ → Type 0
AtMost m [] = Unit
AtMost m (age ∷ ages) = (age ≤ m) × AtMost m ages

abbrev occurs : ℕ → List ℕ → Bool
occurs m [] = false
occurs m (age ∷ ages) = nat_beq m age || occurs m ages

-- The least of the ages, if there are any.
abbrev pub IsMin : Option ℕ → List ℕ → Type 0
IsMin none ages = length ages ≡ 0
IsMin (some m) ages = AtLeast m ages × (occurs m ages ≡ true)

abbrev pub IsMax : Option ℕ → List ℕ → Type 0
IsMax none ages = length ages ≡ 0
IsMax (some m) ages = AtMost m ages × (occurs m ages ≡ true)

AtLeast-le : {m k : ℕ} (ages : List ℕ) → m ≤ k → AtLeast k ages → AtLeast m ages
AtLeast-le [] h all = tt
AtLeast-le (age ∷ ages) h all = (omega (arith, h, all.0), AtLeast-le ages h all.1)

AtMost-le : {m k : ℕ} (ages : List ℕ) → k ≤ m → AtMost k ages → AtMost m ages
AtMost-le [] h all = tt
AtMost-le (age ∷ ages) h all = (omega (arith, h, all.0), AtMost-le ages h all.1)

AtLeast-none : (m : ℕ) (ages : List ℕ) → length ages ≡ 0 → AtLeast m ages
AtLeast-none m [] h = tt
AtLeast-none m (age ∷ ages) h = absurd (omega (arith, h))

AtMost-none : (m : ℕ) (ages : List ℕ) → length ages ≡ 0 → AtMost m ages
AtMost-none m [] h = tt
AtMost-none m (age ∷ ages) h = absurd (omega (arith, h))

IsMin-min_seen :
    (seen : Option ℕ) (age : ℕ) (ages : List ℕ)
    → IsMin seen ages
    → IsMin (some (min_seen seen age)) (age ∷ ages)
IsMin-min_seen none age ages h = ground (arith, AtLeast-none age ages h)
IsMin-min_seen (some m) age ages h = ground (arith, AtLeast-le {m = age} {k = m} ages, h.0, h.1)

IsMax-max_seen :
    (seen : Option ℕ) (age : ℕ) (ages : List ℕ)
    → IsMax seen ages
    → IsMax (some (max_seen seen age)) (age ∷ ages)
IsMax-max_seen none age ages h = ground (arith, AtMost-none age ages h)
IsMax-max_seen (some m) age ages h = ground (arith, AtMost-le {m = age} {k = m} ages, h.0, h.1)

-- After any ages from new statistics: `count` is their number and `total_ms` their sum; `min_ms` and
-- `max_ms` are none if there are no ages, and else the least and the greatest of them.
pub add_ages-IsMin-IsMax :
    (ages : List ℕ)
    → ((add_ages ages).count ≡ length ages)
      × ((add_ages ages).total_ms ≡ sum_by itself ages)
      × IsMin (add_ages ages).min_ms ages
      × IsMax (add_ages ages).max_ms ages
unfolding add_ages Age.add
add_ages-IsMin-IsMax [] = (refl, refl, refl, refl)
add_ages-IsMin-IsMax (age ∷ ages) =
    let (count, total, least, greatest) = add_ages-IsMin-IsMax ages in
    (
      omega (arith, count),
      omega (arith, total),
      IsMin-min_seen (add_ages ages).min_ms age ages least,
      IsMax-max_seen (add_ages ages).max_ms age ages greatest,
    )
