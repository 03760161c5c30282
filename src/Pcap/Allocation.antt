-- ===== src/Pcap/Allocation.antt =====
-- The captured wire bytes that `analyze_capture` of analyze-pcap.py attributes to each topic, by the
-- wire bytes of its record batches.
use coroutines_kafka_consume.Prelude.{
  ℕ, ◌≡◌, ap, ◌∙◌, arith, Bool, false, String, List, [], ◌∷◌, nat_beq, sum_by, if◌then◌else◌,
}
use coroutines_kafka_consume.Prelude.Int.{ℤ, pos, ◌+ℤ◌, ◌-ℤ◌, eq_of_parts, +ℤ_parts, -ℤ_parts}

-- `rounded captured wire total` is round(captured * wire / total), which goes through a floating
-- point number.
module _ (rounded : ℤ → ℕ → ℕ → ℤ) (captured : ℤ) (topic_batch_bytes : ℕ) where
  -- for index, (_, values) in enumerate(ordered_topics): the last topic has what is left.
  unfoldable pub allocate : ℤ → List (String × ℕ) → List (String × ℤ)
  unfolding ◌+ℤ◌ ◌-ℤ◌
  allocate assigned [] = []
  allocate assigned ((topic, wire_bytes) ∷ []) = (topic, captured -ℤ assigned) ∷ []
  allocate assigned ((topic, wire_bytes) ∷ (other ∷ rest)) =
      let allocated = rounded captured wire_bytes topic_batch_bytes in
      (topic, allocated) ∷ allocate (assigned +ℤ allocated) (other ∷ rest)

abbrev pub wire_bytes_of : List (String × ℕ) → ℕ
wire_bytes_of = sum_by (λ (p : String × ℕ). p.1)

-- The topics are given in their order; if they have no bytes, none is attributed.
unfoldable pub captured_wire_bytes : (ℤ → ℕ → ℕ → ℤ) → ℤ → List (String × ℕ) → List (String × ℤ)
unfolding allocate
captured_wire_bytes rounded captured ordered_topics =
    if nat_beq (wire_bytes_of ordered_topics) 0
    then []
    else allocate rounded captured (wire_bytes_of ordered_topics) (pos 0) ordered_topics

unfoldable pub sum_shares : ℤ → List (String × ℤ) → ℤ
unfolding ◌+ℤ◌
sum_shares sum [] = sum
sum_shares sum ((topic, share) ∷ rest) = sum_shares (sum +ℤ share) rest

rest_added : (a c : ℤ) → a +ℤ (c -ℤ a) ≡ c
rest_added a c = eq_of_parts _ _ (omega (arith, -ℤ_parts c a, +ℤ_parts a (c -ℤ a)))

module _ (rounded : ℤ → ℕ → ℕ → ℤ) (captured : ℤ) (total : ℕ) where
  sum_shares-allocate :
      (assigned : ℤ) (first : String × ℕ) (rest : List (String × ℕ))
      → sum_shares assigned (allocate rounded captured total assigned (first ∷ rest)) ≡ captured
  unfolding sum_shares allocate
  sum_shares-allocate assigned first [] = rest_added assigned captured
  sum_shares-allocate assigned first (second ∷ rest) =
      sum_shares-allocate (assigned +ℤ rounded captured first.1 total) second rest

-- If the topics have any bytes, what they are attributed sums to the captured bytes exactly, however
-- the shares are rounded.
pub captured_wire_bytes-sum :
    (rounded : ℤ → ℕ → ℕ → ℤ) (captured : ℤ) (topics : List (String × ℕ))
    → nat_beq (wire_bytes_of topics) 0 ≡ false
    → sum_shares (pos 0) (captured_wire_bytes rounded captured topics) ≡ captured
unfolding captured_wire_bytes
captured_wire_bytes-sum rounded captured [] some_bytes = absurd (ground (arith, some_bytes))
captured_wire_bytes-sum rounded captured (first ∷ rest) some_bytes =
    ap
      (λ (b : Bool). sum_shares (pos 0) (
        if b
        then []
        else allocate rounded captured (wire_bytes_of (first ∷ rest)) (pos 0) (first ∷ rest)))
      some_bytes
    ∙ sum_shares-allocate rounded captured (wire_bytes_of (first ∷ rest)) (pos 0) first rest
