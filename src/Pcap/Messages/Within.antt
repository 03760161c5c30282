-- ===== src/Pcap/Messages/Within.antt =====
-- The record sets of a message do not overlap and lie within it: their bytes are no more than the
-- message has.
use coroutines_kafka_consume.Prelude.{
  ℕ, zero, suc, ◌+◌, ◌-◌, ◌≤◌, ◌≡◌, true, false, ◌&&◌, Option, String, List, [], ◌∷◌, ◌++◌, arith,
  leb, length, sum_by, sum_by-append,
}
use coroutines_kafka_consume.Prelude.Int.{pos, int_beq}
use coroutines_kafka_consume.Pcap.Result.{Error, Ensures, Ensures-imp, Ensures-bind, Ensures-guard}
use coroutines_kafka_consume.Pcap.Bytes.{Bytes, slice}
use coroutines_kafka_consume.Pcap.Varint.{Advances, unsigned_varint-Advances}
use coroutines_kafka_consume.Pcap.Fields.Within.{
  Stays, Cuts, CutsPast, sized-Cuts, message_limit-le, signed_short-Advances, signed_int-Advances,
  skip_tagged_fields-Stays, compact_count-Advances, compact_bytes-Cuts, kafka_string-Advances,
  compact_string-Advances,
}
use coroutines_kafka_consume.Pcap.Messages.{
  ProduceRecords, FetchRecords, count_or_zero, produce_partitions, produce_topics,
  parse_produce_request_v9, skip_aborted, skip_request_header, fetch_records, fetch_partitions,
  fetch_topics, parse_fetch_response_v17,
}

abbrev pub produce_size : List ProduceRecords → ℕ
produce_size = sum_by (λ (item : ProduceRecords). length item.records)

abbrev pub fetch_size : List FetchRecords → ℕ
fetch_size = sum_by (λ (item : FetchRecords). length item.records)

-- What a loop adds to the result lies between its two positions.
abbrev Adds {ℓ} : {A : Type ℓ} → (List A → ℕ) → Bytes → ℕ → List A → List A × ℕ → Type 0
Adds size bytes position result r = (size r.0 + position ≤ size result + r.1) × (r.1 ≤ length bytes)

module _ (bytes : Bytes) (limit : ℕ) (limited : limit ≤ length bytes) where
  produce_partitions-Adds :
      (n : ℕ) (topic : Option String) (position : ℕ) (result : List ProduceRecords)
      → position ≤ length bytes
      → Ensures
          (Adds produce_size bytes position result)
          (produce_partitions n topic bytes position limit result)
  unfolding produce_partitions
  produce_partitions-Adds zero topic position result h = omega (arith, h)
  produce_partitions-Adds (suc n) topic position result h =
      Ensures-bind (Advances bytes position) _ _ _
        (signed_int-Advances bytes limit limited position)
        (λ r₁ a₁.
          Ensures-bind (CutsPast bytes r₁.1) _ _ _
            (compact_bytes-Cuts bytes limit limited r₁.1 true)
            (λ r₂ c₂.
              Ensures-bind (Stays bytes r₂.1) _ _ _
                (skip_tagged_fields-Stays bytes limit limited r₂.1)
                (λ p s.
                  let item : ProduceRecords = record { topic = topic; records = r₂.0 } in
                  Ensures-imp (Adds produce_size bytes p (result ++ (item ∷ []))) _ _
                    (produce_partitions-Adds n topic p (result ++ (item ∷ [])) s.1)
                    (λ r added. omega (
                      arith,
                      a₁.0,
                      c₂.0,
                      s.0,
                      added.0,
                      added.1,
                      sum_by-append (λ (item : ProduceRecords). length item.records) result
                          (item ∷ []),
                    )))))

  module _ (decode : Bytes → Option String) where
    produce_topics-Adds :
        (n position : ℕ) (result : List ProduceRecords)
        → position ≤ length bytes
        → Ensures
            (Adds produce_size bytes position result)
            (produce_topics decode n bytes position limit result)
    unfolding produce_topics
    produce_topics-Adds zero position result h = omega (arith, h)
    produce_topics-Adds (suc n) position result h =
        Ensures-bind (Advances bytes position) _ _ _
          (compact_string-Advances bytes limit limited decode position false)
          (λ r₁ a₁.
            Ensures-bind (Advances bytes r₁.1) _ _ _
              (compact_count-Advances bytes limit limited r₁.1 false)
              (λ r₂ a₂.
                Ensures-bind (Adds produce_size bytes r₂.1 result) _ _ _
                  (produce_partitions-Adds (count_or_zero r₂.0) r₁.0 r₂.1 result a₂.1)
                  (λ r₃ a₃.
                    Ensures-bind (Stays bytes r₃.1) _ _ _
                      (skip_tagged_fields-Stays bytes limit limited r₃.1)
                      (λ p s.
                        Ensures-imp (Adds produce_size bytes p r₃.0) _ _
                          (produce_topics-Adds n p r₃.0 s.1)
                          (λ r a. omega (arith, a₁.0, a₂.0, a₃.0, s.0, a.0, a.1))))))

skip_request_header-Stays :
    (decode : Bytes → Option String) (bytes : Bytes) (limit : ℕ)
    → limit ≤ length bytes
    → (position : ℕ)
    → Ensures (Stays bytes position) (skip_request_header decode bytes position limit)
unfolding skip_request_header
skip_request_header-Stays decode bytes limit l position =
    Ensures-bind (Advances bytes position) _ _ _
      (kafka_string-Advances bytes limit l decode position true)
      (λ r₁ a₁.
        Ensures-bind (Stays bytes r₁.1) _ _ _ (skip_tagged_fields-Stays bytes limit l r₁.1) (λ p s.
          Ensures-bind (Advances bytes p) _ _ _
            (compact_string-Advances bytes limit l decode p true)
            (λ r₂ a₂.
              Ensures-bind (Advances bytes r₂.1) _ _ _ (signed_short-Advances bytes limit l r₂.1)
                (λ r₃ a₃.
                  Ensures-bind (Advances bytes r₃.1) _ _ _ (signed_int-Advances bytes limit l r₃.1)
                    (λ r₄ a₄. omega (arith, a₁.0, s.0, a₂.0, a₃.0, a₄.0, a₄.1))))))

-- If a Produce request is parsed, its record sets have no more bytes than it has; and the parser
-- returns or raises.
pub parse_produce_request_v9-le :
    (decode : Bytes → Option String) (bytes : Bytes)
    → Ensures (λ result. produce_size result ≤ length bytes) (parse_produce_request_v9 decode bytes)
unfolding parse_produce_request_v9
parse_produce_request_v9-le decode bytes =
    Ensures-bind (λ limit. (4 ≤ limit) × (limit ≤ length bytes)) _ _ _ (message_limit-le bytes)
      (λ limit l.
        Ensures-bind (Advances bytes 4) _ _ _ (signed_short-Advances bytes limit l.1 4) (λ r₁ a₁.
          Ensures-bind (Advances bytes r₁.1) _ _ _ (signed_short-Advances bytes limit l.1 r₁.1)
            (λ r₂ a₂. Ensures-guard _ (int_beq r₁.0 (pos 0) && int_beq r₂.0 (pos 9)) _ _ (λ right.
              Ensures-bind (Advances bytes r₂.1) _ _ _ (signed_int-Advances bytes limit l.1 r₂.1)
                (λ r₃ a₃.
                  Ensures-bind (Stays bytes r₃.1) _ _ _
                    (skip_request_header-Stays decode bytes limit l.1 r₃.1)
                    (λ p₄ s₄.
                      Ensures-bind (Advances bytes p₄) _ _ _
                        (compact_count-Advances bytes limit l.1 p₄ false)
                        (λ r₅ a₅.
                          Ensures-bind (Adds produce_size bytes r₅.1 []) _ _ _
                            (produce_topics-Adds bytes limit l.1 decode (count_or_zero r₅.0) r₅.1 []
                              a₅.1)
                            (λ r₆ a₆.
                              Ensures-bind (Stays bytes r₆.1) _ _ _
                                (skip_tagged_fields-Stays bytes limit l.1 r₆.1)
                                (λ p s. omega (arith, a₆.0, a₆.1))))))))))

module _ (bytes : Bytes) (limit : ℕ) (limited : limit ≤ length bytes) where
  skip_aborted-Stays :
      (n position : ℕ)
      → position ≤ length bytes
      → Ensures (Stays bytes position) (skip_aborted n bytes position limit)
  unfolding skip_aborted
  skip_aborted-Stays zero position h = omega (arith, h)
  skip_aborted-Stays (suc n) position h =
      Ensures-guard (Stays bytes position) (leb (position + 16) limit) _ _ (λ fits.
        Ensures-bind (Stays bytes (position + 16)) _ _ _
          (skip_tagged_fields-Stays bytes limit limited (position + 16))
          (λ p s.
            Ensures-imp (Stays bytes p) (Stays bytes position) _ (skip_aborted-Stays n p s.1)
              (λ q t. omega (arith, s.0, t.0, t.1))))

  fetch_records-Cuts :
      (position : ℕ) → Ensures (CutsPast bytes position) (fetch_records bytes position limit)
  unfolding fetch_records
  fetch_records-Cuts position =
      Ensures-bind (Advances bytes position) _ _ _ (unsigned_varint-Advances bytes position) (λ r a.
        Ensures-imp (Cuts bytes r.1) _ _
          (sized-Cuts bytes limit limited r.1 (r.0 - 1) Error.truncated_records)
          (λ t c. omega (arith, a.0, c.0, c.1)))

  fetch_size-append :
      (result : List FetchRecords) (item : FetchRecords)
      → fetch_size (result ++ (item ∷ [])) ≡ fetch_size result + length item.records
  fetch_size-append result item =
      omega (arith, sum_by-append (λ (item : FetchRecords). length item.records) result (item ∷ []))

  fetch_partitions-Adds :
      (n : ℕ) (topic_id : String) (position : ℕ) (result : List FetchRecords)
      → position ≤ length bytes
      → Ensures
          (Adds fetch_size bytes position result)
          (fetch_partitions n topic_id bytes position limit result)
  unfolding fetch_partitions
  fetch_partitions-Adds zero topic_id position result h = omega (arith, h)
  fetch_partitions-Adds (suc n) topic_id position result h =
      Ensures-bind (Advances bytes position) _ _ _
        (signed_int-Advances bytes limit limited position)
        (λ r₁ a₁.
          Ensures-bind (Advances bytes r₁.1) _ _ _ (signed_short-Advances bytes limit limited r₁.1)
            (λ r₂ a₂. Ensures-guard _ (leb (r₂.1 + 24) limit) _ _ (λ fits.
              Ensures-bind (Advances bytes (r₂.1 + 24)) _ _ _
                (unsigned_varint-Advances bytes (r₂.1 + 24))
                (λ r₃ a₃.
                  Ensures-bind (Stays bytes r₃.1) _ _ _ (skip_aborted-Stays (r₃.0 - 1) r₃.1 a₃.1)
                    (λ p₄ s₄.
                      Ensures-bind (Advances bytes p₄) _ _ _
                        (signed_int-Advances bytes limit limited p₄)
                        (λ r₅ a₅.
                          Ensures-bind (CutsPast bytes r₅.1) _ _ _ (fetch_records-Cuts r₅.1)
                            (λ r₆ c₆.
                              Ensures-bind (Stays bytes r₆.1) _ _ _
                                (skip_tagged_fields-Stays bytes limit limited r₆.1)
                                (λ p s.
                                  let item : FetchRecords = record {
                                    topic_id = topic_id;
                                    records = r₆.0;
                                  } in
                                  Ensures-imp (Adds fetch_size bytes p (result ++ (item ∷ []))) _ _
                                    (fetch_partitions-Adds n topic_id p (result ++ (item ∷ [])) s.1)
                                    (λ r a. omega (
                                      arith,
                                      a₁.0,
                                      a₂.0,
                                      a₃.0,
                                      s₄.0,
                                      a₅.0,
                                      c₆.0,
                                      s.0,
                                      a.0,
                                      a.1,
                                      fetch_size-append result item,
                                    ))))))))))

  fetch_topics-Adds :
      (kafka_topic_id : Bytes → String) (n position : ℕ) (result : List FetchRecords)
      → position ≤ length bytes
      → Ensures
          (Adds fetch_size bytes position result)
          (fetch_topics kafka_topic_id n bytes position limit result)
  unfolding fetch_topics
  fetch_topics-Adds topic_id zero position result h = omega (arith, h)
  fetch_topics-Adds topic_id (suc n) position result h =
      Ensures-guard _ (leb (position + 16) limit) _ _ (λ fits.
        Ensures-bind (Advances bytes (position + 16)) _ _ _
          (unsigned_varint-Advances bytes (position + 16))
          (λ r₁ a₁. Ensures-guard _ (leb 1 r₁.0) _ _ (λ some_partitions.
            Ensures-bind (Adds fetch_size bytes r₁.1 result) _ _ _
              (fetch_partitions-Adds (r₁.0 - 1) (topic_id (slice bytes position (position + 16)))
                r₁.1 result a₁.1)
              (λ r₂ a₂.
                Ensures-bind (Stays bytes r₂.1) _ _ _
                  (skip_tagged_fields-Stays bytes limit limited r₂.1)
                  (λ p s.
                    Ensures-imp (Adds fetch_size bytes p r₂.0) _ _
                      (fetch_topics-Adds topic_id n p r₂.0 s.1)
                      (λ r a. omega (arith, a₁.0, a₂.0, s.0, a.0, a.1)))))))

-- If a Fetch response is parsed, its record sets have no more bytes than it has; and the parser
-- returns or raises.
pub parse_fetch_response_v17-le :
    (kafka_topic_id : Bytes → String) (bytes : Bytes)
    → Ensures
        (λ result. fetch_size result ≤ length bytes)
        (parse_fetch_response_v17 kafka_topic_id bytes)
unfolding parse_fetch_response_v17
parse_fetch_response_v17-le topic_id bytes =
    Ensures-bind (λ limit. (4 ≤ limit) × (limit ≤ length bytes)) _ _ _ (message_limit-le bytes)
      (λ limit l.
        Ensures-bind (Stays bytes 8) _ _ _ (skip_tagged_fields-Stays bytes limit l.1 8) (λ p₁ s₁.
          Ensures-bind (Advances bytes p₁) _ _ _ (signed_int-Advances bytes limit l.1 p₁) (λ r₂ a₂.
            Ensures-bind (Advances bytes r₂.1) _ _ _ (signed_short-Advances bytes limit l.1 r₂.1)
              (λ r₃ a₃.
                Ensures-bind (Advances bytes r₃.1) _ _ _ (signed_int-Advances bytes limit l.1 r₃.1)
                  (λ r₄ a₄.
                    Ensures-bind (Advances bytes r₄.1) _ _ _ (unsigned_varint-Advances bytes r₄.1)
                      (λ r₅ a₅.
                        Ensures-bind (Adds fetch_size bytes r₅.1 []) _ _ _
                          (fetch_topics-Adds bytes limit l.1 topic_id (r₅.0 - 1) r₅.1 [] a₅.1)
                          (λ r₆ a₆. omega (arith, a₆.0, a₆.1))))))))
