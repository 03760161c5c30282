-- ===== src/Pcap/Topics/Counted.antt =====
-- Each message is counted once, under its API and, if it carries records, under one topic.
use coroutines_kafka_consume.Prelude.{
  ℕ, ◌+◌, ◌≡◌, refl, sym, Bool, true, false, ◌&&◌, Option, none, some, String, List, [], ◌∷◌, arith,
  HasEq, string_eq, pair_eq, count_if, if◌then◌else◌,
}
use coroutines_kafka_consume.Prelude.Int.{ℤ, int_eq}
use coroutines_kafka_consume.Dict.{Dict, lookup, insert, get_or}
use coroutines_kafka_consume.Dict.Unique.{sum_values, measure, sum_values-insert}
use coroutines_kafka_consume.Pcap.Capture.{Message, Direction}
use coroutines_kafka_consume.Pcap.Topics.{
  RecordSets, direction_beq, Exchange, ApiCount, no_count, ApiCounts, count_message, bucket_of,
  has_records, count_api, count_apis,
}

-- The messages of a direction that are counted.
abbrev pub counted : Direction → ApiCount → ℕ
counted Direction.request count = count.requests
counted Direction.response count = count.responses

abbrev pub is_in : Direction → Message × RecordSets → Bool
is_in d m = direction_beq m.0.direction d

abbrev pub has_topic_in : Direction → Message × RecordSets → Bool
has_topic_in d m = has_records m.0 && direction_beq m.0.direction d

abbrev to_number : Bool → ℕ
to_number true = 1
to_number false = 0

count_message-counted :
    (d e : Direction) (bytes : ℤ) (count : ApiCount)
    → counted d (count_message e bytes count) ≡ counted d count + to_number (direction_beq e d)
unfolding count_message
count_message-counted Direction.request Direction.request bytes count = refl
count_message-counted Direction.request Direction.response bytes count = omega arith
count_message-counted Direction.response Direction.request bytes count = omega arith
count_message-counted Direction.response Direction.response bytes count = refl

zero_count : (d : Direction) → counted d no_count ≡ 0
zero_count Direction.request = refl
zero_count Direction.response = refl

measure-or_none :
    (f : ApiCount → ℕ) (o : Option ApiCount)
    → f no_count ≡ 0
    → measure f o ≡ f (elim o [ none ↦ no_count | some count ↦ count ])
measure-or_none f none z = sym z
measure-or_none f (some count) z = refl

module _ {ℓ} {K : Type ℓ} ⦃e : HasEq K⦄ where
  inserted :
      (d m : Direction) (bytes : ℤ) (k : K) (counts : Dict K ApiCount)
      → sum_values (counted d) (insert k (count_message m bytes (get_or k no_count counts)) counts)
        ≡ sum_values (counted d) counts + to_number (direction_beq m d)
  unfolding get_or
  inserted d m bytes k counts =
      let value = get_or k no_count counts in
      omega (
        arith,
        sum_values-insert (counted d) k (count_message m bytes value) counts,
        count_message-counted d m bytes value,
        measure-or_none (counted d) (lookup k counts) (zero_count d),
      )

-- The messages of a direction, in total and of all topics.
abbrev pub counted_apis : Direction → ApiCounts → ℕ
counted_apis d s = sum_values (counted d) s.api_counts

abbrev pub counted_topics : Direction → ApiCounts → ℕ
counted_topics d s = sum_values (counted d) s.topic_api_counts

abbrev pub no_counts : ApiCounts
no_counts = record { api_counts = []; topic_api_counts = [] }

module _ (exchanges : Dict Exchange (List String)) (streams : Dict ℤ (List String)) where
  count_api-counted :
      (d : Direction) (m : Message × RecordSets) (s : ApiCounts)
      → (counted_apis d (count_api exchanges streams m s)
          ≡ counted_apis d s + to_number (is_in d m))
        × (counted_topics d (count_api exchanges streams m s)
            ≡ counted_topics d s + to_number (has_topic_in d m))
  unfolding count_api
  count_api-counted d (m, sets) s =
      (inserted d m.direction m.bytes m.api_key s.api_counts, go (has_records m))
    where
      k : String × ℤ
      k = (bucket_of m sets exchanges streams, m.api_key)

      go :
          (b : Bool)
          → sum_values (counted d) (
              if b
              then insert k
                  (count_message m.direction m.bytes (get_or k no_count s.topic_api_counts))
                  s.topic_api_counts
              else s.topic_api_counts)
            ≡ counted_topics d s + to_number (b && direction_beq m.direction d)
      go true = inserted d m.direction m.bytes k s.topic_api_counts
      go false = omega arith

  counted-from :
      (d : Direction) (ms : List (Message × RecordSets)) (s : ApiCounts)
      → (counted_apis d (count_apis exchanges streams ms s)
          ≡ counted_apis d s + count_if (is_in d) ms)
        × (counted_topics d (count_apis exchanges streams ms s)
            ≡ counted_topics d s + count_if (has_topic_in d) ms)
  unfolding count_apis
  counted-from d [] s = (omega arith, omega arith)
  counted-from d (m ∷ ms) s =
      let (a, t) = count_api-counted d m s in
      let (b, u) = counted-from d ms (count_api exchanges streams m s) in
      (ground (arith, a, b), ground (arith, t, u))

-- From no counts, whatever topics the exchanges and the streams have: the requests of all APIs are
-- the messages that are requests, and the responses those that are responses; the same holds of the
-- counts of all topics with the messages of Produce and Fetch.
pub count_apis-counted :
    (exchanges : Dict Exchange (List String)) (streams : Dict ℤ (List String)) (d : Direction)
    (ms : List (Message × RecordSets))
    → (counted_apis d (count_apis exchanges streams ms no_counts) ≡ count_if (is_in d) ms)
      × (counted_topics d (count_apis exchanges streams ms no_counts)
          ≡ count_if (has_topic_in d) ms)
count_apis-counted exchanges streams d ms =
    let (a, t) = counted-from exchanges streams d ms no_counts in
    (omega (arith, a), omega (arith, t))
