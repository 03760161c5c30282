-- ===== src/Pcap/Messages.antt =====
-- `parse_produce_request_v9` and `parse_fetch_response_v17` of analyze-pcap.py: the record sets of a
-- message. `decode` is `bytes.decode("utf-8")`, and `kafka_topic_id` the base64 text of a UUID.
pub mod Within
use coroutines_kafka_consume.Prelude.{
  ℕ, zero, suc, ◌+◌, ◌-◌, ◌≤◌, ◌≡◌, Bool, true, false, ◌&&◌, Option, none, some, String, List, [],
  ◌∷◌, ◌++◌, leb, nat_beq, if◌then◌else◌,
}
use coroutines_kafka_consume.Prelude.Int.{ℤ, pos, int_beq}
use coroutines_kafka_consume.Pcap.Result.{Result, ok, err, stuck, Error, ◌>>=◌, ◌>>◌, guard}
use coroutines_kafka_consume.Pcap.Bytes.{Bytes, slice}
use coroutines_kafka_consume.Pcap.Varint.{unsigned_varint}
use coroutines_kafka_consume.Pcap.Fields.{
  sized, signed_short, signed_int, skip_tagged_fields, message_limit, compact_count, compact_bytes,
  kafka_string, compact_string,
}

pub record ProduceRecords : Type 0 where
  pub topic : Option String
  pub records : Bytes

pub record FetchRecords : Type 0 where
  pub topic_id : String
  pub records : Bytes

-- A count that is not nullable is never None, which the source asserts.
abbrev pub count_or_zero : Option ℕ → ℕ
count_or_zero none = 0
count_or_zero (some n) = n

-- The partitions of a topic of a Produce request.
unfoldable pub produce_partitions :
    ℕ → Option String → Bytes → ℕ → ℕ → List ProduceRecords → Result (List ProduceRecords × ℕ)
unfolding signed_int compact_bytes skip_tagged_fields
produce_partitions zero topic bytes position limit result = ok (result, position)
produce_partitions (suc n) topic bytes position limit result = do
  (_, position₁) ← signed_int bytes position limit
  (records, position₂) ← compact_bytes bytes position₁ limit true
  position₃ ← skip_tagged_fields bytes position₂ limit
  produce_partitions n topic bytes position₃ limit
      (result ++ (record { topic = topic; records = records } ∷ []))

module _ (decode : Bytes → Option String) where
  unfoldable pub produce_topics :
      ℕ → Bytes → ℕ → ℕ → List ProduceRecords → Result (List ProduceRecords × ℕ)
  unfolding compact_string compact_count skip_tagged_fields
  produce_topics zero bytes position limit result = ok (result, position)
  produce_topics (suc n) bytes position limit result = do
    (topic, position₁) ← compact_string decode bytes position limit false
    (count, position₂) ← compact_count bytes position₁ false
    (result', position₃) ←
        produce_partitions (count_or_zero count) topic bytes position₂ limit result
    position₄ ← skip_tagged_fields bytes position₃ limit
    produce_topics n bytes position₄ limit result'

  -- From the client ID to the timeout.
  unfoldable pub skip_request_header : Bytes → ℕ → ℕ → Result ℕ
  unfolding kafka_string skip_tagged_fields compact_string signed_short signed_int
  skip_request_header bytes position limit = do
    (_, position₁) ← kafka_string decode bytes position limit true
    position₂ ← skip_tagged_fields bytes position₁ limit
    (_, position₃) ← compact_string decode bytes position₂ limit true
    (_, position₄) ← signed_short bytes position₃ limit
    (_, position₅) ← signed_int bytes position₄ limit
    ok position₅

  unfoldable pub parse_produce_request_v9 : Bytes → Result (List ProduceRecords)
  unfolding message_limit signed_short signed_int skip_tagged_fields compact_count
  parse_produce_request_v9 bytes = do
    limit ← message_limit bytes
    (api_key, position₁) ← signed_short bytes 4 limit
    (version, position₂) ← signed_short bytes position₁ limit
    guard (int_beq api_key (pos 0) && int_beq version (pos 9)) Error.unexpected_request
    (_, position₃) ← signed_int bytes position₂ limit
    position₄ ← skip_request_header bytes position₃ limit
    (count, position₅) ← compact_count bytes position₄ false
    (result, position) ← produce_topics (count_or_zero count) bytes position₅ limit []
    _ ← skip_tagged_fields bytes position limit
    ok result

-- The aborted transactions of a partition.
unfoldable pub skip_aborted : ℕ → Bytes → ℕ → ℕ → Result ℕ
unfolding skip_tagged_fields
skip_aborted zero bytes position limit = ok position
skip_aborted (suc n) bytes position limit = do
  guard (leb (position + 16) limit) Error.truncated_transaction
  position' ← skip_tagged_fields bytes (position + 16) limit
  skip_aborted n bytes position' limit

-- The records of a partition; a length of 0 stands for none.
unfoldable pub fetch_records : Bytes → ℕ → ℕ → Result (Bytes × ℕ)
unfolding unsigned_varint slice
fetch_records bytes position limit = do
  (records_length, position') ← unsigned_varint bytes position
  sized bytes position' limit (records_length - 1) Error.truncated_records

-- `range(length - 1)` of a length 0 is empty, as the difference on ℕ has it.
unfoldable pub fetch_partitions :
    ℕ → String → Bytes → ℕ → ℕ → List FetchRecords → Result (List FetchRecords × ℕ)
unfolding signed_int signed_short unsigned_varint skip_aborted skip_tagged_fields
fetch_partitions zero topic_id bytes position limit result = ok (result, position)
fetch_partitions (suc n) topic_id bytes position limit result = do
  (_, position₁) ← signed_int bytes position limit
  (_, position₂) ← signed_short bytes position₁ limit
  guard (leb (position₂ + 24) limit) Error.truncated_offsets
  (aborted_length, position₃) ← unsigned_varint bytes (position₂ + 24)
  position₄ ← skip_aborted (aborted_length - 1) bytes position₃ limit
  (_, position₅) ← signed_int bytes position₄ limit
  (records, position₆) ← fetch_records bytes position₅ limit
  position₇ ← skip_tagged_fields bytes position₆ limit
  fetch_partitions n topic_id bytes position₇ limit
      (result ++ (record { topic_id = topic_id; records = records } ∷ []))

module _ (kafka_topic_id : Bytes → String) where
  unfoldable pub fetch_topics :
      ℕ → Bytes → ℕ → ℕ → List FetchRecords → Result (List FetchRecords × ℕ)
  unfolding unsigned_varint skip_tagged_fields slice
  fetch_topics zero bytes position limit result = ok (result, position)
  fetch_topics (suc n) bytes position limit result = do
    guard (leb (position + 16) limit) Error.truncated_topic_uuid
    let topic_id = kafka_topic_id (slice bytes position (position + 16))
    (partition_length, position₁) ← unsigned_varint bytes (position + 16)
    guard (leb 1 partition_length) Error.null_partitions
    (result', position₂) ←
        fetch_partitions (partition_length - 1) topic_id bytes position₁ limit result
    position₃ ← skip_tagged_fields bytes position₂ limit
    fetch_topics n bytes position₃ limit result'

  -- The position after the topics is not used: what may follow is not read.
  unfoldable pub parse_fetch_response_v17 : Bytes → Result (List FetchRecords)
  unfolding message_limit skip_tagged_fields signed_int signed_short unsigned_varint
  parse_fetch_response_v17 bytes = do
    limit ← message_limit bytes
    position₁ ← skip_tagged_fields bytes 8 limit
    (_, position₂) ← signed_int bytes position₁ limit
    (_, position₃) ← signed_short bytes position₂ limit
    (_, position₄) ← signed_int bytes position₃ limit
    (topic_length, position₅) ← unsigned_varint bytes position₄
    (result, _) ← fetch_topics (topic_length - 1) bytes position₅ limit []
    ok result
