-- ===== src/Pcap/Topics.antt =====
-- The second half of `analyze_capture` of analyze-pcap.py: the record sets of the selected messages
-- with their topics, the record batches in them, and the API counts in total and of each topic.
pub mod Bounded
pub mod Counted
use coroutines_kafka_consume.Prelude.{
  ℕ, ◌+◌, Bool, true, false, not, ◌&&◌, ◌||◌, Option, none, some, String, List, [], ◌∷◌, ◌++◌,
  HasEq, ◌==◌, string_eq, pair_eq, if◌then◌else◌,
}
use coroutines_kafka_consume.Prelude.Int.{ℤ, pos, ◌+ℤ◌, int_eq}
use coroutines_kafka_consume.Dict.{Dict, lookup, insert, get_or}
use coroutines_kafka_consume.Pcap.Result.{Result, ok, err, stuck, Error, ◌>>=◌}
use coroutines_kafka_consume.Pcap.Bytes.{Bytes}
use coroutines_kafka_consume.Pcap.Messages.{
  ProduceRecords, FetchRecords, parse_produce_request_v9, parse_fetch_response_v17,
}
use coroutines_kafka_consume.Pcap.Compression.{Libraries}
use coroutines_kafka_consume.Pcap.Batches.{Batch, find_record_batches}
use coroutines_kafka_consume.Pcap.Totals.{CaptureBatches, named, add_batch}
use coroutines_kafka_consume.Pcap.Capture.{Message, Direction, is_negative}
use coroutines_kafka_consume.Pcap.Capture.Roles.{Role, role_beq}

abbrev pub RecordSets : Type 0
RecordSets = List (Option String × Bytes)

abbrev pub direction_beq : Direction → Direction → Bool
direction_beq Direction.request Direction.request = true
direction_beq Direction.response Direction.response = true
direction_beq _ _ = false

abbrev pub is_produce : Role → Message → Bool
is_produce role m =
    role_beq role Role.producer
    && (direction_beq m.direction Direction.request && m.api_key == pos 0)

abbrev pub is_fetch : Role → Message → Bool
is_fetch role m =
    role_beq role Role.consumer
    && (direction_beq m.direction Direction.response && m.api_key == pos 1)

abbrev pub is_empty : Bytes → Bool
is_empty [] = true
is_empty (x ∷ bytes) = false

-- str(item["topic"]), which is not None
abbrev pub topic_or_none : Option String → String
topic_or_none none = "None"
topic_or_none (some topic) = topic

abbrev pub produce_sets : List ProduceRecords → RecordSets
produce_sets [] = []
produce_sets (item ∷ items) = (some (topic_or_none item.topic), item.records) ∷ produce_sets items

-- The name of a topic that the metadata does not have is none, with a warning.
unfoldable pub fetch_sets : Dict String String → List FetchRecords → RecordSets
unfolding lookup
fetch_sets topic_names [] = []
fetch_sets topic_names (item ∷ items) =
    (lookup item.topic_id topic_names, item.records) ∷ fetch_sets topic_names items

-- except ValueError: `struct.error` is none, and would leave `analyze_capture`.
abbrev pub caught : Bytes → Result RecordSets → Result RecordSets
caught raw (ok sets) = ok sets
caught raw (err Error.struct_error) = err Error.struct_error
caught raw (err e) = ok ((none, raw) ∷ [])
caught raw stuck = stuck

module _ (decode : Bytes → Option String) (kafka_topic_id : Bytes → String)
    (topic_names : Dict String String) (role : Role) where
  -- A version without a parser has no topic: its `topics` are empty.
  unfoldable pub parse_sets : Message → Result RecordSets
  unfolding parse_produce_request_v9 parse_fetch_response_v17 fetch_sets
  parse_sets m =
      if is_produce role m && m.api_version == pos 9
      then (parse_produce_request_v9 decode m.raw >>= λ items. ok (produce_sets items))
      else if is_fetch role m && m.api_version == pos 17
      then (parse_fetch_response_v17 kafka_topic_id m.raw >>= λ items.
          ok (fetch_sets topic_names items))
      else ok ((none, m.raw) ∷ [])

  -- not carries_records or not message["raw"]
  abbrev pub is_passed_over : Message → Bool
  is_passed_over m = not (is_produce role m || is_fetch role m) || is_empty m.raw

  unfoldable pub record_sets_of : Message → Result RecordSets
  unfolding parse_sets
  record_sets_of m = if is_passed_over m then ok [] else caught m.raw (parse_sets m)

unfoldable pub add_found : List Batch → Option String → CaptureBatches → CaptureBatches
unfolding add_batch
add_found [] topic s = s
add_found (batch ∷ batches) topic s = add_found batches topic (add_batch batch topic s)

module _ (libraries : Libraries) where
  -- for topic, records in message["record_sets"]: ...
  unfoldable pub add_record_sets : RecordSets → CaptureBatches → Result CaptureBatches
  unfolding find_record_batches add_found
  add_record_sets [] s = ok s
  add_record_sets ((topic, records) ∷ sets) s = do
    batches ← find_record_batches libraries records
    add_record_sets sets (add_found batches topic s)

-- Sets of topics.
abbrev pub has_topic : String → List String → Bool
has_topic topic [] = false
has_topic topic (t ∷ topics) = t == topic || has_topic topic topics

abbrev pub add_topic : List String → String → List String
add_topic topics topic = if has_topic topic topics then topics else topics ++ (topic ∷ [])

abbrev pub add_topics : List String → List String → List String
add_topics topics [] = topics
add_topics topics (topic ∷ more) = add_topics (add_topic topics topic) more

-- (topic for topic, _ in record_sets if topic)
abbrev pub named_topics : RecordSets → List String
named_topics [] = []
named_topics ((topic, records) ∷ sets) = elim (named topic) [
  | none ↦ named_topics sets
  | some t ↦ t ∷ named_topics sets
]

abbrev pub Exchange : Type 0
Exchange = (ℤ × ℤ) × ℤ

abbrev pub exchange_of : Message → Exchange
exchange_of m = ((m.stream, m.correlation), m.api_key)

unfoldable pub note_exchange :
    Message → RecordSets → Dict Exchange (List String) → Dict Exchange (List String)
unfolding insert get_or
note_exchange m sets exchanges =
    if is_negative m.correlation
    then exchanges
    else insert (exchange_of m)
        (add_topics (get_or (exchange_of m) [] exchanges) (named_topics sets)) exchanges

unfoldable pub stream_topics :
    Dict Exchange (List String) → Dict ℤ (List String) → Dict ℤ (List String)
unfolding insert get_or
stream_topics [] topics = topics
stream_topics ((((stream, correlation), api_key), found) ∷ exchanges) topics =
    stream_topics exchanges (insert stream (add_topics (get_or stream [] topics) found) topics)

abbrev pub multiple_topics_bucket : String
multiple_topics_bucket = "__multiple_topics__"

abbrev pub unattributed_topic_bucket : String
unattributed_topic_bucket = "__unattributed__"

abbrev pub only_topic : List String → String
only_topic (topic ∷ []) = topic
only_topic _ = unattributed_topic_bucket

-- The topic of a message; with none of its own, the only one of its stream.
abbrev pub bucket : List String → List String → String
bucket [] of_stream = only_topic of_stream
bucket (topic ∷ []) of_stream = topic
bucket (topic ∷ (other ∷ topics)) of_stream = multiple_topics_bucket

pub record ApiCount : Type 0 where
  pub requests : ℕ
  pub responses : ℕ
  pub request_bytes : ℤ
  pub response_bytes : ℤ

abbrev pub no_count : ApiCount
no_count = record { requests = 0; responses = 0; request_bytes = pos 0; response_bytes = pos 0 }

unfoldable pub count_message : Direction → ℤ → ApiCount → ApiCount
unfolding ◌+ℤ◌
count_message Direction.request bytes count = record count {
  requests = count.requests + 1;
  request_bytes = count.request_bytes +ℤ bytes;
}
count_message Direction.response bytes count = record count {
  responses = count.responses + 1;
  response_bytes = count.response_bytes +ℤ bytes;
}

-- An API is its key in place of its name.
pub record ApiCounts : Type 0 where
  pub api_counts : Dict ℤ ApiCount
  pub topic_api_counts : Dict (String × ℤ) ApiCount

unfoldable pub topics_of : Message → RecordSets → Dict Exchange (List String) → List String
unfolding get_or
topics_of m sets exchanges =
    if is_negative m.correlation
    then add_topics [] (named_topics sets)
    else get_or (exchange_of m) [] exchanges

unfoldable pub bucket_of :
    Message → RecordSets → Dict Exchange (List String) → Dict ℤ (List String) → String
unfolding topics_of get_or
bucket_of m sets exchanges streams =
    bucket (topics_of m sets exchanges) (get_or m.stream [] streams)

abbrev pub has_records : Message → Bool
has_records m = m.api_key == pos 0 || m.api_key == pos 1

unfoldable pub count_api :
    Dict Exchange (List String)
    → Dict ℤ (List String)
    → Message × RecordSets
    → ApiCounts
    → ApiCounts
unfolding insert get_or count_message bucket_of
count_api exchanges streams (m, sets) s =
    let k : String × ℤ = (bucket_of m sets exchanges streams, m.api_key) in
    let count = count_message m.direction m.bytes in
    record {
      api_counts = insert m.api_key (count (get_or m.api_key no_count s.api_counts)) s.api_counts;
      topic_api_counts =
          if has_records m
          then insert k (count (get_or k no_count s.topic_api_counts)) s.topic_api_counts
          else s.topic_api_counts;
    }

unfoldable pub count_apis :
    Dict Exchange (List String)
    → Dict ℤ (List String)
    → List (Message × RecordSets)
    → ApiCounts
    → ApiCounts
unfolding count_api
count_apis exchanges streams [] s = s
count_apis exchanges streams (m ∷ ms) s =
    count_apis exchanges streams ms (count_api exchanges streams m s)

module _ (decode : Bytes → Option String) (kafka_topic_id : Bytes → String)
    (topic_names : Dict String String) (role : Role) where
  -- The loop over the selected messages that finds their record sets and the topics of exchanges.
  unfoldable pub associate :
      List Message
      → Dict Exchange (List String)
      → Result (List (Message × RecordSets) × Dict Exchange (List String))
  unfolding record_sets_of note_exchange
  associate [] exchanges = ok ([], exchanges)
  associate (m ∷ ms) exchanges = do
    sets ← record_sets_of decode kafka_topic_id topic_names role m
    (rest, exchanges') ← associate ms (
        if is_passed_over decode kafka_topic_id topic_names role m
        then exchanges
        else note_exchange m sets exchanges)
    ok ((m, sets) ∷ rest, exchanges')

abbrev pub all_sets : List (Message × RecordSets) → RecordSets
all_sets [] = []
all_sets ((m, sets) ∷ rest) = sets ++ all_sets rest
