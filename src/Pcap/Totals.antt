-- ===== src/Pcap/Totals.antt =====
-- `add_numbers` and `add_batch` in `analyze_capture` of analyze-pcap.py: the totals of the record
-- batches of a capture, and those of each topic. A codec is its number in place of its name.
pub mod Split
pub mod Sum
use coroutines_kafka_consume.Prelude.{
  ℕ, ◌+◌, Bool, true, false, not, Option, none, some, String, List, [], ◌∷◌, HasEq, ◌==◌, string_eq,
  nat_eq, if◌then◌else◌,
}
use coroutines_kafka_consume.Prelude.Int.{ℤ, pos, ◌+ℤ◌}
use coroutines_kafka_consume.Dict.{Dict, lookup, insert}
use coroutines_kafka_consume.Dict.Counts.{bump}
use coroutines_kafka_consume.Pcap.Records.{RecordSizes}
use coroutines_kafka_consume.Pcap.Batches.{Status, Details, Batch}

pub record BatchTotals : Type 0 where
  pub batches : ℕ
  pub records : ℕ
  pub batch_wire_bytes : ℕ
  pub batch_header_bytes : ℕ
  pub compressed_record_bytes : ℕ
  pub uncompressed_record_bytes : ℕ
  pub compression_savings_bytes : ℤ
  pub parsed_records : ℕ
  pub key_bytes : ℕ
  pub value_bytes : ℕ
  pub header_bytes : ℕ
  pub record_overhead_bytes : ℕ
  pub decompression_unavailable_batches : ℕ
  pub codecs : Dict ℕ ℕ

abbrev pub no_batches : BatchTotals
no_batches = record {
  batches = 0;
  records = 0;
  batch_wire_bytes = 0;
  batch_header_bytes = 0;
  compressed_record_bytes = 0;
  uncompressed_record_bytes = 0;
  compression_savings_bytes = pos 0;
  parsed_records = 0;
  key_bytes = 0;
  value_bytes = 0;
  header_bytes = 0;
  record_overhead_bytes = 0;
  decompression_unavailable_batches = 0;
  codecs = [];
}

-- The numbers of the details; those that a batch does not have count 0.
unfoldable pub add_details : Option Details → BatchTotals → BatchTotals
unfolding ◌+ℤ◌
add_details none totals = totals
add_details (some details) totals =
    let sizes = details.sizes in
    record totals {
      uncompressed_record_bytes =
          totals.uncompressed_record_bytes + details.uncompressed_record_bytes;
      compression_savings_bytes =
          totals.compression_savings_bytes +ℤ details.compression_savings_bytes;
      parsed_records = totals.parsed_records + sizes.parsed_records;
      key_bytes = totals.key_bytes + sizes.key_bytes;
      value_bytes = totals.value_bytes + sizes.value_bytes;
      header_bytes = totals.header_bytes + sizes.header_bytes;
      record_overhead_bytes = totals.record_overhead_bytes + sizes.record_overhead_bytes;
    }

-- add_numbers(target, batch, batch_keys)
unfoldable pub add_numbers : Batch → BatchTotals → BatchTotals
unfolding add_details
add_numbers batch totals = add_details batch.details (record totals {
  records = totals.records + batch.records;
  batch_wire_bytes = totals.batch_wire_bytes + batch.batch_wire_bytes;
  batch_header_bytes = totals.batch_header_bytes + batch.batch_header_bytes;
  compressed_record_bytes = totals.compressed_record_bytes + batch.compressed_record_bytes;
})

abbrev pub is_unavailable : Status → Bool
is_unavailable (Status.unavailable e) = true
is_unavailable _ = false

-- What is done with `batch_totals`, and with the values of a topic, for a batch.
unfoldable pub add_to_totals : Batch → BatchTotals → BatchTotals
unfolding add_numbers bump
add_to_totals batch totals =
    let added = add_numbers batch totals in
    let counted = record added {
      batches = added.batches + 1;
      codecs = bump batch.codec added.codecs;
    } in
    if is_unavailable batch.status
    then record counted {
      decompression_unavailable_batches = counted.decompression_unavailable_batches + 1;
    }
    else counted

pub record TopicBatches : Type 0 where
  pub totals : BatchTotals
  pub wire_bytes : ℕ

abbrev pub no_topic_batches : TopicBatches
no_topic_batches = record { totals = no_batches; wire_bytes = 0 }

pub record CaptureBatches : Type 0 where
  pub batch_totals : BatchTotals
  pub topic_batches : Dict String TopicBatches
  pub unknown_topic_batches : ℕ

abbrev pub no_capture_batches : CaptureBatches
no_capture_batches = record {
  batch_totals = no_batches;
  topic_batches = [];
  unknown_topic_batches = 0;
}

-- topic_batches[topic] of the defaultdict
abbrev pub or_new : Option TopicBatches → TopicBatches
or_new none = no_topic_batches
or_new (some values) = values

unfoldable pub add_to_topic : Batch → TopicBatches → TopicBatches
unfolding add_to_totals
add_to_topic batch values = record {
  totals = add_to_totals batch values.totals;
  wire_bytes = values.wire_bytes + batch.batch_wire_bytes;
}

-- if topic: the empty name counts as none.
abbrev pub named : Option String → Option String
named none = none
named (some topic) = if topic == "" then none else some topic

unfoldable pub add_batch_of : Batch → Option String → CaptureBatches → CaptureBatches
unfolding insert lookup add_to_topic
add_batch_of batch none s = record s { unknown_topic_batches = s.unknown_topic_batches + 1 }
add_batch_of batch (some topic) s =
    let values = add_to_topic batch (or_new (lookup topic s.topic_batches)) in
    record s { topic_batches = insert topic values s.topic_batches }

unfoldable pub add_batch : Batch → Option String → CaptureBatches → CaptureBatches
unfolding add_batch_of add_to_totals
add_batch batch topic s =
    add_batch_of batch (named topic)
      (record s { batch_totals = add_to_totals batch s.batch_totals })

-- for topic, records in record_sets: for batch in ...: add_batch(batch, topic)
unfoldable pub add_batches : List (Batch × Option String) → CaptureBatches → CaptureBatches
unfolding add_batch
add_batches [] s = s
add_batches ((batch, topic) ∷ rest) s = add_batches rest (add_batch batch topic s)
