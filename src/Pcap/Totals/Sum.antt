-- ===== src/Pcap/Totals/Sum.antt =====
-- What each batch counts for, by its own fields, and the totals of a capture and of its topics as the
-- sums of these amounts.
use coroutines_kafka_consume.Prelude.{
  ℕ, ◌+◌, ◌≡◌, refl, sym, ap, ◌∙◌, Option, none, some, String, List, [], ◌∷◌, arith, ◌==◌,
  string_eq, nat_eq, if◌then◌else◌,
}
use coroutines_kafka_consume.Prelude.Int.{ℤ, pos, ◌+ℤ◌, eq_of_parts, +ℤ_parts}
use coroutines_kafka_consume.Dict.{get_or, lookup}
use coroutines_kafka_consume.Dict.Counts.{bump, get_or-add_to}
use coroutines_kafka_consume.Pcap.Batches.{Batch, Details, Status}
use coroutines_kafka_consume.Pcap.Totals.{
  BatchTotals, no_batches, add_details, add_numbers, add_to_totals, TopicBatches, no_topic_batches,
  CaptureBatches, no_capture_batches, add_to_topic, named, add_batch_of, add_batch, add_batches,
}
use coroutines_kafka_consume.Pcap.Totals.Split.{
  batches_for, values_of, values_in, values_in-add_batches,
}

-- The counters of the totals; there is one for each codec.
pub data Number : Type 0 where
  batches records batch_wire_bytes batch_header_bytes compressed_record_bytes : Number
  uncompressed_record_bytes parsed_records key_bytes value_bytes header_bytes : Number
  record_overhead_bytes decompression_unavailable_batches : Number
  batches_of_codec : ℕ → Number

abbrev pub number : Number → BatchTotals → ℕ
number Number.batches totals = totals.batches
number Number.records totals = totals.records
number Number.batch_wire_bytes totals = totals.batch_wire_bytes
number Number.batch_header_bytes totals = totals.batch_header_bytes
number Number.compressed_record_bytes totals = totals.compressed_record_bytes
number Number.uncompressed_record_bytes totals = totals.uncompressed_record_bytes
number Number.parsed_records totals = totals.parsed_records
number Number.key_bytes totals = totals.key_bytes
number Number.value_bytes totals = totals.value_bytes
number Number.header_bytes totals = totals.header_bytes
number Number.record_overhead_bytes totals = totals.record_overhead_bytes
number Number.decompression_unavailable_batches totals = totals.decompression_unavailable_batches
number (Number.batches_of_codec codec) totals = get_or codec 0 totals.codecs

-- Of a batch whose records were not parsed, nothing.
abbrev pub if_parsed : (Details → ℕ) → Option Details → ℕ
if_parsed f none = 0
if_parsed f (some details) = f details

abbrev pub one_if_unavailable : Status → ℕ
one_if_unavailable Status.success = 0
one_if_unavailable Status.record_count_mismatch = 0
one_if_unavailable (Status.unavailable e) = 1

abbrev pub amount : Number → Batch → ℕ
amount Number.batches batch = 1
amount Number.records batch = batch.records
amount Number.batch_wire_bytes batch = batch.batch_wire_bytes
amount Number.batch_header_bytes batch = batch.batch_header_bytes
amount Number.compressed_record_bytes batch = batch.compressed_record_bytes
amount Number.uncompressed_record_bytes batch =
    if_parsed (λ (d : Details). d.uncompressed_record_bytes) batch.details
amount Number.parsed_records batch =
    if_parsed (λ (d : Details). d.sizes.parsed_records) batch.details
amount Number.key_bytes batch = if_parsed (λ (d : Details). d.sizes.key_bytes) batch.details
amount Number.value_bytes batch = if_parsed (λ (d : Details). d.sizes.value_bytes) batch.details
amount Number.header_bytes batch = if_parsed (λ (d : Details). d.sizes.header_bytes) batch.details
amount Number.record_overhead_bytes batch =
    if_parsed (λ (d : Details). d.sizes.record_overhead_bytes) batch.details
amount Number.decompression_unavailable_batches batch = one_if_unavailable batch.status
amount (Number.batches_of_codec codec) batch = if batch.codec == codec then 1 else 0

abbrev pub amounts : Number → List Batch → ℕ
amounts n [] = 0
amounts n (batch ∷ rest) = amount n batch + amounts n rest

abbrev pub savings : Option Details → ℤ
savings none = pos 0
savings (some details) = details.compression_savings_bytes

abbrev pub sum_savings : List Batch → ℤ
sum_savings [] = pos 0
sum_savings (batch ∷ rest) = savings batch.details +ℤ sum_savings rest

-- Every counter is the sum of what the batches count for.
abbrev pub SumsUp : List Batch → BatchTotals → Type 0
SumsUp added totals =
    ((n : Number) → number n totals ≡ amounts n added)
    × (totals.compression_savings_bytes ≡ sum_savings added)

number-add_to_totals :
    (n : Number) (batch : Batch) (totals : BatchTotals)
    → number n (add_to_totals batch totals) ≡ number n totals + amount n batch
unfolding add_to_totals add_numbers add_details bump
number-add_to_totals (Number.batches_of_codec codec) batch totals =
    ground (arith, get_or-add_to batch.codec codec 1 totals.codecs)
number-add_to_totals n batch totals = ground arith

add_to_totals-savings :
    (batch : Batch) (totals : BatchTotals)
    → (add_to_totals batch totals).compression_savings_bytes
      ≡ totals.compression_savings_bytes +ℤ savings batch.details
unfolding add_to_totals add_numbers add_details ◌+ℤ◌
add_to_totals-savings batch totals = ground arith

-- The totals before, and after some batches.
Grows : List Batch → BatchTotals → BatchTotals → Type 0
Grows added before after =
    ((n : Number) → number n after ≡ number n before + amounts n added)
    × (after.compression_savings_bytes ≡ before.compression_savings_bytes +ℤ sum_savings added)

Grows-refl : (totals : BatchTotals) → Grows [] totals totals
unfolding Grows
Grows-refl totals =
    let z = totals.compression_savings_bytes in
    (λ n. omega arith, eq_of_parts z (z +ℤ pos 0) (omega (arith, +ℤ_parts z (pos 0))))

Grows-step :
    (batch : Batch) (rest : List Batch) (before after : BatchTotals)
    → Grows rest (add_to_totals batch before) after
    → Grows (batch ∷ rest) before after
unfolding Grows
Grows-step batch rest before after h =
    let z = before.compression_savings_bytes in
    let s = savings batch.details in
    let r = sum_savings rest in
    (
      λ n. omega (arith, h.0 n, number-add_to_totals n batch before),
      h.1
          ∙ (ap (λ (x : ℤ). x +ℤ r) (add_to_totals-savings batch before)
              ∙ eq_of_parts ((z +ℤ s) +ℤ r) (z +ℤ (s +ℤ r)) (
                  omega
                    (arith, +ℤ_parts z s, +ℤ_parts (z +ℤ s) r, +ℤ_parts s r, +ℤ_parts z (s +ℤ r)))),
    )

values_of-Grows :
    (added : List Batch) (values : TopicBatches)
    → Grows added values.totals (values_of added values).totals
unfolding add_to_topic
values_of-Grows [] values = Grows-refl values.totals
values_of-Grows (batch ∷ rest) values =
    Grows-step batch rest values.totals _ (values_of-Grows rest (add_to_topic batch values))

values_of-wire_bytes :
    (added : List Batch) (values : TopicBatches)
    → (values_of added values).wire_bytes
      ≡ values.wire_bytes + amounts Number.batch_wire_bytes added
unfolding add_to_topic
values_of-wire_bytes [] values = omega arith
values_of-wire_bytes (batch ∷ rest) values =
    omega (arith, values_of-wire_bytes rest (add_to_topic batch values))

-- The batches of the capture, with a topic or without.
abbrev pub all_batches : List (Batch × Option String) → List Batch
all_batches [] = []
all_batches ((batch, topic) ∷ rest) = batch ∷ all_batches rest

add_batch_of-batch_totals :
    (batch : Batch) (topic : Option String) (s : CaptureBatches)
    → (add_batch_of batch topic s).batch_totals ≡ s.batch_totals
unfolding add_batch_of
add_batch_of-batch_totals batch none s = refl
add_batch_of-batch_totals batch (some topic) s = refl

add_batches-Grows :
    (events : List (Batch × Option String)) (s : CaptureBatches)
    → Grows (all_batches events) s.batch_totals (add_batches events s).batch_totals
unfolding add_batches add_batch
add_batches-Grows [] s = Grows-refl s.batch_totals
add_batches-Grows ((batch, topic) ∷ rest) s =
    let start = record s { batch_totals = add_to_totals batch s.batch_totals } in
    let h = add_batches-Grows rest (add_batch batch topic s) in
    Grows-step batch (all_batches rest) s.batch_totals _
      (rw (sym (add_batch_of-batch_totals batch (named topic) start)) h)

SumsUp-from :
    (added : List Batch) (totals : BatchTotals)
    → Grows added no_batches totals
    → SumsUp added totals
unfolding Grows get_or lookup
SumsUp-from added totals h =
    let r = sum_savings added in
    let zero_at : (n : Number) → number n no_batches ≡ 0 =
      λ n. elim n as (λ k. number k no_batches ≡ 0) [ batches_of_codec c ↦ refl | _ ↦ refl ] in
    (
      λ n. omega (arith, h.0 n, zero_at n),
      h.1 ∙ eq_of_parts (pos 0 +ℤ r) r (omega (arith, +ℤ_parts (pos 0) r)),
    )

-- Whatever batches are added, to no batches before: for each topic, each counter of its values, and
-- for the capture each counter of its totals (the batches, those of each codec and those that were
-- not decompressed, the records, the wire, header, compressed and uncompressed bytes, the parsed
-- records and their bytes of keys, values, headers and overhead, and the savings), is the sum of what
-- the fields of its batches say, a batch without details having none of those; the wire bytes of a
-- topic likewise. A batch with the empty name belongs to no topic.
pub add_batches-SumsUp :
    (topic : String) (events : List (Batch × Option String))
    → let after = add_batches events no_capture_batches in
      SumsUp (batches_for topic events) (values_in topic after).totals
      × ((values_in topic after).wire_bytes
          ≡ amounts Number.batch_wire_bytes (batches_for topic events))
      × SumsUp (all_batches events) after.batch_totals
unfolding lookup
add_batches-SumsUp topic events =
    let own = batches_for topic events in
    rw (values_in-add_batches topic events no_capture_batches) (
      SumsUp-from own _ (values_of-Grows own no_topic_batches),
      values_of-wire_bytes own no_topic_batches ∙ omega arith,
      SumsUp-from (all_batches events) _ (add_batches-Grows events no_capture_batches),
    )
