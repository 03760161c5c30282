-- ===== src/Pcap/Totals/Split.antt =====
-- The totals of a topic are those of its batches, and the topics split the totals of the capture.
use coroutines_kafka_consume.Prelude.{
  ℕ, ◌+◌, ◌≡◌, refl, sym, ap, ◌∙◌, Bool, true, false, not, ◌&&◌, Option, none, some, String, List,
  [], ◌∷◌, arith, ◌==◌, string_eq, nat_eq, if◌then◌else◌, if_ind,
}
use coroutines_kafka_consume.Dict.{Dict, lookup, lookup-insert}
use coroutines_kafka_consume.Dict.Counts.{total, total-bump}
use coroutines_kafka_consume.Dict.Unique.{sum_values, measure, sum_values-insert}
use coroutines_kafka_consume.Pcap.Batches.{Batch, Details}
use coroutines_kafka_consume.Pcap.Totals.{
  BatchTotals, TopicBatches, no_topic_batches, CaptureBatches, no_capture_batches, add_details,
  add_numbers, add_to_totals, add_to_topic, or_new, named, add_batch_of, add_batch, add_batches,
  is_unavailable,
}

abbrev pub is_for : String → Option String → Bool
is_for topic none = false
is_for topic (some other) = other == topic

-- The batches of a topic, in their order; the empty name is no topic.
abbrev pub belongs : String → Option String → Bool
belongs topic none = false
belongs topic (some other) = other == topic && not (other == "")

abbrev pub batches_for : String → List (Batch × Option String) → List Batch
batches_for topic [] = []
batches_for topic ((batch, t) ∷ rest) =
    if belongs topic t then batch ∷ batches_for topic rest else batches_for topic rest

is_for-named : (topic : String) (t : Option String) → is_for topic (named t) ≡ belongs topic t
is_for-named topic none = refl
is_for-named topic (some other) = ground arith

-- The values that a topic has if it has some batches only.
abbrev pub values_of : List Batch → TopicBatches → TopicBatches
values_of [] values = values
values_of (batch ∷ batches) values = values_of batches (add_to_topic batch values)

abbrev pub values_in : String → CaptureBatches → TopicBatches
values_in topic s = or_new (lookup topic s.topic_batches)

values_in-add_batch_of :
    (topic : String) (batch : Batch) (t : Option String) (s : CaptureBatches)
    → values_in topic (add_batch_of batch t s)
      ≡ (if is_for topic t then add_to_topic batch (values_in topic s) else values_in topic s)
unfolding add_batch_of
values_in-add_batch_of topic batch none s = refl
values_in-add_batch_of topic batch (some t) s =
    let values = add_to_topic batch (values_in t s) in
    rw (lookup-insert t topic values s.topic_batches) (ground (arith, string_eq.equal_iff t topic))

values_of-if :
    (wanted : Bool) (batch : Batch) (rest : List Batch) (values : TopicBatches)
    → values_of rest (if wanted then add_to_topic batch values else values)
      ≡ values_of (if wanted then batch ∷ rest else rest) values
values_of-if true batch rest values = refl
values_of-if false batch rest values = refl

pub values_in-add_batches :
    (topic : String) (events : List (Batch × Option String)) (s : CaptureBatches)
    → values_in topic (add_batches events s)
      ≡ values_of (batches_for topic events) (values_in topic s)
unfolding add_batches add_batch
values_in-add_batches topic [] s = refl
values_in-add_batches topic ((batch, t) ∷ rest) s =
    let start = record s { batch_totals = add_to_totals batch s.batch_totals } in
    let step =
      values_in-add_batch_of topic batch (named t) start
      ∙ ap (λ (b : Bool). if b then add_to_topic batch (values_in topic s) else values_in topic s)
          (is_for-named topic t) in
    values_in-add_batches topic rest (add_batch batch t s)
    ∙ (ap (values_of (batches_for topic rest)) step
        ∙ values_of-if (belongs topic t) batch (batches_for topic rest) (values_in topic s))

details-same :
    (d : Option Details) (totals : BatchTotals)
    → ((add_details d totals).batches ≡ totals.batches)
      × ((add_details d totals).codecs ≡ totals.codecs)
      × ((add_details d totals).batch_wire_bytes ≡ totals.batch_wire_bytes)
unfolding add_details
details-same none totals = (refl, refl, refl)
details-same (some d) totals = (refl, refl, refl)

-- A step counts one batch under its codec, with its wire bytes.
pub add_to_totals-counts :
    (batch : Batch) (totals : BatchTotals)
    → ((add_to_totals batch totals).batches ≡ totals.batches + 1)
      × (total (add_to_totals batch totals).codecs ≡ total totals.codecs + 1)
      × ((add_to_totals batch totals).batch_wire_bytes
          ≡ totals.batch_wire_bytes + batch.batch_wire_bytes)
unfolding add_to_totals add_numbers
add_to_totals-counts batch totals =
    let start = record totals {
      records = totals.records + batch.records;
      batch_wire_bytes = totals.batch_wire_bytes + batch.batch_wire_bytes;
      batch_header_bytes = totals.batch_header_bytes + batch.batch_header_bytes;
      compressed_record_bytes = totals.compressed_record_bytes + batch.compressed_record_bytes;
    } in
    let same = details-same batch.details start in
    let batches = ap (λ (n : ℕ). n + 1) same.0 in
    let codecs =
      total-bump batch.codec (add_numbers batch totals).codecs
      ∙ ap (λ (d : Dict ℕ ℕ). total d + 1) same.1 in
    if_ind
      (λ (t : BatchTotals).
        (t.batches ≡ totals.batches + 1)
        × (total t.codecs ≡ total totals.codecs + 1)
        × (t.batch_wire_bytes ≡ totals.batch_wire_bytes + batch.batch_wire_bytes))
      (is_unavailable batch.status) (batches, codecs, same.2) (batches, codecs, same.2)

-- The wire bytes of the batches without a topic.
abbrev pub unnamed_bytes : Batch → Option String → ℕ
unnamed_bytes batch none = batch.batch_wire_bytes
unnamed_bytes batch (some topic) = 0

abbrev pub unnamed_wire_bytes : List (Batch × Option String) → ℕ
unnamed_wire_bytes [] = 0
unnamed_wire_bytes ((batch, t) ∷ rest) = unnamed_bytes batch (named t) + unnamed_wire_bytes rest

abbrev pub topics_batches : CaptureBatches → ℕ
topics_batches s = sum_values (λ (v : TopicBatches). v.totals.batches) s.topic_batches

abbrev pub topics_wire_bytes : CaptureBatches → ℕ
topics_wire_bytes s = sum_values (λ (v : TopicBatches). v.wire_bytes) s.topic_batches

-- `unnamed` are the wire bytes of the batches without a topic.
abbrev pub IsSplit : ℕ → CaptureBatches → Type 0
IsSplit unnamed s =
    (s.batch_totals.batches ≡ topics_batches s + s.unknown_topic_batches)
    × (s.batch_totals.batches ≡ total s.batch_totals.codecs)
    × (s.batch_totals.batch_wire_bytes ≡ topics_wire_bytes s + unnamed)

measure-or_new :
    (f : TopicBatches → ℕ) (o : Option TopicBatches)
    → f no_topic_batches ≡ 0
    → measure f o ≡ f (or_new o)
measure-or_new f none z = sym z
measure-or_new f (some v) z = refl

add_batch-IsSplit :
    (unnamed : ℕ) (batch : Batch) (t : Option String) (s : CaptureBatches)
    → IsSplit unnamed s
    → IsSplit
        (unnamed + unnamed_bytes batch t)
        (add_batch_of batch t (record s { batch_totals = add_to_totals batch s.batch_totals }))
unfolding add_batch_of add_to_topic
add_batch-IsSplit unnamed batch none s h =
    let c = add_to_totals-counts batch s.batch_totals in
    (omega (arith, c.0, h.0), omega (arith, c.0, c.1, h.1), omega (arith, c.2, h.2))
add_batch-IsSplit unnamed batch (some t) s h =
    let c = add_to_totals-counts batch s.batch_totals in
    let old = lookup t s.topic_batches in
    let values = add_to_topic batch (or_new old) in
    let d = add_to_totals-counts batch (or_new old).totals in
    let counted = λ (v : TopicBatches). v.totals.batches in
    let wired = λ (v : TopicBatches). v.wire_bytes in
    (
      omega (
        arith,
        c.0,
        d.0,
        h.0,
        sum_values-insert counted t values s.topic_batches,
        measure-or_new counted old refl,
      ),
      omega (arith, c.0, c.1, h.1),
      omega (
        arith,
        c.2,
        h.2,
        sum_values-insert wired t values s.topic_batches,
        measure-or_new wired old refl,
      ),
    )

add_batches-keeps :
    (events : List (Batch × Option String)) (unnamed : ℕ) (s : CaptureBatches)
    → IsSplit unnamed s
    → IsSplit (unnamed + unnamed_wire_bytes events) (add_batches events s)
unfolding add_batches add_batch
add_batches-keeps [] unnamed s h = (h.0, h.1, omega (arith, h.2))
add_batches-keeps ((batch, t) ∷ rest) unnamed s h =
    let more =
      add_batches-keeps rest (unnamed + unnamed_bytes batch (named t)) (add_batch batch t s)
        (add_batch-IsSplit unnamed batch (named t) s h) in
    (more.0, more.1, omega (arith, more.2))

-- Whatever batches are added, to no batches before: the batches of all topics and those without a
-- topic are together the batches of the capture, of which each has one codec; and the wire bytes of
-- all topics and of the batches without a topic are together its wire bytes.
pub add_batches-IsSplit :
    (events : List (Batch × Option String))
    → IsSplit (unnamed_wire_bytes events) (add_batches events no_capture_batches)
add_batches-IsSplit events =
    let h = add_batches-keeps events 0 no_capture_batches (refl, refl, refl) in
    (h.0, h.1, omega (arith, h.2))
