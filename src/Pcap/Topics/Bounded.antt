-- ===== src/Pcap/Topics/Bounded.antt =====
-- What the record sets of a capture can add to its totals.
use coroutines_kafka_consume.Prelude.{
  ℕ, ◌+◌, ◌*◌, ◌≤◌, ◌≡◌, refl, ap, ◌∙◌, Option, none, some, String, List, [], ◌∷◌, arith, length,
  sum_by,
}
use coroutines_kafka_consume.Pcap.Result.{Yields, Yields-bind, Yields-imp}
use coroutines_kafka_consume.Pcap.Bytes.{Bytes}
use coroutines_kafka_consume.Pcap.Compression.{Libraries}
use coroutines_kafka_consume.Pcap.Batches.{Batch}
use coroutines_kafka_consume.Pcap.Batches.Sound.{Covers, wire_bytes, find_record_batches-Covers}
use coroutines_kafka_consume.Pcap.Totals.{
  BatchTotals, CaptureBatches, no_capture_batches, named, add_to_totals, add_batch_of, add_batch,
}
use coroutines_kafka_consume.Pcap.Totals.Split.{add_to_totals-counts}
use coroutines_kafka_consume.Pcap.Topics.{RecordSets, add_found, add_record_sets}

abbrev pub set_bytes : RecordSets → ℕ
set_bytes = sum_by (λ (s : Option String × Bytes). length s.1)

-- What `n` batches of `w` wire bytes make of the totals.
Adds : ℕ → ℕ → CaptureBatches → CaptureBatches → Type 0
Adds n w s s' =
    (s'.batch_totals.batches ≡ s.batch_totals.batches + n)
    × (s'.batch_totals.batch_wire_bytes ≡ s.batch_totals.batch_wire_bytes + w)

add_batch_of-same :
    (batch : Batch) (topic : Option String) (s : CaptureBatches)
    → (add_batch_of batch topic s).batch_totals ≡ s.batch_totals
unfolding add_batch_of
add_batch_of-same batch none s = refl
add_batch_of-same batch (some topic) s = refl

add_batch-Adds :
    (batch : Batch) (topic : Option String) (s : CaptureBatches)
    → Adds 1 batch.batch_wire_bytes s (add_batch batch topic s)
unfolding Adds add_batch
add_batch-Adds batch topic s =
    let added = record s { batch_totals = add_to_totals batch s.batch_totals } in
    let same = add_batch_of-same batch (named topic) added in
    let c = add_to_totals-counts batch s.batch_totals in
    (
      ap (λ (t : BatchTotals). t.batches) same ∙ c.0,
      ap (λ (t : BatchTotals). t.batch_wire_bytes) same ∙ c.2,
    )

add_found-Adds :
    (batches : List Batch) (topic : Option String) (s : CaptureBatches)
    → Adds (length batches) (wire_bytes batches) s (add_found batches topic s)
unfolding Adds add_found
add_found-Adds [] topic s = (omega arith, omega arith)
add_found-Adds (batch ∷ batches) topic s =
    let (n, w) = add_found-Adds batches topic (add_batch batch topic s) in
    let (n', w') = add_batch-Adds batch topic s in (omega (arith, n, n'), omega (arith, w, w'))

-- What is left for the totals after some record sets.
Within : RecordSets → CaptureBatches → CaptureBatches → Type 0
Within sets s s' =
    (45 * s'.batch_totals.batches ≤ 45 * s.batch_totals.batches + set_bytes sets)
    × (s'.batch_totals.batch_wire_bytes + 16 * s.batch_totals.batches
        ≤ s.batch_totals.batch_wire_bytes + set_bytes sets + 16 * s'.batch_totals.batches)

module _ (libraries : Libraries) where
  add_record_sets-Within :
      (sets : RecordSets) (s : CaptureBatches)
      → Yields (Within sets s) (add_record_sets libraries sets s)
  unfolding Within add_record_sets Adds
  add_record_sets-Within [] s = (omega arith, omega arith)
  add_record_sets-Within ((topic, records) ∷ sets) s =
      Yields-bind (Covers records) _ _ _ (find_record_batches-Covers libraries records)
        (λ (batches : List Batch) c.
          let a = add_found-Adds batches topic s in
          Yields-imp (Within sets (add_found batches topic s)) _ _
            (add_record_sets-Within sets (add_found batches topic s))
            (λ s' w. (omega (arith, c.2, a.0, w.0), omega (arith, c.1, a.0, a.1, w.1))))

-- Whatever record sets are added, to no batches before, and whatever the compression libraries do:
-- the addition returns, with one batch for 45 bytes of the sets at most, and with wire bytes that
-- exceed the bytes of the sets by at most 16 for each batch.
pub add_record_sets-le :
    (libraries : Libraries) (sets : RecordSets)
    → Yields
        (λ (s : CaptureBatches).
          (45 * s.batch_totals.batches ≤ set_bytes sets)
          × (s.batch_totals.batch_wire_bytes ≤ set_bytes sets + 16 * s.batch_totals.batches))
        (add_record_sets libraries sets no_capture_batches)
unfolding Within
add_record_sets-le libraries sets =
    Yields-imp (Within sets no_capture_batches) _ _
      (add_record_sets-Within libraries sets no_capture_batches)
      (λ s w. (omega (arith, w.0), omega (arith, w.1)))
