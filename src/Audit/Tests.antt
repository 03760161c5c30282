-- ===== src/Audit/Tests.antt =====
-- Small inputs: what the definitions compute on them, and the theorems at them.
mod Streams
mod Lines
use Prim.Native.Nat.{bit_and, bit_or}
use coroutines_kafka_consume.Prelude.{
  ℕ, ◌+◌, pair_eq, nat_eq, string_eq, ◌≡◌, refl, true, false, not, none, some, String, List, [],
  ◌∷◌, nat_beq, count_if, length, sum_by, arith,
}
use coroutines_kafka_consume.Prelude.Int.{ℤ, int_eq, pos, negsuc}
use coroutines_kafka_consume.Dict.{lookup}
use coroutines_kafka_consume.Audit.Record.{RecordKey, key_eq, AuditRecord, RecordType}
use coroutines_kafka_consume.Audit.Flags.{
  Flag, Flags, to_byte, mask, add, has, has_terminal, flag_bytes,
}
use coroutines_kafka_consume.Audit.Offsets
use coroutines_kafka_consume.Audit.Late.{lates}
use coroutines_kafka_consume.Audit.Order.{
  KeyGroup, new_stats, partition_group, key_group, add_partition_order, add_key_order,
}
use coroutines_kafka_consume.Audit.Order.Exact.{
  Counter, counter, counts, offset_of, feed, partition_order-eq-lates, key_order-eq-lates,
}
use coroutines_kafka_consume.Audit.Age.Bounds.{add_ages, itself, IsMin, IsMax, add_ages-IsMin-IsMax}
use coroutines_kafka_consume.Audit.Fairness.{new_fairness}
use coroutines_kafka_consume.Audit.Fairness.Conserved.{
  Sum, sum_of, summed, is_type, add_terminals, sum_of-add_terminals,
}
use coroutines_kafka_consume.Audit.Spool.{ExactKeyOrderSpool, header_fits, to_entry}
use coroutines_kafka_consume.Audit.Spool.Exact.{Bound}
use coroutines_kafka_consume.Audit.Spool.Sharding.{
  entries_of, Event, Fits, CountsLate, spool-CountsLate,
}
use coroutines_kafka_consume.Audit.Stats.{AuditStats, ClosedRecordState, new_audit}
use coroutines_kafka_consume.Audit.Stats.Closed.{add_terminal_to_closed}
use coroutines_kafka_consume.Audit.Stats.Evict.{evict_expired}
use coroutines_kafka_consume.Audit.Stats.Evict.Stale.{NotQueued, reseen-stays}
use coroutines_kafka_consume.Audit.Stats.Reconcile.Stream.{Reconciled, finish-Reconciled}
use coroutines_kafka_consume.Audit.Stats.Run.{add_records, finish}
use coroutines_kafka_consume.Audit.Stats.Frame.{counts as counts_of}
use coroutines_kafka_consume.Audit.Stats.Tally.Outcomes.{Kind, kept}
use coroutines_kafka_consume.Audit.Stats.Tally.{of_kind, tally-add_records}

abbrev pub key_at : ℤ → ℕ → RecordKey
key_at partition offset = record { topic_id = pos 3; partition = partition; offset = pos offset }

abbrev event : RecordType → RecordKey → ℕ → String → AuditRecord
event t key ms message_key = record {
  record_type = t;
  key = key;
  audit_timestamp_ms = pos ms;
  message_key = message_key;
  kafka_timestamp_ms = some (pos 1);
  drop_reason = none;
  handoff_reason = none;
}

-- Offset 7 is processed after offset 8 of its partition and message key, 6 fails after both, and 5
-- is of another key.
abbrev overtaken : List AuditRecord
overtaken =
    event RecordType.complete (key_at (pos 0) 8) 10 "a"
    ∷ event RecordType.complete (key_at (pos 0) 7) 11 "a"
    ∷ event RecordType.fail (key_at (pos 0) 6) 12 "a"
    ∷ event RecordType.complete (key_at (pos 0) 5) 13 "b"
    ∷ []

-- A record is published, processed twice and dropped; another is processed before it is published;
-- a third has no valid place.
abbrev pub stream : List AuditRecord
stream =
    event RecordType.publish (key_at (pos 0) 8) 10 "a"
    ∷ event RecordType.complete (key_at (pos 0) 8) 20 "a"
    ∷ event RecordType.complete (key_at (pos 0) 8) 21 "a"
    ∷ event RecordType.drop (key_at (pos 0) 8) 22 "a"
    ∷ event RecordType.complete (key_at (pos 0) 9) 23 "b"
    ∷ event RecordType.publish (key_at (pos 0) 9) 24 "b"
    ∷ event RecordType.publish (key_at (negsuc 0) 9) 25 "c"
    ∷ []

abbrev exact : AuditStats
exact = new_audit none none [] none false

abbrev processed_and_handed_off : Flags
processed_and_handed_off = record {
  published = true;
  processed = true;
  failed = false;
  dropped = false;
  lifecycle_dropped = false;
  handed_off = true;
}

flag_bytes_example :
    (bit_or (to_byte processed_and_handed_off) (mask Flag.dropped_flag)
      ≡ to_byte (add Flag.dropped_flag processed_and_handed_off))
    × (not (nat_beq (bit_and (to_byte processed_and_handed_off) (mask Flag.dropped_flag)) 0)
        ≡ has Flag.dropped_flag processed_and_handed_off)
    × (not (nat_beq (bit_and (to_byte processed_and_handed_off) 14) 0)
        ≡ has_terminal processed_and_handed_off)
flag_bytes_example = flag_bytes Flag.dropped_flag processed_and_handed_off

-- Two offsets of one page.
get-set_example :
    Offsets.get
      (Offsets.set (Offsets.set Offsets.empty (key_at (pos 0) 8) 3) (key_at (pos 0) 9) 35)
      (key_at (pos 0) 8)
    ≡ Offsets.get (Offsets.set Offsets.empty (key_at (pos 0) 8) 3) (key_at (pos 0) 8)
get-set_example =
    Offsets.get-set (Offsets.set Offsets.empty (key_at (pos 0) 8) 3) (key_at (pos 0) 9)
      (key_at (pos 0) 8) 35

partition_order-eq-lates_example :
    counter Counter.all (feed add_partition_order overtaken new_stats)
    ≡ lates partition_group offset_of (counts Counter.all) [] overtaken
partition_order-eq-lates_example = partition_order-eq-lates Counter.all overtaken

key_order-eq-lates_example :
    counter Counter.failed (feed add_key_order overtaken new_stats)
    ≡ lates key_group offset_of (counts Counter.failed) [] overtaken
key_order-eq-lates_example = key_order-eq-lates Counter.failed overtaken

partition_late : counter Counter.all (feed add_partition_order overtaken new_stats) ≡ 3
unfolding feed add_partition_order
partition_late = refl

key_late : counter Counter.all (feed add_key_order overtaken new_stats) ≡ 2
unfolding feed add_key_order
key_late = refl

abbrev two_files : ExactKeyOrderSpool
two_files = record {
  shard_count = 2;
  files = [];
  targets = ((0, pos 3), new_stats) ∷ [];
  next_scope_id = 1;
  finished = false;
}

abbrev in_scope : List AuditRecord → List Event
in_scope [] = []
in_scope (r ∷ rs) = (0, r) ∷ in_scope rs

overtaken-Fits : Fits (in_scope overtaken)
unfolding header_fits
overtaken-Fits = (refl, (refl, (refl, (refl, tt))))

-- All offsets in one of the two files.
abbrev one_shard : KeyGroup → ℤ
one_shard group = pos 1

overtaken-Bound : Bound (entries_of (in_scope overtaken)) two_files.targets
unfolding lookup to_entry
overtaken-Bound = (refl, (refl, (refl, (refl, tt))))

spool-CountsLate_example :
    (result : ExactKeyOrderSpool) × CountsLate one_shard (in_scope overtaken) two_files result
spool-CountsLate_example =
    spool-CountsLate one_shard (in_scope overtaken) two_files (omega arith) refl refl overtaken-Fits
      overtaken-Bound

tally-add_records_example :
    kept Kind.processed (counts_of (add_records stream exact))
    ≡ kept Kind.processed (counts_of exact) + count_if (of_kind Kind.processed) stream
tally-add_records_example = tally-add_records Kind.processed stream exact

finish-Reconciled_example :
    (result : AuditStats) × (finish (add_records stream exact) ≡ some result)
    × (result.open_by_key ≡ [])
    × Reconciled result
finish-Reconciled_example = finish-Reconciled none none [] none false stream

abbrev closed_at_20 : ClosedRecordState
closed_at_20 = record {
  closed_ms = pos 20;
  processed_seen = true;
  failed_seen = false;
  dropped_seen = false;
  lifecycle_dropped_seen = false;
  handed_off_seen = false;
}

abbrev again : AuditRecord
again = event RecordType.complete (key_at (pos 0) 8) 50 "a"

-- With a TTL: one record was published and processed, and so closed with an expiry entry for 20.
abbrev bounded : AuditStats
bounded = record (new_audit (some 100) none [] none false) {
  recent_closed_by_key = (key_at (pos 0) 8, closed_at_20) ∷ [];
  recent_closed_expiry_queue = (pos 20, key_at (pos 0) 8) ∷ [];
}

bounded-NotQueued : NotQueued (pos 50) (key_at (pos 0) 8) bounded.recent_closed_expiry_queue
bounded-NotQueued = (refl, tt)

reseen-stays_example :
    (state : ClosedRecordState) × (lookup
        (key_at (pos 0) 8)
        (evict_expired
          (pos 1000000)
          (add_terminal_to_closed again closed_at_20 bounded)).recent_closed_by_key
      ≡ some state)
    × (state.closed_ms ≡ pos 50)
reseen-stays_example = reseen-stays (pos 1000000) again closed_at_20 bounded bounded-NotQueued

-- Two drops of a key before it is processed, and one after.
abbrev gaps : List AuditRecord
gaps =
    event RecordType.drop (key_at (pos 0) 1) 10 "a"
    ∷ event RecordType.drop (key_at (pos 0) 2) 11 "a"
    ∷ event RecordType.complete (key_at (pos 0) 3) 12 "a"
    ∷ event RecordType.drop (key_at (pos 0) 4) 13 "a"
    ∷ []

sum_of-add_terminals_example :
    sum_of Sum.drops (add_terminals gaps new_fairness) ≡ count_if (is_type (summed Sum.drops)) gaps
sum_of-add_terminals_example = sum_of-add_terminals Sum.drops gaps

abbrev ages : List ℕ
ages = 7 ∷ 3 ∷ 12 ∷ []

add_ages-IsMin-IsMax_example :
    ((add_ages ages).count ≡ length ages)
    × ((add_ages ages).total_ms ≡ sum_by itself ages)
    × IsMin (add_ages ages).min_ms ages
    × IsMax (add_ages ages).max_ms ages
add_ages-IsMin-IsMax_example = add_ages-IsMin-IsMax ages
