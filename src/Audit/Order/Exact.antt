-- ===== src/Audit/Order/Exact.antt =====
-- Without eviction, the order checks of `ProcessingOrderStats` count exactly the records that some
-- earlier record of their group overtook.
use coroutines_kafka_consume.Prelude.{
  ℕ, ◌+◌, ◌≡◌, refl, Bool, true, false, ◌&&◌, Option, none, some, List, [], ◌∷◌, arith, HasEq, ◌==◌,
  string_eq, pair_eq, if◌then◌else◌,
}
use coroutines_kafka_consume.Prelude.Int.{ℤ, int_eq}
use coroutines_kafka_consume.Dict.{Dict, lookup, lookup-insert}
use coroutines_kafka_consume.Audit.Record.{AuditRecord, RecordType}
use coroutines_kafka_consume.Audit.Late.{
  to_number, lates, above, advance, Tracks, Tracks-nil, Tracks-cons,
}
use coroutines_kafka_consume.Audit.Order.{
  LastOffsetState, ProcessingOrderStats, new_stats, PartitionGroup, KeyGroup, partition_group,
  key_group, next_state, count_late, add_in, add_partition_order, add_key_order,
}

-- The three counters, and the records that each is about.
pub data Counter : Type 0 where
  all processed failed : Counter

abbrev pub counter : Counter → ProcessingOrderStats → ℕ
counter Counter.all s = s.out_of_order
counter Counter.processed s = s.out_of_order_processed
counter Counter.failed s = s.out_of_order_failed

abbrev type_counts : Counter → RecordType → Bool
type_counts Counter.all _ = true
type_counts Counter.processed RecordType.complete = true
type_counts Counter.processed _ = false
type_counts Counter.failed RecordType.fail = true
type_counts Counter.failed _ = false

abbrev pub counts : Counter → AuditRecord → Bool
counts c r = type_counts c r.record_type

abbrev pub offset_of : AuditRecord → ℤ
offset_of r = r.key.offset

abbrev last_offset : Option LastOffsetState → Option ℤ
last_offset none = none
last_offset (some state) = some state.offset

-- Feeds the records to one of the two checks, in turn.
unfoldable pub feed :
    (AuditRecord → ProcessingOrderStats → ProcessingOrderStats)
    → List AuditRecord
    → ProcessingOrderStats
    → ProcessingOrderStats
feed add [] s = s
feed add (r ∷ rs) s = feed add rs (add r s)

counter-count_late :
    (c : Counter) (t : RecordType) (s : ProcessingOrderStats)
    → counter c (count_late t s) ≡ counter c s + to_number (type_counts c t)
unfolding count_late
counter-count_late Counter.all t s = ground arith
counter-count_late Counter.processed t s = ground arith
counter-count_late Counter.failed t s = ground arith

module _ {ℓ} {G : Type ℓ} ⦃e : HasEq G⦄ (r : AuditRecord) (group : G) (expire : Bool)
    (s : ProcessingOrderStats) (d : Dict G LastOffsetState) (queue : List (ℤ × G)) where
  counter-add_in :
      (c : Counter)
      → counter c (add_in r group expire s d queue).0
        ≡ counter c s + to_number (counts c r && above r.key.offset (last_offset (lookup group d)))
  unfolding add_in
  counter-add_in c = ground (arith, counter-count_late c r.record_type s)

  lookup-add_in :
      (g : G)
      → last_offset (lookup g (add_in r group expire s d queue).1) ≡ (
          if group == g
          then advance r.key.offset (last_offset (lookup group d))
          else last_offset (lookup g d))
  unfolding add_in
  lookup-add_in g =
      ground (arith, lookup-insert group g (next_state r (lookup group d)) d, e.equal_iff group g)

-- What a check has to do at each record, to count the late ones exactly.
module _ {ℓ} {G : Type ℓ} ⦃e : HasEq G⦄ (group : AuditRecord → G)
    (add : AuditRecord → ProcessingOrderStats → ProcessingOrderStats)
    (last : ProcessingOrderStats → G → Option ℤ) (c : Counter)
    (counted : (r : AuditRecord) (s : ProcessingOrderStats)
      → counter c (add r s)
        ≡ counter c s + to_number (counts c r && above (offset_of r) (last s (group r))))
    (tracked : (r : AuditRecord) (s : ProcessingOrderStats) (g : G)
      → last (add r s) g
        ≡ (if group r == g then advance (offset_of r) (last s (group r)) else last s g)) where
  counter-feed :
      (rs earlier : List AuditRecord) (s : ProcessingOrderStats)
      → Tracks group offset_of (last s) earlier
      → counter c (feed add rs s) ≡ counter c s + lates group offset_of (counts c) earlier rs
  unfolding feed lates
  counter-feed [] earlier s t = omega arith
  counter-feed (r ∷ rs) earlier s t = ground (
    arith,
    counted r s,
    t (group r) (offset_of r),
    counter-feed rs (r ∷ earlier) (add r s)
        (Tracks-cons group offset_of (last s) (last (add r s)) r earlier t (tracked r s)),
  )

abbrev partition_last : ProcessingOrderStats → PartitionGroup → Option ℤ
partition_last s g = last_offset (lookup g s.last_offset_by_partition)

abbrev key_last : ProcessingOrderStats → KeyGroup → Option ℤ
key_last s g = last_offset (lookup g s.last_offset_by_key)

module _ (r : AuditRecord) (s : ProcessingOrderStats) where
  counter-add_partition_order :
      (c : Counter)
      → counter c (add_partition_order r s)
        ≡ counter c s
          + to_number (counts c r && above (offset_of r) (partition_last s (partition_group r)))
  unfolding add_partition_order
  counter-add_partition_order Counter.all =
      counter-add_in r (partition_group r) false s s.last_offset_by_partition [] Counter.all
  counter-add_partition_order Counter.processed =
      counter-add_in r (partition_group r) false s s.last_offset_by_partition [] Counter.processed
  counter-add_partition_order Counter.failed =
      counter-add_in r (partition_group r) false s s.last_offset_by_partition [] Counter.failed

  counter-add_key_order :
      (c : Counter)
      → counter c (add_key_order r s)
        ≡ counter c s + to_number (counts c r && above (offset_of r) (key_last s (key_group r)))
  unfolding add_key_order
  counter-add_key_order Counter.all =
      counter-add_in r (key_group r) true s s.last_offset_by_key s.key_expiry_queue Counter.all
  counter-add_key_order Counter.processed =
      counter-add_in r (key_group r) true s s.last_offset_by_key s.key_expiry_queue
        Counter.processed
  counter-add_key_order Counter.failed =
      counter-add_in r (key_group r) true s s.last_offset_by_key s.key_expiry_queue Counter.failed

abbrev start_zero : (c : Counter) → counter c new_stats ≡ 0
start_zero Counter.all = refl
start_zero Counter.processed = refl
start_zero Counter.failed = refl

-- Over any records, each of the three counters of the partition check is the number of records of
-- its kind (all, "C", "F") for which an earlier record of the same topic and partition has a
-- greater offset.
pub partition_order-eq-lates :
    (c : Counter) (rs : List AuditRecord)
    → counter c (feed add_partition_order rs new_stats)
      ≡ lates partition_group offset_of (counts c) [] rs
unfolding add_partition_order
partition_order-eq-lates c rs = omega (
  arith,
  start_zero c,
  counter-feed partition_group add_partition_order partition_last c
      (λ r s. counter-add_partition_order r s c)
      (λ r s g. lookup-add_in r (partition_group r) false s s.last_offset_by_partition [] g) rs []
      new_stats
      (Tracks-nil partition_group offset_of (partition_last new_stats)
        (λ g. unfold lookup in refl)),
)

-- Over any records, each of the three counters of the key check is the number of records of its
-- kind (all, "C", "F") for which an earlier record of the same topic, partition and message key has
-- a greater offset, as long as nothing is evicted.
pub key_order-eq-lates :
    (c : Counter) (rs : List AuditRecord)
    → counter c (feed add_key_order rs new_stats) ≡ lates key_group offset_of (counts c) [] rs
unfolding add_key_order
key_order-eq-lates c rs = omega (
  arith,
  start_zero c,
  counter-feed key_group add_key_order key_last c (λ r s. counter-add_key_order r s c)
      (λ r s g. lookup-add_in r (key_group r) true s s.last_offset_by_key s.key_expiry_queue g) rs
      [] new_stats
      (Tracks-nil key_group offset_of (key_last new_stats) (λ g. unfold lookup in refl)),
)
