-- ===== src/Audit/Order.antt =====
-- `ProcessingOrderStats` of demo/infra/shared/audit/analyze-audit.py: the order of the processed
-- offsets within a partition and within a message key.
pub mod Exact
use coroutines_kafka_consume.Prelude.{
  ℕ, ◌+◌, ◌≡◌, Bool, true, false, ◌||◌, Option, none, some, String, List, [], ◌∷◌, ◌++◌, HasEq,
  ◌==◌, string_eq, pair_eq, if◌then◌else◌,
}
use coroutines_kafka_consume.Prelude.Int.{ℤ, int_eq, ltb_ℤ}
use coroutines_kafka_consume.Dict.{Dict, lookup, insert, erase}
use coroutines_kafka_consume.Audit.Record.{AuditRecord, RecordType}

pub record LastOffsetState : Type 0 where
  pub offset : ℤ
  pub updated_ms : ℤ

abbrev pub PartitionGroup : Type 0
PartitionGroup = ℤ × ℤ

abbrev pub KeyGroup : Type 0
KeyGroup = ℤ × (ℤ × String)

pub record ProcessingOrderStats : Type 0 where
  pub out_of_order : ℕ
  pub out_of_order_processed : ℕ
  pub out_of_order_failed : ℕ
  pub last_offset_by_partition : Dict PartitionGroup LastOffsetState
  pub last_offset_by_key : Dict KeyGroup LastOffsetState
  pub key_expiry_queue : List (ℤ × KeyGroup)

abbrev pub new_stats : ProcessingOrderStats
new_stats = record {
  out_of_order = 0;
  out_of_order_processed = 0;
  out_of_order_failed = 0;
  last_offset_by_partition = [];
  last_offset_by_key = [];
  key_expiry_queue = [];
}

abbrev pub partition_group : AuditRecord → PartitionGroup
partition_group r = (r.key.topic_id, r.key.partition)

abbrev pub key_group : AuditRecord → KeyGroup
key_group r = (r.key.topic_id, (r.key.partition, r.message_key))

-- last is not None and record.key.offset < last.offset
abbrev is_late : ℤ → Option LastOffsetState → Bool
is_late offset none = false
is_late offset (some last) = ltb_ℤ offset last.offset

unfoldable pub count_late : RecordType → ProcessingOrderStats → ProcessingOrderStats
count_late RecordType.complete s = record s {
  out_of_order = s.out_of_order + 1;
  out_of_order_processed = s.out_of_order_processed + 1;
}
count_late RecordType.fail s = record s {
  out_of_order = s.out_of_order + 1;
  out_of_order_failed = s.out_of_order_failed + 1;
}
count_late _ s = record s { out_of_order = s.out_of_order + 1 }

-- The state of the group after a record that is not late: a new object if the offset is greater,
-- the old one with a new time if it is the same.
abbrev next_state : AuditRecord → Option LastOffsetState → LastOffsetState
next_state r none = record { offset = r.key.offset; updated_ms = r.audit_timestamp_ms }
next_state r (some last) =
    if ltb_ℤ last.offset r.key.offset
    then record { offset = r.key.offset; updated_ms = r.audit_timestamp_ms }
    else record last { updated_ms = r.audit_timestamp_ms }

-- state is not None and state.updated_ms == updated_ms
abbrev is_current : ℤ → Option LastOffsetState → Bool
is_current updated_ms none = false
is_current updated_ms (some state) = state.updated_ms == updated_ms

module _ {ℓ} {G : Type ℓ} ⦃e : HasEq G⦄ where
  -- `_add`: the statistics, the dictionary and the expiry queue that it is given come back changed.
  unfoldable pub add_in :
      AuditRecord
      → G
      → Bool
      → ProcessingOrderStats
      → Dict G LastOffsetState
      → List (ℤ × G)
      → ProcessingOrderStats × Dict G LastOffsetState × List (ℤ × G)
  unfolding count_late lookup insert
  add_in r group track_expiry s last_offsets queue =
      let last = lookup group last_offsets in
      if is_late r.key.offset last then (count_late r.record_type s, last_offsets, queue) else (
        s,
        insert group (next_state r last) last_offsets,
        (if track_expiry then queue ++ ((r.audit_timestamp_ms, group) ∷ []) else queue),
      )

  -- The loop of `_evict_key_order`, over the queue.
  unfoldable pub evict_queue :
      ℤ → List (ℤ × G) → Dict G LastOffsetState → Dict G LastOffsetState × List (ℤ × G)
  unfolding lookup erase
  evict_queue cutoff_ms [] d = (d, [])
  evict_queue cutoff_ms ((updated_ms, group) ∷ queue) d =
      let rest =
        evict_queue cutoff_ms queue
          (if is_current updated_ms (lookup group d) then erase group d else d) in
      if ltb_ℤ updated_ms cutoff_ms then rest else (d, (updated_ms, group) ∷ queue)

unfoldable pub add_partition_order : AuditRecord → ProcessingOrderStats → ProcessingOrderStats
unfolding add_in
add_partition_order r s =
    let (s', d, _) = add_in r (partition_group r) false s s.last_offset_by_partition [] in
    record s' { last_offset_by_partition = d }

unfoldable pub add_key_order : AuditRecord → ProcessingOrderStats → ProcessingOrderStats
unfolding add_in
add_key_order r s =
    let (s', d, queue) = add_in r (key_group r) true s s.last_offset_by_key s.key_expiry_queue in
    record s' { last_offset_by_key = d; key_expiry_queue = queue }

-- Partition state is kept.
unfoldable pub evict_before : ℤ → ProcessingOrderStats → ProcessingOrderStats
unfolding evict_queue
evict_before cutoff_ms s =
    let (d, queue) = evict_queue cutoff_ms s.key_expiry_queue s.last_offset_by_key in
    record s { last_offset_by_key = d; key_expiry_queue = queue }
