-- ===== src/Audit/Stats/Closed.antt =====
-- The methods of `AuditStats` on records that are closed: `_add_terminal_to_closed` and
-- `_add_terminal_to_compact_closed`, and the branches of `_add_handoff`.
use coroutines_kafka_consume.Prelude.{◌+◌, Bool, true, false, not, ◌&&◌, ◌||◌, if◌then◌else◌}
use coroutines_kafka_consume.Dict.{insert}
use coroutines_kafka_consume.Audit.Record.{key_eq, AuditRecord, RecordType, is_lifecycle}
use coroutines_kafka_consume.Audit.Flags.{Flags, to_byte}
use coroutines_kafka_consume.Audit.Flags
use coroutines_kafka_consume.Audit.Offsets
use coroutines_kafka_consume.Audit.Stats.{
  ClosedRecordState, AuditStats, add_drop_reason, add_replay_drop,
}

-- The `duplicate_…` counter of a type of outcome.
unfoldable pub add_duplicate : RecordType → AuditStats → AuditStats
add_duplicate RecordType.complete s = record s { duplicate_processed = s.duplicate_processed + 1 }
add_duplicate RecordType.fail s = record s { duplicate_failed = s.duplicate_failed + 1 }
add_duplicate _ s = record s { duplicate_dropped = s.duplicate_dropped + 1 }

-- The `…_unique` counter of a type of outcome; a drop is counted under its reason too.
unfoldable pub add_unique : AuditRecord → AuditStats → AuditStats
unfolding add_drop_reason
add_unique r s = elim r.record_type [
  | RecordType.complete ↦ record s { processed_unique = s.processed_unique + 1 }
  | RecordType.fail ↦ record s { failed_unique = s.failed_unique + 1 }
  | _ ↦ add_drop_reason r (record s { dropped_unique = s.dropped_unique + 1 })
]

abbrev pub seen : RecordType → ClosedRecordState → Bool
seen RecordType.complete closed = closed.processed_seen
seen RecordType.fail closed = closed.failed_seen
seen _ closed = closed.dropped_seen

-- The closed state sees an outcome for the first time.
abbrev pub see : AuditRecord → ClosedRecordState → ClosedRecordState
see r closed = elim r.record_type [
  | RecordType.complete ↦ record closed { processed_seen = true }
  | RecordType.fail ↦ record closed { failed_seen = true }
  | _ ↦ record closed { dropped_seen = true; lifecycle_dropped_seen = is_lifecycle r }
]

abbrev add_conflict : AuditStats → AuditStats
add_conflict s = record s {
  conflicting_terminal_outcomes = s.conflicting_terminal_outcomes + 1;
  unexpected_terminal_outcomes = s.unexpected_terminal_outcomes + 1;
}

-- What a new outcome of a closed record means, given the outcomes that it had.
unfoldable pub judge_closed : AuditRecord → ClosedRecordState → AuditStats → AuditStats
unfolding add_replay_drop
judge_closed r closed s = elim r.record_type [
  | RecordType.complete ↦
      if closed.dropped_seen && (closed.lifecycle_dropped_seen && not closed.failed_seen)
      then record s { lifecycle_handoff_reprocessed = s.lifecycle_handoff_reprocessed + 1 }
      else if closed.failed_seen || closed.dropped_seen
      then add_conflict s
      else s
  | RecordType.fail ↦ if closed.processed_seen || closed.dropped_seen then add_conflict s else s
  | _ ↦
      if closed.processed_seen || closed.failed_seen
      then (let s' = record s {
        conflicting_terminal_outcomes = s.conflicting_terminal_outcomes + 1;
      } in
          if closed.processed_seen
          then add_replay_drop r s'
          else record s' { unexpected_terminal_outcomes = s'.unexpected_terminal_outcomes + 1 })
      else s
]

-- `_add_terminal_to_closed`. The closed state is refreshed at every outcome, and stored back; no
-- expiry entry is made for its new time.
unfoldable pub add_terminal_to_closed : AuditRecord → ClosedRecordState → AuditStats → AuditStats
add_terminal_to_closed r closed s =
    let refreshed = record closed { closed_ms = r.audit_timestamp_ms } in
    if seen r.record_type closed
    then (let s' = add_duplicate r.record_type s in
        record s' { recent_closed_by_key = insert r.key refreshed s'.recent_closed_by_key })
    else (let s' = judge_closed r closed (add_unique r s) in
        record s' { recent_closed_by_key = insert r.key (see r refreshed) s'.recent_closed_by_key })

-- The flags of an outcome: a lifecycle drop has two, and either makes it a duplicate.
abbrev outcome_seen : AuditRecord → Flags → Bool
outcome_seen r flags = elim r.record_type [
  | RecordType.complete ↦ flags.processed
  | RecordType.fail ↦ flags.failed
  | _ ↦ flags.dropped || (is_lifecycle r && flags.lifecycle_dropped)
]

-- flags | outcome_flag
unfoldable pub with_outcome : AuditRecord → Flags → Flags
unfolding is_lifecycle
with_outcome r flags = elim r.record_type [
  | RecordType.complete ↦ record flags { processed = true }
  | RecordType.fail ↦ record flags { failed = true }
  | _ ↦ record flags {
    dropped = true;
    lifecycle_dropped = is_lifecycle r || flags.lifecycle_dropped;
  }
]

abbrev pub is_complete_type : RecordType → Bool
is_complete_type RecordType.complete = true
is_complete_type _ = false

abbrev pub is_drop_type : RecordType → Bool
is_drop_type RecordType.drop = true
is_drop_type _ = false

-- What a new outcome of a compactly closed record means, if it had one before.
unfoldable pub judge_compact : AuditRecord → Flags → AuditStats → AuditStats
unfolding add_replay_drop Flags.has_terminal
judge_compact r flags s =
    let handoff =
      is_complete_type r.record_type
      && (flags.dropped && (flags.lifecycle_dropped && not flags.failed)) in
    let s' =
      if handoff
      then record s { lifecycle_handoff_reprocessed = s.lifecycle_handoff_reprocessed + 1 }
      else record s { conflicting_terminal_outcomes = s.conflicting_terminal_outcomes + 1 } in
    if Flags.has_terminal flags
    then (if is_drop_type r.record_type && flags.processed
        then add_replay_drop r s'
        else if handoff
        then s'
        else record s' { unexpected_terminal_outcomes = s'.unexpected_terminal_outcomes + 1 })
    else s

-- `_add_terminal_to_compact_closed`
unfoldable pub add_terminal_to_compact_closed : AuditRecord → Flags → AuditStats → AuditStats
add_terminal_to_compact_closed r flags s =
    if outcome_seen r flags
    then add_duplicate r.record_type s
    else (let s' = add_unique r (judge_compact r flags s) in
        record s' {
          closed_offsets = Offsets.set s'.closed_offsets r.key (to_byte (with_outcome r flags));
        })

-- A handoff of a compactly closed record.
unfoldable pub add_handoff_to_compact : AuditRecord → Flags → AuditStats → AuditStats
unfolding Offsets.set to_byte
add_handoff_to_compact r flags s = if flags.handed_off then s else record s {
  handoff_unique = s.handoff_unique + 1;
  lifecycle_handoff_reprocessed =
      (if flags.processed
        then s.lifecycle_handoff_reprocessed + 1
        else s.lifecycle_handoff_reprocessed);
  closed_offsets =
      Offsets.set s.closed_offsets r.key (to_byte (record flags { handed_off = true }));
}

-- A handoff of a recently closed record.
unfoldable pub add_handoff_to_closed : AuditRecord → ClosedRecordState → AuditStats → AuditStats
unfolding insert
add_handoff_to_closed r closed s = if closed.handed_off_seen then s else record s {
  handoff_unique = s.handoff_unique + 1;
  lifecycle_handoff_reprocessed =
      (if closed.processed_seen
        then s.lifecycle_handoff_reprocessed + 1
        else s.lifecycle_handoff_reprocessed);
  recent_closed_by_key =
      insert r.key (record closed { handed_off_seen = true }) s.recent_closed_by_key;
}
