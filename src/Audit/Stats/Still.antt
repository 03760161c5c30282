-- ===== src/Audit/Stats/Still.antt =====
-- The steps of `AuditStats` on closed records leave published and terminal records as they are.
use coroutines_kafka_consume.Prelude.{ℕ, ◌≡◌, arith}
use coroutines_kafka_consume.Audit.Record.{AuditRecord, RecordType}
use coroutines_kafka_consume.Audit.Flags.{Flags}
use coroutines_kafka_consume.Audit.Stats.{
  ClosedRecordState, AuditStats, add_drop_reason, add_replay_drop,
}
use coroutines_kafka_consume.Audit.Stats.Closed.{
  add_duplicate, add_unique, judge_closed, judge_compact, add_terminal_to_closed,
  add_terminal_to_compact_closed, add_handoff_to_compact, add_handoff_to_closed,
}
use coroutines_kafka_consume.Audit.Stats.Run.{add_record}
use coroutines_kafka_consume.Audit.Stats.Balance.{Rest, rest}

pub record Ledger : Type 0 where
  pub published_unique : ℕ
  pub terminal_unique : ℕ
  pub left : Rest

abbrev pub ledger : AuditStats → Ledger
ledger s = record {
  published_unique = s.published_unique;
  terminal_unique = s.terminal_unique;
  left = rest s;
}

abbrev pub Still : AuditStats → AuditStats → Type 0
Still s s' = ledger s' ≡ ledger s

pub add_record-Still : (t : RecordType) (s : AuditStats) → Still s (add_record t s)
unfolding add_record
add_record-Still t s = ground arith

module _ (r : AuditRecord) (s : AuditStats) where
  add_duplicate-Still : (t : RecordType) → Still s (add_duplicate t s)
  unfolding add_duplicate
  add_duplicate-Still t = ground arith

  add_unique-Still : Still s (add_unique r s)
  unfolding add_unique add_drop_reason
  add_unique-Still = ground arith

  judge_closed-Still : (closed : ClosedRecordState) → Still s (judge_closed r closed s)
  unfolding judge_closed add_replay_drop
  judge_closed-Still closed = ground arith

  judge_compact-Still : (flags : Flags) → Still s (judge_compact r flags s)
  unfolding judge_compact add_replay_drop
  judge_compact-Still flags = ground arith

  pub add_handoff_to_compact-Still : (flags : Flags) → Still s (add_handoff_to_compact r flags s)
  unfolding add_handoff_to_compact
  add_handoff_to_compact-Still flags = ground arith

  pub add_handoff_to_closed-Still :
      (closed : ClosedRecordState) → Still s (add_handoff_to_closed r closed s)
  unfolding add_handoff_to_closed
  add_handoff_to_closed-Still closed = ground arith

pub add_terminal_to_closed-Still :
    (r : AuditRecord) (closed : ClosedRecordState) (s : AuditStats)
    → Still s (add_terminal_to_closed r closed s)
unfolding add_terminal_to_closed
add_terminal_to_closed-Still r closed s = ground (
  arith,
  add_duplicate-Still r s r.record_type,
  add_unique-Still r s,
  judge_closed-Still r (add_unique r s) closed,
)

pub add_terminal_to_compact_closed-Still :
    (r : AuditRecord) (flags : Flags) (s : AuditStats)
    → Still s (add_terminal_to_compact_closed r flags s)
unfolding add_terminal_to_compact_closed
add_terminal_to_compact_closed-Still r flags s = ground (
  arith,
  add_duplicate-Still r s r.record_type,
  judge_compact-Still r s flags,
  add_unique-Still r (judge_compact r flags s),
)
