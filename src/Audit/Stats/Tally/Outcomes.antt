-- ===== src/Audit/Stats/Tally/Outcomes.antt =====
-- How the steps of `AuditStats` move the counters of the first records and of the duplicates.
use coroutines_kafka_consume.Prelude.{ℕ, ◌+◌, ◌≡◌, ◌∙◌, ap, Bool, true, false, arith}
use coroutines_kafka_consume.Audit.Record.{key_eq, AuditRecord, RecordType}
use coroutines_kafka_consume.Audit.Flags.{Flags}
use coroutines_kafka_consume.Audit.Late.{to_number}
use coroutines_kafka_consume.Audit.Stats.{
  RecordState, ClosedRecordState, AuditStats, add_drop_reason, add_replay_drop,
}
use coroutines_kafka_consume.Audit.Stats.Open.{
  add_terminal_unique, first_processed, first_failed, first_dropped, add_outcome, note_conflict,
}
use coroutines_kafka_consume.Audit.Stats.Closed.{
  add_duplicate, add_unique, judge_closed, judge_compact, add_terminal_to_closed,
  add_terminal_to_compact_closed,
}
use coroutines_kafka_consume.Audit.Stats.Run.{terminate_open}
use coroutines_kafka_consume.Audit.Stats.Frame.{
  Counts, counts, counts-add_order, counts-close_if_complete, counts-touch, counts-save,
}

pub data Kind : Type 0 where
  published processed failed dropped : Kind

-- The records of a kind that were counted under their key.
abbrev pub kept : Kind → Counts → ℕ
kept Kind.published c = c.published_unique + c.duplicate_published
kept Kind.processed c = c.processed_unique + c.duplicate_processed
kept Kind.failed c = c.failed_unique + c.duplicate_failed
kept Kind.dropped c = c.dropped_unique + c.duplicate_dropped

-- The records of a kind that came.
abbrev pub came : Kind → Counts → ℕ
came Kind.published c = c.published_records
came Kind.processed c = c.processed_records
came Kind.failed c = c.failed_records
came Kind.dropped c = c.dropped_records

-- The kind of outcome that `_add_terminal` takes a type for.
abbrev pub outcome_is : Kind → RecordType → Bool
outcome_is Kind.published t = false
outcome_is Kind.processed RecordType.complete = true
outcome_is Kind.processed _ = false
outcome_is Kind.failed RecordType.fail = true
outcome_is Kind.failed _ = false
outcome_is Kind.dropped RecordType.complete = false
outcome_is Kind.dropped RecordType.fail = false
outcome_is Kind.dropped _ = true

abbrev pub Adds : Kind → Bool → AuditStats → AuditStats → Type 0
Adds k b s s' = kept k (counts s') ≡ kept k (counts s) + to_number b

-- One more of a kind.
abbrev pub is_kind : Kind → Kind → Bool
is_kind Kind.published Kind.published = true
is_kind Kind.processed Kind.processed = true
is_kind Kind.failed Kind.failed = true
is_kind Kind.dropped Kind.dropped = true
is_kind _ _ = false

kept-add_terminal_unique :
    (k : Kind) (r : AuditRecord) (state : RecordState) (s : AuditStats)
    → kept k (counts (add_terminal_unique r state s)) ≡ kept k (counts s)
unfolding add_terminal_unique
kept-add_terminal_unique Kind.published r state s =
    ground (arith, counts-add_order r (record s { terminal_unique = s.terminal_unique + 1 }))
kept-add_terminal_unique Kind.processed r state s =
    ground (arith, counts-add_order r (record s { terminal_unique = s.terminal_unique + 1 }))
kept-add_terminal_unique Kind.failed r state s =
    ground (arith, counts-add_order r (record s { terminal_unique = s.terminal_unique + 1 }))
kept-add_terminal_unique Kind.dropped r state s =
    ground (arith, counts-add_order r (record s { terminal_unique = s.terminal_unique + 1 }))

module _ (r : AuditRecord) (state : RecordState) (s : AuditStats) where
  kept-first_processed :
      (k : Kind) → Adds k (is_kind Kind.processed k) s (first_processed r state s).1
  unfolding first_processed
  kept-first_processed Kind.published = kept-add_terminal_unique Kind.published r _ _ ∙ ground arith
  kept-first_processed Kind.processed = kept-add_terminal_unique Kind.processed r _ _ ∙ ground arith
  kept-first_processed Kind.failed = kept-add_terminal_unique Kind.failed r _ _ ∙ ground arith
  kept-first_processed Kind.dropped = kept-add_terminal_unique Kind.dropped r _ _ ∙ ground arith

  kept-first_failed : (k : Kind) → Adds k (is_kind Kind.failed k) s (first_failed r state s).1
  unfolding first_failed
  kept-first_failed Kind.published = kept-add_terminal_unique Kind.published r _ _ ∙ ground arith
  kept-first_failed Kind.processed = kept-add_terminal_unique Kind.processed r _ _ ∙ ground arith
  kept-first_failed Kind.failed = kept-add_terminal_unique Kind.failed r _ _ ∙ ground arith
  kept-first_failed Kind.dropped = kept-add_terminal_unique Kind.dropped r _ _ ∙ ground arith

  kept-first_dropped : (k : Kind) → Adds k (is_kind Kind.dropped k) s (first_dropped r state s).1
  unfolding first_dropped add_drop_reason add_replay_drop
  kept-first_dropped Kind.published = kept-add_terminal_unique Kind.published r _ _ ∙ ground arith
  kept-first_dropped Kind.processed = kept-add_terminal_unique Kind.processed r _ _ ∙ ground arith
  kept-first_dropped Kind.failed = kept-add_terminal_unique Kind.failed r _ _ ∙ ground arith
  kept-first_dropped Kind.dropped = kept-add_terminal_unique Kind.dropped r _ _ ∙ ground arith

  kept-add_outcome : (k : Kind) → Adds k (outcome_is k r.record_type) s (add_outcome r state s).1
  unfolding add_outcome
  kept-add_outcome Kind.published = ground (
    arith,
    kept-first_processed Kind.published,
    kept-first_failed Kind.published,
    kept-first_dropped Kind.published,
  )
  kept-add_outcome Kind.processed = ground (
    arith,
    kept-first_processed Kind.processed,
    kept-first_failed Kind.processed,
    kept-first_dropped Kind.processed,
  )
  kept-add_outcome Kind.failed = ground (
    arith,
    kept-first_processed Kind.failed,
    kept-first_failed Kind.failed,
    kept-first_dropped Kind.failed,
  )
  kept-add_outcome Kind.dropped = ground (
    arith,
    kept-first_processed Kind.dropped,
    kept-first_failed Kind.dropped,
    kept-first_dropped Kind.dropped,
  )

kept-note_conflict :
    (k : Kind) (state : RecordState) (s : AuditStats)
    → kept k (counts (note_conflict (state, s)).1) ≡ kept k (counts s)
unfolding note_conflict
kept-note_conflict Kind.published state s = ground arith
kept-note_conflict Kind.processed state s = ground arith
kept-note_conflict Kind.failed state s = ground arith
kept-note_conflict Kind.dropped state s = ground arith

pub kept-terminate_open :
    (k : Kind) (r : AuditRecord) (state : RecordState) (s : AuditStats)
    → Adds k (outcome_is k r.record_type) s (terminate_open r (state, s))
unfolding terminate_open
kept-terminate_open k r state s =
    ap (kept k) (counts-close_if_complete _ _)
    ∙ ap (kept k) (counts-save _ _ _)
    ∙ kept-note_conflict k _ _
    ∙ kept-add_outcome r _ _ k
    ∙ ap (λ c. kept k c + to_number (outcome_is k r.record_type)) (counts-touch r state s)

kept-add_duplicate :
    (k : Kind) (t : RecordType) (s : AuditStats) → Adds k (outcome_is k t) s (add_duplicate t s)
unfolding add_duplicate
kept-add_duplicate Kind.published t s = ground arith
kept-add_duplicate Kind.processed t s = ground arith
kept-add_duplicate Kind.failed t s = ground arith
kept-add_duplicate Kind.dropped t s = ground arith

kept-add_unique :
    (k : Kind) (r : AuditRecord) (s : AuditStats)
    → Adds k (outcome_is k r.record_type) s (add_unique r s)
unfolding add_unique
kept-add_unique Kind.published r s = ground arith
kept-add_unique Kind.processed r s = ground arith
kept-add_unique Kind.failed r s = ground arith
kept-add_unique Kind.dropped r s = ground arith

kept-judge_closed :
    (k : Kind) (r : AuditRecord) (closed : ClosedRecordState) (s : AuditStats)
    → kept k (counts (judge_closed r closed s)) ≡ kept k (counts s)
unfolding judge_closed
kept-judge_closed Kind.published r closed s = ground arith
kept-judge_closed Kind.processed r closed s = ground arith
kept-judge_closed Kind.failed r closed s = ground arith
kept-judge_closed Kind.dropped r closed s = ground arith

kept-judge_compact :
    (k : Kind) (r : AuditRecord) (flags : Flags) (s : AuditStats)
    → kept k (counts (judge_compact r flags s)) ≡ kept k (counts s)
unfolding judge_compact
kept-judge_compact Kind.published r flags s = ground arith
kept-judge_compact Kind.processed r flags s = ground arith
kept-judge_compact Kind.failed r flags s = ground arith
kept-judge_compact Kind.dropped r flags s = ground arith

pub kept-add_terminal_to_closed :
    (k : Kind) (r : AuditRecord) (closed : ClosedRecordState) (s : AuditStats)
    → Adds k (outcome_is k r.record_type) s (add_terminal_to_closed r closed s)
unfolding add_terminal_to_closed
kept-add_terminal_to_closed Kind.published r closed s = ground (
  arith,
  kept-add_duplicate Kind.published r.record_type s,
  kept-add_unique Kind.published r s,
  kept-judge_closed Kind.published r closed (add_unique r s),
)
kept-add_terminal_to_closed Kind.processed r closed s = ground (
  arith,
  kept-add_duplicate Kind.processed r.record_type s,
  kept-add_unique Kind.processed r s,
  kept-judge_closed Kind.processed r closed (add_unique r s),
)
kept-add_terminal_to_closed Kind.failed r closed s = ground (
  arith,
  kept-add_duplicate Kind.failed r.record_type s,
  kept-add_unique Kind.failed r s,
  kept-judge_closed Kind.failed r closed (add_unique r s),
)
kept-add_terminal_to_closed Kind.dropped r closed s = ground (
  arith,
  kept-add_duplicate Kind.dropped r.record_type s,
  kept-add_unique Kind.dropped r s,
  kept-judge_closed Kind.dropped r closed (add_unique r s),
)

pub kept-add_terminal_to_compact :
    (k : Kind) (r : AuditRecord) (flags : Flags) (s : AuditStats)
    → Adds k (outcome_is k r.record_type) s (add_terminal_to_compact_closed r flags s)
unfolding add_terminal_to_compact_closed
kept-add_terminal_to_compact Kind.published r flags s = ground (
  arith,
  kept-add_duplicate Kind.published r.record_type s,
  kept-add_unique Kind.published r (judge_compact r flags s),
  kept-judge_compact Kind.published r flags s,
)
kept-add_terminal_to_compact Kind.processed r flags s = ground (
  arith,
  kept-add_duplicate Kind.processed r.record_type s,
  kept-add_unique Kind.processed r (judge_compact r flags s),
  kept-judge_compact Kind.processed r flags s,
)
kept-add_terminal_to_compact Kind.failed r flags s = ground (
  arith,
  kept-add_duplicate Kind.failed r.record_type s,
  kept-add_unique Kind.failed r (judge_compact r flags s),
  kept-judge_compact Kind.failed r flags s,
)
kept-add_terminal_to_compact Kind.dropped r flags s = ground (
  arith,
  kept-add_duplicate Kind.dropped r.record_type s,
  kept-add_unique Kind.dropped r (judge_compact r flags s),
  kept-judge_compact Kind.dropped r flags s,
)
