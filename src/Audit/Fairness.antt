-- ===== src/Audit/Fairness.antt =====
-- `KeyOutcomeStats` and `KeyFairnessStats` of demo/infra/shared/audit/analyze-audit.py: the
-- outcomes of each message key of a topic.
pub mod Conserved
use coroutines_kafka_consume.Prelude.{
  ℕ, ◌+◌, Bool, true, false, Option, none, some, String, [], string_eq, if◌then◌else◌,
}
use coroutines_kafka_consume.Prelude.Int.{ℤ, ◌-ℤ◌, clip, max_ℤ}
use coroutines_kafka_consume.Dict.{Dict, lookup, insert}
use coroutines_kafka_consume.Audit.Record.{AuditRecord, RecordType}
use coroutines_kafka_consume.Audit.Age
use coroutines_kafka_consume.Audit.Age.{OnlineAgeStats, new_ages}
use coroutines_kafka_consume.Audit.Freshness
use coroutines_kafka_consume.Audit.Freshness.{FreshnessGapStats, new_freshness}

pub record KeyOutcomeStats : Type 0 where
  pub published : ℕ
  pub processed : ℕ
  pub failed : ℕ
  pub dropped : ℕ
  pub last_processed_ms : Option ℤ
  pub max_processed_gap_ms : Option ℤ

abbrev pub new_outcomes : KeyOutcomeStats
new_outcomes = record {
  published = 0;
  processed = 0;
  failed = 0;
  dropped = 0;
  last_processed_ms = none;
  max_processed_gap_ms = none;
}

unfoldable pub terminal : KeyOutcomeStats → ℕ
terminal s = s.processed + s.failed + s.dropped

pub record KeyFairnessStats : Type 0 where
  pub by_message_key : Dict String KeyOutcomeStats
  pub freshness_gap : FreshnessGapStats
  pub processed_age : OnlineAgeStats
  pub dropped_age : OnlineAgeStats
  pub failed_age : OnlineAgeStats
  pub finalized : Bool

abbrev pub new_fairness : KeyFairnessStats
new_fairness = record {
  by_message_key = [];
  freshness_gap = new_freshness;
  processed_age = new_ages;
  dropped_age = new_ages;
  failed_age = new_ages;
  finalized = false;
}

abbrev or_new : Option KeyOutcomeStats → KeyOutcomeStats
or_new none = new_outcomes
or_new (some stats) = stats

-- `_stats(message_key)`; the caller changes the object and stores it under its key.
unfoldable pub stats_of : String → KeyFairnessStats → KeyOutcomeStats
unfolding lookup
stats_of message_key s = or_new (lookup message_key s.by_message_key)

unfoldable pub store : String → KeyOutcomeStats → KeyFairnessStats → KeyFairnessStats
unfolding insert
store message_key stats s = record s { by_message_key = insert message_key stats s.by_message_key }

unfoldable pub add_published : AuditRecord → KeyFairnessStats → KeyFairnessStats
unfolding stats_of store
add_published r s =
    let stats = stats_of r.message_key s in
    store r.message_key (record stats { published = stats.published + 1 }) s

abbrev max_gap : Option ℤ → Option ℤ → ℤ → Option ℤ
max_gap none gap now = gap
max_gap (some last) none now = some (now -ℤ last)
max_gap (some last) (some gap) now = some (max_ℤ gap (now -ℤ last))

unfoldable pub count_outcome : RecordType → ℤ → KeyOutcomeStats → KeyOutcomeStats
count_outcome RecordType.complete now s = record s {
  processed = s.processed + 1;
  max_processed_gap_ms = max_gap s.last_processed_ms s.max_processed_gap_ms now;
  last_processed_ms = some now;
}
count_outcome RecordType.fail now s = record s { failed = s.failed + 1 }
count_outcome RecordType.drop now s = record s { dropped = s.dropped + 1 }
count_outcome _ now s = s

unfoldable pub observe_gap : AuditRecord → FreshnessGapStats → FreshnessGapStats
observe_gap r gaps = elim r.record_type [
  | RecordType.complete ↦ Freshness.add_processed r gaps
  | RecordType.drop ↦ Freshness.add_dropped r gaps
  | _ ↦ gaps
]

unfoldable pub add_terminal : AuditRecord → KeyFairnessStats → KeyFairnessStats
unfolding stats_of store count_outcome observe_gap
add_terminal r s =
    let stats = count_outcome r.record_type r.audit_timestamp_ms (stats_of r.message_key s) in
    record (store r.message_key stats s) { freshness_gap = observe_gap r s.freshness_gap }

-- The age of a record when it came to its end, counted under its outcome.
unfoldable pub add_age : RecordType → ℕ → KeyFairnessStats → KeyFairnessStats
unfolding Age.add
add_age RecordType.complete age_ms s = record s { processed_age = Age.add age_ms s.processed_age }
add_age RecordType.drop age_ms s = record s { dropped_age = Age.add age_ms s.dropped_age }
add_age RecordType.fail age_ms s = record s { failed_age = Age.add age_ms s.failed_age }
add_age _ age_ms s = s

unfoldable pub add_terminal_age : AuditRecord → AuditRecord → KeyFairnessStats → KeyFairnessStats
unfolding add_age
add_terminal_age published ended s = elim published.kafka_timestamp_ms [
  | none ↦ s
  | some kafka_ms ↦ add_age ended.record_type (clip (ended.audit_timestamp_ms -ℤ kafka_ms)) s
]

unfoldable pub finish : ℤ → KeyFairnessStats → KeyFairnessStats
finish watermark_ms s = if s.finalized then s else record s { finalized = true }
