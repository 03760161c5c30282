-- ===== src/Audit/Stats.antt =====
-- `RecordState`, `ClosedRecordState` and the fields of `AuditStats` of
-- demo/infra/shared/audit/analyze-audit.py; its methods are in the modules below.
--
-- The callback `key_order_collector` is modelled by what it is called with: `collects` says whether
-- there is one, and `collected` has the records that it was called with, the newest last.
pub mod Open
pub mod Closed
pub mod Evict
pub mod Run
pub mod Frame
pub mod Tally
pub mod Balance
pub mod Still
pub mod Reconcile
use coroutines_kafka_consume.Prelude.{
  ℕ, ◌+◌, ◌*◌, ◌<◌, Bool, true, false, not, ◌&&◌, ◌||◌, Option, none, some, String, List, [], ◌∷◌,
  ◌++◌, string_eq, nat_beq, ltb, if◌then◌else◌,
}
use coroutines_kafka_consume.Prelude.Int.{ℤ, pos}
use coroutines_kafka_consume.Dict.{Dict, insert}
use coroutines_kafka_consume.Dict.Counts.{bump}
use coroutines_kafka_consume.Audit.Record.{RecordKey, AuditRecord, is_lifecycle, reason_or}
use coroutines_kafka_consume.Audit.Offsets.{ClosedOffsetStore, empty}
use coroutines_kafka_consume.Audit.Order.{ProcessingOrderStats, new_stats as new_order}
use coroutines_kafka_consume.Audit.Age.{OnlineAgeStats, new_ages}
use coroutines_kafka_consume.Audit.Latency.{LatencySlaRule, LatencySlaStats, new_sla, applies_to}
use coroutines_kafka_consume.Audit.Fairness.{KeyFairnessStats}

abbrev pub is_some {ℓ} : {A : Type ℓ} → Option A → Bool
is_some none = false
is_some (some a) = true

pub record RecordState : Type 0 where
  pub first_seen_ms : ℤ
  pub last_seen_ms : ℤ
  pub published : Option AuditRecord
  pub processed : Option AuditRecord
  pub failed : Option AuditRecord
  pub dropped : Option AuditRecord
  pub handed_off : Option AuditRecord
  pub processed_count : ℕ
  pub failed_count : ℕ
  pub dropped_count : ℕ
  pub conflict_counted : Bool

abbrev pub has_terminal : RecordState → Bool
has_terminal st = is_some st.processed || (is_some st.failed || is_some st.dropped)

abbrev pub is_complete : RecordState → Bool
is_complete st = is_some st.published && has_terminal st

pub record ClosedRecordState : Type 0 where
  pub closed_ms : ℤ
  pub processed_seen : Bool
  pub failed_seen : Bool
  pub dropped_seen : Bool
  pub lifecycle_dropped_seen : Bool
  pub handed_off_seen : Bool

-- `latency_limit_ms`, an int or a float, as the fraction that it is: `numerator / denominator`.
pub record Limit : Type 0 where
  pub numerator : ℕ
  pub denominator : ℕ

-- latency_ms > limit
abbrev pub over : ℕ → Limit → Bool
over latency_ms limit = ltb limit.numerator (latency_ms * limit.denominator)

pub record AuditStats : Type 0 where
  pub open_record_ttl_ms : Option ℕ
  pub latency_limit_ms : Option Limit
  pub key_fairness : Option KeyFairnessStats
  pub published_records : ℕ
  pub processed_records : ℕ
  pub failed_records : ℕ
  pub dropped_records : ℕ
  pub retry_attempt_records : ℕ
  pub published_unique : ℕ
  pub processed_unique : ℕ
  pub failed_unique : ℕ
  pub dropped_unique : ℕ
  pub terminal_unique : ℕ
  pub missing_terminal : ℕ
  pub duplicate_published : ℕ
  pub duplicate_processed : ℕ
  pub duplicate_failed : ℕ
  pub duplicate_dropped : ℕ
  pub dropped_by_reason : Dict String ℕ
  pub processed_without_publish : ℕ
  pub failed_without_publish : ℕ
  pub dropped_without_publish : ℕ
  pub conflicting_terminal_outcomes : ℕ
  pub replay_dropped_after_processed : ℕ
  pub replay_dropped_after_processed_by_reason : Dict String ℕ
  pub lifecycle_handoff_reprocessed : ℕ
  pub handoff_records : ℕ
  pub handoff_unique : ℕ
  pub handoff_by_reason : Dict String ℕ
  pub unexpected_terminal_outcomes : ℕ
  pub open_by_key : Dict RecordKey RecordState
  pub recent_closed_by_key : Dict RecordKey ClosedRecordState
  pub closed_offsets : ClosedOffsetStore
  pub open_expiry_queue : List (ℤ × RecordKey)
  pub recent_closed_expiry_queue : List (ℤ × RecordKey)
  pub partition_order : ProcessingOrderStats
  pub key_order : ProcessingOrderStats
  pub watermark_ms : ℤ
  pub last_eviction_ms : ℤ
  pub eviction_interval_ms : ℕ
  pub latency_sla : Dict String LatencySlaStats
  pub e2e_latency : OnlineAgeStats
  pub e2e_latency_histogram : Dict ℕ ℕ
  pub e2e_exceeded : ℕ
  pub e2e_invalid_negative : ℕ
  pub collects : Bool
  pub collected : List AuditRecord

-- {rule.id: LatencySlaStats(rule) for rule in rules}
unfoldable pub sla_by_id :
    List LatencySlaRule → Dict String LatencySlaStats → Dict String LatencySlaStats
unfolding insert
sla_by_id [] d = d
sla_by_id (rule ∷ rules) d = sla_by_id rules (insert rule.id (new_sla rule) d)

-- The constructor with `__post_init__`; all else has the defaults of the fields.
unfoldable pub new_audit :
    Option ℕ → Option Limit → List LatencySlaRule → Option KeyFairnessStats → Bool → AuditStats
unfolding sla_by_id
new_audit ttl limit rules fairness collects = record {
  open_record_ttl_ms = ttl;
  latency_limit_ms = limit;
  key_fairness = fairness;
  published_records = 0;
  processed_records = 0;
  failed_records = 0;
  dropped_records = 0;
  retry_attempt_records = 0;
  published_unique = 0;
  processed_unique = 0;
  failed_unique = 0;
  dropped_unique = 0;
  terminal_unique = 0;
  missing_terminal = 0;
  duplicate_published = 0;
  duplicate_processed = 0;
  duplicate_failed = 0;
  duplicate_dropped = 0;
  dropped_by_reason = [];
  processed_without_publish = 0;
  failed_without_publish = 0;
  dropped_without_publish = 0;
  conflicting_terminal_outcomes = 0;
  replay_dropped_after_processed = 0;
  replay_dropped_after_processed_by_reason = [];
  lifecycle_handoff_reprocessed = 0;
  handoff_records = 0;
  handoff_unique = 0;
  handoff_by_reason = [];
  unexpected_terminal_outcomes = 0;
  open_by_key = [];
  recent_closed_by_key = [];
  closed_offsets = empty;
  open_expiry_queue = [];
  recent_closed_expiry_queue = [];
  partition_order = new_order;
  key_order = new_order;
  watermark_ms = pos 0;
  last_eviction_ms = pos 0;
  eviction_interval_ms = 1000;
  latency_sla = sla_by_id rules [];
  e2e_latency = new_ages;
  e2e_latency_histogram = [];
  e2e_exceeded = 0;
  e2e_invalid_negative = 0;
  collects = collects;
  collected = [];
}

-- for latency in self.latency_sla.values(): if latency.rule.applies_to(topic_id): ...
unfoldable pub for_topic :
    ℤ
    → (LatencySlaStats → LatencySlaStats)
    → Dict String LatencySlaStats
    → Dict String LatencySlaStats
unfolding applies_to
for_topic topic_id f [] = []
for_topic topic_id f ((id, latency) ∷ rest) =
    (id, if applies_to topic_id latency.rule then f latency else latency)
    ∷ for_topic topic_id f rest

-- if self.key_fairness is not None: ...
abbrev pub with_fairness :
    (KeyFairnessStats → KeyFairnessStats) → Option KeyFairnessStats → Option KeyFairnessStats
with_fairness f none = none
with_fairness f (some fairness) = some (f fairness)

-- `_add_drop_reason`
unfoldable pub add_drop_reason : AuditRecord → AuditStats → AuditStats
unfolding reason_or bump
add_drop_reason r s = record s {
  dropped_by_reason = bump (reason_or r.drop_reason "unknown") s.dropped_by_reason;
}

-- `_add_replay_drop`
unfoldable pub add_replay_drop : AuditRecord → AuditStats → AuditStats
unfolding reason_or bump
add_replay_drop r s = record s {
  replay_dropped_after_processed = s.replay_dropped_after_processed + 1;
  replay_dropped_after_processed_by_reason =
      bump (reason_or r.drop_reason "unknown") s.replay_dropped_after_processed_by_reason;
}

-- `if self.open_record_ttl_ms is not None: queue.append(...)`
abbrev pub expire_later : Option ℕ → ℤ → RecordKey → List (ℤ × RecordKey) → List (ℤ × RecordKey)
expire_later none ms key queue = queue
expire_later (some ttl) ms key queue = queue ++ ((ms, key) ∷ [])
