-- ===== src/Audit/Accumulator.antt =====
-- `AuditAccumulator` of demo/infra/shared/audit/analyze-audit.py: the records of a stream, each given
-- to the statistics of its topic.
--
-- The key-order spool stands outside: the statistics of a topic keep the records that they give to
-- their `key_order_collector`, in the order of the calls.
pub mod Routed
pub mod Finished
use coroutines_kafka_consume.Prelude.{
  ℕ, ◌+◌, Bool, true, false, not, ◌&&◌, ◌||◌, Option, none, some, List, [], ◌∷◌, HasEq, ◌==◌, ◌>>=◌,
  if◌then◌else◌,
}
use coroutines_kafka_consume.Prelude.Int.{ℤ, pos, int_eq}
use coroutines_kafka_consume.Dict.{Dict, lookup, insert}
use coroutines_kafka_consume.Audit.Record.{RecordKey, key_eq, AuditRecord}
use coroutines_kafka_consume.Audit.Flags.{Flags, of_byte, is_closed}
use coroutines_kafka_consume.Audit.Offsets
use coroutines_kafka_consume.Audit.Latency.{LatencySlaRule, applies_to}
use coroutines_kafka_consume.Audit.Fairness.{KeyFairnessStats, new_fairness}
use coroutines_kafka_consume.Audit.Stats.{RecordState, AuditStats, Limit, is_some, new_audit}
use coroutines_kafka_consume.Audit.Stats.Run
use coroutines_kafka_consume.Audit.Stats.Run.{finish}

pub record AuditAccumulator : Type 0 where
  pub open_record_ttl_ms : Option ℕ
  pub latency_sla_rules : List LatencySlaRule
  pub latency_limits_ms : Dict ℤ Limit
  pub by_topic : Dict ℤ AuditStats
  pub record_count : ℕ
  pub cohort_keys : Option (List RecordKey)

-- The key order is given to the spool without a TTL, and only then.
abbrev pub has_spool : Option ℕ → Bool
has_spool none = true
has_spool (some ttl) = false

abbrev pub rules_of : ℤ → List LatencySlaRule → List LatencySlaRule
rules_of topic_id [] = []
rules_of topic_id (rule ∷ rules) =
    if applies_to topic_id rule then rule ∷ rules_of topic_id rules else rules_of topic_id rules

abbrev pub fairness_of : ℤ → Option KeyFairnessStats
fairness_of topic_id = if topic_id == pos 3 then some new_fairness else none

-- `_new_topic_stats`
unfoldable pub new_topic_stats : AuditAccumulator → ℤ → AuditStats
unfolding new_audit applies_to lookup
new_topic_stats a topic_id =
    new_audit a.open_record_ttl_ms (lookup topic_id a.latency_limits_ms)
      (rules_of topic_id a.latency_sla_rules) (fairness_of topic_id)
      (has_spool a.open_record_ttl_ms)

-- The constructor, with the statistics of the topics of `TOPIC_NAMES`.
unfoldable pub new_accumulator :
    Option ℕ → List LatencySlaRule → Dict ℤ Limit → Option (List RecordKey) → AuditAccumulator
unfolding new_topic_stats insert
new_accumulator ttl rules limits cohort =
    let a : AuditAccumulator = record {
      open_record_ttl_ms = ttl;
      latency_sla_rules = rules;
      latency_limits_ms = limits;
      by_topic = [];
      record_count = 0;
      cohort_keys = cohort;
    } in
    record a {
      by_topic =
          (pos 1, new_topic_stats a (pos 1))
          ∷ (pos 2, new_topic_stats a (pos 2))
          ∷ (pos 3, new_topic_stats a (pos 3))
          ∷ [];
    }

abbrev pub has_key : RecordKey → List RecordKey → Bool
has_key key [] = false
has_key key (k ∷ keys) = k == key || has_key key keys

-- cohort_keys is None or record.key in cohort_keys
unfoldable pub in_cohort : Option (List RecordKey) → AuditRecord → Bool
in_cohort none r = true
in_cohort (some keys) r = has_key r.key keys

abbrev pub stats_or : AuditStats → Option AuditStats → AuditStats
stats_or new none = new
stats_or new (some stats) = stats

-- The statistics of a topic, which are new for a topic that was not seen.
unfoldable pub stats_of : ℤ → AuditAccumulator → AuditStats
unfolding lookup new_topic_stats
stats_of topic_id a = stats_or (new_topic_stats a topic_id) (lookup topic_id a.by_topic)

unfoldable pub add : AuditRecord → AuditAccumulator → AuditAccumulator
unfolding in_cohort stats_of insert
add r a =
    if in_cohort a.cohort_keys r
    then record a {
      record_count = a.record_count + 1;
      by_topic = insert r.key.topic_id (Run.add r (stats_of r.key.topic_id a)) a.by_topic;
    }
    else a

unfoldable pub add_records : List AuditRecord → AuditAccumulator → AuditAccumulator
unfolding add
add_records [] a = a
add_records (r ∷ rs) a = add_records rs (add r a)

-- The loop of `finish`; none is the exception of a topic.
unfoldable pub finish_all : Dict ℤ AuditStats → Option (Dict ℤ AuditStats)
unfolding finish
finish_all [] = some []
finish_all ((topic_id, stats) ∷ rest) = do
  stats' ← finish stats
  rest' ← finish_all rest
  some ((topic_id, stats') ∷ rest')

-- Without the spool.
unfoldable pub finish_topics : AuditAccumulator → Option AuditAccumulator
unfolding finish_all
finish_topics a = do by_topic ← finish_all a.by_topic; some (record a { by_topic = by_topic })

-- bool(stats.closed_offsets.get(key))
abbrev pub is_open_or_closed : RecordKey → Option AuditStats → Bool
is_open_or_closed key none = false
is_open_or_closed key (some s) =
    is_some (lookup key s.open_by_key)
    || (is_some (lookup key s.recent_closed_by_key)
        || is_closed (of_byte (Offsets.get s.closed_offsets key)))

unfoldable pub contains_key : RecordKey → AuditAccumulator → Bool
unfolding lookup Offsets.get
contains_key key a = is_open_or_closed key (lookup key.topic_id a.by_topic)

abbrev pub open_state : RecordKey → Option AuditStats → Option RecordState
open_state key none = none
open_state key (some s) = lookup key s.open_by_key

unfoldable pub state_for : RecordKey → AuditAccumulator → Option RecordState
unfolding lookup
state_for key a = open_state key (lookup key.topic_id a.by_topic)
