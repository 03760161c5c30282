-- ===== src/Audit/Aggregate.antt =====
-- `aggregate_stats` of demo/infra/shared/audit/analyze-audit.py: the statistics of all topics as one.
pub mod Sums
use coroutines_kafka_consume.Prelude.{
  ℕ, ◌+◌, false, Option, none, some, String, List, [], ◌∷◌, HasEq, string_eq, nat_eq, ◌>>=◌,
  if◌then◌else◌,
}
use coroutines_kafka_consume.Prelude.Int.{ℤ}
use coroutines_kafka_consume.Dict.{Dict, lookup, insert}
use coroutines_kafka_consume.Dict.Counts.{add_to}
use coroutines_kafka_consume.Audit.Order.{ProcessingOrderStats}
use coroutines_kafka_consume.Audit.Age.{max_seen}
use coroutines_kafka_consume.Audit.Latency.{LatencySlaRule, LatencySlaStats}
use coroutines_kafka_consume.Audit.Stats.{AuditStats, new_audit}
use coroutines_kafka_consume.Audit.Accumulator.{AuditAccumulator}

-- scalar_fields
unfoldable pub add_scalars : AuditStats → AuditStats → AuditStats
add_scalars aggregate stats = record aggregate {
  published_records = aggregate.published_records + stats.published_records;
  processed_records = aggregate.processed_records + stats.processed_records;
  failed_records = aggregate.failed_records + stats.failed_records;
  dropped_records = aggregate.dropped_records + stats.dropped_records;
  retry_attempt_records = aggregate.retry_attempt_records + stats.retry_attempt_records;
  published_unique = aggregate.published_unique + stats.published_unique;
  processed_unique = aggregate.processed_unique + stats.processed_unique;
  failed_unique = aggregate.failed_unique + stats.failed_unique;
  dropped_unique = aggregate.dropped_unique + stats.dropped_unique;
  terminal_unique = aggregate.terminal_unique + stats.terminal_unique;
  missing_terminal = aggregate.missing_terminal + stats.missing_terminal;
  duplicate_published = aggregate.duplicate_published + stats.duplicate_published;
  duplicate_processed = aggregate.duplicate_processed + stats.duplicate_processed;
  duplicate_failed = aggregate.duplicate_failed + stats.duplicate_failed;
  duplicate_dropped = aggregate.duplicate_dropped + stats.duplicate_dropped;
  processed_without_publish = aggregate.processed_without_publish + stats.processed_without_publish;
  failed_without_publish = aggregate.failed_without_publish + stats.failed_without_publish;
  dropped_without_publish = aggregate.dropped_without_publish + stats.dropped_without_publish;
  conflicting_terminal_outcomes =
      aggregate.conflicting_terminal_outcomes + stats.conflicting_terminal_outcomes;
  replay_dropped_after_processed =
      aggregate.replay_dropped_after_processed + stats.replay_dropped_after_processed;
  lifecycle_handoff_reprocessed =
      aggregate.lifecycle_handoff_reprocessed + stats.lifecycle_handoff_reprocessed;
  handoff_records = aggregate.handoff_records + stats.handoff_records;
  handoff_unique = aggregate.handoff_unique + stats.handoff_unique;
  unexpected_terminal_outcomes =
      aggregate.unexpected_terminal_outcomes + stats.unexpected_terminal_outcomes;
  e2e_invalid_negative = aggregate.e2e_invalid_negative + stats.e2e_invalid_negative;
}

-- for reason, count in source.items(): target[reason] = target.get(reason, 0) + count
unfoldable pub merge {ℓ} : {K : Type ℓ} ⦃e : HasEq K⦄ → Dict K ℕ → Dict K ℕ → Dict K ℕ
unfolding add_to
merge [] target = target
merge ((k, n) ∷ source) target = merge source (add_to k n target)

unfoldable pub add_counts : AuditStats → AuditStats → AuditStats
unfolding merge
add_counts aggregate stats = record aggregate {
  dropped_by_reason = merge stats.dropped_by_reason aggregate.dropped_by_reason;
  handoff_by_reason = merge stats.handoff_by_reason aggregate.handoff_by_reason;
  replay_dropped_after_processed_by_reason =
      merge stats.replay_dropped_after_processed_by_reason
        aggregate.replay_dropped_after_processed_by_reason;
  e2e_latency_histogram = merge stats.e2e_latency_histogram aggregate.e2e_latency_histogram;
}

unfoldable pub add_late : ProcessingOrderStats → ProcessingOrderStats → ProcessingOrderStats
add_late target source = record target {
  out_of_order = target.out_of_order + source.out_of_order;
  out_of_order_processed = target.out_of_order_processed + source.out_of_order_processed;
  out_of_order_failed = target.out_of_order_failed + source.out_of_order_failed;
}

unfoldable pub add_orders : AuditStats → AuditStats → AuditStats
unfolding add_late
add_orders aggregate stats = record aggregate {
  partition_order = add_late aggregate.partition_order stats.partition_order;
  key_order = add_late aggregate.key_order stats.key_order;
}

abbrev pub max_observed : Option ℕ → Option ℕ → Option ℕ
max_observed target none = target
max_observed target (some ms) = some (max_seen target ms)

unfoldable pub add_sla : LatencySlaStats → LatencySlaStats → LatencySlaStats
add_sla target source = record target {
  processed = target.processed + source.processed;
  measured = target.measured + source.measured;
  exceeded = target.exceeded + source.exceeded;
  invalid_negative_latency = target.invalid_negative_latency + source.invalid_negative_latency;
  max_observed_ms = max_observed target.max_observed_ms source.max_observed_ms;
}

-- for rule_id, source in stats.latency_sla.items(): ...; none is the KeyError of an unknown rule.
unfoldable pub add_slas :
    Dict String LatencySlaStats → Dict String LatencySlaStats → Option (Dict String LatencySlaStats)
unfolding add_sla lookup insert
add_slas [] target = some target
add_slas ((rule_id, source) ∷ sources) target = do
  old ← lookup rule_id target
  add_slas sources (insert rule_id (add_sla old source) target)

-- One round of the loop over the topics.
unfoldable pub add_topic : AuditStats → AuditStats → Option AuditStats
unfolding add_scalars add_counts add_orders add_slas
add_topic aggregate stats = do
  slas ← add_slas stats.latency_sla aggregate.latency_sla
  some (record (add_orders (add_counts (add_scalars aggregate stats) stats) stats) {
    latency_sla = slas;
  })

unfoldable pub add_topics : Dict ℤ AuditStats → AuditStats → Option AuditStats
unfolding add_topic
add_topics [] aggregate = some aggregate
add_topics ((topic_id, stats) ∷ topics) aggregate = do
  aggregate' ← add_topic aggregate stats
  add_topics topics aggregate'

unfoldable pub aggregate_stats : AuditAccumulator → Option AuditStats
unfolding new_audit add_topics
aggregate_stats a =
    add_topics a.by_topic (new_audit a.open_record_ttl_ms none a.latency_sla_rules none false)
