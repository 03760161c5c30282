-- ===== src/Audit/Tests/Streams.antt =====
-- Small streams for the accumulators of demo/infra/shared/audit/analyze-audit.py.
use coroutines_kafka_consume.Prelude.{
  ◌≡◌, refl, true, Option, none, some, String, List, [], ◌∷◌, string_eq, nat_eq, count_if, map,
  Every,
}
use coroutines_kafka_consume.Prelude.Int.{ℤ, pos, int_eq}
use coroutines_kafka_consume.Dict.{lookup}
use coroutines_kafka_consume.Dict.Unique.{sum_values}
use coroutines_kafka_consume.Audit.Record.{RecordKey, valid_key}
use coroutines_kafka_consume.Audit.Latency.{LatencySlaRule, LatencySlaStats}
use coroutines_kafka_consume.Audit.Stats.{AuditStats, is_some, sla_by_id}
use coroutines_kafka_consume.Audit.Stats.Run
use coroutines_kafka_consume.Audit.Accumulator.{
  AuditAccumulator, new_accumulator, new_topic_stats, in_cohort, stats_of, add_records,
  finish_topics,
}
use coroutines_kafka_consume.Audit.Accumulator.Routed.{records_for, stats_of-add_records}
use coroutines_kafka_consume.Audit.Accumulator.Finished.{IsFinished, finish_topics-IsFinished}
use coroutines_kafka_consume.Audit.Windows
use coroutines_kafka_consume.Audit.Windows.{MeasurementWindow, new_multi_window}
use coroutines_kafka_consume.Audit.Windows.Published.{
  published_in, published_within, add_records-published_within,
}
use coroutines_kafka_consume.Audit.Aggregate.{aggregate_stats}
use coroutines_kafka_consume.Audit.Aggregate.Sums.{Total, value, aggregate_stats-sum}
use coroutines_kafka_consume.Audit.Tests.{stream, key_at}

abbrev cohort : Option (List RecordKey)
cohort = some (key_at (pos 0) 8 ∷ [])

stats_of-add_records_example :
    (stats_of (pos 3) (add_records stream (new_accumulator none [] [] cohort))
      ≡ Run.add_records
          (records_for cohort (pos 3) stream)
          (new_topic_stats (new_accumulator none [] [] cohort) (pos 3)))
    × ((add_records stream (new_accumulator none [] [] cohort)).record_count
        ≡ count_if (in_cohort cohort) stream)
stats_of-add_records_example = stats_of-add_records none [] [] cohort (pos 3) stream

finish_topics-IsFinished_example :
    (result : AuditAccumulator) × (finish_topics
        (add_records stream (new_accumulator none [] [] none))
      ≡ some result)
    × IsFinished result.by_topic
finish_topics-IsFinished_example = finish_topics-IsFinished none [] [] none stream

-- The first publication is within, the second is at the end.
abbrev some_windows : List MeasurementWindow
some_windows =
    record { name = "warm"; published_from_ms = pos 5; published_until_ms = pos 24 }
    ∷ record { name = "all"; published_from_ms = pos 0; published_until_ms = pos 100 }
    ∷ []

published_within_run : map (published_within stream) some_windows ≡ 1 ∷ 2 ∷ []
unfolding valid_key
published_within_run = refl

add_records-published_within_example :
    Every
      (λ (w : MeasurementWindow × AuditAccumulator). published_in w.1 ≡ published_within stream w.0)
      (Windows.add_records stream (new_multi_window none some_windows [] [])).windows
add_records-published_within_example = add_records-published_within none some_windows [] [] stream

abbrev some_rule : LatencySlaRule
some_rule = record {
  id = "fast";
  title = "Fast";
  topic_ids = pos 3 ∷ [];
  topics = [];
  max_ms = 10;
  allowed = 1;
  scale = 100;
}

abbrev some_accumulator : AuditAccumulator
some_accumulator =
    let a = new_accumulator none (some_rule ∷ []) [] none in
    record a {
      by_topic =
          (pos 1, record (new_topic_stats a (pos 1)) { processed_records = 2 })
          ∷ (pos 3, record (new_topic_stats a (pos 3)) { processed_records = 3; e2e_exceeded = 1 })
          ∷ [];
    }

-- One topic has the rule.
some-known :
    Every
      (λ (p : ℤ × AuditStats).
        Every
          (λ (q : String × LatencySlaStats).
            is_some (lookup q.0 (sla_by_id some_accumulator.latency_sla_rules [])) ≡ true)
          p.1.latency_sla)
      some_accumulator.by_topic
unfolding new_accumulator
some-known = (tt, ((refl, tt), tt))

aggregate_stats-sum_example :
    (result : AuditStats) × (aggregate_stats some_accumulator ≡ some result)
    × (((t : Total) → value t result ≡ sum_values (value t) some_accumulator.by_topic)
        × (result.e2e_exceeded ≡ 0))
aggregate_stats-sum_example = aggregate_stats-sum some_accumulator some-known
