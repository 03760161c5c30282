-- ===== src/Audit/Accumulator/Finished.antt =====
-- `finish` of an accumulator returns.
use coroutines_kafka_consume.Prelude.{
  ℕ, ◌≡◌, refl, Option, some, List, [], ◌∷◌, ◌==◌, if_ind, Every,
}
use coroutines_kafka_consume.Prelude.Int.{ℤ, pos, int_eq}
use coroutines_kafka_consume.Dict.{Dict, lookup, insert}
use coroutines_kafka_consume.Audit.Record.{RecordKey, AuditRecord}
use coroutines_kafka_consume.Audit.Latency.{LatencySlaRule}
use coroutines_kafka_consume.Audit.Stats.{AuditStats, Limit}
use coroutines_kafka_consume.Audit.Stats.Run
use coroutines_kafka_consume.Audit.Stats.Run.{finish}
use coroutines_kafka_consume.Audit.Stats.Reconcile.Evictions.{Reconciles}
use coroutines_kafka_consume.Audit.Stats.Reconcile.Stream.{
  Reconciled, add-Reconciles, new_audit-Reconciles, finish-Reconciles,
}
use coroutines_kafka_consume.Audit.Accumulator.{
  AuditAccumulator, rules_of, new_accumulator, new_topic_stats, in_cohort, stats_or, stats_of, add,
  add_records, finish_all, finish_topics,
}

Topics : Dict ℤ AuditStats → Type 0
Topics = Every (λ (p : ℤ × AuditStats). Reconciles p.1)

insert-Topics :
    (k : ℤ) (s : AuditStats) (d : Dict ℤ AuditStats)
    → Reconciles s
    → Topics d
    → Topics (insert k s d)
unfolding Topics insert
insert-Topics k s [] c h = (c, tt)
insert-Topics k s ((j, t) ∷ d) c h =
    if_ind Topics (j == k) (c, h.1) (h.0, insert-Topics k s d c h.1)

lookup-Reconciles :
    (k : ℤ) (new : AuditStats) (d : Dict ℤ AuditStats)
    → Reconciles new
    → Topics d
    → Reconciles (stats_or new (lookup k d))
unfolding Topics lookup
lookup-Reconciles k new [] c h = c
lookup-Reconciles k new ((j, t) ∷ d) c h =
    if_ind (λ (o : Option AuditStats). Reconciles (stats_or new o)) (j == k) h.0
      (lookup-Reconciles k new d c h.1)

new-Reconciles : (a : AuditAccumulator) (topic_id : ℤ) → Reconciles (new_topic_stats a topic_id)
unfolding new_topic_stats
new-Reconciles a topic_id = new_audit-Reconciles _ _ (rules_of topic_id a.latency_sla_rules) _ _

add-Topics :
    (r : AuditRecord) (a : AuditAccumulator) → Topics a.by_topic → Topics (add r a).by_topic
unfolding add stats_of
add-Topics r a h =
    let k = r.key.topic_id in
    if_ind (λ (b : AuditAccumulator). Topics b.by_topic) (in_cohort a.cohort_keys r)
      (insert-Topics k (Run.add r (stats_of k a)) a.by_topic
        (add-Reconciles r (stats_of k a)
          (lookup-Reconciles k (new_topic_stats a k) a.by_topic (new-Reconciles a k) h))
        h)
      h

add_records-Topics :
    (rs : List AuditRecord) (a : AuditAccumulator)
    → Topics a.by_topic
    → Topics (add_records rs a).by_topic
unfolding add_records
add_records-Topics [] a h = h
add_records-Topics (r ∷ rs) a h = add_records-Topics rs (add r a) (add-Topics r a h)

-- Nothing is open, and the counts fit together, in the statistics of every topic.
abbrev pub IsFinished : Dict ℤ AuditStats → Type 0
IsFinished = Every (λ (p : ℤ × AuditStats). (p.1.open_by_key ≡ []) × Reconciled p.1)

finish_all-IsFinished :
    (d : Dict ℤ AuditStats)
    → Topics d
    → (result : Dict ℤ AuditStats) × (finish_all d ≡ some result) × IsFinished result
unfolding Topics finish_all
finish_all-IsFinished [] h = ([], refl, tt)
finish_all-IsFinished ((topic_id, s) ∷ d) h =
    let (s', returned, closed, balanced) = finish-Reconciles s h.0 in
    let (d', rest, finished) = finish_all-IsFinished d h.1 in
    ((topic_id, s') ∷ d', rw (returned, finish_all) (rw rest refl), ((closed, balanced), finished))

new-Topics :
    (ttl : Option ℕ) (rules : List LatencySlaRule) (limits : Dict ℤ Limit)
    (cohort : Option (List RecordKey))
    → Topics (new_accumulator ttl rules limits cohort).by_topic
unfolding Topics new_accumulator
new-Topics ttl rules limits cohort =
    let a : AuditAccumulator = record {
      open_record_ttl_ms = ttl;
      latency_sla_rules = rules;
      latency_limits_ms = limits;
      by_topic = [];
      record_count = 0;
      cohort_keys = cohort;
    } in
    (new-Reconciles a (pos 1), (new-Reconciles a (pos 2), (new-Reconciles a (pos 3), tt)))

-- Whatever records a new accumulator is given, with any configuration: `finish` of all its topics
-- returns normally, with no record open in any topic, and in each topic published_unique and a number
-- of unmatched outcomes are together terminal_unique and missing_terminal.
pub finish_topics-IsFinished :
    (ttl : Option ℕ) (rules : List LatencySlaRule) (limits : Dict ℤ Limit)
    (cohort : Option (List RecordKey)) (rs : List AuditRecord)
    → (result : AuditAccumulator) × (finish_topics
          (add_records rs (new_accumulator ttl rules limits cohort))
        ≡ some result)
      × IsFinished result.by_topic
unfolding finish_topics
finish_topics-IsFinished ttl rules limits cohort rs =
    let a = add_records rs (new_accumulator ttl rules limits cohort) in
    let (topics, returned, finished) = finish_all-IsFinished a.by_topic (
      add_records-Topics rs (new_accumulator ttl rules limits cohort)
        (new-Topics ttl rules limits cohort)) in
    (record a { by_topic = topics }, rw returned refl, finished)
