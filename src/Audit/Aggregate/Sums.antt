-- ===== src/Audit/Aggregate/Sums.antt =====
-- The aggregate has the sums of the topics.
use coroutines_kafka_consume.Prelude.{
  ℕ, ◌+◌, ◌≡◌, refl, ap, ◌∙◌, arith, Bool, true, false, Option, none, some, String, List, [], ◌∷◌,
  HasEq, ◌==◌, string_eq, nat_eq, if◌then◌else◌, Option-cases, inl, inr, Every, Every-imp,
}
use coroutines_kafka_consume.Prelude.Int.{ℤ}
use coroutines_kafka_consume.Dict.{Dict, lookup, insert, lookup-insert}
use coroutines_kafka_consume.Dict.Counts.{add_to, total, total-add_to}
use coroutines_kafka_consume.Dict.Unique.{sum_values}
use coroutines_kafka_consume.Audit.Latency.{LatencySlaRule, LatencySlaStats}
use coroutines_kafka_consume.Audit.Stats.{AuditStats, sla_by_id, new_audit, is_some}
use coroutines_kafka_consume.Audit.Accumulator.{AuditAccumulator}
use coroutines_kafka_consume.Audit.Aggregate.{
  add_scalars, merge, add_counts, add_late, add_orders, add_sla, add_slas, add_topic, add_topics,
  aggregate_stats,
}

-- What is added up over the topics.
pub data Total : Type 0 where
  published_records processed_records failed_records : Total
  dropped_records retry_attempt_records published_unique : Total
  processed_unique failed_unique dropped_unique : Total
  terminal_unique missing_terminal duplicate_published : Total
  duplicate_processed duplicate_failed duplicate_dropped : Total
  processed_without_publish failed_without_publish dropped_without_publish : Total
  conflicting_terminal_outcomes replay_dropped_after_processed lifecycle_handoff_reprocessed : Total
  handoff_records handoff_unique unexpected_terminal_outcomes : Total
  e2e_invalid_negative : Total
  drops handoffs replays latencies : Total
  partition_late partition_late_processed partition_late_failed : Total
  key_late key_late_processed key_late_failed : Total

abbrev pub value : Total → AuditStats → ℕ
value Total.published_records s = s.published_records
value Total.processed_records s = s.processed_records
value Total.failed_records s = s.failed_records
value Total.dropped_records s = s.dropped_records
value Total.retry_attempt_records s = s.retry_attempt_records
value Total.published_unique s = s.published_unique
value Total.processed_unique s = s.processed_unique
value Total.failed_unique s = s.failed_unique
value Total.dropped_unique s = s.dropped_unique
value Total.terminal_unique s = s.terminal_unique
value Total.missing_terminal s = s.missing_terminal
value Total.duplicate_published s = s.duplicate_published
value Total.duplicate_processed s = s.duplicate_processed
value Total.duplicate_failed s = s.duplicate_failed
value Total.duplicate_dropped s = s.duplicate_dropped
value Total.processed_without_publish s = s.processed_without_publish
value Total.failed_without_publish s = s.failed_without_publish
value Total.dropped_without_publish s = s.dropped_without_publish
value Total.conflicting_terminal_outcomes s = s.conflicting_terminal_outcomes
value Total.replay_dropped_after_processed s = s.replay_dropped_after_processed
value Total.lifecycle_handoff_reprocessed s = s.lifecycle_handoff_reprocessed
value Total.handoff_records s = s.handoff_records
value Total.handoff_unique s = s.handoff_unique
value Total.unexpected_terminal_outcomes s = s.unexpected_terminal_outcomes
value Total.e2e_invalid_negative s = s.e2e_invalid_negative
value Total.drops s = total s.dropped_by_reason
value Total.handoffs s = total s.handoff_by_reason
value Total.replays s = total s.replay_dropped_after_processed_by_reason
value Total.latencies s = total s.e2e_latency_histogram
value Total.partition_late s = s.partition_order.out_of_order
value Total.partition_late_processed s = s.partition_order.out_of_order_processed
value Total.partition_late_failed s = s.partition_order.out_of_order_failed
value Total.key_late s = s.key_order.out_of_order
value Total.key_late_processed s = s.key_order.out_of_order_processed
value Total.key_late_failed s = s.key_order.out_of_order_failed

total-merge {ℓ} :
    {K : Type ℓ} ⦃e : HasEq K⦄ (source target : Dict K ℕ)
    → total (merge source target) ≡ total target + total source
unfolding merge
total-merge [] target = omega arith
total-merge ((k, n) ∷ source) target =
    omega (arith, total-merge source (add_to k n target), total-add_to k n target)

-- The rules of one are among those of the other.
Known : Dict String LatencySlaStats → Dict String LatencySlaStats → Type 0
Known sources target =
    Every (λ (p : String × LatencySlaStats). is_some (lookup p.0 target) ≡ true) sources

known_later :
    (same : Bool) (v : LatencySlaStats) (o : Option LatencySlaStats)
    → is_some o ≡ true
    → is_some (if same then some v else o) ≡ true
known_later true v o h = refl
known_later false v o h = h

Known-insert :
    (k : String) (v : LatencySlaStats) (sources target : Dict String LatencySlaStats)
    → Known sources target
    → Known sources (insert k v target)
unfolding Known
Known-insert k v sources target = Every-imp _ _ sources (λ p h.
    ap is_some (lookup-insert k p.0 v target) ∙ known_later (k == p.0) v (lookup p.0 target) h)

-- No rule is lost.
Keeps : Dict String LatencySlaStats → Dict String LatencySlaStats → Type 0
Keeps old new = (sources : Dict String LatencySlaStats) → Known sources old → Known sources new

add_slas-Keeps :
    (sources target : Dict String LatencySlaStats)
    → Known sources target
    → (result : Dict String LatencySlaStats) × (add_slas sources target ≡ some result)
      × Keeps target result
unfolding Known Keeps add_slas
add_slas-Keeps [] target h = (target, refl, λ sources k. k)
add_slas-Keeps ((rule_id, source) ∷ sources) target h =
    elim (Option-cases (lookup rule_id target)) [
      | inl missing ↦ absurd (cc (h.0, missing))
      | inr (old, found) ↦
          let v = add_sla old source in
          let (result, returned, keeps) =
            add_slas-Keeps sources (insert rule_id v target)
              (Known-insert rule_id v sources target h.1) in
          (
            result,
            rw (found, add_slas) returned,
            λ others k. keeps others (Known-insert rule_id v others target k),
          )
    ]

-- What a round adds, but for the rules.
abbrev added : AuditStats → AuditStats → Dict String LatencySlaStats → AuditStats
added aggregate stats slas =
    record (add_orders (add_counts (add_scalars aggregate stats) stats) stats) {
      latency_sla = slas;
    }

value-added :
    (t : Total) (aggregate stats : AuditStats) (slas : Dict String LatencySlaStats)
    → value t (added aggregate stats slas) ≡ value t aggregate + value t stats
unfolding add_scalars add_counts add_orders add_late
value-added Total.published_records a s slas = refl
value-added Total.processed_records a s slas = refl
value-added Total.failed_records a s slas = refl
value-added Total.dropped_records a s slas = refl
value-added Total.retry_attempt_records a s slas = refl
value-added Total.published_unique a s slas = refl
value-added Total.processed_unique a s slas = refl
value-added Total.failed_unique a s slas = refl
value-added Total.dropped_unique a s slas = refl
value-added Total.terminal_unique a s slas = refl
value-added Total.missing_terminal a s slas = refl
value-added Total.duplicate_published a s slas = refl
value-added Total.duplicate_processed a s slas = refl
value-added Total.duplicate_failed a s slas = refl
value-added Total.duplicate_dropped a s slas = refl
value-added Total.processed_without_publish a s slas = refl
value-added Total.failed_without_publish a s slas = refl
value-added Total.dropped_without_publish a s slas = refl
value-added Total.conflicting_terminal_outcomes a s slas = refl
value-added Total.replay_dropped_after_processed a s slas = refl
value-added Total.lifecycle_handoff_reprocessed a s slas = refl
value-added Total.handoff_records a s slas = refl
value-added Total.handoff_unique a s slas = refl
value-added Total.unexpected_terminal_outcomes a s slas = refl
value-added Total.e2e_invalid_negative a s slas = refl
value-added Total.drops a s slas = total-merge s.dropped_by_reason a.dropped_by_reason
value-added Total.handoffs a s slas = total-merge s.handoff_by_reason a.handoff_by_reason
value-added Total.replays a s slas =
    total-merge s.replay_dropped_after_processed_by_reason
      a.replay_dropped_after_processed_by_reason
value-added Total.latencies a s slas = total-merge s.e2e_latency_histogram a.e2e_latency_histogram
value-added Total.partition_late a s slas = refl
value-added Total.partition_late_processed a s slas = refl
value-added Total.partition_late_failed a s slas = refl
value-added Total.key_late a s slas = refl
value-added Total.key_late_processed a s slas = refl
value-added Total.key_late_failed a s slas = refl

AllKnown : Dict ℤ AuditStats → Dict String LatencySlaStats → Type 0
AllKnown topics target = Every (λ (p : ℤ × AuditStats). Known p.1.latency_sla target) topics

add_topics-sum :
    (topics : Dict ℤ AuditStats) (aggregate : AuditStats)
    → AllKnown topics aggregate.latency_sla
    → (result : AuditStats) × (add_topics topics aggregate ≡ some result)
      × (((t : Total) → value t result ≡ value t aggregate + sum_values (value t) topics)
          × (result.e2e_exceeded ≡ aggregate.e2e_exceeded))
unfolding AllKnown Keeps add_topics add_topic
add_topics-sum [] aggregate h = (aggregate, refl, ((λ t. omega arith), refl))
add_topics-sum ((topic_id, stats) ∷ topics) aggregate h =
    let (slas, found, keeps) = add_slas-Keeps stats.latency_sla aggregate.latency_sla h.0 in
    let next = added aggregate stats slas in
    let (result, returned, (sums, exceeded)) =
      add_topics-sum topics next (Every-imp _ _ topics (λ p k. keeps p.1.latency_sla k) h.1) in
    (
      result,
      rw (found, add_topics) returned,
      ((λ t. omega (arith, sums t, value-added t aggregate stats slas)), exceeded),
    )

start-zero :
    (t : Total) (ttl : Option ℕ) (rules : List LatencySlaRule)
    → value t (new_audit ttl none rules none false) ≡ 0
unfolding new_audit
start-zero Total.published_records ttl rules = refl
start-zero Total.processed_records ttl rules = refl
start-zero Total.failed_records ttl rules = refl
start-zero Total.dropped_records ttl rules = refl
start-zero Total.retry_attempt_records ttl rules = refl
start-zero Total.published_unique ttl rules = refl
start-zero Total.processed_unique ttl rules = refl
start-zero Total.failed_unique ttl rules = refl
start-zero Total.dropped_unique ttl rules = refl
start-zero Total.terminal_unique ttl rules = refl
start-zero Total.missing_terminal ttl rules = refl
start-zero Total.duplicate_published ttl rules = refl
start-zero Total.duplicate_processed ttl rules = refl
start-zero Total.duplicate_failed ttl rules = refl
start-zero Total.duplicate_dropped ttl rules = refl
start-zero Total.processed_without_publish ttl rules = refl
start-zero Total.failed_without_publish ttl rules = refl
start-zero Total.dropped_without_publish ttl rules = refl
start-zero Total.conflicting_terminal_outcomes ttl rules = refl
start-zero Total.replay_dropped_after_processed ttl rules = refl
start-zero Total.lifecycle_handoff_reprocessed ttl rules = refl
start-zero Total.handoff_records ttl rules = refl
start-zero Total.handoff_unique ttl rules = refl
start-zero Total.unexpected_terminal_outcomes ttl rules = refl
start-zero Total.e2e_invalid_negative ttl rules = refl
start-zero Total.drops ttl rules = refl
start-zero Total.handoffs ttl rules = refl
start-zero Total.replays ttl rules = refl
start-zero Total.latencies ttl rules = refl
start-zero Total.partition_late ttl rules = refl
start-zero Total.partition_late_processed ttl rules = refl
start-zero Total.partition_late_failed ttl rules = refl
start-zero Total.key_late ttl rules = refl
start-zero Total.key_late_processed ttl rules = refl
start-zero Total.key_late_failed ttl rules = refl

-- If each rule that a topic measures is one of the accumulator's, then the aggregate of an accumulator
-- is returned. The following are the sums over the topics: each of the 25 counters of `scalar_fields`;
-- for the drop, handoff and replay reasons and for the latency histogram, the number of all entries;
-- the late records of the partition order and of the key order, in all, processed and failed. But
-- `e2e_exceeded` of the aggregate is 0, whatever the topics have.
pub aggregate_stats-sum :
    (a : AuditAccumulator)
    → Every
        (λ (p : ℤ × AuditStats).
          Every
            (λ (q : String × LatencySlaStats).
              is_some (lookup q.0 (sla_by_id a.latency_sla_rules [])) ≡ true)
            p.1.latency_sla)
        a.by_topic
    → (result : AuditStats) × (aggregate_stats a ≡ some result)
      × (((t : Total) → value t result ≡ sum_values (value t) a.by_topic)
          × (result.e2e_exceeded ≡ 0))
unfolding AllKnown Known aggregate_stats new_audit
aggregate_stats-sum a known =
    let start = new_audit a.open_record_ttl_ms none a.latency_sla_rules none false in
    let (result, returned, (sums, exceeded)) = add_topics-sum a.by_topic start known in
    (
      result,
      returned,
      (
        (λ t. omega (arith, sums t, start-zero t a.open_record_ttl_ms a.latency_sla_rules)),
        exceeded,
      ),
    )
