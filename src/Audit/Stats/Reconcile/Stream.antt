-- ===== src/Audit/Stats/Reconcile/Stream.antt =====
-- Published and terminal records in balance over a whole stream, and at the end.
use coroutines_kafka_consume.Prelude.{
  ℕ, ◌+◌, ◌≤◌, ◌≡◌, refl, ap, ◌∙◌, Bool, Option, some, List, [], ◌∷◌, arith, beq_self,
}
use mathlib.Core.Path.{subst}
use coroutines_kafka_consume.Prelude.Int.{max_ℤ}
use coroutines_kafka_consume.Dict.{Dict, lookup, erase}
use coroutines_kafka_consume.Dict.Unique.{Unique, erase_missing, sum_values}
use coroutines_kafka_consume.Audit.Record.{RecordKey, key_eq, AuditRecord}
use coroutines_kafka_consume.Audit.Latency.{LatencySlaRule}
use coroutines_kafka_consume.Audit.Offsets.{clear}
use coroutines_kafka_consume.Audit.Fairness.{KeyFairnessStats}
use coroutines_kafka_consume.Audit.Fairness
use coroutines_kafka_consume.Audit.Stats.{RecordState, AuditStats, Limit, with_fairness, new_audit}
use coroutines_kafka_consume.Audit.Stats.Evict.{count_unmatched, evict_open_record}
use coroutines_kafka_consume.Audit.Stats.Run.{
  advance_watermark, add, add_records, keys_of, evict_keys, finish,
}
use coroutines_kafka_consume.Audit.Stats.Balance.{waits, orphaned}
use coroutines_kafka_consume.Audit.Stats.Reconcile.Steps.{handle-InBalance}
use coroutines_kafka_consume.Audit.Stats.Reconcile.Evictions.{
  count_unmatched-Evicted, Reconciles, Still-Reconciles, evicted-Reconciles,
  evict_if_due-Reconciles,
}

pub add-Reconciles : (r : AuditRecord) (s : AuditStats) → Reconciles s → Reconciles (add r s)
unfolding add advance_watermark
add-Reconciles r s c =
    let s' = record s { watermark_ms = max_ℤ s.watermark_ms r.audit_timestamp_ms } in
    let c' = evict_if_due-Reconciles s.open_record_ttl_ms s' (Still-Reconciles s s' refl c) in
    record { unmatched = c'.unmatched; held = handle-InBalance r _ c'.held }

add_records-Reconciles :
    (rs : List AuditRecord) (s : AuditStats) → Reconciles s → Reconciles (add_records rs s)
unfolding add_records
add_records-Reconciles [] s c = c
add_records-Reconciles (r ∷ rs) s c = add_records-Reconciles rs (add r s) (add-Reconciles r s c)

-- The loop of `finish` returns, with nothing open.
record Drained (result : Option AuditStats) : Type 0 where
  after : AuditStats
  returned : result ≡ some after
  reconciles : Reconciles after
  closed : after.open_by_key ≡ []

lookup_first :
    (key : RecordKey) (state : RecordState) (d : Dict RecordKey RecordState)
    → lookup key ((key, state) ∷ d) ≡ some state
unfolding lookup
lookup_first key state d = ground (arith, beq_self key)

erase_first :
    (key : RecordKey) (state : RecordState) (d : Dict RecordKey RecordState)
    → Unique ((key, state) ∷ d)
    → erase key ((key, state) ∷ d) ≡ d
unfolding erase
erase_first key state d u = ground (arith, beq_self key, erase_missing key d u.0)

evict_keys-Drained :
    (d : Dict RecordKey RecordState) (s : AuditStats)
    → s.open_by_key ≡ d
    → Reconciles s
    → Drained (evict_keys (keys_of d) s)
unfolding evict_keys evict_open_record
evict_keys-Drained [] s same c = record {
  after = s;
  returned = refl;
  reconciles = c;
  closed = same;
}
evict_keys-Drained ((key, state) ∷ d) s same c =
    let b = c.held.balanced in
    let found = ap (lookup key) same ∙ lookup_first key state d in
    let s₀ = record s { open_by_key = erase key s.open_by_key } in
    let e = count_unmatched-Evicted state s₀ (b.all_open key state found).incomplete in
    rw (found, evict_open_record)
      (evict_keys-Drained d (count_unmatched state s₀)
        (e.same_open ∙ ap (erase key) same ∙ erase_first key state d (subst Unique same b.unique))
        (evicted-Reconciles key state s c found))

pub new_audit-Reconciles :
    (ttl : Option ℕ) (limit : Option Limit) (rules : List LatencySlaRule)
    (fairness : Option KeyFairnessStats) (collects : Bool)
    → Reconciles (new_audit ttl limit rules fairness collects)
unfolding new_audit lookup
new_audit-Reconciles ttl limit rules fairness collects = record {
  unmatched = 0;
  held = record {
    balanced = record {
      unique = tt;
      all_open = λ key state found. ground arith;
      balance = refl;
      within = omega arith;
      processed = omega arith;
      failed = omega arith;
      dropped = omega arith;
    };
  };
}

-- What the counters say of one another when the statistics are finished.
pub record Reconciled (s : AuditStats) : Type 0 where
  pub unmatched : ℕ
  pub balance : s.published_unique + unmatched ≡ s.terminal_unique + s.missing_terminal
  pub most :
      unmatched ≤ s.processed_without_publish + s.failed_without_publish + s.dropped_without_publish
  pub processed : s.processed_without_publish ≤ unmatched
  pub failed : s.failed_without_publish ≤ unmatched
  pub dropped : s.dropped_without_publish ≤ unmatched

Balanced-Reconciled : (s : AuditStats) → Reconciles s → s.open_by_key ≡ [] → Reconciled s
Balanced-Reconciled s c closed =
    let b = c.held.balanced in
    record {
      unmatched = c.unmatched;
      balance =
          omega (arith, b.balance, ap (sum_values waits) closed, ap (sum_values orphaned) closed);
      most = b.within;
      processed = b.processed;
      failed = b.failed;
      dropped = b.dropped;
    }

pub finish-Reconciles :
    (s : AuditStats)
    → Reconciles s
    → (result : AuditStats) × (finish s ≡ some result)
      × (result.open_by_key ≡ [])
      × Reconciled result
unfolding finish
finish-Reconciles s c =
    let d = evict_keys-Drained s.open_by_key s refl c in
    let done = Balanced-Reconciled d.after d.reconciles d.closed in
    let after = d.after in
    let finished = record after {
      recent_closed_by_key = [];
      closed_offsets = clear after.closed_offsets;
      key_fairness = with_fairness (Fairness.finish after.watermark_ms) after.key_fairness;
    } in
    (
      finished,
      rw (d.returned, finish) refl,
      d.closed,
      record {
        unmatched = done.unmatched;
        balance = done.balance;
        most = done.most;
        processed = done.processed;
        failed = done.failed;
        dropped = done.dropped;
      },
    )

-- Whatever records a new `AuditStats` is given, with any configuration: `finish` returns normally,
-- with no record open, and there is a number `unmatched` such that published_unique + unmatched is
-- terminal_unique + missing_terminal; `unmatched` is at least each of processed_without_publish,
-- failed_without_publish and dropped_without_publish, and at most their sum.
pub finish-Reconciled :
    (ttl : Option ℕ) (limit : Option Limit) (rules : List LatencySlaRule)
    (fairness : Option KeyFairnessStats) (collects : Bool) (rs : List AuditRecord)
    → (result : AuditStats) × (finish (add_records rs (new_audit ttl limit rules fairness collects))
        ≡ some result)
      × (result.open_by_key ≡ [])
      × Reconciled result
finish-Reconciled ttl limit rules fairness collects rs =
    let start = new_audit ttl limit rules fairness collects in
    finish-Reconciles (add_records rs start)
      (add_records-Reconciles rs start (new_audit-Reconciles ttl limit rules fairness collects))
