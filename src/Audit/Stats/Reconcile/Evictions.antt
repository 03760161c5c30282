-- ===== src/Audit/Stats/Reconcile/Evictions.antt =====
-- Evictions keep published and terminal records in balance.
use coroutines_kafka_consume.Prelude.{
  ℕ, ◌+◌, ◌≤◌, ◌≡◌, refl, sym, ap, false, Option, none, some, List, [], ◌∷◌, arith, if_ind,
  Option-cases, inl, inr,
}
use mathlib.Core.Path.{subst}
use coroutines_kafka_consume.Prelude.Int.{ℤ, pos, ◌-ℤ◌, leb_ℤ, ltb_ℤ}
use coroutines_kafka_consume.Dict.{lookup, erase}
use coroutines_kafka_consume.Dict.Unique.{
  Unique, erase-Unique, sum_values, sum_values-erase, measure,
}
use coroutines_kafka_consume.Audit.Record.{RecordKey, key_eq}
use coroutines_kafka_consume.Audit.Stats.{RecordState, AuditStats, is_complete}
use coroutines_kafka_consume.Audit.Stats.Evict.{
  count_unmatched, or_same, evict_open_record, evict_open_entry, evict_open, evict_closed,
  evict_expired,
}
use coroutines_kafka_consume.Audit.Stats.Run.{evict_if_due}
use coroutines_kafka_consume.Audit.Stats.Frame.{counts-evict_closed, open-evict_closed}
use coroutines_kafka_consume.Audit.Stats.Balance.{waits, orphaned}
use coroutines_kafka_consume.Audit.Stats.Still.{Still}
use coroutines_kafka_consume.Audit.Stats.Reconcile.{
  AllOpen, erase-AllOpen, InBalance, Still-InBalance,
}

-- The counters of an evicted state.
pub record Evicted (state : RecordState) (s s' : AuditStats) : Type 0 where
  pub published : s'.published_unique ≡ s.published_unique
  pub terminal_same : s'.terminal_unique ≡ s.terminal_unique
  pub same_open : s'.open_by_key ≡ s.open_by_key
  pub missing : s'.missing_terminal ≡ s.missing_terminal + waits state
  pub processed_most : s'.processed_without_publish ≤ s.processed_without_publish + orphaned state
  pub failed_most : s'.failed_without_publish ≤ s.failed_without_publish + orphaned state
  pub dropped_most : s'.dropped_without_publish ≤ s.dropped_without_publish + orphaned state
  pub least :
      s.processed_without_publish
        + s.failed_without_publish
        + s.dropped_without_publish
        + orphaned state
      ≤ s'.processed_without_publish + s'.failed_without_publish + s'.dropped_without_publish

pub count_unmatched-Evicted :
    (state : RecordState) (s : AuditStats)
    → is_complete state ≡ false
    → Evicted state s (count_unmatched state s)
unfolding count_unmatched
count_unmatched-Evicted state s going = ground arith

evicted-InBalance :
    {n : ℕ} (key : RecordKey) (state : RecordState) (s : AuditStats)
    → InBalance n s
    → lookup key s.open_by_key ≡ some state
    → InBalance
        (n + orphaned state)
        (count_unmatched state (record s { open_by_key = erase key s.open_by_key }))
evicted-InBalance {n = n} key state s held found =
    let b = held.balanced in
    let s₀ = record s { open_by_key = erase key s.open_by_key } in
    let e = count_unmatched-Evicted state s₀ (b.all_open key state found).incomplete in
    record {
      balanced = record {
        unique = subst Unique (sym e.same_open) (erase-Unique key s.open_by_key b.unique);
        all_open = subst AllOpen (sym e.same_open) (erase-AllOpen key s.open_by_key b.all_open);
        balance = omega (
          arith,
          b.balance,
          e.published,
          e.terminal_same,
          e.missing,
          ap (sum_values waits) e.same_open,
          ap (sum_values orphaned) e.same_open,
          ap (measure waits) found,
          ap (measure orphaned) found,
          sum_values-erase waits key s.open_by_key b.unique,
          sum_values-erase orphaned key s.open_by_key b.unique,
        );
        within = omega (arith, b.within, e.least);
        processed = omega (arith, b.processed, e.processed_most);
        failed = omega (arith, b.failed, e.failed_most);
        dropped = omega (arith, b.dropped, e.dropped_most);
      };
    }

-- In balance, with some number of unmatched records.
pub record Reconciles (s : AuditStats) : Type 0 where
  pub unmatched : ℕ
  pub held : InBalance unmatched s

pub Still-Reconciles : (s s' : AuditStats) → Still s s' → Reconciles s → Reconciles s'
Still-Reconciles s s' still c = record {
  unmatched = c.unmatched;
  held = Still-InBalance s s' still c.held;
}

pub evicted-Reconciles :
    (key : RecordKey) (state : RecordState) (s : AuditStats)
    → Reconciles s
    → lookup key s.open_by_key ≡ some state
    → Reconciles (count_unmatched state (record s { open_by_key = erase key s.open_by_key }))
evicted-Reconciles key state s c found = record {
  unmatched = c.unmatched + orphaned state;
  held = evicted-InBalance key state s c.held found;
}

evict_or_same-Reconciles :
    (key : RecordKey) (s : AuditStats)
    → Reconciles s
    → Reconciles (or_same s (evict_open_record key s))
unfolding evict_open_record
evict_or_same-Reconciles key s c = elim (Option-cases (lookup key s.open_by_key)) [
  | inl missing ↦ rw (missing, evict_open_record) c
  | inr (state, found) ↦ rw (found, evict_open_record) (evicted-Reconciles key state s c found)
]

evict_open_entry-Reconciles :
    (last_seen_ms : ℤ) (key : RecordKey) (s : AuditStats)
    → Reconciles s
    → Reconciles (evict_open_entry last_seen_ms key s)
unfolding evict_open_entry
evict_open_entry-Reconciles last_seen_ms key s c =
    if_ind Reconciles _ (evict_or_same-Reconciles key s c) c

evict_open-Reconciles :
    (cutoff_ms : ℤ) (queue : List (ℤ × RecordKey)) (s : AuditStats)
    → Reconciles s
    → Reconciles (evict_open cutoff_ms queue s)
unfolding evict_open
evict_open-Reconciles cutoff_ms [] s c = Still-Reconciles s _ refl c
evict_open-Reconciles cutoff_ms ((last_seen_ms, key) ∷ queue) s c =
    let kept = record s { open_expiry_queue = (last_seen_ms, key) ∷ queue } in
    if_ind Reconciles (ltb_ℤ last_seen_ms cutoff_ms)
      (evict_open-Reconciles cutoff_ms queue (evict_open_entry last_seen_ms key s)
        (evict_open_entry-Reconciles last_seen_ms key s c))
      (Still-Reconciles s kept refl c)

evict_closed-Still :
    (cutoff_ms : ℤ) (queue : List (ℤ × RecordKey)) (s : AuditStats)
    → Still s (evict_closed cutoff_ms queue s)
evict_closed-Still cutoff_ms queue s =
    ground (arith, counts-evict_closed cutoff_ms queue s, open-evict_closed cutoff_ms queue s)

evict_expired-Reconciles :
    (cutoff_ms : ℤ) (s : AuditStats) → Reconciles s → Reconciles (evict_expired cutoff_ms s)
unfolding evict_expired
evict_expired-Reconciles cutoff_ms s c =
    let s₁ = evict_open cutoff_ms s.open_expiry_queue s in
    let queue = s₁.recent_closed_expiry_queue in
    Still-Reconciles (evict_closed cutoff_ms queue s₁) _ refl (
      Still-Reconciles s₁ _ (evict_closed-Still cutoff_ms queue s₁)
        (evict_open-Reconciles cutoff_ms s.open_expiry_queue s c))

pub evict_if_due-Reconciles :
    (ttl : Option ℕ) (s : AuditStats) → Reconciles s → Reconciles (evict_if_due ttl s)
unfolding evict_if_due
evict_if_due-Reconciles none s c = c
evict_if_due-Reconciles (some ttl) s c =
    let evicted = evict_expired (s.watermark_ms -ℤ pos ttl) s in
    if_ind Reconciles (leb_ℤ (pos s.eviction_interval_ms) (s.watermark_ms -ℤ s.last_eviction_ms))
      (Still-Reconciles evicted (record evicted { last_eviction_ms = s.watermark_ms }) refl
        (evict_expired-Reconciles (s.watermark_ms -ℤ pos ttl) s c))
      c
