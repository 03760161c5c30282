-- ===== src/Audit/Fairness/Conserved.antt =====
-- The sums over message keys against the stream: every outcome is under one key, and every drop is
-- before one processed record or is still pending.
use coroutines_kafka_consume.Prelude.{
  ℕ, ◌+◌, ◌≡◌, refl, Bool, true, false, String, List, [], ◌∷◌, arith, nat_eq, string_eq, count_if,
}
use coroutines_kafka_consume.Dict.{Dict, lookup, get_or}
use coroutines_kafka_consume.Dict.Counts.{total, weigh, total-bump, weigh-bump}
use coroutines_kafka_consume.Dict.Unique.{
  Unique, insert-Unique, erase-Unique, sum_values, sum_values-insert, sum_values-erase, measure,
}
use coroutines_kafka_consume.Audit.Record.{AuditRecord, RecordType}
use coroutines_kafka_consume.Audit.Late.{to_number}
use coroutines_kafka_consume.Audit.Freshness
use coroutines_kafka_consume.Audit.Freshness.{FreshnessGapStats, new_freshness}
use coroutines_kafka_consume.Audit.Fairness.{
  KeyOutcomeStats, new_outcomes, KeyFairnessStats, new_fairness, stats_of, store, count_outcome,
  observe_gap, add_terminal,
}

abbrev pub is_type : RecordType → AuditRecord → Bool
is_type RecordType.complete r = elim r.record_type [ RecordType.complete ↦ true | _ ↦ false ]
is_type RecordType.fail r = elim r.record_type [ RecordType.fail ↦ true | _ ↦ false ]
is_type RecordType.drop r = elim r.record_type [ RecordType.drop ↦ true | _ ↦ false ]
is_type _ r = false

unfoldable pub add_terminals : List AuditRecord → KeyFairnessStats → KeyFairnessStats
unfolding add_terminal
add_terminals [] s = s
add_terminals (r ∷ rs) s = add_terminals rs (add_terminal r s)

abbrev same : ℕ → ℕ
same n = n

-- The sums that a stream of outcomes moves: the outcomes of all keys, the entries of the histogram,
-- and the drops, those that the histogram has and those that are pending.
pub data Sum : Type 0 where
  all_processed all_failed all_dropped gaps drops : Sum

abbrev pub sum_of : Sum → KeyFairnessStats → ℕ
sum_of Sum.all_processed s = sum_values (λ k. k.processed) s.by_message_key
sum_of Sum.all_failed s = sum_values (λ k. k.failed) s.by_message_key
sum_of Sum.all_dropped s = sum_values (λ k. k.dropped) s.by_message_key
sum_of Sum.gaps s = total s.freshness_gap.dropped_before_processed_histogram
sum_of Sum.drops s =
    weigh same s.freshness_gap.dropped_before_processed_histogram
    + sum_values same s.freshness_gap.pending_drops_by_key

-- The records that a sum counts.
abbrev pub summed : Sum → RecordType
summed Sum.all_processed = RecordType.complete
summed Sum.all_failed = RecordType.fail
summed Sum.all_dropped = RecordType.drop
summed Sum.gaps = RecordType.complete
summed Sum.drops = RecordType.drop

-- A dropped record is pending until the next processed record of its key.
pending : (k : String) (d : Dict String ℕ) → measure same (lookup k d) ≡ get_or k 0 d
unfolding get_or
pending k d = ground arith

gaps_moved :
    (r : AuditRecord) (g : FreshnessGapStats)
    → Unique g.pending_drops_by_key
    → (total (observe_gap r g).dropped_before_processed_histogram
        ≡ total g.dropped_before_processed_histogram + to_number (is_type RecordType.complete r))
      × (weigh same (observe_gap r g).dropped_before_processed_histogram
            + sum_values same (observe_gap r g).pending_drops_by_key
          ≡ weigh same g.dropped_before_processed_histogram
            + sum_values same g.pending_drops_by_key
            + to_number (is_type RecordType.drop r))
      × Unique (observe_gap r g).pending_drops_by_key
unfolding observe_gap Freshness.add_processed Freshness.add_dropped
gaps_moved r g u = ground (
  arith,
  pending r.message_key g.pending_drops_by_key,
  total-bump (get_or r.message_key 0 g.pending_drops_by_key) g.dropped_before_processed_histogram,
  weigh-bump same (get_or r.message_key 0 g.pending_drops_by_key)
      g.dropped_before_processed_histogram,
  sum_values-insert same r.message_key (get_or r.message_key 0 g.pending_drops_by_key + 1)
      g.pending_drops_by_key,
  sum_values-erase same r.message_key g.pending_drops_by_key u,
  insert-Unique r.message_key (get_or r.message_key 0 g.pending_drops_by_key + 1)
      g.pending_drops_by_key u,
  erase-Unique r.message_key g.pending_drops_by_key u,
)

outcomes_moved :
    (f : KeyOutcomeStats → ℕ) (r : AuditRecord) (s : KeyFairnessStats) (n : ℕ)
    → f new_outcomes ≡ 0
    → f (count_outcome r.record_type r.audit_timestamp_ms (stats_of r.message_key s))
      ≡ f (stats_of r.message_key s) + n
    → sum_values f (add_terminal r s).by_message_key ≡ sum_values f s.by_message_key + n
unfolding add_terminal store stats_of
outcomes_moved f r s n fresh moved = ground (
  arith,
  sum_values-insert f r.message_key
      (count_outcome r.record_type r.audit_timestamp_ms (stats_of r.message_key s))
      s.by_message_key,
)

sum_moved :
    (x : Sum) (r : AuditRecord) (s : KeyFairnessStats)
    → Unique s.freshness_gap.pending_drops_by_key
    → sum_of x (add_terminal r s) ≡ sum_of x s + to_number (is_type (summed x) r)
unfolding add_terminal store count_outcome
sum_moved Sum.all_processed r s u = outcomes_moved (λ k. k.processed) r s _ refl (ground arith)
sum_moved Sum.all_failed r s u = outcomes_moved (λ k. k.failed) r s _ refl (ground arith)
sum_moved Sum.all_dropped r s u = outcomes_moved (λ k. k.dropped) r s _ refl (ground arith)
sum_moved Sum.gaps r s u = (gaps_moved r s.freshness_gap u).0
sum_moved Sum.drops r s u = (gaps_moved r s.freshness_gap u).1

sums_moved :
    (x : Sum) (rs : List AuditRecord) (s : KeyFairnessStats)
    → Unique s.freshness_gap.pending_drops_by_key
    → sum_of x (add_terminals rs s) ≡ sum_of x s + count_if (is_type (summed x)) rs
unfolding add_terminals add_terminal store
sums_moved x [] s u = omega arith
sums_moved x (r ∷ rs) s u = ground (
  arith,
  sum_moved x r s u,
  sums_moved x rs (add_terminal r s) (gaps_moved r s.freshness_gap u).2,
)

start_zero : (x : Sum) → sum_of x new_fairness ≡ 0
start_zero Sum.all_processed = refl
start_zero Sum.all_failed = refl
start_zero Sum.all_dropped = refl
start_zero Sum.gaps = refl
start_zero Sum.drops = refl

-- Over any stream of outcomes from new fairness statistics: the processed, failed and dropped counts
-- of all message keys sum to the number of the records of that type; the histogram of the drops
-- before a processed record has one entry for each processed record; and the drops of its entries
-- together with those that are still pending are the dropped records.
pub sum_of-add_terminals :
    (x : Sum) (rs : List AuditRecord)
    → sum_of x (add_terminals rs new_fairness) ≡ count_if (is_type (summed x)) rs
sum_of-add_terminals x rs = omega (arith, start_zero x, sums_moved x rs new_fairness tt)
