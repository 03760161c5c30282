-- ===== src/Audit/Freshness.antt =====
-- `FreshnessGapStats` of demo/infra/shared/audit/analyze-audit.py: how many records of a message
-- key were dropped before the next one was processed, and for how long.
use coroutines_kafka_consume.Prelude.{
  ℕ, ◌+◌, Option, none, some, String, [], nat_eq, string_eq, nat_beq, if◌then◌else◌,
}
use coroutines_kafka_consume.Prelude.Int.{ℤ, ◌-ℤ◌, clip}
use coroutines_kafka_consume.Dict.{Dict, lookup, insert, erase, get_or}
use coroutines_kafka_consume.Dict.Counts.{bump}
use coroutines_kafka_consume.Audit.Record.{AuditRecord}
use coroutines_kafka_consume.Audit.Age
use coroutines_kafka_consume.Audit.Age.{OnlineAgeStats, new_ages}

pub record FreshnessGapStats : Type 0 where
  pub processed_records : ℕ
  pub pending_drops_by_key : Dict String ℕ
  pub first_pending_drop_ms_by_key : Dict String ℤ
  pub last_pending_drop_ms_by_key : Dict String ℤ
  pub dropped_before_processed_histogram : Dict ℕ ℕ
  pub first_drop_to_processed_ms : OnlineAgeStats
  pub last_drop_to_processed_ms : OnlineAgeStats

abbrev pub new_freshness : FreshnessGapStats
new_freshness = record {
  processed_records = 0;
  pending_drops_by_key = [];
  first_pending_drop_ms_by_key = [];
  last_pending_drop_ms_by_key = [];
  dropped_before_processed_histogram = [];
  first_drop_to_processed_ms = new_ages;
  last_drop_to_processed_ms = new_ages;
}

-- if drop_ms is not None: ages.add(max(0, now - drop_ms))
abbrev add_since : Option ℤ → ℤ → OnlineAgeStats → OnlineAgeStats
add_since none now ages = ages
add_since (some drop_ms) now ages = Age.add (clip (now -ℤ drop_ms)) ages

unfoldable pub add_processed : AuditRecord → FreshnessGapStats → FreshnessGapStats
unfolding Age.add
add_processed r s =
    let k = r.message_key in
    let now = r.audit_timestamp_ms in
    let dropped = get_or k 0 s.pending_drops_by_key in
    let first = lookup k s.first_pending_drop_ms_by_key in
    let last = lookup k s.last_pending_drop_ms_by_key in
    record s {
      processed_records = s.processed_records + 1;
      pending_drops_by_key = erase k s.pending_drops_by_key;
      dropped_before_processed_histogram = bump dropped s.dropped_before_processed_histogram;
      first_pending_drop_ms_by_key = erase k s.first_pending_drop_ms_by_key;
      last_pending_drop_ms_by_key = erase k s.last_pending_drop_ms_by_key;
      first_drop_to_processed_ms = add_since first now s.first_drop_to_processed_ms;
      last_drop_to_processed_ms = add_since last now s.last_drop_to_processed_ms;
    }

unfoldable pub add_dropped : AuditRecord → FreshnessGapStats → FreshnessGapStats
add_dropped r s =
    let k = r.message_key in
    let now = r.audit_timestamp_ms in
    let pending = get_or k 0 s.pending_drops_by_key in
    record s {
      pending_drops_by_key = insert k (pending + 1) s.pending_drops_by_key;
      first_pending_drop_ms_by_key =
          (if nat_beq pending 0
            then insert k now s.first_pending_drop_ms_by_key
            else s.first_pending_drop_ms_by_key);
      last_pending_drop_ms_by_key = insert k now s.last_pending_drop_ms_by_key;
    }
