-- ===== src/Audit/Stats/Frame.antt =====
-- What the steps of `AuditStats` leave alone: its counters, as one record.
use coroutines_kafka_consume.Prelude.{
  ℕ, ◌≡◌, refl, ap, ◌∙◌, Option, none, some, Option-cases, inl, inr, Bool, true, false, String,
  List, [], ◌∷◌, arith, if◌then◌else◌,
}
use coroutines_kafka_consume.Prelude.Int.{ℤ, pos, negsuc}
use coroutines_kafka_consume.Dict.{Dict, lookup, erase}
use coroutines_kafka_consume.Audit.Record.{RecordKey, key_eq, AuditRecord}
use coroutines_kafka_consume.Audit.Stats.{RecordState, AuditStats, is_complete}
use coroutines_kafka_consume.Audit.Stats.Open.{
  state_of, save, touch, add_order, close_age, add_e2e, close_latency, retire, close_if_complete,
}
use coroutines_kafka_consume.Audit.Stats.Evict.{evict_closed, is_current_closed}

pub record Counts : Type 0 where
  pub published_records : ℕ
  pub processed_records : ℕ
  pub failed_records : ℕ
  pub dropped_records : ℕ
  pub retry_attempt_records : ℕ
  pub published_unique : ℕ
  pub processed_unique : ℕ
  pub failed_unique : ℕ
  pub dropped_unique : ℕ
  pub terminal_unique : ℕ
  pub missing_terminal : ℕ
  pub duplicate_published : ℕ
  pub duplicate_processed : ℕ
  pub duplicate_failed : ℕ
  pub duplicate_dropped : ℕ
  pub processed_without_publish : ℕ
  pub failed_without_publish : ℕ
  pub dropped_without_publish : ℕ
  pub conflicting_terminal_outcomes : ℕ
  pub replay_dropped_after_processed : ℕ
  pub lifecycle_handoff_reprocessed : ℕ
  pub handoff_records : ℕ
  pub handoff_unique : ℕ
  pub unexpected_terminal_outcomes : ℕ
  pub dropped_by_reason : Dict String ℕ
  pub replay_dropped_after_processed_by_reason : Dict String ℕ
  pub handoff_by_reason : Dict String ℕ

abbrev pub counts : AuditStats → Counts
counts s = record {
  published_records = s.published_records;
  processed_records = s.processed_records;
  failed_records = s.failed_records;
  dropped_records = s.dropped_records;
  retry_attempt_records = s.retry_attempt_records;
  published_unique = s.published_unique;
  processed_unique = s.processed_unique;
  failed_unique = s.failed_unique;
  dropped_unique = s.dropped_unique;
  terminal_unique = s.terminal_unique;
  missing_terminal = s.missing_terminal;
  duplicate_published = s.duplicate_published;
  duplicate_processed = s.duplicate_processed;
  duplicate_failed = s.duplicate_failed;
  duplicate_dropped = s.duplicate_dropped;
  processed_without_publish = s.processed_without_publish;
  failed_without_publish = s.failed_without_publish;
  dropped_without_publish = s.dropped_without_publish;
  conflicting_terminal_outcomes = s.conflicting_terminal_outcomes;
  replay_dropped_after_processed = s.replay_dropped_after_processed;
  lifecycle_handoff_reprocessed = s.lifecycle_handoff_reprocessed;
  handoff_records = s.handoff_records;
  handoff_unique = s.handoff_unique;
  unexpected_terminal_outcomes = s.unexpected_terminal_outcomes;
  dropped_by_reason = s.dropped_by_reason;
  replay_dropped_after_processed_by_reason = s.replay_dropped_after_processed_by_reason;
  handoff_by_reason = s.handoff_by_reason;
}

pub counts-state_of : (r : AuditRecord) (s : AuditStats) → counts (state_of r s).1 ≡ counts s
unfolding state_of
counts-state_of r s = ground arith

pub counts-add_order : (r : AuditRecord) (s : AuditStats) → counts (add_order r s) ≡ counts s
unfolding add_order
counts-add_order r s = ground arith

counts-close_age : (state : RecordState) (s : AuditStats) → counts (close_age state s) ≡ counts s
unfolding close_age
counts-close_age state s = ground arith

counts-add_e2e : (ms : ℤ) (s : AuditStats) → counts (add_e2e ms s) ≡ counts s
unfolding add_e2e
counts-add_e2e (pos ms) s = refl
counts-add_e2e (negsuc n) s = refl

counts-close_latency :
    (key : RecordKey) (state : RecordState) (s : AuditStats)
    → counts (close_latency key state s) ≡ counts s
unfolding close_latency
counts-close_latency key state s = ground arith

counts-retire :
    (key : RecordKey) (state : RecordState) (s : AuditStats)
    → counts (retire key state s) ≡ counts s
unfolding retire
counts-retire key state s = ground arith

pub counts-close_if_complete :
    (key : RecordKey) (s : AuditStats) → counts (close_if_complete key s) ≡ counts s
unfolding close_if_complete
counts-close_if_complete key s = elim (Option-cases (lookup key s.open_by_key)) [
  | inl missing ↦ rw (missing, close_if_complete)
  | inr (state, found) ↦ rw (found, close_if_complete) (counts-closed (is_complete state) state)
]
  where
    counts-closed :
        (b : Bool) (state : RecordState)
        → counts (if b then retire key state (close_latency key state (close_age state s)) else s)
          ≡ counts s
    counts-closed true state =
        counts-retire key state (close_latency key state (close_age state s))
        ∙ counts-close_latency key state (close_age state s)
        ∙ counts-close_age state s
    counts-closed false state = refl

pub counts-evict_closed :
    (cutoff_ms : ℤ) (queue : List (ℤ × RecordKey)) (s : AuditStats)
    → counts (evict_closed cutoff_ms queue s) ≡ counts s
unfolding evict_closed
counts-evict_closed cutoff_ms [] s = refl
counts-evict_closed cutoff_ms ((closed_ms, key) ∷ queue) s = ground (
  arith,
  counts-evict_closed cutoff_ms queue (record s {
    recent_closed_by_key =
        (if is_current_closed closed_ms (lookup key s.recent_closed_by_key)
          then erase key s.recent_closed_by_key
          else s.recent_closed_by_key);
  }),
)

pub counts-touch :
    (r : AuditRecord) (state : RecordState) (s : AuditStats)
    → counts (touch r (state, s)).1 ≡ counts s
unfolding touch
counts-touch r state s = refl

pub counts-save :
    (key : RecordKey) (state : RecordState) (s : AuditStats) → counts (save key state s) ≡ counts s
unfolding save
counts-save key state s = refl

-- The open records, which closing a record changes only at its key.
abbrev Opens : AuditStats → AuditStats → Type 0
Opens s s' = s'.open_by_key ≡ s.open_by_key

pub open-add_order : (r : AuditRecord) (s : AuditStats) → Opens s (add_order r s)
unfolding add_order
open-add_order r s = ground arith

open-close_age : (state : RecordState) (s : AuditStats) → Opens s (close_age state s)
unfolding close_age
open-close_age state s = ground arith

open-add_e2e : (ms : ℤ) (s : AuditStats) → Opens s (add_e2e ms s)
unfolding add_e2e
open-add_e2e (pos ms) s = refl
open-add_e2e (negsuc n) s = refl

open-close_latency :
    (key : RecordKey) (state : RecordState) (s : AuditStats) → Opens s (close_latency key state s)
unfolding close_latency
open-close_latency key state s = ground arith

open-retire :
    (key : RecordKey) (state : RecordState) (s : AuditStats)
    → (retire key state s).open_by_key ≡ erase key s.open_by_key
unfolding retire
open-retire key state s = ground arith

-- The open records after `_close_if_complete`.
abbrev pub closed_open :
    RecordKey → Option RecordState → Dict RecordKey RecordState → Dict RecordKey RecordState
closed_open key none d = d
closed_open key (some state) d = if is_complete state then erase key d else d

pub open-close_if_complete :
    (key : RecordKey) (s : AuditStats)
    → (close_if_complete key s).open_by_key
      ≡ closed_open key (lookup key s.open_by_key) s.open_by_key
unfolding close_if_complete
open-close_if_complete key s = elim (Option-cases (lookup key s.open_by_key)) [
  | inl missing ↦ rw (missing, close_if_complete)
  | inr (state, found) ↦ rw (found, close_if_complete) (open-closed (is_complete state) state)
]
  where
    open-closed :
        (b : Bool) (state : RecordState)
        → (if b
            then retire key state (close_latency key state (close_age state s))
            else s).open_by_key
          ≡ (if b then erase key s.open_by_key else s.open_by_key)
    open-closed true state =
        open-retire key state (close_latency key state (close_age state s))
        ∙ ap (erase key) (open-close_latency key state (close_age state s) ∙ open-close_age state s)
    open-closed false state = refl

pub open-evict_closed :
    (cutoff_ms : ℤ) (queue : List (ℤ × RecordKey)) (s : AuditStats)
    → Opens s (evict_closed cutoff_ms queue s)
unfolding evict_closed
open-evict_closed cutoff_ms [] s = refl
open-evict_closed cutoff_ms ((closed_ms, key) ∷ queue) s = ground (
  arith,
  open-evict_closed cutoff_ms queue (record s {
    recent_closed_by_key =
        (if is_current_closed closed_ms (lookup key s.recent_closed_by_key)
          then erase key s.recent_closed_by_key
          else s.recent_closed_by_key);
  }),
)
