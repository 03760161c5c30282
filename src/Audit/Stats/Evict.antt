-- ===== src/Audit/Stats/Evict.antt =====
-- `_evict_open_record` and `_evict_expired` of `AuditStats`.
pub mod Stale
use coroutines_kafka_consume.Prelude.{
  ◌+◌, Bool, false, Option, none, some, List, [], ◌∷◌, ◌==◌, if◌then◌else◌,
}
use coroutines_kafka_consume.Prelude.Int.{ℤ, int_eq, ltb_ℤ}
use coroutines_kafka_consume.Dict.{lookup, erase}
use coroutines_kafka_consume.Audit.Record.{RecordKey, key_eq}
use coroutines_kafka_consume.Audit.Order
use coroutines_kafka_consume.Audit.Stats.{
  RecordState, ClosedRecordState, AuditStats, is_some, has_terminal,
}

-- The counters of a record that will be matched no more.
unfoldable pub count_unmatched : RecordState → AuditStats → AuditStats
count_unmatched state s =
    if is_some state.published
    then (if has_terminal state then s else record s { missing_terminal = s.missing_terminal + 1 })
    else record s {
      processed_without_publish =
          (if is_some state.processed
            then s.processed_without_publish + 1
            else s.processed_without_publish);
      failed_without_publish =
          (if is_some state.failed then s.failed_without_publish + 1 else s.failed_without_publish);
      dropped_without_publish =
          (if is_some state.dropped
            then s.dropped_without_publish + 1
            else s.dropped_without_publish);
    }

-- `_evict_open_record`; `none` is the KeyError of a key that is not open.
unfoldable pub evict_open_record : RecordKey → AuditStats → Option AuditStats
unfolding count_unmatched lookup erase
evict_open_record key s = elim (lookup key s.open_by_key) [
  | none ↦ none
  | some state ↦ some (count_unmatched state (record s { open_by_key = erase key s.open_by_key }))
]

abbrev pub or_same : AuditStats → Option AuditStats → AuditStats
or_same s none = s
or_same s (some s') = s'

-- state is not None and state.last_seen_ms == last_seen_ms
abbrev is_current : ℤ → Option RecordState → Bool
is_current last_seen_ms none = false
is_current last_seen_ms (some state) = state.last_seen_ms == last_seen_ms

-- A popped entry of the open queue: the key is evicted if the entry is its latest, and then it is
-- open, so that `evict_open_record` does not fail.
unfoldable pub evict_open_entry : ℤ → RecordKey → AuditStats → AuditStats
evict_open_entry last_seen_ms key s =
    if is_current last_seen_ms (lookup key s.open_by_key)
    then or_same s (evict_open_record key s)
    else s

-- The first loop of `_evict_expired`, over the queue.
unfoldable pub evict_open : ℤ → List (ℤ × RecordKey) → AuditStats → AuditStats
evict_open cutoff_ms [] s = record s { open_expiry_queue = [] }
evict_open cutoff_ms ((last_seen_ms, key) ∷ queue) s =
    let rest = evict_open cutoff_ms queue (evict_open_entry last_seen_ms key s) in
    if ltb_ℤ last_seen_ms cutoff_ms
    then rest
    else record s { open_expiry_queue = (last_seen_ms, key) ∷ queue }

abbrev pub is_current_closed : ℤ → Option ClosedRecordState → Bool
is_current_closed closed_ms none = false
is_current_closed closed_ms (some state) = state.closed_ms == closed_ms

-- The second loop.
unfoldable pub evict_closed : ℤ → List (ℤ × RecordKey) → AuditStats → AuditStats
unfolding lookup erase
evict_closed cutoff_ms [] s = record s { recent_closed_expiry_queue = [] }
evict_closed cutoff_ms ((closed_ms, key) ∷ queue) s =
    let rest = evict_closed cutoff_ms queue (record s {
      recent_closed_by_key =
          (if is_current_closed closed_ms (lookup key s.recent_closed_by_key)
            then erase key s.recent_closed_by_key
            else s.recent_closed_by_key);
    }) in
    if ltb_ℤ closed_ms cutoff_ms
    then rest
    else record s { recent_closed_expiry_queue = (closed_ms, key) ∷ queue }

-- `_evict_expired`
unfoldable pub evict_expired : ℤ → AuditStats → AuditStats
unfolding Order.evict_before
evict_expired cutoff_ms s =
    let s₁ = evict_open cutoff_ms s.open_expiry_queue s in
    let s₂ = evict_closed cutoff_ms s₁.recent_closed_expiry_queue s₁ in
    record s₂ { key_order = Order.evict_before cutoff_ms s₂.key_order }
