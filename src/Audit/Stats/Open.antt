-- ===== src/Audit/Stats/Open.antt =====
-- The methods of `AuditStats` on records that are open: `_state`, `_add_terminal_unique`, the
-- branches of `_add_terminal`, and `_close_if_complete`.
use coroutines_kafka_consume.Prelude.{
  ℕ, ◌+◌, Bool, true, false, not, ◌&&◌, ◌||◌, Option, none, some, [], ◌∷◌, ◌++◌, nat_eq, nat_beq,
  ltb, if◌then◌else◌,
}
use coroutines_kafka_consume.Prelude.Int.{ℤ, pos, negsuc, ◌-ℤ◌}
use coroutines_kafka_consume.Dict.{lookup, insert, erase}
use coroutines_kafka_consume.Dict.Counts.{bump}
use coroutines_kafka_consume.Audit.Record.{RecordKey, key_eq, AuditRecord, RecordType, is_lifecycle}
use coroutines_kafka_consume.Audit.Flags.{Flags, to_byte}
use coroutines_kafka_consume.Audit.Offsets
use coroutines_kafka_consume.Audit.Order.{add_partition_order, add_key_order}
use coroutines_kafka_consume.Audit.Age
use coroutines_kafka_consume.Audit.Latency
use coroutines_kafka_consume.Audit.Fairness
use coroutines_kafka_consume.Audit.Stats.{
  Limit, RecordState, ClosedRecordState, AuditStats, is_some, is_complete, for_topic, with_fairness,
  add_drop_reason, add_replay_drop, expire_later, over,
}

abbrev pub new_state : ℤ → RecordState
new_state ms = record {
  first_seen_ms = ms;
  last_seen_ms = ms;
  published = none;
  processed = none;
  failed = none;
  dropped = none;
  handed_off = none;
  processed_count = 0;
  failed_count = 0;
  dropped_count = 0;
  conflict_counted = false;
}

-- `_state`: the open state of the record, made if there is none. A method changes the object and
-- the model stores it back under its key.
unfoldable pub state_of : AuditRecord → AuditStats → RecordState × AuditStats
unfolding lookup insert
state_of r s = elim (lookup r.key s.open_by_key) [
  | some state ↦ (state, s)
  | none ↦
      let state = new_state r.audit_timestamp_ms in
      (
        state,
        record s {
          open_by_key = insert r.key state s.open_by_key;
          open_expiry_queue =
              expire_later s.open_record_ttl_ms state.last_seen_ms r.key s.open_expiry_queue;
        },
      )
]

-- self.open_by_key[key], the object, after its changes
unfoldable pub save : RecordKey → RecordState → AuditStats → AuditStats
save key state s = record s { open_by_key = insert key state s.open_by_key }

-- state.last_seen_ms = ...; if a TTL is set: the expiry queue gets the key
unfoldable pub touch : AuditRecord → RecordState × AuditStats → RecordState × AuditStats
touch r (state, s) = (
  record state { last_seen_ms = r.audit_timestamp_ms },
  record s {
    open_expiry_queue =
        expire_later s.open_record_ttl_ms r.audit_timestamp_ms r.key s.open_expiry_queue;
  },
)

-- record.record_type in {"C", "F"}
abbrev pub is_ordered : RecordType → Bool
is_ordered RecordType.complete = true
is_ordered RecordType.fail = true
is_ordered _ = false

unfoldable pub add_order : AuditRecord → AuditStats → AuditStats
unfolding add_partition_order add_key_order
add_order r s =
    let s' = record s { partition_order = add_partition_order r s.partition_order } in
    if s.collects
    then record s' { collected = s.collected ++ (r ∷ []) }
    else record s' { key_order = add_key_order r s.key_order }

-- `_add_terminal_unique`. Its test that the record is one of the state's three holds at each of the
-- calls, which have just stored it there.
unfoldable pub add_terminal_unique : AuditRecord → RecordState → AuditStats → AuditStats
add_terminal_unique r state s =
    if nat_beq (state.processed_count + state.failed_count + state.dropped_count) 1
    then (let s' = record s { terminal_unique = s.terminal_unique + 1 } in
        if is_ordered r.record_type then add_order r s' else s')
    else s

abbrev pub lifecycle_dropped : Option AuditRecord → Bool
lifecycle_dropped none = false
lifecycle_dropped (some r) = is_lifecycle r

-- The first "C" of an open record.
unfoldable pub first_processed : AuditRecord → RecordState → AuditStats → RecordState × AuditStats
first_processed r state s =
    let handed_back =
      not (is_some state.failed) && (is_some state.handed_off || lifecycle_dropped state.dropped) in
    let other = is_some state.failed || is_some state.dropped in
    let state' = record state { processed = some r; processed_count = 1 } in
    let s' = record s {
      lifecycle_handoff_reprocessed =
          (if handed_back
            then s.lifecycle_handoff_reprocessed + 1
            else s.lifecycle_handoff_reprocessed);
      unexpected_terminal_outcomes =
          (if not handed_back && other
            then s.unexpected_terminal_outcomes + 1
            else s.unexpected_terminal_outcomes);
      processed_unique = s.processed_unique + 1;
      latency_sla = for_topic r.key.topic_id Latency.add_processed s.latency_sla;
      key_fairness = with_fairness (Fairness.add_terminal r) s.key_fairness;
    } in
    (state', add_terminal_unique r state' s')

-- The first "F" of an open record.
unfoldable pub first_failed : AuditRecord → RecordState → AuditStats → RecordState × AuditStats
first_failed r state s =
    let state' = record state { failed = some r; failed_count = 1 } in
    let s' = record s {
      unexpected_terminal_outcomes =
          (if is_some state.processed || is_some state.dropped
            then s.unexpected_terminal_outcomes + 1
            else s.unexpected_terminal_outcomes);
      failed_unique = s.failed_unique + 1;
      key_fairness = with_fairness (Fairness.add_terminal r) s.key_fairness;
    } in
    (state', add_terminal_unique r state' s')

-- The first "D" of an open record.
unfoldable pub first_dropped : AuditRecord → RecordState → AuditStats → RecordState × AuditStats
first_dropped r state s =
    let state' = record state { dropped = some r; dropped_count = 1 } in
    let s₁ =
      if is_some state.processed
      then add_replay_drop r s
      else if is_some state.failed
      then record s { unexpected_terminal_outcomes = s.unexpected_terminal_outcomes + 1 }
      else s in
    let s₂ = add_drop_reason r (record s₁ { dropped_unique = s₁.dropped_unique + 1 }) in
    let s₃ = record s₂ { key_fairness = with_fairness (Fairness.add_terminal r) s₂.key_fairness } in
    (state', add_terminal_unique r state' s₃)

-- The branches of `_add_terminal` on an open record, by its type.
unfoldable pub add_outcome : AuditRecord → RecordState → AuditStats → RecordState × AuditStats
add_outcome r state s = elim r.record_type [
  | RecordType.complete ↦
      if is_some state.processed
      then (
        record state { processed_count = state.processed_count + 1 },
        record s { duplicate_processed = s.duplicate_processed + 1 },
      )
      else first_processed r state s
  | RecordType.fail ↦
      if is_some state.failed
      then (
        record state { failed_count = state.failed_count + 1 },
        record s { duplicate_failed = s.duplicate_failed + 1 },
      )
      else first_failed r state s
  | _ ↦
      if is_some state.dropped
      then (
        record state { dropped_count = state.dropped_count + 1 },
        record s { duplicate_dropped = s.duplicate_dropped + 1 },
      )
      else first_dropped r state s
]

abbrev one : Bool → ℕ
one true = 1
one false = 0

-- A record with more than one outcome is counted as a conflict once, unless it was processed after
-- a handoff.
unfoldable pub note_conflict : RecordState × AuditStats → RecordState × AuditStats
unfolding is_lifecycle
note_conflict (state, s) =
    let outcomes =
      one (is_some state.processed) + one (is_some state.failed) + one (is_some state.dropped) in
    let handoff =
      is_some state.processed && (not (is_some state.failed) && lifecycle_dropped state.dropped) in
    if ltb 1 outcomes && (not handoff && not state.conflict_counted)
    then (
      record state { conflict_counted = true },
      record s { conflicting_terminal_outcomes = s.conflicting_terminal_outcomes + 1 },
    )
    else (state, s)

-- state.processed or state.failed or state.dropped
abbrev pub terminal_of : RecordState → Option AuditRecord
terminal_of state = elim state.processed [
  | some r ↦ some r
  | none ↦ elim state.failed [ some r ↦ some r | none ↦ state.dropped ]
]

unfoldable pub close_age : RecordState → AuditStats → AuditStats
unfolding Fairness.add_terminal_age
close_age state s = elim state.published [
  | none ↦ s
  | some published ↦ elim (terminal_of state) [
    | none ↦ s
    | some ended ↦ record s {
      key_fairness = with_fairness (Fairness.add_terminal_age published ended) s.key_fairness;
    }
  ]
]

abbrev exceeds_limit : Option Limit → ℕ → Bool
exceeds_limit none latency_ms = false
exceeds_limit (some limit) latency_ms = over latency_ms limit

-- The end-to-end latency of a closed record, and its share in the latency rules.
unfoldable pub add_e2e : ℤ → AuditStats → AuditStats
unfolding Age.add bump
add_e2e (negsuc n) s = record s { e2e_invalid_negative = s.e2e_invalid_negative + 1 }
add_e2e (pos ms) s = record s {
  e2e_latency = Age.add ms s.e2e_latency;
  e2e_latency_histogram = bump ms s.e2e_latency_histogram;
  e2e_exceeded =
      (if exceeds_limit s.latency_limit_ms ms then s.e2e_exceeded + 1 else s.e2e_exceeded);
}

unfoldable pub close_latency : RecordKey → RecordState → AuditStats → AuditStats
unfolding add_e2e for_topic Latency.add_latency
close_latency key state s = elim state.published [
  | none ↦ s
  | some published ↦ elim state.processed [
    | none ↦ s
    | some processed ↦ elim published.kafka_timestamp_ms [
      | none ↦ s
      | some kafka_ms ↦
          let latency_ms = processed.audit_timestamp_ms -ℤ kafka_ms in
          let s' = add_e2e latency_ms s in
          record s' {
            latency_sla = for_topic key.topic_id (Latency.add_latency latency_ms) s'.latency_sla;
          }
    ]
  ]
]

-- The flags that an open state closes with.
unfoldable pub closing_flags : RecordState → Flags
unfolding is_lifecycle
closing_flags state = record {
  published = true;
  processed = is_some state.processed;
  failed = is_some state.failed;
  dropped = is_some state.dropped;
  lifecycle_dropped = lifecycle_dropped state.dropped;
  handed_off = is_some state.handed_off;
}

unfoldable pub closing_state : RecordState → ClosedRecordState
unfolding is_lifecycle
closing_state state = record {
  closed_ms = state.last_seen_ms;
  processed_seen = is_some state.processed;
  failed_seen = is_some state.failed;
  dropped_seen = is_some state.dropped;
  lifecycle_dropped_seen = lifecycle_dropped state.dropped;
  handed_off_seen = is_some state.handed_off;
}

-- `del self.open_by_key[key]` and what follows it: the byte of the record's outcomes if matching is
-- exact, a closed state with an expiry entry if it is bounded.
unfoldable pub retire : RecordKey → RecordState → AuditStats → AuditStats
unfolding closing_flags closing_state Offsets.set to_byte
retire key state s = elim s.open_record_ttl_ms [
  | none ↦ record s {
    open_by_key = erase key s.open_by_key;
    closed_offsets = Offsets.set s.closed_offsets key (to_byte (closing_flags state));
  }
  | some ttl ↦ record s {
    open_by_key = erase key s.open_by_key;
    recent_closed_by_key = insert key (closing_state state) s.recent_closed_by_key;
    recent_closed_expiry_queue = s.recent_closed_expiry_queue ++ ((state.last_seen_ms, key) ∷ []);
  }
]

-- `_close_if_complete`
unfoldable pub close_if_complete : RecordKey → AuditStats → AuditStats
close_if_complete key s = elim (lookup key s.open_by_key) [
  | none ↦ s
  | some state ↦
      if is_complete state
      then retire key state (close_latency key state (close_age state s))
      else s
]
