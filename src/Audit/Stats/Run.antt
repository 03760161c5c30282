-- ===== src/Audit/Stats/Run.antt =====
-- `AuditStats._add_published`, `_add_terminal`, `_add_handoff`, `add` and `finish`.
use coroutines_kafka_consume.Prelude.{
  ℕ, ◌+◌, Bool, true, false, Option, none, some, String, List, [], ◌∷◌, string_eq, ◌>>=◌,
  if◌then◌else◌,
}
use coroutines_kafka_consume.Prelude.Int.{pos, ◌-ℤ◌, max_ℤ, leb_ℤ}
use coroutines_kafka_consume.Dict.{Dict, lookup}
use coroutines_kafka_consume.Dict.Counts.{bump}
use coroutines_kafka_consume.Audit.Record.{
  RecordKey, key_eq, AuditRecord, RecordType, is_lifecycle, reason_or, valid_key,
}
use coroutines_kafka_consume.Audit.Flags.{Flags, of_byte, is_closed}
use coroutines_kafka_consume.Audit.Offsets
use coroutines_kafka_consume.Audit.Fairness
use coroutines_kafka_consume.Audit.Stats.{
  RecordState, ClosedRecordState, AuditStats, is_some, with_fairness, expire_later,
}
use coroutines_kafka_consume.Audit.Stats.Open.{
  state_of, save, touch, add_outcome, note_conflict, close_if_complete,
}
use coroutines_kafka_consume.Audit.Stats.Closed.{
  add_terminal_to_closed, add_terminal_to_compact_closed, add_handoff_to_compact,
  add_handoff_to_closed,
}
use coroutines_kafka_consume.Audit.Stats.Evict.{evict_expired, evict_open_record}

-- Where a valid key stands: closed with a byte of flags, recently closed, or neither.
pub data Place : Type 0 where
  compact : Flags → Place
  recent : ClosedRecordState → Place
  open_or_new : Place

unfoldable pub place_of : RecordKey → AuditStats → Place
unfolding Offsets.get of_byte is_closed lookup
place_of key s =
    let flags = of_byte (Offsets.get s.closed_offsets key) in
    if is_closed flags then compact flags else elim (lookup key s.recent_closed_by_key) [
      | some closed ↦ recent closed
      | none ↦ open_or_new
    ]

-- The three methods on a record are alike in how they choose: nothing for an invalid key, then the
-- byte of a closed record, then the recently closed records, and else the open ones.
abbrev pub at_place {ℓ} :
    {A : Type ℓ} → Bool → Place → A → (Flags → A) → (ClosedRecordState → A) → A → A
at_place false place invalid on_compact on_recent on_open = invalid
at_place true (compact flags) invalid on_compact on_recent on_open = on_compact flags
at_place true (recent closed) invalid on_compact on_recent on_open = on_recent closed
at_place true open_or_new invalid on_compact on_recent on_open = on_open

pub at_place_ind {ℓ} :
    {A : Type ℓ} (P : Bool → A → Type 0) (valid : Bool) (place : Place) {invalid : A}
    {on_compact : Flags → A} {on_recent : ClosedRecordState → A} {on_open : A}
    → P false invalid
    → ((flags : Flags) → P true (on_compact flags))
    → ((closed : ClosedRecordState) → P true (on_recent closed))
    → P true on_open
    → P valid (at_place valid place invalid on_compact on_recent on_open)
at_place_ind P false place i c r o = i
at_place_ind P true (compact flags) i c r o = c flags
at_place_ind P true (recent closed) i c r o = r closed
at_place_ind P true open_or_new i c r o = o

-- The first "P" of an open record.
unfoldable pub first_published : AuditRecord → RecordState → AuditStats → RecordState × AuditStats
first_published r state s = (
  record state { published = some r; last_seen_ms = r.audit_timestamp_ms },
  record s {
    open_expiry_queue =
        expire_later s.open_record_ttl_ms r.audit_timestamp_ms r.key s.open_expiry_queue;
    published_unique = s.published_unique + 1;
    key_fairness = with_fairness (Fairness.add_published r) s.key_fairness;
  },
)

-- The part of `_add_published` for a record that is not closed.
unfoldable pub publish_open : AuditRecord → RecordState × AuditStats → AuditStats
publish_open r (state, s) =
    if is_some state.published
    then record s { duplicate_published = s.duplicate_published + 1 }
    else (let (state', s') = first_published r state s in
        close_if_complete r.key (save r.key state' s'))

-- `_add_published`
unfoldable pub add_published : AuditRecord → AuditStats → AuditStats
add_published r s =
    let s' = record s { published_records = s.published_records + 1 } in
    let again = record s' { duplicate_published = s'.duplicate_published + 1 } in
    at_place (valid_key r.key) (place_of r.key s') s' (λ flags. again) (λ closed. again)
      (publish_open r (state_of r s'))

-- The `…_records` counter of a type of outcome.
unfoldable pub add_record : RecordType → AuditStats → AuditStats
add_record RecordType.complete s = record s { processed_records = s.processed_records + 1 }
add_record RecordType.fail s = record s { failed_records = s.failed_records + 1 }
add_record _ s = record s { dropped_records = s.dropped_records + 1 }

-- The part of `_add_terminal` for a record that is not closed.
unfoldable pub terminate_open : AuditRecord → RecordState × AuditStats → AuditStats
terminate_open r opened =
    let (state, s) = touch r opened in
    let (state', s') = note_conflict (add_outcome r state s) in
    close_if_complete r.key (save r.key state' s')

-- `_add_terminal`
unfoldable pub add_terminal : AuditRecord → AuditStats → AuditStats
add_terminal r s =
    let s' = add_record r.record_type s in
    at_place (valid_key r.key) (place_of r.key s') s'
      (λ flags. add_terminal_to_compact_closed r flags s')
      (λ closed. add_terminal_to_closed r closed s') (terminate_open r (state_of r s'))

-- The part of `_add_handoff` for a record that is not closed.
unfoldable pub hand_off_open : AuditRecord → RecordState × AuditStats → AuditStats
hand_off_open r opened =
    let (state, s) = touch r opened in
    if is_some state.handed_off
    then save r.key state s
    else save r.key (record state { handed_off = some r })
        (record s {
          handoff_unique = s.handoff_unique + 1;
          lifecycle_handoff_reprocessed =
              (if is_some state.processed
                then s.lifecycle_handoff_reprocessed + 1
                else s.lifecycle_handoff_reprocessed);
        })

-- record.handoff_reason or ("assignment_ended" if ... else "unknown")
unfoldable pub handoff_reason : AuditRecord → String
unfolding reason_or is_lifecycle
handoff_reason r =
    reason_or r.handoff_reason (if is_lifecycle r then "assignment_ended" else "unknown")

-- `_add_handoff`
unfoldable pub add_handoff : AuditRecord → AuditStats → AuditStats
add_handoff r s =
    let s' = record s {
      handoff_records = s.handoff_records + 1;
      handoff_by_reason = bump (handoff_reason r) s.handoff_by_reason;
    } in
    at_place (valid_key r.key) (place_of r.key s') s' (λ flags. add_handoff_to_compact r flags s')
      (λ closed. add_handoff_to_closed r closed s') (hand_off_open r (state_of r s'))

-- An eviction, if there is a TTL and the last eviction was long enough ago.
unfoldable pub evict_if_due : Option ℕ → AuditStats → AuditStats
unfolding evict_expired
evict_if_due none s = s
evict_if_due (some ttl) s =
    if leb_ℤ (pos s.eviction_interval_ms) (s.watermark_ms -ℤ s.last_eviction_ms)
    then record (evict_expired (s.watermark_ms -ℤ pos ttl) s) { last_eviction_ms = s.watermark_ms }
    else s

-- The first part of `add`.
unfoldable pub advance_watermark : AuditRecord → AuditStats → AuditStats
advance_watermark r s =
    evict_if_due s.open_record_ttl_ms
      (record s { watermark_ms = max_ℤ s.watermark_ms r.audit_timestamp_ms })

-- What `add` does with a record: older producers encoded a handoff as a drop.
pub data Handling : Type 0 where
  as_published as_terminal as_handoff as_retry : Handling

unfoldable pub handling : AuditRecord → Handling
unfolding is_lifecycle
handling r = elim r.record_type [
  | RecordType.publish ↦ as_published
  | RecordType.complete ↦ as_terminal
  | RecordType.fail ↦ as_terminal
  | RecordType.drop ↦ if is_lifecycle r then as_handoff else as_terminal
  | RecordType.handoff ↦ as_handoff
  | RecordType.retry ↦ as_retry
]

abbrev pub handle_as : Handling → AuditRecord → AuditStats → AuditStats
handle_as as_published r s = add_published r s
handle_as as_terminal r s = add_terminal r s
handle_as as_handoff r s = add_handoff r s
handle_as as_retry r s = record s { retry_attempt_records = s.retry_attempt_records + 1 }

unfoldable pub handle : AuditRecord → AuditStats → AuditStats
handle r s = handle_as (handling r) r s

-- `add`
unfoldable pub add : AuditRecord → AuditStats → AuditStats
add r s = handle r (advance_watermark r s)

unfoldable pub add_records : List AuditRecord → AuditStats → AuditStats
add_records [] s = s
add_records (r ∷ rs) s = add_records rs (add r s)

-- list(self.open_by_key)
abbrev pub keys_of : Dict RecordKey RecordState → List RecordKey
keys_of [] = []
keys_of ((key, state) ∷ d) = key ∷ keys_of d

-- The loop of `finish`; `none` is a KeyError.
unfoldable pub evict_keys : List RecordKey → AuditStats → Option AuditStats
evict_keys [] s = some s
evict_keys (key ∷ keys) s = do s' ← evict_open_record key s; evict_keys keys s'

-- `finish`
unfoldable pub finish : AuditStats → Option AuditStats
unfolding Offsets.clear Fairness.finish
finish s = do
  s' ← evict_keys (keys_of s.open_by_key) s
  some (record s' {
    recent_closed_by_key = [];
    closed_offsets = Offsets.clear s'.closed_offsets;
    key_fairness = with_fairness (Fairness.finish s'.watermark_ms) s'.key_fairness;
  })
