-- ===== src/Audit/Stats/Tally.antt =====
-- Every record that `AuditStats` is given is counted once: as the first of its kind for its key, as
-- a duplicate, or, if its partition or offset is negative, as neither.
pub mod Outcomes
use coroutines_kafka_consume.Prelude.{
  ℕ, ◌+◌, string_eq, ◌≡◌, refl, ◌∙◌, ap, Bool, true, false, not, String, ◌==◌, ◌&&◌, Option, none,
  some, List, [], ◌∷◌, arith, count_if, if_ind, if◌then◌else◌,
}
use coroutines_kafka_consume.Prelude.Int.{ℤ, ltb_ℤ, leb_ℤ, pos, ◌-ℤ◌}
use coroutines_kafka_consume.Dict.{lookup}
use coroutines_kafka_consume.Dict.Counts.{bump}
use coroutines_kafka_consume.Audit.Record.{
  RecordKey, key_eq, AuditRecord, RecordType, is_lifecycle, valid_key,
}
use coroutines_kafka_consume.Audit.Flags.{Flags}
use coroutines_kafka_consume.Audit.Late.{to_number}
use coroutines_kafka_consume.Audit.Stats.{
  RecordState, ClosedRecordState, AuditStats, is_some, add_drop_reason, add_replay_drop,
}
use coroutines_kafka_consume.Audit.Stats.Open.{
  state_of, save, touch, add_order, add_terminal_unique, first_processed, first_failed,
  first_dropped, add_outcome, note_conflict, close_if_complete,
}
use coroutines_kafka_consume.Audit.Stats.Closed.{
  add_duplicate, add_unique, judge_closed, judge_compact, add_terminal_to_closed,
  add_terminal_to_compact_closed, add_handoff_to_compact, add_handoff_to_closed,
}
use coroutines_kafka_consume.Audit.Stats.Evict.{
  count_unmatched, evict_open_entry, evict_open, evict_closed, evict_expired, evict_open_record,
}
use coroutines_kafka_consume.Audit.Stats.Tally.Outcomes.{
  Kind, kept, came, outcome_is, Adds, is_kind, kept-terminate_open, kept-add_terminal_to_closed,
  kept-add_terminal_to_compact,
}
use coroutines_kafka_consume.Audit.Stats.Run.{
  evict_if_due, at_place_ind, Handling, first_published, Place, place_of, publish_open,
  add_published, add_record, terminate_open, add_terminal, hand_off_open, add_handoff,
  handoff_reason, advance_watermark, handling, handle_as, handle, add, add_records,
}
use coroutines_kafka_consume.Audit.Stats.Frame.{
  Counts, counts, counts-state_of, counts-add_order, counts-close_if_complete, counts-evict_closed,
  counts-touch, counts-save,
}

abbrev published_again : AuditStats → AuditStats
published_again s = record s { duplicate_published = s.duplicate_published + 1 }

abbrev one_more_published : AuditStats → AuditStats
one_more_published s = record s { published_records = s.published_records + 1 }

kept-published_again :
    (k : Kind) (s : AuditStats) → Adds k (is_kind Kind.published k) s (published_again s)
kept-published_again Kind.published s = ground arith
kept-published_again Kind.processed s = ground arith
kept-published_again Kind.failed s = ground arith
kept-published_again Kind.dropped s = ground arith

kept-first_published :
    (k : Kind) (r : AuditRecord) (state : RecordState) (s : AuditStats)
    → Adds k (is_kind Kind.published k) s (first_published r state s).1
unfolding first_published
kept-first_published Kind.published r state s = ground arith
kept-first_published Kind.processed r state s = ground arith
kept-first_published Kind.failed r state s = ground arith
kept-first_published Kind.dropped r state s = ground arith

kept-publish_open :
    (k : Kind) (r : AuditRecord) (opened : RecordState × AuditStats)
    → Adds k (is_kind Kind.published k) opened.1 (publish_open r opened)
unfolding publish_open
kept-publish_open k r (state, s) = go (is_some state.published)
  where
    go :
        (b : Bool)
        → Adds k (is_kind Kind.published k) s (
            if b
            then published_again s
            else close_if_complete r.key
                (save r.key (first_published r state s).0 (first_published r state s).1))
    go true = kept-published_again k s
    go false =
        ap (kept k) (counts-close_if_complete _ _)
        ∙ ap (kept k) (counts-save _ _ _)
        ∙ kept-first_published k r state s

-- At a valid key the record is counted.
abbrev AddsIf : Kind → Bool → AuditStats → Bool → AuditStats → Type 0
AddsIf k b s valid s' = Adds k (valid && b) s s'

kept-one_more_published : (k : Kind) (s : AuditStats) → Adds k false s (one_more_published s)
kept-one_more_published Kind.published s = ground arith
kept-one_more_published Kind.processed s = ground arith
kept-one_more_published Kind.failed s = ground arith
kept-one_more_published Kind.dropped s = ground arith

kept-add_record : (k : Kind) (t : RecordType) (s : AuditStats) → Adds k false s (add_record t s)
unfolding add_record
kept-add_record Kind.published t s = ground arith
kept-add_record Kind.processed t s = ground arith
kept-add_record Kind.failed t s = ground arith
kept-add_record Kind.dropped t s = ground arith

kept-add_published :
    (k : Kind) (r : AuditRecord) (s : AuditStats)
    → AddsIf k (is_kind Kind.published k) s (valid_key r.key) (add_published r s)
unfolding add_published
kept-add_published k r s =
    let s' = one_more_published s in
    let more = kept-one_more_published k s in
    at_place_ind (AddsIf k (is_kind Kind.published k) s) (valid_key r.key) (place_of r.key s') more
      (λ flags. ground (arith, kept-published_again k s'))
      (λ closed. ground (arith, kept-published_again k s'))
      (ground (arith, kept-publish_open k r (state_of r s'), ap (kept k) (counts-state_of r s')))

kept-add_terminal :
    (k : Kind) (r : AuditRecord) (s : AuditStats)
    → AddsIf k (outcome_is k r.record_type) s (valid_key r.key) (add_terminal r s)
unfolding add_terminal
kept-add_terminal k r s =
    let s' = add_record r.record_type s in
    let more = kept-add_record k r.record_type s in
    let (state, opened) = state_of r s' in
    at_place_ind (AddsIf k (outcome_is k r.record_type) s) (valid_key r.key) (place_of r.key s')
      more (λ flags. ground (arith, kept-add_terminal_to_compact k r flags s'))
      (λ closed. ground (arith, kept-add_terminal_to_closed k r closed s'))
      (ground (arith, kept-terminate_open k r state opened, ap (kept k) (counts-state_of r s')))

kept-add_handoff_to_compact :
    (k : Kind) (r : AuditRecord) (flags : Flags) (s : AuditStats)
    → kept k (counts (add_handoff_to_compact r flags s)) ≡ kept k (counts s)
unfolding add_handoff_to_compact
kept-add_handoff_to_compact Kind.published r flags s = ground arith
kept-add_handoff_to_compact Kind.processed r flags s = ground arith
kept-add_handoff_to_compact Kind.failed r flags s = ground arith
kept-add_handoff_to_compact Kind.dropped r flags s = ground arith

kept-add_handoff_to_closed :
    (k : Kind) (r : AuditRecord) (closed : ClosedRecordState) (s : AuditStats)
    → kept k (counts (add_handoff_to_closed r closed s)) ≡ kept k (counts s)
unfolding add_handoff_to_closed
kept-add_handoff_to_closed Kind.published r closed s = ground arith
kept-add_handoff_to_closed Kind.processed r closed s = ground arith
kept-add_handoff_to_closed Kind.failed r closed s = ground arith
kept-add_handoff_to_closed Kind.dropped r closed s = ground arith

kept-hand_off_open :
    (k : Kind) (r : AuditRecord) (opened : RecordState × AuditStats)
    → kept k (counts (hand_off_open r opened)) ≡ kept k (counts opened.1)
unfolding hand_off_open touch save
kept-hand_off_open Kind.published r (state, s) = ground arith
kept-hand_off_open Kind.processed r (state, s) = ground arith
kept-hand_off_open Kind.failed r (state, s) = ground arith
kept-hand_off_open Kind.dropped r (state, s) = ground arith

abbrev handed : AuditRecord → AuditStats → AuditStats
handed r s = record s {
  handoff_records = s.handoff_records + 1;
  handoff_by_reason = bump (handoff_reason r) s.handoff_by_reason;
}

kept-handed :
    (k : Kind) (r : AuditRecord) (s : AuditStats) → kept k (counts (handed r s)) ≡ kept k (counts s)
kept-handed Kind.published r s = refl
kept-handed Kind.processed r s = refl
kept-handed Kind.failed r s = refl
kept-handed Kind.dropped r s = refl

kept-add_handoff :
    (k : Kind) (r : AuditRecord) (s : AuditStats)
    → kept k (counts (add_handoff r s)) ≡ kept k (counts s)
unfolding add_handoff
kept-add_handoff k r s =
    let s' = handed r s in
    at_place_ind (λ _ (new : AuditStats). kept k (counts new) ≡ kept k (counts s)) (valid_key r.key)
      (place_of r.key s') (kept-handed k r s)
      (λ flags. kept-add_handoff_to_compact k r flags s' ∙ kept-handed k r s)
      (λ closed. kept-add_handoff_to_closed k r closed s' ∙ kept-handed k r s)
      (kept-hand_off_open k r (state_of r s')
        ∙ ap (kept k) (counts-state_of r s')
        ∙ kept-handed k r s)

abbrev Keeps : Kind → AuditStats → AuditStats → Type 0
Keeps k s s' = kept k (counts s') ≡ kept k (counts s)

-- What `add` counts a record for: nothing, if the place of the record is not valid.
abbrev counts_for : Kind → AuditRecord → Handling → Bool
counts_for k r Handling.as_published = is_kind Kind.published k
counts_for k r Handling.as_terminal = outcome_is k r.record_type
counts_for k r _ = false

-- The kind of a record, by its letter and its drop reason: a drop for the reason "lifecycle" is an
-- old form of a handoff, and no drop.
abbrev pub says_lifecycle : Option String → Bool
says_lifecycle none = false
says_lifecycle (some reason) = reason == "lifecycle"

abbrev pub is_of_type : Kind → RecordType → Option String → Bool
is_of_type Kind.published RecordType.publish reason = true
is_of_type Kind.processed RecordType.complete reason = true
is_of_type Kind.failed RecordType.fail reason = true
is_of_type Kind.dropped RecordType.drop reason = not (says_lifecycle reason)
is_of_type _ _ _ = false

abbrev pub arrives : Kind → AuditRecord → Bool
arrives k r = is_of_type k r.record_type r.drop_reason

-- `add` takes each record for what it is.
arrives_lem : (k : Kind) (r : AuditRecord) → counts_for k r (handling r) ≡ arrives k r
unfolding handling is_lifecycle
arrives_lem Kind.published r = ground arith
arrives_lem Kind.processed r = ground arith
arrives_lem Kind.failed r = ground arith
arrives_lem Kind.dropped r = ground arith

kept-evict_open_entry :
    (k : Kind) (ms : ℤ) (key : RecordKey) (s : AuditStats)
    → kept k (counts (evict_open_entry ms key s)) ≡ kept k (counts s)
unfolding evict_open_entry evict_open_record count_unmatched
kept-evict_open_entry Kind.published ms key s = ground arith
kept-evict_open_entry Kind.processed ms key s = ground arith
kept-evict_open_entry Kind.failed ms key s = ground arith
kept-evict_open_entry Kind.dropped ms key s = ground arith

kept-evict_open :
    (k : Kind) (cutoff_ms : ℤ) (queue : List (ℤ × RecordKey)) (s : AuditStats)
    → kept k (counts (evict_open cutoff_ms queue s)) ≡ kept k (counts s)
unfolding evict_open
kept-evict_open k cutoff_ms [] s = refl
kept-evict_open k cutoff_ms ((ms, key) ∷ queue) s =
    if_ind (Keeps k s) (ltb_ℤ ms cutoff_ms)
      (kept-evict_open k cutoff_ms queue (evict_open_entry ms key s)
        ∙ kept-evict_open_entry k ms key s)
      refl

kept-evict_expired :
    (k : Kind) (cutoff_ms : ℤ) (s : AuditStats)
    → kept k (counts (evict_expired cutoff_ms s)) ≡ kept k (counts s)
unfolding evict_expired
kept-evict_expired k cutoff_ms s =
    ap (kept k) (counts-evict_closed cutoff_ms _ _)
    ∙ kept-evict_open k cutoff_ms s.open_expiry_queue s

kept-evict_if_due : (k : Kind) (ttl : Option ℕ) (s : AuditStats) → Keeps k s (evict_if_due ttl s)
unfolding evict_if_due
kept-evict_if_due k none s = refl
kept-evict_if_due k (some ttl) s =
    if_ind (Keeps k s) (leb_ℤ (pos s.eviction_interval_ms) (s.watermark_ms -ℤ s.last_eviction_ms))
      (kept-evict_expired k (s.watermark_ms -ℤ pos ttl) s) refl

kept-advance_watermark :
    (k : Kind) (r : AuditRecord) (s : AuditStats) → Keeps k s (advance_watermark r s)
unfolding advance_watermark
kept-advance_watermark k r s = kept-evict_if_due k s.open_record_ttl_ms _

abbrev retry_counted : AuditStats → AuditStats
retry_counted s = record s { retry_attempt_records = s.retry_attempt_records + 1 }

kept-retry : (k : Kind) (b : Bool) (s : AuditStats) → Adds k (b && false) s (retry_counted s)
kept-retry k b s = ground arith

kept-handle :
    (k : Kind) (r : AuditRecord) (s : AuditStats)
    → Adds k (valid_key r.key && arrives k r) s (handle r s)
unfolding handle
kept-handle k r s =
    go (handling r)
    ∙ ap (λ (b : Bool). kept k (counts s) + to_number (valid_key r.key && b)) (arrives_lem k r)
  where
    go : (h : Handling) → Adds k (valid_key r.key && counts_for k r h) s (handle_as h r s)
    go Handling.as_published = kept-add_published k r s
    go Handling.as_terminal = kept-add_terminal k r s
    go Handling.as_handoff = ground (arith, kept-add_handoff k r s)
    go Handling.as_retry = kept-retry k (valid_key r.key) s

pub kept-add :
    (k : Kind) (r : AuditRecord) (s : AuditStats)
    → Adds k (valid_key r.key && arrives k r) s (add r s)
unfolding add
kept-add k r s =
    kept-handle k r (advance_watermark r s)
    ∙ ap (λ n. n + to_number (valid_key r.key && arrives k r)) (kept-advance_watermark k r s)

-- The records of a kind that have a valid key.
abbrev pub of_kind : Kind → AuditRecord → Bool
of_kind k r = valid_key r.key && arrives k r

-- Whatever records come and in whatever order, with or without a TTL: the first records of their keys
-- and the duplicates together grow, for published records, by the number of the records of type "P",
-- for processed ones by those of type "C", for failed ones by those of type "F", and for dropped ones
-- by those of type "D" whose reason is not "lifecycle", in each case those with a valid partition and
-- offset.
pub tally-add_records :
    (k : Kind) (rs : List AuditRecord) (s : AuditStats)
    → kept k (counts (add_records rs s)) ≡ kept k (counts s) + count_if (of_kind k) rs
unfolding add_records
tally-add_records k [] s = omega arith
tally-add_records k (r ∷ rs) s = ground (arith, kept-add k r s, tally-add_records k rs (add r s))
