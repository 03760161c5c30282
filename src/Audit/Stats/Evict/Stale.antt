-- ===== src/Audit/Stats/Evict/Stale.antt =====
-- Closed records that are seen again: their time is refreshed, but the expiry queue has only the
-- time at which they closed.
use mathlib.Core.Path.{subst}
use coroutines_kafka_consume.Prelude.{
  ◌≡◌, refl, sym, ap, ◌∙◌, false, ◌&&◌, some, List, [], ◌∷◌, ◌==◌, arith, if◌then◌else◌, if_ind,
  Option-cases, inl, inr,
}
use coroutines_kafka_consume.Prelude.Int.{ℤ, int_eq, int_beq_iff, ltb_ℤ}
use coroutines_kafka_consume.Dict.{Dict, lookup, insert, erase, lookup-erase}
use coroutines_kafka_consume.Dict.Unique.{lookup_inserted}
use coroutines_kafka_consume.Audit.Record.{RecordKey, key_eq, AuditRecord, RecordType}
use coroutines_kafka_consume.Audit.Stats.{
  RecordState, ClosedRecordState, AuditStats, add_drop_reason, add_replay_drop,
}
use coroutines_kafka_consume.Audit.Stats.Closed.{
  add_duplicate, add_unique, seen, see, judge_closed, add_terminal_to_closed,
}
use coroutines_kafka_consume.Audit.Stats.Evict.{
  count_unmatched, or_same, evict_open_record, evict_open_entry, evict_open, is_current_closed,
  evict_closed, evict_expired,
}

-- No entry of the queue is for the key at that time.
abbrev pub NotQueued : ℤ → RecordKey → List (ℤ × RecordKey) → Type 0
NotQueued ms key [] = Unit
NotQueued ms key ((entry_ms, entry_key) ∷ queue) =
    (((entry_ms == ms) && (entry_key == key)) ≡ false) × NotQueued ms key queue

-- What eviction does to the recently closed records.
abbrev after_entry :
    ℤ → RecordKey → Dict RecordKey ClosedRecordState → Dict RecordKey ClosedRecordState
after_entry closed_ms key d = if is_current_closed closed_ms (lookup key d) then erase key d else d

lookup-after_entry :
    (ms : ℤ) (k key : RecordKey) (closed : ClosedRecordState) (d : Dict RecordKey ClosedRecordState)
    → lookup key d ≡ some closed
    → ((ms == closed.closed_ms) && (k == key)) ≡ false
    → lookup key (after_entry ms k d) ≡ some closed
lookup-after_entry ms k key closed d found other = ground (
  arith,
  lookup-erase k key d,
  key_eq.equal_iff k key,
  int_beq_iff ms closed.closed_ms,
  int_beq_iff closed.closed_ms ms,
)

evict_closed-Stays :
    (cutoff_ms : ℤ) (key : RecordKey) (closed : ClosedRecordState) (queue : List (ℤ × RecordKey))
    (s : AuditStats)
    → lookup key s.recent_closed_by_key ≡ some closed
    → NotQueued closed.closed_ms key queue
    → lookup key (evict_closed cutoff_ms queue s).recent_closed_by_key ≡ some closed
unfolding evict_closed
evict_closed-Stays cutoff_ms key closed [] s found other = found
evict_closed-Stays cutoff_ms key closed ((ms, k) ∷ queue) s found other =
    if_ind (λ s'. lookup key s'.recent_closed_by_key ≡ some closed) (ltb_ℤ ms cutoff_ms)
      {y = record s { recent_closed_expiry_queue = (ms, k) ∷ queue }}
      (evict_closed-Stays cutoff_ms key closed queue
        (record s { recent_closed_by_key = after_entry ms k s.recent_closed_by_key })
        (lookup-after_entry ms k key closed s.recent_closed_by_key found other.0) other.1)
      found

-- What the eviction of open records leaves alone.
record ClosedSame (s s' : AuditStats) : Type 0 where
  records : s'.recent_closed_by_key ≡ s.recent_closed_by_key
  queue : s'.recent_closed_expiry_queue ≡ s.recent_closed_expiry_queue

then-ClosedSame : {s s' s'' : AuditStats} → ClosedSame s s' → ClosedSame s' s'' → ClosedSame s s''
then-ClosedSame p q = record { records = q.records ∙ p.records; queue = q.queue ∙ p.queue }

same-ClosedSame : (s : AuditStats) → ClosedSame s s
same-ClosedSame s = record { records = refl; queue = refl }

count_unmatched-ClosedSame :
    (state : RecordState) (s : AuditStats) → ClosedSame s (count_unmatched state s)
unfolding count_unmatched
count_unmatched-ClosedSame state s = ground arith

evict_or_same-ClosedSame :
    (key : RecordKey) (s : AuditStats) → ClosedSame s (or_same s (evict_open_record key s))
unfolding evict_open_record
evict_or_same-ClosedSame key s = elim (Option-cases (lookup key s.open_by_key)) [
  | inl missing ↦ rw (missing, evict_open_record) (same-ClosedSame s)
  | inr (state, found) ↦
      let e =
        count_unmatched-ClosedSame state (record s { open_by_key = erase key s.open_by_key }) in
      rw (found, evict_open_record) (record { records = e.records; queue = e.queue })
]

evict_open_entry-ClosedSame :
    (last_seen_ms : ℤ) (key : RecordKey) (s : AuditStats)
    → ClosedSame s (evict_open_entry last_seen_ms key s)
unfolding evict_open_entry
evict_open_entry-ClosedSame last_seen_ms key s =
    if_ind (ClosedSame s) _ (evict_or_same-ClosedSame key s) (same-ClosedSame s)

evict_open-ClosedSame :
    (cutoff_ms : ℤ) (queue : List (ℤ × RecordKey)) (s : AuditStats)
    → ClosedSame s (evict_open cutoff_ms queue s)
unfolding evict_open
evict_open-ClosedSame cutoff_ms [] s = record { records = refl; queue = refl }
evict_open-ClosedSame cutoff_ms ((last_seen_ms, key) ∷ queue) s =
    let entry = evict_open_entry last_seen_ms key s in
    if_ind (ClosedSame s) (ltb_ℤ last_seen_ms cutoff_ms)
      {y = record s { open_expiry_queue = (last_seen_ms, key) ∷ queue }}
      (then-ClosedSame (evict_open_entry-ClosedSame last_seen_ms key s)
        (evict_open-ClosedSame cutoff_ms queue entry))
      (record { records = refl; queue = refl })

evict_expired-Stays :
    (cutoff_ms : ℤ) (key : RecordKey) (closed : ClosedRecordState) (s : AuditStats)
    → lookup key s.recent_closed_by_key ≡ some closed
    → NotQueued closed.closed_ms key s.recent_closed_expiry_queue
    → lookup key (evict_expired cutoff_ms s).recent_closed_by_key ≡ some closed
unfolding evict_expired
evict_expired-Stays cutoff_ms key closed s found other =
    let e = evict_open-ClosedSame cutoff_ms s.open_expiry_queue s in
    let s₁ = evict_open cutoff_ms s.open_expiry_queue s in
    evict_closed-Stays cutoff_ms key closed s₁.recent_closed_expiry_queue s₁
      (ap (lookup key) e.records ∙ found)
      (subst (NotQueued closed.closed_ms key) (sym e.queue) other)

-- After an outcome of a recently closed record.
record Reseen (r : AuditRecord) (s s' : AuditStats) : Type 0 where
  state : ClosedRecordState
  found : lookup r.key s'.recent_closed_by_key ≡ some state
  time : state.closed_ms ≡ r.audit_timestamp_ms
  queue : s'.recent_closed_expiry_queue ≡ s.recent_closed_expiry_queue

stored-Reseen :
    (r : AuditRecord) (state : ClosedRecordState) (s s' : AuditStats)
    → state.closed_ms ≡ r.audit_timestamp_ms
    → s'.recent_closed_expiry_queue ≡ s.recent_closed_expiry_queue
    → Reseen r s (record s' { recent_closed_by_key = insert r.key state s'.recent_closed_by_key })
stored-Reseen r state s s' time queue = record {
  state = state;
  found = lookup_inserted r.key state s'.recent_closed_by_key;
  time = time;
  queue = queue;
}

add_duplicate_queue :
    (t : RecordType) (s : AuditStats)
    → (add_duplicate t s).recent_closed_expiry_queue ≡ s.recent_closed_expiry_queue
unfolding add_duplicate
add_duplicate_queue t s = ground arith

judge_queue :
    (r : AuditRecord) (closed : ClosedRecordState) (s : AuditStats)
    → (judge_closed r closed (add_unique r s)).recent_closed_expiry_queue
      ≡ s.recent_closed_expiry_queue
unfolding judge_closed add_unique add_drop_reason add_replay_drop
judge_queue r closed s = ground arith

see_time :
    (r : AuditRecord) (closed : ClosedRecordState) → (see r closed).closed_ms ≡ closed.closed_ms
see_time r closed = ground arith

add_terminal_to_closed-Reseen :
    (r : AuditRecord) (closed : ClosedRecordState) (s : AuditStats)
    → Reseen r s (add_terminal_to_closed r closed s)
unfolding add_terminal_to_closed
add_terminal_to_closed-Reseen r closed s =
    let refreshed = record closed { closed_ms = r.audit_timestamp_ms } in
    if_ind (Reseen r s) (seen r.record_type closed)
      (stored-Reseen r refreshed s (add_duplicate r.record_type s) refl
        (add_duplicate_queue r.record_type s))
      (stored-Reseen r (see r refreshed) s (judge_closed r closed (add_unique r s))
        (see_time r refreshed) (judge_queue r closed s))

-- A recently closed record that has an outcome again, at a time for which the expiry queue has no
-- entry of its key: after an eviction with any cutoff it still has a closed state, with the new
-- time.
pub reseen-stays :
    (cutoff_ms : ℤ) (r : AuditRecord) (closed : ClosedRecordState) (s : AuditStats)
    → NotQueued r.audit_timestamp_ms r.key s.recent_closed_expiry_queue
    → (state : ClosedRecordState) × (lookup r.key
          (evict_expired cutoff_ms (add_terminal_to_closed r closed s)).recent_closed_by_key
        ≡ some state)
      × (state.closed_ms ≡ r.audit_timestamp_ms)
reseen-stays cutoff_ms r closed s other =
    let e = add_terminal_to_closed-Reseen r closed s in
    (
      e.state,
      evict_expired-Stays cutoff_ms r.key e.state (add_terminal_to_closed r closed s) e.found (
          subst
            (λ ms.
              NotQueued ms r.key (add_terminal_to_closed r closed s).recent_closed_expiry_queue)
            (sym e.time) (subst (NotQueued r.audit_timestamp_ms r.key) (sym e.queue) other)),
      e.time,
    )
