-- ===== src/Audit/Stats/Reconcile/Steps.antt =====
-- The steps of `AuditStats` keep published and terminal records in balance.
use coroutines_kafka_consume.Prelude.{
  ℕ, ◌+◌, ◌≡◌, refl, ap, none, some, arith, string_eq, if_by, Option-cases, inl, inr,
}
use coroutines_kafka_consume.Prelude.Int.{ℤ}
use coroutines_kafka_consume.Dict.{lookup}
use coroutines_kafka_consume.Dict.Unique.{
  insert-Unique, sum_values-insert, measure, lookup_inserted,
}
use coroutines_kafka_consume.Dict.Counts.{bump}
use coroutines_kafka_consume.Audit.Record.{RecordKey, key_eq, AuditRecord, valid_key}
use coroutines_kafka_consume.Audit.Stats.{RecordState, AuditStats, is_some}
use coroutines_kafka_consume.Audit.Stats.Open.{new_state, state_of, touch}
use coroutines_kafka_consume.Audit.Stats.Run.{
  Handling, handoff_reason, place_of, at_place_ind, first_published, publish_open, add_published,
  add_record, terminate_open, add_terminal, hand_off_open, add_handoff, handling, handle_as, handle,
}
use coroutines_kafka_consume.Audit.Stats.Balance.{
  waits, orphaned, end-Moves, touch-Moves, first_published-Moves,
}
use coroutines_kafka_consume.Audit.Stats.Still.{
  add_record-Still, add_terminal_to_closed-Still, add_terminal_to_compact_closed-Still,
  add_handoff_to_closed-Still, add_handoff_to_compact-Still,
}
use coroutines_kafka_consume.Audit.Stats.Reconcile.{
  IsOpen, insert-AllOpen, InBalance, Still-InBalance, close-InBalance, save-InBalance,
}

-- The state of a record is open, and the rest is in balance.
record Opened (n : ℕ) (key : RecordKey) (opened : RecordState × AuditStats) : Type 0 where
  pub balanced : InBalance n opened.1
  pub found : lookup key opened.1.open_by_key ≡ some opened.0

new_state-IsOpen : (ms : ℤ) → IsOpen (new_state ms)
new_state-IsOpen ms = record {
  counted = record { processed = refl; failed = refl; dropped = refl };
  incomplete = refl;
}

new-Opened :
    {n : ℕ} (r : AuditRecord) (s : AuditStats)
    → InBalance n s
    → lookup r.key s.open_by_key ≡ none
    → Opened n r.key (state_of r s)
unfolding state_of
new-Opened {n = n} r s held missing =
    let b = held.balanced in
    let state = new_state r.audit_timestamp_ms in
    rw (missing, state_of)
      (record {
        balanced = record {
          balanced = record {
            unique = insert-Unique r.key state s.open_by_key b.unique;
            all_open =
                insert-AllOpen r.key state s.open_by_key (new_state-IsOpen r.audit_timestamp_ms)
                  b.all_open;
            balance = omega (
              arith,
              b.balance,
              ap (measure waits) missing,
              ap (measure orphaned) missing,
              sum_values-insert waits r.key state s.open_by_key,
              sum_values-insert orphaned r.key state s.open_by_key,
            );
            within = b.within;
            processed = b.processed;
            failed = b.failed;
            dropped = b.dropped;
          };
        };
        found = lookup_inserted r.key state s.open_by_key;
      })

state_of-Opened :
    {n : ℕ} (r : AuditRecord) (s : AuditStats) → InBalance n s → Opened n r.key (state_of r s)
unfolding state_of
state_of-Opened r s b = elim (Option-cases (lookup r.key s.open_by_key)) [
  | inl missing ↦ new-Opened r s b missing
  | inr (state, found) ↦ rw (found, state_of) (record { balanced = b; found = found })
]

module _ {n : ℕ} (r : AuditRecord) (opened : RecordState × AuditStats)
    (o : Opened n r.key opened) where
  state-IsOpen : IsOpen opened.0
  state-IsOpen = o.balanced.balanced.all_open r.key opened.0 o.found

  publish-InBalance : InBalance n (publish_open r opened)
  unfolding publish_open
  publish-InBalance =
      if_by (InBalance n) _ (λ again. Still-InBalance _ _ refl o.balanced)
        (λ first.
          close-InBalance r.key opened.1 opened.0 (first_published r opened.0 opened.1) o.balanced
            o.found (first_published-Moves r opened.0 opened.1 state-IsOpen.counted first))

  terminate-InBalance : InBalance n (terminate_open r opened)
  unfolding terminate_open
  terminate-InBalance =
      close-InBalance r.key opened.1 opened.0 _ o.balanced o.found
        (end-Moves r opened.0 opened.1 state-IsOpen.counted)

  hand_off-InBalance : InBalance n (hand_off_open r opened)
  unfolding hand_off_open touch
  hand_off-InBalance =
      let moves = touch-Moves r opened.0 opened.1 state-IsOpen.counted in
      if_by (InBalance n) (is_some opened.0.handed_off)
        (λ again.
          save-InBalance r.key opened.1 opened.0 _ o.balanced o.found moves state-IsOpen.incomplete)
        (λ first.
          save-InBalance r.key opened.1 opened.0 _ o.balanced o.found
            (record {
              balance = moves.balance;
              counted = record {
                processed = moves.counted.processed;
                failed = moves.counted.failed;
                dropped = moves.counted.dropped;
              };
              same = moves.same;
            })
            state-IsOpen.incomplete)

module _ {n : ℕ} (r : AuditRecord) (s : AuditStats) (b : InBalance n s) where
  add_published-InBalance : InBalance n (add_published r s)
  unfolding add_published
  add_published-InBalance =
      let s' = record s { published_records = s.published_records + 1 } in
      let b' = Still-InBalance s s' refl b in
      at_place_ind (λ valid. InBalance n) (valid_key r.key) (place_of r.key s') b'
        (λ flags. Still-InBalance s' _ refl b') (λ closed. Still-InBalance s' _ refl b')
        (publish-InBalance r (state_of r s') (state_of-Opened r s' b'))

  add_terminal-InBalance : InBalance n (add_terminal r s)
  unfolding add_terminal
  add_terminal-InBalance =
      let s' = add_record r.record_type s in
      let b' = Still-InBalance s s' (add_record-Still r.record_type s) b in
      at_place_ind (λ valid. InBalance n) (valid_key r.key) (place_of r.key s') b'
        (λ flags. Still-InBalance s' _ (add_terminal_to_compact_closed-Still r flags s') b')
        (λ closed. Still-InBalance s' _ (add_terminal_to_closed-Still r closed s') b')
        (terminate-InBalance r (state_of r s') (state_of-Opened r s' b'))

  add_handoff-InBalance : InBalance n (add_handoff r s)
  unfolding add_handoff
  add_handoff-InBalance =
      let s' = record s {
        handoff_records = s.handoff_records + 1;
        handoff_by_reason = bump (handoff_reason r) s.handoff_by_reason;
      } in
      let b' = Still-InBalance s s' refl b in
      at_place_ind (λ valid. InBalance n) (valid_key r.key) (place_of r.key s') b'
        (λ flags. Still-InBalance s' _ (add_handoff_to_compact-Still r s' flags) b')
        (λ closed. Still-InBalance s' _ (add_handoff_to_closed-Still r s' closed) b')
        (hand_off-InBalance r (state_of r s') (state_of-Opened r s' b'))

  handle_as-InBalance : (h : Handling) → InBalance n (handle_as h r s)
  handle_as-InBalance Handling.as_published = add_published-InBalance
  handle_as-InBalance Handling.as_terminal = add_terminal-InBalance
  handle_as-InBalance Handling.as_handoff = add_handoff-InBalance
  handle_as-InBalance Handling.as_retry = Still-InBalance s _ refl b

  pub handle-InBalance : InBalance n (handle r s)
  unfolding handle
  handle-InBalance = handle_as-InBalance (handling r)
