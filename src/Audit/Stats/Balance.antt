-- ===== src/Audit/Stats/Balance.antt =====
-- Published and terminal records against each other: what a state that is open still waits for, and
-- how the steps on an open state move the counters.
use coroutines_kafka_consume.Prelude.{
  ℕ, ◌+◌, ◌≡◌, refl, ◌∙◌, true, false, not, ◌&&◌, some, arith, nat_beq, if_by, string_eq,
}
use coroutines_kafka_consume.Dict.{Dict}
use coroutines_kafka_consume.Audit.Record.{RecordKey, AuditRecord, RecordType}
use coroutines_kafka_consume.Audit.Late.{to_number}
use coroutines_kafka_consume.Audit.Stats.{
  RecordState, AuditStats, is_some, has_terminal, add_drop_reason, add_replay_drop,
}
use coroutines_kafka_consume.Audit.Stats.Open.{
  touch, add_terminal_unique, first_processed, first_failed, first_dropped, add_outcome,
  note_conflict,
}
use coroutines_kafka_consume.Audit.Stats.Run.{first_published}
use coroutines_kafka_consume.Audit.Stats.Frame.{counts-add_order, open-add_order}

-- Published, with no outcome.
abbrev pub waits : RecordState → ℕ
waits state = to_number (is_some state.published && not (has_terminal state))

-- With an outcome, but not published.
abbrev pub orphaned : RecordState → ℕ
orphaned state = to_number (not (is_some state.published) && has_terminal state)

abbrev outcomes : RecordState → ℕ
outcomes state = state.processed_count + state.failed_count + state.dropped_count

-- The count of an outcome is zero if there is none.
pub record IsCounted (state : RecordState) : Type 0 where
  pub processed : nat_beq state.processed_count 0 ≡ not (is_some state.processed)
  pub failed : nat_beq state.failed_count 0 ≡ not (is_some state.failed)
  pub dropped : nat_beq state.dropped_count 0 ≡ not (is_some state.dropped)

-- What a step on an open state leaves alone.
pub record Rest : Type 0 where
  pub open_by_key : Dict RecordKey RecordState
  pub missing_terminal : ℕ
  pub processed_without_publish : ℕ
  pub failed_without_publish : ℕ
  pub dropped_without_publish : ℕ

abbrev pub rest : AuditStats → Rest
rest s = record {
  open_by_key = s.open_by_key;
  missing_terminal = s.missing_terminal;
  processed_without_publish = s.processed_without_publish;
  failed_without_publish = s.failed_without_publish;
  dropped_without_publish = s.dropped_without_publish;
}

-- A step on an open state: the difference of published and terminal records moves as the state does.
pub record Moves (state : RecordState) (s : AuditStats) (after : RecordState × AuditStats)
    : Type 0 where
  pub balance :
      after.1.published_unique + orphaned after.0 + (s.terminal_unique + waits state)
      ≡ s.published_unique + orphaned state + (after.1.terminal_unique + waits after.0)
  pub counted : IsCounted after.0
  pub same : rest after.1 ≡ rest s

-- The counters that `_add_terminal_unique` leaves alone, and the one that it may move.
record Terminal (state : RecordState) (s s' : AuditStats) : Type 0 where
  pub unique : s'.terminal_unique ≡ s.terminal_unique + to_number (nat_beq (outcomes state) 1)
  pub same_published : s'.published_unique ≡ s.published_unique
  pub same : rest s' ≡ rest s

add_terminal_unique-Terminal :
    (r : AuditRecord) (state : RecordState) (s : AuditStats)
    → Terminal state s (add_terminal_unique r state s)
unfolding add_terminal_unique
add_terminal_unique-Terminal r state s =
    let s' = record s { terminal_unique = s.terminal_unique + 1 } in
    ground (arith, counts-add_order r s', open-add_order r s')

pub first_published-Moves :
    (r : AuditRecord) (state : RecordState) (s : AuditStats)
    → IsCounted state
    → is_some state.published ≡ false
    → Moves state s (first_published r state s)
unfolding first_published
first_published-Moves r state s c unpublished = ground (arith, c.processed, c.failed, c.dropped)

by_type :
    {A : Type 0} (P : A → Type 0) (t : RecordType) {x y z : A}
    → P x
    → P y
    → P z
    → P (elim t [ RecordType.complete ↦ x | RecordType.fail ↦ y | _ ↦ z ])
by_type P RecordType.complete px py pz = px
by_type P RecordType.fail px py pz = py
by_type P _ px py pz = pz

-- The state takes its first outcome of a type, which may be its first outcome.
record Outcome (state state' : RecordState) : Type 0 where
  pub counted : IsCounted state'
  pub balance :
      orphaned state' + waits state
      ≡ orphaned state + (to_number (nat_beq (outcomes state') 1) + waits state')

Outcome-Moves :
    (r : AuditRecord) {state state' : RecordState} (s s' : AuditStats)
    → Outcome state state'
    → s'.published_unique ≡ s.published_unique
    → s'.terminal_unique ≡ s.terminal_unique
    → rest s' ≡ rest s
    → Moves state s (state', add_terminal_unique r state' s')
Outcome-Moves r {state' = state'} s s' o published_same terminal_same rest_same =
    let t = add_terminal_unique-Terminal r state' s' in
    record {
      balance = omega (arith, t.unique, t.same_published, o.balance, published_same, terminal_same);
      counted = o.counted;
      same = t.same ∙ rest_same;
    }

module _ (r : AuditRecord) (state : RecordState) (c : IsCounted state) where
  processed-Outcome :
      is_some state.processed ≡ false
      → Outcome state (record state { processed = some r; processed_count = 1 })
  processed-Outcome new = ground (arith, c.processed, c.failed, c.dropped)

  failed-Outcome :
      is_some state.failed ≡ false
      → Outcome state (record state { failed = some r; failed_count = 1 })
  failed-Outcome new = ground (arith, c.processed, c.failed, c.dropped)

  dropped-Outcome :
      is_some state.dropped ≡ false
      → Outcome state (record state { dropped = some r; dropped_count = 1 })
  dropped-Outcome new = ground (arith, c.processed, c.failed, c.dropped)

  module _ (s : AuditStats) where
    first_processed-Moves :
        is_some state.processed ≡ false → Moves state s (first_processed r state s)
    unfolding first_processed
    first_processed-Moves new = Outcome-Moves r s _ (processed-Outcome new) refl refl refl

    first_failed-Moves : is_some state.failed ≡ false → Moves state s (first_failed r state s)
    unfolding first_failed
    first_failed-Moves new = Outcome-Moves r s _ (failed-Outcome new) refl refl refl

    first_dropped-Moves : is_some state.dropped ≡ false → Moves state s (first_dropped r state s)
    unfolding first_dropped add_drop_reason add_replay_drop
    first_dropped-Moves new =
        Outcome-Moves r s _ (dropped-Outcome new) (ground arith) (ground arith) (ground arith)

    processed_again-Moves :
        is_some state.processed ≡ true
        → Moves state s (
          record state { processed_count = state.processed_count + 1 },
          record s { duplicate_processed = s.duplicate_processed + 1 },
        )
    processed_again-Moves old = ground (arith, c.processed, c.failed, c.dropped)

    failed_again-Moves :
        is_some state.failed ≡ true
        → Moves state s (
          record state { failed_count = state.failed_count + 1 },
          record s { duplicate_failed = s.duplicate_failed + 1 },
        )
    failed_again-Moves old = ground (arith, c.processed, c.failed, c.dropped)

    dropped_again-Moves :
        is_some state.dropped ≡ true
        → Moves state s (
          record state { dropped_count = state.dropped_count + 1 },
          record s { duplicate_dropped = s.duplicate_dropped + 1 },
        )
    dropped_again-Moves old = ground (arith, c.processed, c.failed, c.dropped)

    add_outcome-Moves : Moves state s (add_outcome r state s)
    unfolding add_outcome
    add_outcome-Moves =
        by_type (Moves state s) r.record_type
          (if_by (Moves state s) _ processed_again-Moves first_processed-Moves)
          (if_by (Moves state s) _ failed_again-Moves first_failed-Moves)
          (if_by (Moves state s) _ dropped_again-Moves first_dropped-Moves)

note_conflict-Moves :
    (state : RecordState) (s : AuditStats)
    → IsCounted state
    → Moves state s (note_conflict (state, s))
unfolding note_conflict
note_conflict-Moves state s c = ground (arith, c.processed, c.failed, c.dropped)

pub touch-Moves :
    (r : AuditRecord) (state : RecordState) (s : AuditStats)
    → IsCounted state
    → Moves state s (touch r (state, s))
unfolding touch
touch-Moves r state s c = ground (arith, c.processed, c.failed, c.dropped)

pub then-Moves :
    {state state' : RecordState} {s s' : AuditStats} {after : RecordState × AuditStats}
    → Moves state s (state', s')
    → Moves state' s' after
    → Moves state s after
then-Moves m n = record {
  balance = omega (arith, m.balance, n.balance);
  counted = n.counted;
  same = n.same ∙ m.same;
}

-- `_add_terminal` on an open state, up to where the state is closed.
pub end-Moves :
    (r : AuditRecord) (state : RecordState) (s : AuditStats)
    → IsCounted state
    → Moves state s
        (let (state₁, s₁) = touch r (state, s) in note_conflict (add_outcome r state₁ s₁))
end-Moves r state s c =
    let t = touch-Moves r state s c in
    let o = add_outcome-Moves r (touch r (state, s)).0 t.counted (touch r (state, s)).1 in
    then-Moves t (then-Moves o (note_conflict-Moves _ _ o.counted))
