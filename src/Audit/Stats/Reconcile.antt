-- ===== src/Audit/Stats/Reconcile.antt =====
-- Published and terminal records over a whole stream: an invariant of the open records and the
-- counters.
pub mod Steps
pub mod Evictions
pub mod Stream
use coroutines_kafka_consume.Prelude.{
  ℕ, ◌+◌, ◌≤◌, ◌≡◌, refl, sym, ap, ◌∙◌, Bool, true, false, Option, none, some, List, [], ◌∷◌, arith,
  if◌then◌else◌, if_by, if_ind, ◌==◌, beq_self, Option-cases, inl, inr,
}
use mathlib.Core.Option.{some-injective}
use mathlib.Core.Path.{subst}
use coroutines_kafka_consume.Dict.{Dict, lookup, insert, erase, lookup-insert, lookup-erase}
use coroutines_kafka_consume.Dict.Unique.{
  Unique, insert-Unique, erase-Unique, sum_values, sum_values-insert, sum_values-erase, measure,
  lookup_inserted,
}
use coroutines_kafka_consume.Audit.Record.{RecordKey, key_eq, AuditRecord}
use coroutines_kafka_consume.Audit.Stats.{RecordState, AuditStats, is_some, is_complete}
use coroutines_kafka_consume.Audit.Stats.Open.{state_of, save, close_if_complete}
use coroutines_kafka_consume.Audit.Stats.Evict.{count_unmatched}
use coroutines_kafka_consume.Audit.Stats.Frame.{
  counts-close_if_complete, open-close_if_complete, closed_open,
}
use coroutines_kafka_consume.Audit.Stats.Balance.{
  waits, orphaned, IsCounted, Rest, rest, Moves, end-Moves, first_published-Moves,
}
use coroutines_kafka_consume.Audit.Stats.Still.{Ledger, ledger, Still}

-- A state that stays open.
pub record IsOpen (state : RecordState) : Type 0 where
  pub counted : IsCounted state
  pub incomplete : is_complete state ≡ false

abbrev pub AllOpen : Dict RecordKey RecordState → Type 0
AllOpen d = (key : RecordKey) (state : RecordState) → lookup key d ≡ some state → IsOpen state

-- Of the records that have been dropped from the open ones, `unmatched` had an outcome and were
-- never published.
pub record Balanced (unmatched : ℕ) (l : Ledger) : Type 0 where
  pub unique : Unique l.left.open_by_key
  pub all_open : AllOpen l.left.open_by_key
  pub balance :
      l.published_unique + sum_values orphaned l.left.open_by_key + unmatched
      ≡ l.terminal_unique + sum_values waits l.left.open_by_key + l.left.missing_terminal
  pub within :
      unmatched
      ≤ l.left.processed_without_publish + l.left.failed_without_publish
        + l.left.dropped_without_publish
  pub processed : l.left.processed_without_publish ≤ unmatched
  pub failed : l.left.failed_without_publish ≤ unmatched
  pub dropped : l.left.dropped_without_publish ≤ unmatched

found-IsOpen :
    (b : Bool) (before : Option RecordState) {state found : RecordState}
    → (if b then some state else before) ≡ some found
    → IsOpen state
    → (before ≡ some found → IsOpen found)
    → IsOpen found
found-IsOpen true before {found = found} p o all = subst IsOpen (some-injective _ _ p) o
found-IsOpen false before p o all = all p

lost-IsOpen :
    (b : Bool) (before : Option RecordState) {found : RecordState}
    → (if b then none else before) ≡ some found
    → (before ≡ some found → IsOpen found)
    → IsOpen found
lost-IsOpen true before p all = ground arith
lost-IsOpen false before p all = all p

pub insert-AllOpen :
    (key : RecordKey) (state : RecordState) (d : Dict RecordKey RecordState)
    → IsOpen state
    → AllOpen d
    → AllOpen (insert key state d)
insert-AllOpen key state d o all k st found =
    found-IsOpen _ (lookup k d) (sym (lookup-insert key k state d) ∙ found) o (all k st)

pub erase-AllOpen :
    (key : RecordKey) (d : Dict RecordKey RecordState) → AllOpen d → AllOpen (erase key d)
erase-AllOpen key d all k st found =
    lost-IsOpen _ (lookup k d) (sym (lookup-erase key k d) ∙ found) (all k st)

-- The open records after a step on one of them.
abbrev put : RecordKey → RecordState → Dict RecordKey RecordState → Dict RecordKey RecordState
put key state d = if is_complete state then erase key (insert key state d) else insert key state d

abbrev put_ledger : RecordKey → RecordState → AuditStats → Rest → Ledger
put_ledger key state s left = record {
  published_unique = s.published_unique;
  terminal_unique = s.terminal_unique;
  left = record left { open_by_key = put key state left.open_by_key };
}

ledger-close_if_complete :
    (key : RecordKey) (state : RecordState) (s : AuditStats)
    → ledger (close_if_complete key (save key state s)) ≡ put_ledger key state s (rest s)
unfolding save
ledger-close_if_complete key state s =
    let saved = save key state s in
    ground (
      arith,
      counts-close_if_complete key saved,
      open-close_if_complete key saved,
      lookup-insert key key state s.open_by_key,
      beq_self key,
    )

put-Unique :
    (key : RecordKey) (state : RecordState) (d : Dict RecordKey RecordState)
    → Unique d
    → Unique (put key state d)
put-Unique key state d u =
    let inserted = insert-Unique key state d u in
    if_ind Unique (is_complete state) (erase-Unique key (insert key state d) inserted) inserted

lookup-put :
    (key k : RecordKey) (state : RecordState) (d : Dict RecordKey RecordState)
    → lookup k (erase key (insert key state d)) ≡ (if key == k then none else lookup k d)
lookup-put key k state d =
    ground (arith, lookup-erase key k (insert key state d), lookup-insert key k state d)

put-AllOpen :
    (key : RecordKey) (state : RecordState) (d : Dict RecordKey RecordState)
    → IsCounted state
    → AllOpen d
    → AllOpen (put key state d)
put-AllOpen key state d c all k st =
    if_by (λ d'. lookup k d' ≡ some st → IsOpen st) (is_complete state)
      (λ done found. lost-IsOpen _ (lookup k d) (sym (lookup-put key k state d) ∙ found) (all k st))
      (λ going. insert-AllOpen key state d (record { counted = c; incomplete = going }) all k st)

-- A measure that is zero for a complete state.
sum_values-put :
    (f : RecordState → ℕ) (key : RecordKey) (state : RecordState) (d : Dict RecordKey RecordState)
    → Unique d
    → (is_complete state ≡ true → f state ≡ 0)
    → sum_values f (put key state d) + measure f (lookup key d) ≡ sum_values f d + f state
sum_values-put f key state d u zero =
    if_by (λ d'. sum_values f d' + measure f (lookup key d) ≡ sum_values f d + f state)
      (is_complete state)
      (λ done. omega (
        arith,
        sum_values-erase f key (insert key state d) (insert-Unique key state d u),
        ap (measure f) (lookup_inserted key state d),
        sum_values-insert f key state d,
        zero done,
      ))
      (λ going. sum_values-insert f key state d)

waits_complete : (state : RecordState) → is_complete state ≡ true → waits state ≡ 0
waits_complete state done = ground arith

orphaned_complete : (state : RecordState) → is_complete state ≡ true → orphaned state ≡ 0
orphaned_complete state done = ground arith

pub record InBalance (unmatched : ℕ) (s : AuditStats) : Type 0 where
  pub balanced : Balanced unmatched (ledger s)

pub Still-InBalance : {n : ℕ} (s s' : AuditStats) → Still s s' → InBalance n s → InBalance n s'
Still-InBalance {n = n} s s' still b = record {
  balanced = subst (Balanced n) (sym still) b.balanced;
}

-- A step on an open state, stored back under its key, which may close it.
put-InBalance :
    {n : ℕ} (key : RecordKey) (s : AuditStats) (state : RecordState)
    (stepped : RecordState × AuditStats) (after : AuditStats)
    → InBalance n s
    → lookup key s.open_by_key ≡ some state
    → Moves state s stepped
    → ledger after ≡ put_ledger key stepped.0 stepped.1 (rest stepped.1)
    → InBalance n after
put-InBalance {n = n} key s state (state', s') after held found m put_back =
    let b = held.balanced in
    record {
      balanced =
          subst (Balanced n) (sym (put_back ∙ ap (put_ledger key state' s') m.same)) (record {
            unique = put-Unique key state' s.open_by_key b.unique;
            all_open = put-AllOpen key state' s.open_by_key m.counted b.all_open;
            balance = omega (
              arith,
              b.balance,
              m.balance,
              ap (measure waits) found,
              ap (measure orphaned) found,
              sum_values-put waits key state' s.open_by_key b.unique (waits_complete state'),
              sum_values-put orphaned key state' s.open_by_key b.unique (orphaned_complete state'),
            );
            within = b.within;
            processed = b.processed;
            failed = b.failed;
            dropped = b.dropped;
          });
    }

pub close-InBalance :
    {n : ℕ} (key : RecordKey) (s : AuditStats) (state : RecordState)
    (stepped : RecordState × AuditStats)
    → InBalance n s
    → lookup key s.open_by_key ≡ some state
    → Moves state s stepped
    → InBalance n (close_if_complete key (save key stepped.0 stepped.1))
close-InBalance key s state stepped b found m =
    put-InBalance key s state stepped _ b found m (ledger-close_if_complete key stepped.0 stepped.1)

ledger-save :
    (key : RecordKey) (state : RecordState) (s : AuditStats)
    → is_complete state ≡ false
    → ledger (save key state s) ≡ put_ledger key state s (rest s)
unfolding save
ledger-save key state s going = ground arith

pub save-InBalance :
    {n : ℕ} (key : RecordKey) (s : AuditStats) (state : RecordState)
    (stepped : RecordState × AuditStats)
    → InBalance n s
    → lookup key s.open_by_key ≡ some state
    → Moves state s stepped
    → is_complete stepped.0 ≡ false
    → InBalance n (save key stepped.0 stepped.1)
save-InBalance key s state stepped b found m going =
    put-InBalance key s state stepped _ b found m (ledger-save key stepped.0 stepped.1 going)
