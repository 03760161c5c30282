-- ===== src/Audit/Spool.antt =====
-- `ExactKeyOrderSpool` of demo/infra/shared/audit/analyze-audit.py: key-order events kept in files,
-- a shard to a file, and reduced shard by shard at the end.
--
-- A file is the list of the entries that were written to it; that the packed headers read back as
-- they were written is not modelled. A target is a `ProcessingOrderStats` that the spool shares
-- with the statistics of a topic: here it lives in the spool. Python's `hash` is a parameter.
pub mod Exact
pub mod Sharding
use Prim.Native.Nat.{bit_and}
use Prim.Native.String.{len}
use coroutines_kafka_consume.Prelude.{
  ℕ, zero, suc, ◌+◌, ◌-◌, ◌^◌, ◌≡◌, Bool, true, false, not, ◌&&◌, ◌||◌, Option, none, some, String,
  List, [], ◌∷◌, ◌++◌, HasEq, ◌==◌, nat_eq, string_eq, pair_eq, if◌then◌else◌, ltb, nat_beq, ◌>>=◌,
}
use coroutines_kafka_consume.Prelude.Int.{ℤ, pos, negsuc, int_eq, ltb_ℤ, leb_ℤ, floor_mod}
use coroutines_kafka_consume.Dict.{Dict, lookup, insert}
use coroutines_kafka_consume.Audit.Record.{AuditRecord, RecordType, RecordKey}
use coroutines_kafka_consume.Audit.Order.{ProcessingOrderStats, KeyGroup, key_group, count_late}

pub record SpoolEntry : Type 0 where
  pub scope_id : ℕ
  pub key : RecordKey
  pub is_complete : Bool
  pub message_key : String

-- A scope and a topic
abbrev pub TargetKey : Type 0
TargetKey = ℕ × ℤ

abbrev pub target_key : SpoolEntry → TargetKey
target_key e = (e.scope_id, e.key.topic_id)

abbrev pub SpoolGroup : Type 0
SpoolGroup = ℕ × KeyGroup

abbrev pub spool_group : SpoolEntry → SpoolGroup
spool_group e = (e.scope_id, (e.key.topic_id, (e.key.partition, e.message_key)))

abbrev pub Targets : Type 0
Targets = Dict TargetKey ProcessingOrderStats

pub record ExactKeyOrderSpool : Type 0 where
  pub shard_count : ℕ
  pub files : Dict ℕ (List SpoolEntry)
  pub targets : Targets
  pub next_scope_id : ℕ
  pub finished : Bool

-- `none` is the ValueError for a count that is no positive power of two.
unfoldable pub new_spool : ℕ → Option ExactKeyOrderSpool
new_spool shard_count =
    if nat_beq shard_count 0 || not (nat_beq (bit_and shard_count (shard_count - 1)) 0)
    then none
    else some (record {
      shard_count = shard_count;
      files = [];
      targets = [];
      next_scope_id = 0;
      finished = false;
    })

unfoldable pub new_scope : ExactKeyOrderSpool → ℕ × ExactKeyOrderSpool
new_scope spool = (spool.next_scope_id, record spool { next_scope_id = spool.next_scope_id + 1 })

unfoldable pub bind : ℕ → ℤ → ProcessingOrderStats → ExactKeyOrderSpool → ExactKeyOrderSpool
unfolding insert
bind scope_id topic_id target spool = record spool {
  targets = insert (scope_id, topic_id) target spool.targets;
}

-- lo <= x < hi
abbrev pub between : ℤ → ℤ → ℤ → Bool
between lo hi x = leb_ℤ lo x && ltb_ℤ x hi

-- The ranges of the header's fields, `<HHiqcI`: `pack` raises `struct.error` outside of them.
unfoldable pub header_fits : ℕ → AuditRecord → Bool
header_fits scope_id r =
    ltb scope_id (2 ^ 16)
    && (between (pos 0) (pos (2 ^ 16)) r.key.topic_id
        && (between (negsuc (2 ^ 31 - 1)) (pos (2 ^ 31)) r.key.partition
            && (between (negsuc (2 ^ 63 - 1)) (pos (2 ^ 63)) r.key.offset
                && ltb (len r.message_key) (2 ^ 32))))

-- b"C" if record.record_type == "C" else b"F"
abbrev pub completes : RecordType → Bool
completes RecordType.complete = true
completes _ = false

unfoldable pub to_entry : ℕ → AuditRecord → SpoolEntry
to_entry scope_id r = record {
  scope_id = scope_id;
  key = r.key;
  is_complete = completes r.record_type;
  message_key = r.message_key;
}

abbrev pub written : Option (List SpoolEntry) → List SpoolEntry
written none = []
written (some entries) = entries

module _ (hash : KeyGroup → ℤ) where
  -- `hash(...) & (shard_count - 1)`, which for a power of two is the remainder.
  abbrev pub shard_of : ℕ → KeyGroup → ℕ
  shard_of shard_count group = floor_mod (hash group) shard_count

  -- Opens the shard's file if need be, and appends to it. `none` is the `struct.error`.
  unfoldable pub add : ℕ → AuditRecord → ExactKeyOrderSpool → Option ExactKeyOrderSpool
  add scope_id r spool =
      let shard = shard_of spool.shard_count (key_group r) in
      let file = written (lookup shard spool.files) in
      if header_fits scope_id r
      then some
          (record spool { files = insert shard (file ++ (to_entry scope_id r ∷ [])) spool.files })
      else none

-- Counts a late entry at its target; `none` is the KeyError of a target that was not bound.
unfoldable pub count_at : SpoolEntry → Targets → Option Targets
unfolding count_late lookup insert
count_at e targets = elim (lookup (target_key e) targets) [
  | none ↦ none
  | some target ↦ some (
      insert (target_key e)
        (count_late (if e.is_complete then RecordType.complete else RecordType.fail) target)
        targets)
]

-- One round of the loop of `_reduce`, on the last offsets of the groups and the targets.
unfoldable pub reduce_entry :
    SpoolEntry → Dict SpoolGroup ℤ → Targets → Option (Dict SpoolGroup ℤ × Targets)
unfolding count_at lookup insert
reduce_entry e last targets = elim (lookup (spool_group e) last) [
  | none ↦ some (insert (spool_group e) e.key.offset last, targets)
  | some seen ↦
      if ltb_ℤ e.key.offset seen
      then (do targets' ← count_at e targets; some (last, targets'))
      else if ltb_ℤ seen e.key.offset
      then some (insert (spool_group e) e.key.offset last, targets)
      else some (last, targets)
]

-- The loop of `_reduce`.
unfoldable pub reduce_entries : List SpoolEntry → Dict SpoolGroup ℤ → Targets → Option Targets
reduce_entries [] last targets = some targets
reduce_entries (e ∷ entries) last targets = do
  (last', targets') ← reduce_entry e last targets
  reduce_entries entries last' targets'

-- `_reduce`: one file, from no history.
unfoldable pub reduce_file : List SpoolEntry → Targets → Option Targets
reduce_file entries targets = reduce_entries entries [] targets

-- The loop of `finish` over the `k` paths from the `i`th. A shard that got no entry has no file.
unfoldable pub reduce_files : ℕ → ℕ → Dict ℕ (List SpoolEntry) → Targets → Option Targets
reduce_files i zero files targets = some targets
reduce_files i (suc k) files targets = do
  targets' ← reduce_file (written (lookup i files)) targets
  reduce_files (i + 1) k files targets'

unfoldable pub finish : ExactKeyOrderSpool → Option ExactKeyOrderSpool
finish spool = if spool.finished then some spool else do
  targets ← reduce_files 0 spool.shard_count spool.files spool.targets
  some (record spool { targets = targets; files = []; finished = true })
