-- ===== src/Audit/Spool/Sharding.antt =====
-- From the events that are added to the counters of the targets: whatever the hash and the number
-- of shards, the spool counts as if it had kept the whole history of every group.
use native.Mathlib.Nat.{mod-lt}
use mathlib.Core.Path.{fun_ext}
use mathlib.Core.List.{append-nil, append_assoc}
use coroutines_kafka_consume.Prelude.{
  ℕ, ◌+◌, ◌<◌, ◌≡◌, refl, ap, true, false, Option, some, List, [], ◌∷◌, ◌++◌, arith, nat_eq,
  string_eq, pair_eq, nat_beq, nat_beq_iff, ◌>>=◌, Bool-cases, inl, inr, sym, ◌∙◌,
}
use coroutines_kafka_consume.Prelude.Int.{ℤ, pos, negsuc, int_eq, floor_mod}
use coroutines_kafka_consume.Dict.{Dict, lookup, insert, lookup-insert}
use coroutines_kafka_consume.Audit.Record.{AuditRecord}
use coroutines_kafka_consume.Audit.Late.{lates}
use coroutines_kafka_consume.Audit.Late.Shards.{sum_range, select, lates-shards}
use coroutines_kafka_consume.Audit.Order.{KeyGroup, key_group}
use coroutines_kafka_consume.Audit.Order.Exact.{Counter}
use coroutines_kafka_consume.Audit.Spool.{
  SpoolEntry, ExactKeyOrderSpool, TargetKey, spool_group, SpoolGroup, Targets, add, finish,
  header_fits, to_entry, shard_of, reduce_files,
}
use coroutines_kafka_consume.Audit.Spool.Exact.{
  entry_offset, counts_at, counter_of, is_bound, Bound, late_entries, file_at, reduce_files-Grew,
}

-- A scope and a record, as they are passed to `add`.
abbrev pub Event : Type 0
Event = ℕ × AuditRecord

abbrev pub entries_of : List Event → List SpoolEntry
entries_of [] = []
entries_of ((scope_id, r) ∷ events) = to_entry scope_id r ∷ entries_of events

-- The fields of every event fit the header.
abbrev pub Fits : List Event → Type 0
Fits [] = Unit
Fits ((scope_id, r) ∷ events) = (header_fits scope_id r ≡ true) × Fits events

floor_mod-lt : (a : ℤ) (n : ℕ) → 0 < n → floor_mod a n < n
floor_mod-lt (pos a) n h = mod-lt a h
floor_mod-lt (negsuc a) n h = omega arith

file_at-nil : (j : ℕ) → file_at j [] ≡ []
unfolding lookup
file_at-nil j = refl

finish_lem :
    (spool : ExactKeyOrderSpool) (targets : Targets)
    → spool.finished ≡ false
    → reduce_files 0 spool.shard_count spool.files spool.targets ≡ some targets
    → finish spool ≡ some (record spool { targets = targets; files = []; finished = true })
unfolding finish
finish_lem spool targets open_spool done = ground arith

module _ (hash : KeyGroup → ℤ) where
  -- One `add` after the other.
  unfoldable pub add_all : List Event → ExactKeyOrderSpool → Option ExactKeyOrderSpool
  add_all [] spool = some spool
  add_all ((scope_id, r) ∷ events) spool = do
    spool' ← add hash scope_id r spool
    add_all events spool'

  abbrev shard : ℕ → SpoolEntry → ℕ
  shard n e = shard_of hash n (spool_group e).1

  -- The entries behind those that are in the file of each shard.
  abbrev Appends : ExactKeyOrderSpool → List SpoolEntry → ExactKeyOrderSpool → Type 0
  Appends old entries new =
      (j : ℕ)
      → file_at j new.files ≡ file_at j old.files ++ select (shard old.shard_count) j entries

  abbrev appended : ℕ → AuditRecord → ExactKeyOrderSpool → ExactKeyOrderSpool
  appended scope_id r spool =
      let place = shard_of hash spool.shard_count (key_group r) in
      record spool {
        files = insert place (file_at place spool.files ++ (to_entry scope_id r ∷ [])) spool.files;
      }

  add_lem :
      (scope_id : ℕ) (r : AuditRecord) (spool : ExactKeyOrderSpool)
      → header_fits scope_id r ≡ true
      → add hash scope_id r spool ≡ some (appended scope_id r spool)
  unfolding add
  add_lem scope_id r spool fits = rw fits

  Appends-add :
      (scope_id : ℕ) (r : AuditRecord) (spool : ExactKeyOrderSpool)
      → Appends spool (to_entry scope_id r ∷ []) (appended scope_id r spool)
  unfolding select to_entry
  Appends-add scope_id r spool j =
      let place = shard_of hash spool.shard_count (key_group r) in
      ground (
        arith,
        lookup-insert place j (file_at place spool.files ++ (to_entry scope_id r ∷ [])) spool.files,
        nat_beq_iff place j,
        append-nil (file_at j spool.files),
      )

  select-cons :
      (n j : ℕ) (e : SpoolEntry) (entries : List SpoolEntry)
      → select (shard n) j (e ∷ entries) ≡ select (shard n) j (e ∷ []) ++ select (shard n) j entries
  unfolding select
  select-cons n j e entries = ground arith

  add_all_lem :
      (events : List Event) (spool : ExactKeyOrderSpool)
      → Fits events
      → (files : Dict ℕ (List SpoolEntry)) × (add_all events spool
          ≡ some (record spool { files = files }))
        × Appends spool (entries_of events) (record spool { files = files })
  unfolding add_all
  add_all_lem [] spool fits = (spool.files, refl, λ j. unfold select in sym (append-nil _))
  add_all_lem ((scope_id, r) ∷ events) spool fits =
      let (files, done, appends) = add_all_lem events (appended scope_id r spool) fits.1 in
      (
        files,
        rw (add_lem scope_id r spool fits.0) done,
        λ j. cc (
          appends j,
          Appends-add scope_id r spool j,
          append_assoc (file_at j spool.files)
              (select (shard spool.shard_count) j (to_entry scope_id r ∷ []))
              (select (shard spool.shard_count) j (entries_of events)),
          select-cons spool.shard_count j (to_entry scope_id r) (entries_of events),
        ),
      )

  Bound-select :
      (n j : ℕ) (entries : List SpoolEntry) (targets : Targets)
      → Bound entries targets
      → Bound (select (shard n) j entries) targets
  unfolding select
  Bound-select n j [] targets b = tt
  Bound-select n j (e ∷ entries) targets b = elim (Bool-cases (nat_beq (shard n e) j)) [
    | inl here ↦ rw here (b.0, Bound-select n j entries targets b.1)
    | inr other ↦ rw other (Bound-select n j entries targets b.1)
  ]

  -- The counters of the targets after some events on a new set of files, and `finish`.
  pub record CountsLate (events : List Event) (spool result : ExactKeyOrderSpool) : Type 0 where
    pub returned : (add_all events spool >>= finish) ≡ some result
    pub count :
        (c : Counter) (t : TargetKey)
        → is_bound (lookup t spool.targets) ≡ true
        → counter_of c (lookup t result.targets)
          ≡ counter_of c (lookup t spool.targets)
            + lates spool_group entry_offset (counts_at c t) [] (entries_of events)

  module _ (events : List Event) (spool : ExactKeyOrderSpool) (positive : 0 < spool.shard_count)
      (no_files : spool.files ≡ []) (open_spool : spool.finished ≡ false) (fits : Fits events)
      (bound : Bound (entries_of events) spool.targets) where
    select_files :
        (files : Dict ℕ (List SpoolEntry))
        → Appends spool (entries_of events) (record spool { files = files })
        → (j : ℕ) → file_at j files ≡ select (shard spool.shard_count) j (entries_of events)
    select_files files appends j = ground (arith, appends j, no_files, file_at-nil j)

    Bound-files :
        (files : Dict ℕ (List SpoolEntry))
        → Appends spool (entries_of events) (record spool { files = files })
        → (j : ℕ) → Bound (file_at j files) spool.targets
    Bound-files files appends j =
        rw (select_files files appends j)
          (Bound-select spool.shard_count j (entries_of events) spool.targets bound)

    lates_files :
        (files : Dict ℕ (List SpoolEntry))
        → Appends spool (entries_of events) (record spool { files = files })
        → (c : Counter) (t : TargetKey)
        → sum_range 0 spool.shard_count (λ j. late_entries [] (file_at j files) c t)
          ≡ late_entries [] (entries_of events) c t
    lates_files files appends c t =
        ap (sum_range 0 spool.shard_count)
          (fun_ext λ j. ap (λ l. late_entries [] l c t) (select_files files appends j))
        ∙ lates-shards spool_group entry_offset (counts_at c t) (shard spool.shard_count)
            (λ a b e. ap (λ (g : SpoolGroup). shard_of hash spool.shard_count g.1) e)
            spool.shard_count
            (λ a. floor_mod-lt (hash (spool_group a).1) spool.shard_count positive)
            (entries_of events)

    -- Whatever `hash` computes and however many shards there are: adding events that fit the header
    -- and whose targets are bound, to an unfinished spool with no files, and then `finish`, returns
    -- normally, and each counter (all, "C", not "C") of each bound target has grown by the number of
    -- its events for which an earlier event of the same scope, topic, partition and message key has
    -- a greater offset.
    pub spool-CountsLate : (result : ExactKeyOrderSpool) × CountsLate events spool result
    spool-CountsLate =
        let (files, added, appends) = add_all_lem events spool fits in
        let (targets, done, grew) =
          reduce_files-Grew 0 spool.shard_count files spool.targets (Bound-files files appends) in
        (
          record spool { targets = targets; files = []; finished = true },
          record {
            returned =
                rw added (finish_lem (record spool { files = files }) targets open_spool done);
            count = λ c t x. omega (arith, grew.count c t x, lates_files files appends c t);
          },
        )
