-- ===== src/Audit/Spool/Exact.antt =====
-- Sharding by any hash loses nothing: what the spool counts at a target is what the definition of a
-- late event counts over all events in the order of their arrival.
use coroutines_kafka_consume.Prelude.{
  ℕ, zero, suc, ◌+◌, ◌≡◌, refl, Bool, true, false, ◌&&◌, Option, none, some, List, [], ◌∷◌, arith,
  ◌==◌, nat_eq, string_eq, pair_eq, pair_beq_iff, if◌then◌else◌, ◌>>=◌, Option-cases, inl, inr,
}
use coroutines_kafka_consume.Prelude.Int.{ℤ, int_eq, ltb_ℤ}
use coroutines_kafka_consume.Dict.{Dict, lookup, insert, lookup-insert}
use coroutines_kafka_consume.Audit.Record.{RecordType}
use coroutines_kafka_consume.Audit.Late.{
  to_number, exceeds, lates, above, Tracks, Tracks-nil, Tracks-cons,
}
use coroutines_kafka_consume.Audit.Late.Shards.{sum_range}
use coroutines_kafka_consume.Audit.Order.{ProcessingOrderStats, count_late}
use coroutines_kafka_consume.Audit.Order.Exact.{Counter, counter}
use coroutines_kafka_consume.Audit.Spool.{
  SpoolEntry, TargetKey, target_key, SpoolGroup, spool_group, Targets, count_at, reduce_entry,
  reduce_entries, reduce_file, reduce_files, written,
}

abbrev pub entry_offset : SpoolEntry → ℤ
entry_offset e = e.key.offset

abbrev pub kind_counts : Counter → Bool → Bool
kind_counts Counter.all _ = true
kind_counts Counter.processed complete = complete
kind_counts Counter.failed true = false
kind_counts Counter.failed false = true

-- The entries that a counter of a target is about.
abbrev pub counts_at : Counter → TargetKey → SpoolEntry → Bool
counts_at c t e = target_key e == t && kind_counts c e.is_complete

abbrev pub counter_of : Counter → Option ProcessingOrderStats → ℕ
counter_of c none = 0
counter_of c (some target) = counter c target

abbrev pub is_bound : Option ProcessingOrderStats → Bool
is_bound none = false
is_bound (some target) = true

-- Every target that the entries need is bound.
abbrev pub Bound : List SpoolEntry → Targets → Type 0
Bound [] targets = Unit
Bound (e ∷ entries) targets =
    (is_bound (lookup (target_key e) targets) ≡ true) × Bound entries targets

-- What a step did to the targets: none is unbound, and each counter of a bound one grew by `n`.
pub record Grew (n : Counter → TargetKey → ℕ) (old new : Targets) : Type 0 where
  pub bound : (t : TargetKey) → is_bound (lookup t old) ≡ true → is_bound (lookup t new) ≡ true
  pub count :
      (c : Counter) (t : TargetKey)
      → is_bound (lookup t old) ≡ true
      → counter_of c (lookup t new) ≡ counter_of c (lookup t old) + n c t

pub Bound-Grew :
    (entries : List SpoolEntry) {n : Counter → TargetKey → ℕ} {old new : Targets}
    → Grew n old new
    → Bound entries old
    → Bound entries new
Bound-Grew [] g b = tt
Bound-Grew (e ∷ entries) g b = (g.bound (target_key e) b.0, Bound-Grew entries g b.1)

Grew-trans :
    {n m : Counter → TargetKey → ℕ} {a b c : Targets}
    → Grew n a b
    → Grew m b c
    → Grew (λ k t. n k t + m k t) a c
Grew-trans g h = record {
  bound = λ t x. h.bound t (g.bound t x);
  count = λ k t x. omega (arith, g.count k t x, h.count k t (g.bound t x));
}

Grew-none : (targets : Targets) → Grew (λ c t. 0) targets targets
Grew-none targets = record { bound = λ t x. x; count = λ c t x. omega arith }

Grew-eq :
    {n m : Counter → TargetKey → ℕ} {a b : Targets}
    → ((c : Counter) (t : TargetKey) → n c t ≡ m c t)
    → Grew n a b
    → Grew m a b
Grew-eq e g = record { bound = g.bound; count = λ c t x. omega (arith, e c t, g.count c t x) }

abbrev counted : SpoolEntry → ProcessingOrderStats → ProcessingOrderStats
counted e = count_late (if e.is_complete then RecordType.complete else RecordType.fail)

counter-counted :
    (c : Counter) (e : SpoolEntry) (target : ProcessingOrderStats)
    → counter c (counted e target) ≡ counter c target + to_number (kind_counts c e.is_complete)
unfolding count_late
counter-counted Counter.all e target = ground arith
counter-counted Counter.processed e target = ground arith
counter-counted Counter.failed e target = ground arith

count_at-Grew :
    (e : SpoolEntry) (targets : Targets)
    → is_bound (lookup (target_key e) targets) ≡ true
    → (targets' : Targets) × (count_at e targets ≡ some targets')
      × Grew (λ c t. to_number (counts_at c t e)) targets targets'
unfolding count_at
count_at-Grew e targets b = elim (Option-cases (lookup (target_key e) targets)) [
  | inl missing ↦ ground arith
  | inr (target, found) ↦ (
    insert (target_key e) (counted e target) targets,
    rw (found, count_at),
    record {
      bound = λ t x. ground (arith, lookup-insert (target_key e) t (counted e target) targets);
      count = λ c t x. ground (
        arith,
        lookup-insert (target_key e) t (counted e target) targets,
        counter-counted c e target,
        pair_beq_iff (target_key e) t,
      );
    },
  )
]

abbrev last_of : Dict SpoolGroup ℤ → SpoolGroup → Option ℤ
last_of last g = lookup g last

abbrev comes_late : SpoolEntry → Dict SpoolGroup ℤ → Bool
comes_late e last = above e.key.offset (lookup (spool_group e) last)

-- The offsets after an entry.
abbrev moved : SpoolEntry → Option ℤ → Dict SpoolGroup ℤ → Dict SpoolGroup ℤ
moved e none last = insert (spool_group e) e.key.offset last
moved e (some seen) last =
    if ltb_ℤ seen e.key.offset then insert (spool_group e) e.key.offset last else last

abbrev after : SpoolEntry → Dict SpoolGroup ℤ → Dict SpoolGroup ℤ
after e last = if comes_late e last then last else moved e (lookup (spool_group e) last) last

reduce_entry_lem :
    (e : SpoolEntry) (last : Dict SpoolGroup ℤ) (targets : Targets)
    → reduce_entry e last targets
      ≡ (if comes_late e last then count_at e targets else some targets) >>= λ targets'.
          some (after e last, targets')
unfolding reduce_entry
reduce_entry_lem e last targets = ground arith

Tracks-after :
    (earlier : List SpoolEntry) (e : SpoolEntry) (last : Dict SpoolGroup ℤ)
    → Tracks spool_group entry_offset (last_of last) earlier
    → Tracks spool_group entry_offset (last_of (after e last)) (e ∷ earlier)
Tracks-after earlier e last tr =
    Tracks-cons spool_group entry_offset (last_of last) (last_of (after e last)) e earlier tr λ g.
      ground
        (arith, lookup-insert (spool_group e) g e.key.offset last, pair_beq_iff (spool_group e) g)

-- Whether the entry comes late after the history, and counts for the counter of the target.
abbrev late_entry : List SpoolEntry → SpoolEntry → Counter → TargetKey → ℕ
late_entry earlier e c t =
    to_number
      (counts_at c t e && exceeds spool_group entry_offset earlier (spool_group e) e.key.offset)

abbrev count_if_late : Bool → SpoolEntry → Targets → Option Targets
count_if_late late e targets = if late then count_at e targets else some targets

count_if_late-Grew :
    (late : Bool) (e : SpoolEntry) (targets : Targets)
    → is_bound (lookup (target_key e) targets) ≡ true
    → (targets' : Targets) × (count_if_late late e targets ≡ some targets')
      × Grew (λ c t. to_number (counts_at c t e && late)) targets targets'
count_if_late-Grew true e targets b =
    let (targets', done, grew) = count_at-Grew e targets b in
    (targets', done, Grew-eq (λ c t. ground arith) grew)
count_if_late-Grew false e targets b =
    (targets, refl, Grew-eq (λ c t. ground arith) (Grew-none targets))

abbrev pub late_entries : List SpoolEntry → List SpoolEntry → Counter → TargetKey → ℕ
late_entries earlier entries c t = lates spool_group entry_offset (counts_at c t) earlier entries

reduce_entries-Grew :
    (entries earlier : List SpoolEntry) (last : Dict SpoolGroup ℤ) (targets : Targets)
    → Tracks spool_group entry_offset (last_of last) earlier
    → Bound entries targets
    → (targets' : Targets) × (reduce_entries entries last targets ≡ some targets')
      × Grew (late_entries earlier entries) targets targets'
unfolding reduce_entries lates
reduce_entries-Grew [] earlier last targets tr b = (targets, refl, Grew-none targets)
reduce_entries-Grew (e ∷ entries) earlier last targets tr b =
    let (middle, done, grew) = count_if_late-Grew (comes_late e last) e targets b.0 in
    let (final, rest_done, rest) =
      reduce_entries-Grew entries (e ∷ earlier) (after e last) middle
        (Tracks-after earlier e last tr) (Bound-Grew entries grew b.1) in
    (
      final,
      rw (reduce_entry_lem, done) rest_done,
      Grew-eq (λ c t. rw (tr (spool_group e) (entry_offset e))) (Grew-trans grew rest),
    )

abbrev pub file_at : ℕ → Dict ℕ (List SpoolEntry) → List SpoolEntry
file_at i files = written (lookup i files)

-- The files are reduced in turn, each from no history.
pub reduce_files-Grew :
    (i k : ℕ) (files : Dict ℕ (List SpoolEntry)) (targets : Targets)
    → ((j : ℕ) → Bound (file_at j files) targets)
    → (targets' : Targets) × (reduce_files i k files targets ≡ some targets')
      × Grew (λ c t. sum_range i k (λ j. late_entries [] (file_at j files) c t)) targets targets'
unfolding reduce_files reduce_file sum_range
reduce_files-Grew i zero files targets b = (targets, refl, Grew-none targets)
reduce_files-Grew i (suc k) files targets b =
    let (middle, done, grew) =
      reduce_entries-Grew (file_at i files) [] [] targets
        (Tracks-nil spool_group entry_offset (last_of []) (λ g. unfold lookup in refl)) (b i) in
    let (final, rest_done, rest) =
      reduce_files-Grew (i + 1) k files middle (λ j. Bound-Grew (file_at j files) grew (b j)) in
    (final, rw done rest_done, Grew-trans grew rest)
