-- ===== src/Audit/Windows/Published.antt =====
-- What the windows count as published.
use coroutines_kafka_consume.Prelude.{
  ℕ, ◌+◌, ◌≡◌, refl, sym, ap, ◌∙◌, arith, Bool, true, false, ◌&&◌, Option, none, some, List, [],
  ◌∷◌, ◌++◌, ◌==◌, count_if, if◌then◌else◌, if_ind, if_by, Every, Every-append, Every-imp,
}
use coroutines_kafka_consume.Prelude.Int.{ℤ, int_eq}
use coroutines_kafka_consume.Dict.{Dict, lookup, insert, erase, get_or}
use coroutines_kafka_consume.Dict.Unique.{sum_values, measure, sum_values-insert}
use coroutines_kafka_consume.Audit.Record.{RecordKey, key_eq, AuditRecord}
use coroutines_kafka_consume.Audit.Late.{to_number}
use coroutines_kafka_consume.Audit.Latency.{LatencySlaRule}
use coroutines_kafka_consume.Audit.Stats.{AuditStats, Limit, new_audit}
use coroutines_kafka_consume.Audit.Stats.Run
use coroutines_kafka_consume.Audit.Stats.Run.{handling}
use coroutines_kafka_consume.Audit.Stats.Frame.{counts}
use coroutines_kafka_consume.Audit.Stats.Tally.{kept-add, of_kind}
use coroutines_kafka_consume.Audit.Stats.Tally.Outcomes.{Kind, kept}
use coroutines_kafka_consume.Audit.Accumulator
use coroutines_kafka_consume.Audit.Accumulator.{
  AuditAccumulator, new_accumulator, new_topic_stats, in_cohort, stats_or, stats_of, contains_key,
}
use coroutines_kafka_consume.Audit.Windows.{
  MeasurementWindow, contains, Windows, MultiWindow, new_windows, new_multi_window, publish_in,
  add_to_known, is_publish, keep_pending, add, add_records,
}

-- The first and the repeated published records of one topic, and of all topics.
abbrev pub published_of : AuditStats → ℕ
published_of s = kept Kind.published (counts s)

abbrev pub published_in : AuditAccumulator → ℕ
published_in a = sum_values published_of a.by_topic

abbrev pub is_published : AuditRecord → Bool
is_published r = of_kind Kind.published r

new-published :
    (a : AuditAccumulator) (topic_id : ℤ) → published_of (new_topic_stats a topic_id) ≡ 0
unfolding new_topic_stats new_audit
new-published a topic_id = refl

measure-stats_or :
    (new : AuditStats) (o : Option AuditStats)
    → published_of new ≡ 0
    → measure published_of o ≡ published_of (stats_or new o)
measure-stats_or new none z = sym z
measure-stats_or new (some s) z = refl

HasAll : AuditAccumulator → Type 0
HasAll a = a.cohort_keys ≡ none

published_in-add :
    (r : AuditRecord) (a : AuditAccumulator)
    → HasAll a
    → (published_in (Accumulator.add r a) ≡ published_in a + to_number (is_published r))
      × HasAll (Accumulator.add r a)
unfolding Accumulator.add HasAll in_cohort stats_of
published_in-add r a all =
    let k = r.key.topic_id in
    let new = new_topic_stats a k in
    let old = stats_of k a in
    let after = Run.add r old in
    let counted : AuditAccumulator = record a {
      record_count = a.record_count + 1;
      by_topic = insert k after a.by_topic;
    } in
    let given : in_cohort a.cohort_keys r ≡ true =
      ap (λ (keys : Option (List RecordKey)). in_cohort keys r) all in
    let sums : published_in counted ≡ published_in a + to_number (is_published r) = omega (
      arith,
      sum_values-insert published_of k after a.by_topic,
      measure-stats_or new (lookup k a.by_topic) (new-published a k),
      kept-add Kind.published r old,
    ) in
    (
      ap (λ (b : Bool). published_in (if b then counted else a)) given ∙ sums,
      ap (λ (b : Bool). (if b then counted else a).cohort_keys) given ∙ all,
    )

-- No record that waits for its publication is a publication.
AllPending : List AuditRecord → Type 0
AllPending = Every (λ (r : AuditRecord). is_published r ≡ false)

pending-published :
    (rs : List AuditRecord) (a : AuditAccumulator)
    → AllPending rs
    → HasAll a
    → (published_in (Accumulator.add_records rs a) ≡ published_in a)
      × HasAll (Accumulator.add_records rs a)
unfolding AllPending Accumulator.add_records
pending-published [] a h all = (refl, all)
pending-published (r ∷ rs) a h all =
    let (step, all') = published_in-add r a all in
    let (same, all'') = pending-published rs (Accumulator.add r a) h.1 all' in
    (same ∙ (step ∙ (ap (λ (b : Bool). published_in a + to_number b) h.0 ∙ omega arith)), all'')

-- Each window counts the published records that `seen` says.
abbrev pub Counting : (MeasurementWindow → ℕ) → Windows → Type 0
Counting seen = Every (λ (w : MeasurementWindow × AuditAccumulator).
    (published_in w.1 ≡ seen w.0) × (w.1.cohort_keys ≡ none))

abbrev pub one_more : (MeasurementWindow → ℕ) → AuditRecord → MeasurementWindow → ℕ
one_more seen r window = seen window + to_number (is_published r && contains r window)

publish_in-Counting :
    (seen : MeasurementWindow → ℕ) (r : AuditRecord) (pending : List AuditRecord)
    (windows : Windows)
    → AllPending pending
    → Counting seen windows
    → Counting (one_more seen r) (publish_in r pending windows)
unfolding publish_in HasAll
publish_in-Counting seen r pending [] p h = tt
publish_in-Counting seen r pending ((window, a) ∷ windows) p ((same, all), h) =
    let rest = publish_in-Counting seen r pending windows p h in
    if_by (Counting (one_more seen r)) (contains r window)
      (λ inside.
        let (earlier, all') = pending-published pending a p all in
        let (step, all'') = published_in-add r (Accumulator.add_records pending a) all' in
        ((ground (arith, step, earlier, same, inside), all''), rest))
      (λ outside. ((ground (arith, same, outside), all), rest))

add_to_known-Counting :
    (seen : MeasurementWindow → ℕ) (r : AuditRecord) (windows : Windows)
    → is_published r ≡ false
    → Counting seen windows
    → Counting (one_more seen r) (add_to_known r windows)
unfolding add_to_known HasAll
add_to_known-Counting seen r [] u h = tt
add_to_known-Counting seen r ((window, a) ∷ windows) u ((same, all), h) =
    let rest = add_to_known-Counting seen r windows u h in
    let none_more : one_more seen r window ≡ seen window =
      ap (λ (b : Bool). seen window + to_number (b && contains r window)) u ∙ omega arith in
    if_ind (Counting (one_more seen r)) (contains_key r.key a)
      (let (step, all') = published_in-add r a all in
        (
          (
            step
                ∙ (ap (λ (b : Bool). published_in a + to_number b) u
                    ∙ omega (arith, same, none_more)),
            all',
          ),
          rest,
        ))
      ((same ∙ sym none_more, all), rest)

not-published : (r : AuditRecord) → is_publish r.record_type ≡ false → is_published r ≡ false
not-published r other = ground (arith, other)

Pending : Dict RecordKey (List AuditRecord) → Type 0
Pending = Every (λ (p : RecordKey × List AuditRecord). AllPending p.1)

get_or-Pending :
    (key : RecordKey) (d : Dict RecordKey (List AuditRecord))
    → Pending d
    → AllPending (get_or key [] d)
unfolding Pending AllPending get_or lookup
get_or-Pending key [] h = tt
get_or-Pending key ((j, rs) ∷ d) h =
    if_ind
      (λ (o : Option (List AuditRecord)).
        Every (λ (r : AuditRecord). is_published r ≡ false) (elim o [ none ↦ [] | some w ↦ w ]))
      (j == key) h.0 (get_or-Pending key d h.1)

insert-Pending :
    (key : RecordKey) (rs : List AuditRecord) (d : Dict RecordKey (List AuditRecord))
    → AllPending rs
    → Pending d
    → Pending (insert key rs d)
unfolding Pending AllPending insert
insert-Pending key rs [] p h = (p, tt)
insert-Pending key rs ((j, ws) ∷ d) p h =
    if_ind Pending (j == key) (p, h.1) (h.0, insert-Pending key rs d p h.1)

erase-Pending :
    (key : RecordKey) (d : Dict RecordKey (List AuditRecord)) → Pending d → Pending (erase key d)
unfolding Pending AllPending erase
erase-Pending key [] h = tt
erase-Pending key ((j, ws) ∷ d) h =
    if_ind Pending (j == key) (erase-Pending key d h.1) (h.0, erase-Pending key d h.1)

keep_pending-Pending :
    (r : AuditRecord) (d : Dict RecordKey (List AuditRecord))
    → is_published r ≡ false
    → Pending d
    → Pending (keep_pending r d)
unfolding keep_pending AllPending
keep_pending-Pending r d u h =
    insert-Pending r.key (get_or r.key [] d ++ (r ∷ [])) d
      (Every-append _ (get_or r.key [] d) (r ∷ []) (get_or-Pending r.key d h) (u, tt)) h

Holds : (MeasurementWindow → ℕ) → MultiWindow → Type 0
Holds seen s = Counting seen s.windows × Pending s.pending_before_publish

add-Holds :
    (seen : MeasurementWindow → ℕ) (r : AuditRecord) (s : MultiWindow)
    → Holds seen s
    → Holds (one_more seen r) (add r s)
unfolding Holds add
add-Holds seen r s h =
    let pending = s.pending_before_publish in
    if_by (Holds (one_more seen r)) (is_publish r.record_type)
      (λ publish. (
        publish_in-Counting seen r (get_or r.key [] pending) s.windows
            (get_or-Pending r.key pending h.1) h.0,
        erase-Pending r.key pending h.1,
      ))
      (λ other.
        let u = not-published r other in
        (
          add_to_known-Counting seen r s.windows u h.0,
          if_ind Pending _ (keep_pending-Pending r pending u h.1) h.1,
        ))

-- The published records of some that are within a window.
abbrev pub published_within : List AuditRecord → MeasurementWindow → ℕ
published_within rs window = count_if (λ (r : AuditRecord). is_published r && contains r window) rs

add_records-Counting :
    (seen : MeasurementWindow → ℕ) (rs : List AuditRecord) (s : MultiWindow)
    → Holds seen s
    → Counting (λ w. seen w + published_within rs w) (add_records rs s).windows
unfolding add_records Holds
add_records-Counting seen [] s h = Every-imp _ _ s.windows (λ w c. (omega (arith, c.0), c.1)) h.0
add_records-Counting seen (r ∷ rs) s h =
    Every-imp _ _ (add_records rs (add r s)).windows (λ w c. (ground (arith, c.0), c.1))
      (add_records-Counting (one_more seen r) rs (add r s) (add-Holds seen r s h))

new-Counting :
    (a : AuditAccumulator) (windows : List MeasurementWindow)
    → published_in a ≡ 0
    → HasAll a
    → Counting (λ w. 0) (new_windows a windows)
unfolding new_windows HasAll
new-Counting a [] z all = tt
new-Counting a (w ∷ windows) z all = ((z, all), new-Counting a windows z all)

start-published :
    (ttl : Option ℕ) (rules : List LatencySlaRule) (limits : Dict ℤ Limit)
    → published_in (new_accumulator ttl rules limits none) ≡ 0
unfolding new_accumulator new_topic_stats new_audit
start-published ttl rules limits = refl

-- Whatever records come in whatever order, and whatever the windows, the limits and the rules are:
-- each window counts as published, first ones and duplicates together and over all topics, exactly
-- the published records with a valid key whose time is within the window.
pub add_records-published_within :
    (ttl : Option ℕ) (windows : List MeasurementWindow) (rules : List LatencySlaRule)
    (limits : Dict ℤ Limit) (rs : List AuditRecord)
    → Every
        (λ (w : MeasurementWindow × AuditAccumulator). published_in w.1 ≡ published_within rs w.0)
        (add_records rs (new_multi_window ttl windows rules limits)).windows
unfolding new_multi_window new_accumulator Holds HasAll Pending
add_records-published_within ttl windows rules limits rs =
    let start = new_multi_window ttl windows rules limits in
    Every-imp _ _ (add_records rs start).windows (λ w c. omega (arith, c.0))
      (add_records-Counting (λ w. 0) rs start
        (
          new-Counting (new_accumulator ttl rules limits none) windows
              (start-published ttl rules limits) refl,
          tt,
        ))
