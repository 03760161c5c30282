-- ===== src/Audit/Accumulator/Routed.antt =====
-- What an accumulator gives to the statistics of each topic.
use coroutines_kafka_consume.Prelude.{
  ℕ, ◌+◌, ◌≡◌, refl, ap, ◌∙◌, arith, Bool, true, false, ◌&&◌, Option, none, some, List, [], ◌∷◌,
  ◌==◌, if◌then◌else◌, count_if,
}
use coroutines_kafka_consume.Prelude.Int.{ℤ, pos, int_eq}
use coroutines_kafka_consume.Dict.{Dict, lookup, insert, lookup-insert}
use coroutines_kafka_consume.Audit.Record.{RecordKey, AuditRecord}
use coroutines_kafka_consume.Audit.Latency.{LatencySlaRule}
use coroutines_kafka_consume.Audit.Stats.{AuditStats, Limit}
use coroutines_kafka_consume.Audit.Stats.Run
use coroutines_kafka_consume.Audit.Stats.Run.{finish}
use coroutines_kafka_consume.Audit.Accumulator.{
  AuditAccumulator, new_accumulator, new_topic_stats, in_cohort, stats_or, stats_of, add,
  add_records,
}

-- The records that the statistics of a topic are given.
abbrev pub routed : Option (List RecordKey) → ℤ → AuditRecord → Bool
routed cohort topic_id r = in_cohort cohort r && r.key.topic_id == topic_id

abbrev pub records_for : Option (List RecordKey) → ℤ → List AuditRecord → List AuditRecord
records_for cohort topic_id [] = []
records_for cohort topic_id (r ∷ rs) =
    if routed cohort topic_id r
    then r ∷ records_for cohort topic_id rs
    else records_for cohort topic_id rs

replaced :
    (same : Bool) (new v w : AuditStats) (o : Option AuditStats)
    → (same ≡ true → v ≡ w)
    → stats_or new (if same then some v else o) ≡ (if same then w else stats_or new o)
replaced true new v w o h = h refl
replaced false new v w o h = refl

stats_of-add :
    (topic_id : ℤ) (r : AuditRecord) (a : AuditAccumulator)
    → stats_of topic_id (add r a) ≡ (
        if routed a.cohort_keys topic_id r
        then Run.add r (stats_of topic_id a)
        else stats_of topic_id a)
unfolding stats_of add new_topic_stats
stats_of-add topic_id r a = go (in_cohort a.cohort_keys r)
  where
    k : ℤ
    k = r.key.topic_id

    go :
        (b : Bool)
        → stats_of topic_id (
            if b
            then record a {
              record_count = a.record_count + 1;
              by_topic = insert k (Run.add r (stats_of k a)) a.by_topic;
            }
            else a)
          ≡ (if b && k == topic_id then Run.add r (stats_of topic_id a) else stats_of topic_id a)
    go true =
        ap (stats_or (new_topic_stats a topic_id))
          (lookup-insert k topic_id (Run.add r (stats_of k a)) a.by_topic)
        ∙ replaced (k == topic_id) (new_topic_stats a topic_id) (Run.add r (stats_of k a))
            (Run.add r (stats_of topic_id a)) (lookup topic_id a.by_topic)
            (λ same.
              ap (λ (t : ℤ). Run.add r (stats_of t a)) ((int_eq.equal_iff k topic_id).0 same))
    go false = refl

add-configured :
    (r : AuditRecord) (a : AuditAccumulator)
    → ((add r a).cohort_keys ≡ a.cohort_keys)
      × ((add r a).record_count
          ≡ (if in_cohort a.cohort_keys r then a.record_count + 1 else a.record_count))
unfolding add
add-configured r a = go (in_cohort a.cohort_keys r)
  where
    counted : AuditAccumulator
    counted = record a {
      record_count = a.record_count + 1;
      by_topic = insert r.key.topic_id (Run.add r (stats_of r.key.topic_id a)) a.by_topic;
    }

    go :
        (b : Bool)
        → ((if b then counted else a).cohort_keys ≡ a.cohort_keys)
          × ((if b then counted else a).record_count
              ≡ (if b then a.record_count + 1 else a.record_count))
    go true = (refl, refl)
    go false = (refl, refl)

given-if :
    (b : Bool) (r : AuditRecord) (rs : List AuditRecord) (s : AuditStats)
    → Run.add_records rs (if b then Run.add r s else s)
      ≡ Run.add_records (if b then r ∷ rs else rs) s
unfolding Run.add_records
given-if true r rs s = refl
given-if false r rs s = refl

Routes : Option (List RecordKey) → ℤ → List AuditRecord → AuditAccumulator → Type 0
Routes cohort topic_id rs a =
    (stats_of topic_id (add_records rs a)
      ≡ Run.add_records (records_for cohort topic_id rs) (stats_of topic_id a))
    × ((add_records rs a).record_count ≡ a.record_count + count_if (in_cohort cohort) rs)

add_records-from :
    (cohort : Option (List RecordKey)) (topic_id : ℤ) (rs : List AuditRecord) (a : AuditAccumulator)
    → a.cohort_keys ≡ cohort
    → Routes cohort topic_id rs a
unfolding Routes add_records Run.add_records
add_records-from cohort topic_id [] a c = (refl, omega arith)
add_records-from cohort topic_id (r ∷ rs) a c =
    let (kept, count) = add-configured r a in
    let (routes, counts) = add_records-from cohort topic_id rs (add r a) (kept ∙ c) in
    let step = stats_of-add topic_id r a in
    (
      routes
          ∙ (ap (Run.add_records (records_for cohort topic_id rs)) (
                step
                ∙ ap
                    (λ (keys : Option (List RecordKey)).
                      if routed keys topic_id r
                      then Run.add r (stats_of topic_id a)
                      else stats_of topic_id a)
                    c)
              ∙ given-if (routed cohort topic_id r) r (records_for cohort topic_id rs)
                  (stats_of topic_id a)),
      ground (arith, counts, count, ap (λ (keys : Option (List RecordKey)). in_cohort keys r) c),
    )

still_new :
    (same : Bool) (new v : AuditStats) (o : Option AuditStats)
    → (same ≡ true → v ≡ new)
    → stats_or new o ≡ new
    → stats_or new (if same then some v else o) ≡ new
still_new true new v o h k = h refl
still_new false new v o h k = k

-- The topics that a new accumulator has are new.
stats_of-new :
    (ttl : Option ℕ) (rules : List LatencySlaRule) (limits : Dict ℤ Limit)
    (cohort : Option (List RecordKey)) (topic_id : ℤ)
    → stats_of topic_id (new_accumulator ttl rules limits cohort)
      ≡ new_topic_stats (new_accumulator ttl rules limits cohort) topic_id
unfolding stats_of new_accumulator new_topic_stats lookup
stats_of-new ttl rules limits cohort topic_id =
    let a = new_accumulator ttl rules limits cohort in
    let new = new_topic_stats a topic_id in
    let is_new = λ (k : ℤ) (same : (k == topic_id) ≡ true).
      ap (new_topic_stats a) ((int_eq.equal_iff k topic_id).0 same) in
    still_new (pos 1 == topic_id) new _ _ (is_new (pos 1)) (
      still_new (pos 2 == topic_id) new _ _ (is_new (pos 2))
        (still_new (pos 3 == topic_id) new _ none (is_new (pos 3)) refl))

-- Whatever records a new accumulator is given, with any configuration: the statistics of each topic
-- are those of a new `AuditStats` of that topic that is given, in their order, just the records of the
-- topic whose keys are in the cohort, if there is one; and `record_count` is the number of all
-- records whose keys are in it.
pub stats_of-add_records :
    (ttl : Option ℕ) (rules : List LatencySlaRule) (limits : Dict ℤ Limit)
    (cohort : Option (List RecordKey)) (topic_id : ℤ) (rs : List AuditRecord)
    → (stats_of topic_id (add_records rs (new_accumulator ttl rules limits cohort))
        ≡ Run.add_records
            (records_for cohort topic_id rs)
            (new_topic_stats (new_accumulator ttl rules limits cohort) topic_id))
      × ((add_records rs (new_accumulator ttl rules limits cohort)).record_count
          ≡ count_if (in_cohort cohort) rs)
unfolding new_accumulator Routes
stats_of-add_records ttl rules limits cohort topic_id rs =
    let (routes, counts) =
      add_records-from cohort topic_id rs (new_accumulator ttl rules limits cohort) refl in
    (
      routes
          ∙ ap (Run.add_records (records_for cohort topic_id rs))
              (stats_of-new ttl rules limits cohort topic_id),
      omega (arith, counts),
    )
