-- ===== src/Audit/Windows.antt =====
-- `MeasurementWindow` and `MultiWindowAuditAccumulator` of demo/infra/shared/audit/analyze-audit.py:
-- one accumulator for all records, and one for each window of publication times.
pub mod Published
use coroutines_kafka_consume.Prelude.{
  ℕ, Bool, true, false, not, ◌&&◌, ◌||◌, Option, none, some, String, List, [], ◌∷◌, ◌++◌, HasEq,
  ◌==◌, ◌>>=◌, if◌then◌else◌,
}
use coroutines_kafka_consume.Prelude.Int.{ℤ, leb_ℤ, ltb_ℤ}
use coroutines_kafka_consume.Dict.{Dict, lookup, insert, erase, get_or}
use coroutines_kafka_consume.Audit.Record.{RecordKey, key_eq, AuditRecord, RecordType}
use coroutines_kafka_consume.Audit.Latency.{LatencySlaRule}
use coroutines_kafka_consume.Audit.Stats.{RecordState, Limit, is_some}
use coroutines_kafka_consume.Audit.Accumulator
use coroutines_kafka_consume.Audit.Accumulator.{
  AuditAccumulator, new_accumulator, contains_key, state_for, finish_topics,
}

pub record MeasurementWindow : Type 0 where
  pub name : String
  pub published_from_ms : ℤ
  pub published_until_ms : ℤ

abbrev pub contains : AuditRecord → MeasurementWindow → Bool
contains r window =
    leb_ℤ window.published_from_ms r.audit_timestamp_ms
    && ltb_ℤ r.audit_timestamp_ms window.published_until_ms

abbrev pub Windows : Type 0
Windows = List (MeasurementWindow × AuditAccumulator)

pub record MultiWindow : Type 0 where
  pub complete : AuditAccumulator
  pub windows : Windows
  pub pending_before_publish : Dict RecordKey (List AuditRecord)

unfoldable pub new_windows : AuditAccumulator → List MeasurementWindow → Windows
new_windows a [] = []
new_windows a (window ∷ windows) = (window, a) ∷ new_windows a windows

unfoldable pub new_multi_window :
    Option ℕ → List MeasurementWindow → List LatencySlaRule → Dict ℤ Limit → MultiWindow
unfolding new_accumulator new_windows
new_multi_window ttl windows rules limits = record {
  complete = new_accumulator ttl rules limits none;
  windows = new_windows (new_accumulator ttl rules limits none) windows;
  pending_before_publish = [];
}

-- A "P" goes to the windows that contain it, behind what came before it under its key.
unfoldable pub publish_in : AuditRecord → List AuditRecord → Windows → Windows
unfolding Accumulator.add Accumulator.add_records
publish_in r pending [] = []
publish_in r pending ((window, a) ∷ windows) =
    let rest = publish_in r pending windows in
    if contains r window
    then (window, Accumulator.add r (Accumulator.add_records pending a)) ∷ rest
    else (window, a) ∷ rest

-- Any other record goes to the windows that have its key.
unfoldable pub add_to_known : AuditRecord → Windows → Windows
unfolding contains_key Accumulator.add
add_to_known r [] = []
add_to_known r ((window, a) ∷ windows) =
    let rest = add_to_known r windows in
    if contains_key r.key a then (window, Accumulator.add r a) ∷ rest else (window, a) ∷ rest

unfoldable pub is_matched : RecordKey → Windows → Bool
unfolding contains_key
is_matched key [] = false
is_matched key ((window, a) ∷ windows) = contains_key key a || is_matched key windows

abbrev pub is_unpublished : Option RecordState → Bool
is_unpublished none = false
is_unpublished (some state) = not (is_some state.published)

-- pending_before_publish.setdefault(record.key, []).append(record)
unfoldable pub keep_pending :
    AuditRecord → Dict RecordKey (List AuditRecord) → Dict RecordKey (List AuditRecord)
unfolding insert get_or
keep_pending r pending = insert r.key (get_or r.key [] pending ++ (r ∷ [])) pending

abbrev pub is_publish : RecordType → Bool
is_publish RecordType.publish = true
is_publish _ = false

unfoldable pub add : AuditRecord → MultiWindow → MultiWindow
unfolding Accumulator.add publish_in add_to_known is_matched state_for keep_pending erase get_or
add r s =
    let complete = Accumulator.add r s.complete in
    if is_publish r.record_type
    then record s {
      complete = complete;
      windows = publish_in r (get_or r.key [] s.pending_before_publish) s.windows;
      pending_before_publish = erase r.key s.pending_before_publish;
    }
    else record s {
      complete = complete;
      windows = add_to_known r s.windows;
      pending_before_publish =
          (if not (is_matched r.key s.windows) && is_unpublished (state_for r.key complete)
            then keep_pending r s.pending_before_publish
            else s.pending_before_publish);
    }

unfoldable pub add_records : List AuditRecord → MultiWindow → MultiWindow
unfolding add
add_records [] s = s
add_records (r ∷ rs) s = add_records rs (add r s)

unfoldable pub finish_windows : Windows → Option Windows
unfolding finish_topics
finish_windows [] = some []
finish_windows ((window, a) ∷ windows) = do
  a' ← finish_topics a
  windows' ← finish_windows windows
  some ((window, a') ∷ windows')

-- Without the spool; none is an exception.
unfoldable pub finish : MultiWindow → Option MultiWindow
unfolding finish_topics finish_windows
finish s = do
  complete ← finish_topics s.complete
  windows ← finish_windows s.windows
  some (record s { complete = complete; windows = windows; pending_before_publish = [] })
