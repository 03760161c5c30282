-- ===== src/Audit/Parse/Columns.antt =====
-- The columns that the applications write for a record, and the record that is read from them.
use coroutines_kafka_consume.Prelude.{
  ◌≡◌, refl, Option, none, some, String, List, [], ◌∷◌, string_eq,
}
use coroutines_kafka_consume.Prelude.Int.{ℤ}
use coroutines_kafka_consume.Audit.Record.{RecordKey, AuditRecord, RecordType}
use coroutines_kafka_consume.Audit.Parse.{
  drop_detail, handoff_detail, parse_key, parse_parts, parse_published, parse_consumer,
  parse_consumed, parse_lifecycle,
}

-- What a record has, by its type.
pub data Event : Type 0 where
  published : ℤ → Event
  processed failed retried : Event
  dropped handed_off : Option String → Event

abbrev pub type_of : Event → RecordType
type_of (published kafka_ms) = RecordType.publish
type_of processed = RecordType.complete
type_of failed = RecordType.fail
type_of retried = RecordType.retry
type_of (dropped reason) = RecordType.drop
type_of (handed_off reason) = RecordType.handoff

abbrev pub kafka_ms_of : Event → Option ℤ
kafka_ms_of (published kafka_ms) = some kafka_ms
kafka_ms_of _ = none

abbrev pub drop_reason_of : Event → Option String
drop_reason_of (dropped reason) = reason
drop_reason_of _ = none

abbrev pub handoff_reason_of : Event → Option String
handoff_reason_of (handed_off reason) = reason
handoff_reason_of _ = none

abbrev pub record_of : Event → RecordKey → ℤ → String → AuditRecord
record_of event key audit_ms message_key = record {
  record_type = type_of event;
  key = key;
  audit_timestamp_ms = audit_ms;
  message_key = message_key;
  kafka_timestamp_ms = kafka_ms_of event;
  drop_reason = drop_reason_of event;
  handoff_reason = handoff_reason_of event;
}

-- A reason is a column of its own.
abbrev pub reason_column : Option String → List String
reason_column none = []
reason_column (some reason) = reason ∷ []

module _ (str : ℤ → String) where
  abbrev pub consumer_columns : RecordKey → ℤ → String → List String → List String
  consumer_columns key audit_ms message_key detail =
      str key.topic_id ∷ str key.partition ∷ str key.offset ∷ str audit_ms ∷ message_key ∷ detail

  abbrev pub columns_of : Event → RecordKey → ℤ → String → List String
  columns_of (published kafka_ms) key audit_ms message_key =
      "P"
      ∷ str key.topic_id
      ∷ str key.partition
      ∷ str key.offset
      ∷ str kafka_ms
      ∷ str audit_ms
      ∷ message_key
      ∷ []
  columns_of processed key audit_ms message_key = "C" ∷ consumer_columns key audit_ms message_key []
  columns_of failed key audit_ms message_key = "F" ∷ consumer_columns key audit_ms message_key []
  columns_of retried key audit_ms message_key = "R" ∷ consumer_columns key audit_ms message_key []
  columns_of (dropped reason) key audit_ms message_key =
      "D" ∷ consumer_columns key audit_ms message_key (reason_column reason)
  columns_of (handed_off reason) key audit_ms message_key =
      "H" ∷ consumer_columns key audit_ms message_key (reason_column reason)

consumed_of : RecordType → RecordKey → ℤ → String → List String → AuditRecord
consumed_of type key audit_ms message_key detail = record {
  record_type = type;
  key = key;
  audit_timestamp_ms = audit_ms;
  message_key = message_key;
  kafka_timestamp_ms = none;
  drop_reason = drop_detail type detail;
  handoff_reason = handoff_detail type detail;
}

parse_consumed-str :
    (int : String → Option ℤ) (str : ℤ → String)
    → ((z : ℤ) → int (str z) ≡ some z)
    → (type : RecordType) (key : RecordKey) (audit_ms : ℤ) (message_key : String)
      (detail : List String)
    → parse_consumed int type
        (str key.topic_id)
        (str key.partition)
        (str key.offset)
        (str audit_ms)
        message_key
        detail
      ≡ some (consumed_of type key audit_ms message_key detail)
unfolding parse_consumed parse_key consumed_of
parse_consumed-str int str read type key audit_ms message_key detail =
    rw (read key.topic_id, read key.partition, read key.offset, read audit_ms) refl

-- If `int` reads what `str` writes, then the columns of a record are read as the record.
pub parse_parts-columns_of :
    (int : String → Option ℤ) (str : ℤ → String)
    → ((z : ℤ) → int (str z) ≡ some z)
    → (event : Event) (key : RecordKey) (audit_ms : ℤ) (message_key : String)
    → parse_parts int (columns_of str event key audit_ms message_key)
      ≡ some (record_of event key audit_ms message_key)
unfolding parse_parts parse_published parse_consumer parse_lifecycle parse_key consumed_of
parse_parts-columns_of int str read (published kafka_ms) key audit_ms message_key =
    rw (read key.topic_id, read key.partition, read key.offset, read kafka_ms, read audit_ms) refl
parse_parts-columns_of int str read processed key audit_ms message_key =
    parse_consumed-str int str read RecordType.complete key audit_ms message_key []
parse_parts-columns_of int str read failed key audit_ms message_key =
    parse_consumed-str int str read RecordType.fail key audit_ms message_key []
parse_parts-columns_of int str read retried key audit_ms message_key =
    parse_consumed-str int str read RecordType.retry key audit_ms message_key []
parse_parts-columns_of int str read (dropped none) key audit_ms message_key =
    parse_consumed-str int str read RecordType.drop key audit_ms message_key []
parse_parts-columns_of int str read (dropped (some reason)) key audit_ms message_key =
    parse_consumed-str int str read RecordType.drop key audit_ms message_key (reason ∷ [])
parse_parts-columns_of int str read (handed_off none) key audit_ms message_key =
    parse_consumed-str int str read RecordType.handoff key audit_ms message_key []
parse_parts-columns_of int str read (handed_off (some reason)) key audit_ms message_key =
    parse_consumed-str int str read RecordType.handoff key audit_ms message_key (reason ∷ [])
