-- ===== src/Audit/Parse.antt =====
-- `parse_record` of demo/infra/shared/audit/analyze-audit.py: a line is split into its columns, the
-- text between its bars. `int` of a text is a parameter; none is its ValueError.
pub mod Columns
pub mod Line
use Prim.Native.Char.{Char, code}
use coroutines_kafka_consume.Prelude.{
  Bool, true, false, ◌&&◌, ◌||◌, Option, none, some, String, List, [], ◌∷◌, HasEq, ◌==◌, string_eq,
  nat_beq, ◌>>=◌, if◌then◌else◌,
}
use coroutines_kafka_consume.Prelude.Int.{ℤ}
use coroutines_kafka_consume.Audit.Record.{RecordKey, AuditRecord, RecordType}

-- value.rstrip("\n"), from the last character on
abbrev pub is_newline : Char → Bool
is_newline c = nat_beq (code c) b'\n'

abbrev pub keep : Char → String → String
keep c String.[] = if is_newline c then String.[] else String.◌∷◌ c String.[]
keep c rest = String.◌∷◌ c rest

unfoldable pub rstrip_newlines : String → String
rstrip_newlines String.[] = String.[]
rstrip_newlines (String.◌∷◌ c text) = keep c (rstrip_newlines text)

-- text.split("|"), which has one part at least
abbrev pub is_bar : Char → Bool
is_bar c = nat_beq (code c) b'|'

abbrev pub extend_first : Char → List String → List String
extend_first c [] = String.◌∷◌ c String.[] ∷ []
extend_first c (part ∷ parts) = String.◌∷◌ c part ∷ parts

unfoldable pub split_bars : String → List String
split_bars String.[] = String.[] ∷ []
split_bars (String.◌∷◌ c text) =
    let parts = split_bars text in if is_bar c then String.[] ∷ parts else extend_first c parts

-- detail[0] if detail and record_type == "D" else None, and the same for "H"
abbrev pub drop_detail : RecordType → List String → Option String
drop_detail RecordType.drop (reason ∷ detail) = some reason
drop_detail _ _ = none

abbrev pub handoff_detail : RecordType → List String → Option String
handoff_detail RecordType.handoff (reason ∷ detail) = some reason
handoff_detail _ _ = none

module _ (int : String → Option ℤ) where
  unfoldable pub parse_key : String → String → String → Option RecordKey
  parse_key topic_id partition offset = do
    t ← int topic_id
    p ← int partition
    o ← int offset
    some (record { topic_id = t; partition = p; offset = o })

  -- The columns behind the letter. None is a ValueError: of the number of columns, or of a number.
  unfoldable pub parse_published : List String → Option AuditRecord
  unfolding parse_key
  parse_published (topic_id ∷ partition ∷ offset ∷ kafka_ts ∷ audit_ts ∷ message_key ∷ []) = do
    key ← parse_key topic_id partition offset
    kafka_ms ← int kafka_ts
    audit_ms ← int audit_ts
    some (record {
      record_type = RecordType.publish;
      key = key;
      audit_timestamp_ms = audit_ms;
      message_key = message_key;
      kafka_timestamp_ms = some kafka_ms;
      drop_reason = none;
      handoff_reason = none;
    })
  parse_published _ = none

  -- The columns of the other types, with what is behind the message key.
  unfoldable pub parse_consumed :
      RecordType → String → String → String → String → String → List String → Option AuditRecord
  unfolding parse_key
  parse_consumed type topic_id partition offset audit_ts message_key detail = do
    key ← parse_key topic_id partition offset
    audit_ms ← int audit_ts
    some (record {
      record_type = type;
      key = key;
      audit_timestamp_ms = audit_ms;
      message_key = message_key;
      kafka_timestamp_ms = none;
      drop_reason = drop_detail type detail;
      handoff_reason = handoff_detail type detail;
    })

  unfoldable pub parse_consumer : RecordType → List String → Option AuditRecord
  unfolding parse_consumed
  parse_consumer type (topic_id ∷ partition ∷ offset ∷ audit_ts ∷ message_key ∷ []) =
      parse_consumed type topic_id partition offset audit_ts message_key []
  parse_consumer type _ = none

  unfoldable pub parse_lifecycle : RecordType → List String → Option AuditRecord
  unfolding parse_consumed
  parse_lifecycle type (topic_id ∷ partition ∷ offset ∷ audit_ts ∷ message_key ∷ []) =
      parse_consumed type topic_id partition offset audit_ts message_key []
  parse_lifecycle type (topic_id ∷ partition ∷ offset ∷ audit_ts ∷ message_key ∷ detail ∷ []) =
      parse_consumed type topic_id partition offset audit_ts message_key (detail ∷ [])
  parse_lifecycle type _ = none

  unfoldable pub parse_parts : List String → Option AuditRecord
  unfolding parse_published parse_consumer parse_lifecycle
  parse_parts [] = none
  parse_parts (letter ∷ columns) =
      if letter == "P"
      then parse_published columns
      else if letter == "C"
      then parse_consumer RecordType.complete columns
      else if letter == "F"
      then parse_consumer RecordType.fail columns
      else if letter == "R"
      then parse_consumer RecordType.retry columns
      else if letter == "D"
      then parse_lifecycle RecordType.drop columns
      else if letter == "H"
      then parse_lifecycle RecordType.handoff columns
      else none

  unfoldable pub parse_record : String → Option AuditRecord
  unfolding parse_parts rstrip_newlines split_bars
  parse_record value = parse_parts (split_bars (rstrip_newlines value))
