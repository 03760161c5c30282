-- ===== src/Audit/Record.antt =====
-- The records of demo/infra/shared/audit/analyze-audit.py: `RecordKey`, `AuditRecord` and the bits
-- that stand for the outcomes of a closed record.
use coroutines_kafka_consume.Prelude.{
  ◌≡◌, ◌↔◌, ap, Bool, true, false, ◌&&◌, Option, none, some, String, arith, HasEq, ◌==◌, string_eq,
  string_eq, if◌then◌else◌,
}
use coroutines_kafka_consume.Prelude.Int.{ℤ, int_beq, int_beq_iff, leb_ℤ, pos}

pub record RecordKey : Type 0 where
  pub topic_id : ℤ
  pub partition : ℤ
  pub offset : ℤ

abbrev pub key_beq : RecordKey → RecordKey → Bool
key_beq a b =
    int_beq a.topic_id b.topic_id && (int_beq a.partition b.partition && int_beq a.offset b.offset)

pub key_beq_iff : (a b : RecordKey) → (key_beq a b ≡ true) ↔ (a ≡ b)
key_beq_iff a b = (
  (λ h. ground (
    arith,
    int_beq_iff a.topic_id b.topic_id,
    int_beq_iff a.partition b.partition,
    int_beq_iff a.offset b.offset,
  )),
  (λ h. ground (
    arith,
    int_beq_iff a.topic_id b.topic_id,
    int_beq_iff a.partition b.partition,
    int_beq_iff a.offset b.offset,
    ap (λ (k : RecordKey). k.topic_id) h,
    ap (λ (k : RecordKey). k.partition) h,
    ap (λ (k : RecordKey). k.offset) h,
  )),
)

instance abbrev pub key_eq : HasEq RecordKey
key_eq = record { equal = key_beq; equal_iff = key_beq_iff }

-- The letters P, C, F, D, H and R of the wire format; `parse_record` refuses any other.
pub data RecordType : Type 0 where
  publish complete fail drop handoff retry : RecordType

pub record AuditRecord : Type 0 where
  pub record_type : RecordType
  pub key : RecordKey
  pub audit_timestamp_ms : ℤ
  pub message_key : String
  pub kafka_timestamp_ms : Option ℤ
  pub drop_reason : Option String
  pub handoff_reason : Option String

-- `reason or default`: the empty text counts as no reason.
unfoldable pub reason_or : Option String → String → String
reason_or none default = default
reason_or (some reason) default = if reason == "" then default else reason

-- record.drop_reason == "lifecycle"
unfoldable pub is_lifecycle : AuditRecord → Bool
is_lifecycle r = elim r.drop_reason [ none ↦ false | some reason ↦ reason == "lifecycle" ]

-- AuditStats._valid_key
unfoldable pub valid_key : RecordKey → Bool
valid_key k = leb_ℤ (pos 0) k.partition && leb_ℤ (pos 0) k.offset
