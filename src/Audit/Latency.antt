-- ===== src/Audit/Latency.antt =====
-- `LatencySlaRule` and `LatencySlaStats` of demo/infra/shared/audit/analyze-audit.py.
--
-- `allowed_exceed_percent` is the decimal that `str` prints for the configured number: `allowed`
-- over ten to the `scale`. Decimal products are exact here; the program's have 28 digits.
use coroutines_kafka_consume.Prelude.{
  ℕ, ◌+◌, ◌*◌, ◌^◌, Bool, false, ◌||◌, Option, none, some, String, List, [], ◌∷◌, ◌==◌, ltb, leb,
  nat_beq, if◌then◌else◌,
}
use coroutines_kafka_consume.Prelude.Int.{ℤ, pos, negsuc, int_eq, sub_ℕ}
use coroutines_kafka_consume.Audit.Age.{max_seen}

pub record LatencySlaRule : Type 0 where
  pub id : String
  pub title : String
  pub topic_ids : List ℤ
  pub topics : List String
  pub max_ms : ℕ
  pub allowed : ℕ
  pub scale : ℕ

abbrev pub is_member : ℤ → List ℤ → Bool
is_member x [] = false
is_member x (y ∷ ys) = (y == x) || is_member x ys

unfoldable pub applies_to : ℤ → LatencySlaRule → Bool
applies_to topic_id rule = is_member topic_id rule.topic_ids

pub record LatencySlaStats : Type 0 where
  pub rule : LatencySlaRule
  pub processed : ℕ
  pub measured : ℕ
  pub exceeded : ℕ
  pub invalid_negative_latency : ℕ
  pub max_observed_ms : Option ℕ

abbrev pub new_sla : LatencySlaRule → LatencySlaStats
new_sla rule = record {
  rule = rule;
  processed = 0;
  measured = 0;
  exceeded = 0;
  invalid_negative_latency = 0;
  max_observed_ms = none;
}

unfoldable pub add_processed : LatencySlaStats → LatencySlaStats
add_processed s = record s { processed = s.processed + 1 }

unfoldable pub add_latency : ℤ → LatencySlaStats → LatencySlaStats
add_latency (negsuc n) s = record s { invalid_negative_latency = s.invalid_negative_latency + 1 }
add_latency (pos ms) s = record s {
  measured = s.measured + 1;
  max_observed_ms = some (max_seen s.max_observed_ms ms);
  exceeded = (if ltb s.rule.max_ms ms then s.exceeded + 1 else s.exceeded);
}

pub data SlaStatus : Type 0 where
  not_evaluated incomplete pass failed : SlaStatus

-- The `status` of `summary`.
unfoldable pub status : LatencySlaStats → SlaStatus
status s =
    if nat_beq s.processed 0
    then not_evaluated
    else if ltb s.measured s.processed
    then incomplete
    else if leb (100 * s.exceeded * 10 ^ s.rule.scale) (s.measured * s.rule.allowed)
    then pass
    else failed

-- The counts of `summary`.
unfoldable pub unmeasured : LatencySlaStats → ℤ
unmeasured s = sub_ℕ s.processed s.measured

unfoldable pub within_sla : LatencySlaStats → ℤ
within_sla s = sub_ℕ s.measured s.exceeded
