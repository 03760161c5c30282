-- ===== src/Audit/Age.antt =====
-- `OnlineAgeStats` of demo/infra/shared/audit/analyze-audit.py: ages in milliseconds, which every
-- caller has clipped at zero, summarised as they come.
pub mod Bounds
use coroutines_kafka_consume.Prelude.{ℕ, ◌+◌, ◌≤◌, Option, none, some, ltb, if◌then◌else◌}

pub record OnlineAgeStats : Type 0 where
  pub count : ℕ
  pub total_ms : ℕ
  pub min_ms : Option ℕ
  pub max_ms : Option ℕ

abbrev pub new_ages : OnlineAgeStats
new_ages = record { count = 0; total_ms = 0; min_ms = none; max_ms = none }

-- `x if value is None else max(value, x)`
abbrev pub max_seen : Option ℕ → ℕ → ℕ
max_seen none x = x
max_seen (some m) x = if ltb m x then x else m

abbrev pub min_seen : Option ℕ → ℕ → ℕ
min_seen none x = x
min_seen (some m) x = if ltb x m then x else m

unfoldable pub add : ℕ → OnlineAgeStats → OnlineAgeStats
add age_ms s = record s {
  count = s.count + 1;
  total_ms = s.total_ms + age_ms;
  min_ms = some (min_seen s.min_ms age_ms);
  max_ms = some (max_seen s.max_ms age_ms);
}
