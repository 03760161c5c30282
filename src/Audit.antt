-- ===== src/Audit.antt =====
-- demo/infra/shared/audit/analyze-audit.py: the matching of audit records and its statistics.
pub mod Record
pub mod Flags
pub mod Offsets
pub mod Late
pub mod Order
pub mod Spool
pub mod Age
pub mod Latency
pub mod Freshness
pub mod Fairness
pub mod Stats
pub mod Accumulator
pub mod Windows
pub mod Aggregate
pub mod Parse
pub mod Log
pub mod Tests
