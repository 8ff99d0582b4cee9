-- ===== src/Trust.antt =====
-- The local trust policy of core/delivery.py: `_positive_integer`, `_timestamp`, `_risk_key`,
-- `_acceptance_issues` and `evaluate_local_trust`. The texts of issues and reasons are data, by the
-- values that they name. `fromisoformat`, of Python's datetime, is a parameter: it gives the instant
-- in UTC that a text denotes, one without a zone read as UTC.
pub mod Defs
pub mod Policy
pub mod Acceptances
pub mod Approval
pub mod LowerRisk
mod Samples
