-- ===== src/Metrics.antt =====
-- core/outcome_metrics.py: the outcome metrics of a cycle, each with its window, its numerator and
-- denominator, and the reason when there is no value.
pub mod Times
pub mod Counts
pub mod Rates
pub mod Elapsed
pub mod Coverage
pub mod Inventory
pub mod Coherent
pub mod Measured
pub mod Earliest
pub mod Timely
pub mod Reasons
pub mod Newest
mod Samples
