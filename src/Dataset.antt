-- ===== src/Dataset.antt =====
-- ai_pipeline/build_dataset.py, with the records of ai_pipeline/schemas.py that it reads and writes. Every
-- datetime has a timezone, which `parse_datetime` sees to, and is a number of microseconds.
pub mod Rows
pub mod Records
pub mod Checks
pub mod Row
pub mod Samples
pub mod Envelopes
pub mod Built
pub mod Guarantees
pub mod History
pub mod Latest
pub mod Kept
pub mod Clicks
pub mod Past
pub mod Split
pub mod Boundary
pub mod Order
pub mod Origin
pub mod Temporal
pub mod Splits
mod Tests
