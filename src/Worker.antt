-- ===== src/Worker.antt =====
-- workers/feature_store_worker/app/main.py, by its stages: the envelopes, the receipts.
pub mod Envelope
pub mod Claim
pub mod Store
pub mod Apply
pub mod Receipts
pub mod Effects
pub mod Once
pub mod Division
pub mod Flush
pub mod Account
pub mod Calls
pub mod Interrupt
pub mod Loop
pub mod Cancel
pub mod Rebuild
pub mod Backfill
pub mod Pending
pub mod Caught
pub mod Queued
pub mod Filled
mod Tests
