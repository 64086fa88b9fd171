-- ===== src/Store.antt =====
-- crates/stateful-store: the coordination store.
pub mod Models
pub mod Tables
pub mod Tx
pub mod Time
pub mod Steps
pub mod Context
pub mod Evidence
pub mod Observations
pub mod Leases
pub mod Queue
pub mod Expiry
pub mod Audit
pub mod Tasks
pub mod Reads
pub mod Attempt
pub mod Prepare
pub mod Activate
pub mod Complete
pub mod Accepted
pub mod Exclusion
pub mod Maintain
