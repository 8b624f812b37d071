-- ===== src/Examples.antt =====
-- Runs of the models at concrete inputs.
pub mod Admissions
pub mod Waiting
pub mod Sessions
pub mod Accesses
pub mod Requests
pub mod Items
pub mod Queues
pub mod Events
pub mod Locks
pub mod Manage
pub mod Workers
pub mod FileLocks
pub mod Parts
pub mod Trash
pub mod Evictions
pub mod Audits
pub mod Completions
