-- ===== src/Concurrency.antt =====
-- Limits on concurrent work.
pub mod Semaphore
pub mod FileLocks
pub mod MemoryLock
