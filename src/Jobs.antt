-- ===== src/Jobs.antt =====
-- The job queue on the local file system: src/infra/queue/local and the port of src/domain/queue.
pub mod LocalQueue
