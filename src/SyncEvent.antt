-- ===== src/SyncEvent.antt =====
-- The outbox of NAS work: src/domain/sync-event/entities/sync-event.entity.ts and
-- src/business/worker/shared/sync-event-lifecycle.helper.ts.
pub mod Entity
pub mod FileFactory
pub mod FolderFactory
pub mod Lifecycle
pub mod Retries
