-- ===== src/Trash.antt =====
-- The trash: src/business/trash/trash.service.ts and src/domain/trash.
pub mod Store
pub mod Restore
pub mod Status
pub mod Preview
pub mod Purge
