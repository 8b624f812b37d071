-- ===== src/Upload.antt =====
-- Multipart uploads: src/domain/upload-session and the admission queue of src/business/file.
pub mod Session
pub mod Part
pub mod Queue
pub mod Multipart
pub mod PartUpload
pub mod Complete
pub mod Abort
