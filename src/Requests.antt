-- ===== src/Requests.antt =====
-- The requests that a user makes and an approver decides: src/domain/share-request and
-- src/domain/file-action-request.
pub mod ShareRequest
pub mod FileAction
