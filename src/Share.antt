-- ===== src/Share.antt =====
-- Sharing of files with external users: src/domain/external-share, src/domain/share-request and
-- src/business/external-share.
pub mod PublicShare
pub mod TokenStore
pub mod Access
