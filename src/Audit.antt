-- ===== src/Audit.antt =====
-- The writers of the audit logs and file histories: src/business/audit.
pub mod BufferedWriter
