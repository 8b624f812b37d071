-- ===== src/Files.antt =====
-- Files and folders, the objects that store them, and the bytes that a request asks for:
-- src/domain/file, src/domain/folder, src/domain/storage and src/common/utils.
pub mod Item
pub mod NameCheck
pub mod Paths
pub mod Manage
pub mod NasMoves
pub mod File
pub mod Folder
pub mod Life
pub mod StorageObject
pub mod RangeParser
pub mod CacheEviction
