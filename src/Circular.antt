-- ===== src/Circular.antt =====
-- pkg/blobstore/circular: the storage backend that keeps blobs in one circular data file.
pub mod Cursors
pub mod File
pub mod StateStore
pub mod Record
pub mod OffsetStore
pub mod DataStore
pub mod BlobAccess
