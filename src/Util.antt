-- ===== src/Util.antt =====
-- pkg/util: the errors that the services return, and the digests that name blobs and actions.
pub mod Status
pub mod Codec
pub mod Digest
pub mod Reader
pub mod KeyMap
