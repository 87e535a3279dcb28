-- ===== src/Blobstore.antt =====
-- pkg/blobstore: the storage backends in front of other backends.
pub mod BlobAccess
pub mod SizeDistinguishing
pub mod Merkle
pub mod BatchedStore
pub mod Sharding
