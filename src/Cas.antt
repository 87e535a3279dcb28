-- ===== src/Cas.antt =====
-- pkg/cas: typed access to the Content Addressable Storage, and its services.
pub mod Storage
pub mod MissingBlobs
pub mod ResourceName
pub mod ByteStream
pub mod Hardlinking
pub mod DirectoryCaching
