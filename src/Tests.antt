-- ===== src/Tests.antt =====
-- Runs of the model at concrete inputs, and the theorems at inputs where their hypotheses hold.
mod Data
mod Memory
mod Digests
mod Stores
mod Offsets
mod Blobs
mod Queue
mod Shards
mod Adapters
mod Streams
mod Caches
mod Results
mod Typed
mod Environments
