-- ===== src/Lib.antt =====
-- Bazel Buildbarn: the services of a build farm for Bazel. A frontend takes requests of the remote
-- execution protocol; a scheduler queues build actions; workers run them; and all of them keep their
-- data in a Content Addressable Storage and an Action Cache, which are stacks of storage backends.
--
-- The parts and the files that model them:
--
-- - pkg/util: Util. Digests (digest.go: Util/Digest/Defs, with what NewDigest accepts in Validation, keys
--   in Keys, and the digest generator in Generator) and the wrapping of errors (status.go: Util/Status).
--   Util/Reader is io.Reader as the sequence of the calls of Read that are to come.
-- - pkg/blobstore/circular: Circular. The storage backend that keeps blobs in a file used as a ring.
--   cursors.go is Circular/Cursors, the files it is given Circular/File. The state store
--   (file_state_store.go: Circular/StateStore) hands out ranges of the ring and keeps the window between
--   the read and the write cursor; bulk_allocating_state_store.go and positive_sized_blob_state_store.go
--   are its modules Bulk and Positive. The offset store (simple_digest.go and the offsetRecord:
--   Circular/Record; file_offset_store.go: Circular/OffsetStore) maps digests to ranges; its modules
--   Caching and Demultiplexing are caching_offset_store.go and demultiplexing_offset_store.go. The data
--   store (file_data_store.go: Circular/DataStore) holds the bytes. circular_blob_access.go
--   (Circular/BlobAccess) joins the three behind the records StateStore, OffsetStore and DataStore.
-- - pkg/builder: Builder. The scheduler's queue (worker_build_queue.go: Builder/WorkerBuildQueue) keeps
--   the jobs, the maps by name and by deduplication key, and the pending jobs. Its module Heap is about
--   the order in which workers get jobs, Invariant and Progress about all sequences of its steps,
--   Service about what workers are given, Requests about what clients get, and Lifecycle about what
--   becomes of a job.
--   demultiplexing_build_queue.go, which sends requests to the queue of their instance, is
--   Builder/DemultiplexingBuildQueue. The executors around the one that runs an action
--   (caching_build_executor.go, storage_flushing_build_executor.go, build_executor.go) are
--   Builder/Executors, joined as cmd/bbb_worker/main.go does.
-- - pkg/blobstore: Blobstore. The interface of a storage backend (blob_access.go) is the record
--   BlobAccess of Blobstore/BlobAccess, with error_blob_access.go and
--   existence_precondition_blob_access.go beside it; its module Laws says what it is to behave as a map
--   from digests to blobs.
--   merkle_blob_access.go, which checks sizes and checksums, is Blobstore/Merkle;
--   size_distinguishing_blob_access.go is Blobstore/SizeDistinguishing, and
--   batched_store_blob_access.go is Blobstore/BatchedStore.
-- - pkg/blobstore/sharding: Blobstore/Sharding, the choice of a backend by weights and by the hash of the
--   digest's key. Prelude/Utf8 is the decoding of strings that Go's range does. The loop that asks for
--   further shards has fuel, for the number of shards that it asks for at most. The operations on the
--   chosen backends are its module Access.
-- - pkg/cas: Cas. The resource names of the byte stream protocol (byte_stream_server.go, and the client in
--   pkg/blobstore/content_addressable_storage_blob_access.go) are Cas/ResourceName; Write and Put are
--   Cas/ByteStream, and Read and Get its module Download. FindMissing, with
--   content_addressable_storage_server.go, is Cas/MissingBlobs. Typed access to a backend
--   (blob_access_content_addressable_storage.go) is Cas/Storage. The caches of files and of directories
--   (hardlinking_ and directory_caching_content_addressable_storage.go) are Cas/Hardlinking and
--   Cas/DirectoryCaching; Util/KeyMap is a map by keys, and Prelude/SwapRemove the removal of an element
--   of a slice by moving the last one into its place.
-- - pkg/ac: Ac, the Action Cache over a storage backend (blob_access_action_cache.go) and its service
--   (action_cache_server.go).
-- - pkg/environment: Environment. The interface of a manager (manager.go) is the record Manager, with the
--   law IsManager; singleton_manager.go is beside it, concurrent_manager.go is Environment/Concurrent, and
--   the managers that prepare directories (clean_build_directory_, temp_directory_cleaning_ and
--   action_digest_subdirectory_manager.go) are Environment/Directories.
--
-- An operation is a function from a state to its results and the state that it leaves. An `error` is a
-- value (Util/Status), and so is the end of the process by log.Fatal or by a run-time panic (`fatal`).
-- Messages keep their format strings unexpanded. A mutex makes each section that it protects one step:
-- where an operation gives up the lock in between, its sections are definitions of their own, and the
-- theorems on interleavings quantify over sequences of such steps.
--
-- Numbers are natural numbers; a uint64 wraps around at 2 ^ 64 (Prelude/Word), and an int64 is its bit
-- pattern, so that a negative one is 2 ^ 63 or more. Strings and byte slices are lists of bytes.
--
-- The loops of the file offset store run on fuel, 9 for Get and 10 for Put, which is one more than the
-- iterations that their own tests allow; Circular/OffsetStore/Totality shows that it is never used up.
-- The client that reads a range to its end has one unit of fuel more than the range has bytes. The loops
-- that make space in a cache have fuel for as many removals as there are entries, and the server that
-- reads what a client writes for as many calls of Read as there are bytes and requests.
--
-- Code outside of the repository is a parameter: files (ReadWriterAt, with what os.File documents as
-- the law IsFile, which a file in memory meets), hash functions (Hashes, IsHashes), the pseudo-random
-- sequence of the shard permuter, the random UUIDs, and status.Convert (Converter). So are protocol buffers
-- (Util/Codec, with the round trip as a hypothesis where it matters), the random numbers of the caches,
-- the order in which Go ranges over a map, and the directories of the file system.
--
-- Not modelled: the main packages under cmd, which read flags and connect the parts; the web pages of
-- bbb_browser; the protocol's generated code; the backends that only call a service (Redis, S3, remote
-- GRPC); pkg/filesystem, which makes system calls; the executor that runs an action, with the runner
-- and its processes; the build queue that forwards over GRPC; and metrics, the offset store's
-- histograms among them.
pub mod Prelude
pub mod Util
pub mod Circular
pub mod Builder
pub mod Cas
pub mod Blobstore
pub mod Ac
pub mod Environment
pub mod Tests
