-- ===== src/Blobstore/BatchedStore.antt =====
-- The backend that collects writes: pkg/blobstore/batched_store_blob_access.go. The mutex makes each
-- operation one step. The map of pending operations is a list without an order: `range` goes over it in
-- an order of its own. What becomes of a reader that is closed is outside of the model, but for what
-- Close returns.
pub mod Pending
pub mod Upload
pub mod Flush
use bazel_buildbarn.Prelude.{
  ℕ, List, [], ◌∷◌, ◌++◌, map, Option, none, some, not, if◌then◌else◌, filter, length,
}
use bazel_buildbarn.Prelude.Word.{leb_int64}
use bazel_buildbarn.Util.Status.{Result, ok, err, fatal, Error}
use bazel_buildbarn.Util.Digest.{Digest, KeyFormat, get_key}
use bazel_buildbarn.Util.Reader.{Reader}
use bazel_buildbarn.Circular.Record.{bytes_equal}
use bazel_buildbarn.Blobstore.BlobAccess.{BlobAccess}

pub record PendingPutOperation : Type 0 where
  pub digest : Digest
  pub size_bytes : ℕ
  pub r : Reader

abbrev pub Pending : Type 0
Pending = List PendingPutOperation

abbrev pub digest_of : PendingPutOperation → Digest
digest_of op = op.digest

module _ (blob_key_format : KeyFormat) where
  abbrev pub key_of : PendingPutOperation → List ℕ
  key_of op = get_key op.digest blob_key_format

  -- pendingPutOperations[key]
  unfoldable pub lookup : List ℕ → Pending → Option PendingPutOperation
  lookup k [] = none
  lookup k (op ∷ ops) =
      let rest = lookup k ops in if bytes_equal k (key_of op) then some op else rest

  -- delete(pendingPutOperations, key)
  unfoldable pub remove : List ℕ → Pending → Pending
  remove k [] = []
  remove k (op ∷ ops) =
      let rest = remove k ops in if bytes_equal k (key_of op) then rest else op ∷ rest

module _ {S R : Type 0} (ba : BlobAccess S R) (blob_key_format : KeyFormat) (batch_size : ℕ)
    (range : Pending → Pending) (close : Reader → Result (Unit {0})) where
  stored :
      (Pending → S → Result (Unit {0}) × (S × Pending))
      → Pending
      → Result (Unit {0}) × S
      → Result (Unit {0}) × (S × Pending)
  stored go pending (ok _, s) = go pending s
  stored go pending (err e, s) = (err e, (s, pending))
  stored go pending (fatal, s) = (fatal, (s, pending))

  upload_one :
      (Pending → S → Result (Unit {0}) × (S × Pending))
      → List ℕ
      → Pending
      → S
      → Option PendingPutOperation
      → Result (Unit {0}) × (S × Pending)
  unfolding stored
  upload_one go k pending s none = go pending s
  upload_one go k pending s (some op) =
      stored go (remove blob_key_format k pending) (ba.put s op.digest op.size_bytes op.r)

  -- The loop over the missing blobs, and the discarding of the others after it.
  unfoldable pub upload : List Digest → Pending → S → Result (Unit {0}) × (S × Pending)
  unfolding upload_one
  upload [] pending s = (ok tt, (s, []))
  upload (digest ∷ digests) pending s =
      let k = get_key digest blob_key_format in
      upload_one (upload digests) k pending s (lookup blob_key_format k pending)

  flush_missing : Pending → Result (List Digest) × S → Result (Unit {0}) × (S × Pending)
  flush_missing pending (ok missing, s) = upload missing pending s
  flush_missing pending (err e, s) = (err e, (s, pending))
  flush_missing pending (fatal, s) = (fatal, (s, pending))

  -- flushLocked, and the function that flushes
  unfoldable pub flush : S × Pending → Result (Unit {0}) × (S × Pending)
  unfolding flush_missing
  flush (s, pending) = flush_missing pending (ba.find_missing s (map digest_of (range pending)))

  enqueue :
      PendingPutOperation
      → Option PendingPutOperation
      → S × Pending
      → Result (Unit {0}) × (S × Pending)
  enqueue op (some _) st = (close op.r, st)
  enqueue op none (s, pending) = (ok tt, (s, pending ++ op ∷ []))

  flushed :
      PendingPutOperation → Result (Unit {0}) × (S × Pending) → Result (Unit {0}) × (S × Pending)
  unfolding enqueue
  flushed op (ok _, (s, pending)) =
      enqueue op (lookup blob_key_format (key_of blob_key_format op) pending) (s, pending)
  flushed op (err e, st) = (err e, st)
  flushed op (fatal, st) = (fatal, st)

  unfoldable pub put : S × Pending → Digest → ℕ → Reader → Result (Unit {0}) × (S × Pending)
  unfolding flushed
  put (s, pending) digest size_bytes r =
      let op : PendingPutOperation = record { digest = digest; size_bytes = size_bytes; r = r } in
      flushed op (
        if leb_int64 batch_size (length pending) then flush (s, pending) else (ok tt, (s, pending)))
