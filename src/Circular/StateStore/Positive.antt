-- ===== src/Circular/StateStore/Positive.antt =====
-- positive_sized_blob_state_store.go: no allocation and no invalidation of an empty range.
use bazel_buildbarn.Prelude.{ℕ, ◌+◌, ◌<◌, ◌^◌, ◌≡◌, true, false, arith}
use bazel_buildbarn.Util.Status.{ok}
use bazel_buildbarn.Circular.Cursors.{contains, at_least_one}
use bazel_buildbarn.Circular.File.{ReadWriterAt}
use bazel_buildbarn.Circular.StateStore.{
  StateStore, FileStateStore, file_state_store, invalidate, put, retract,
}

unfoldable pub positive_sized_blob_state_store : {S : Type 0} → StateStore S → StateStore S
positive_sized_blob_state_store base = record {
  get_cursors = base.get_cursors;
  allocate = λ s size_bytes. base.allocate s (at_least_one size_bytes);
  invalidate = λ s offset size_bytes. base.invalidate s offset (at_least_one size_bytes);
}

module _ {F : Type 0} (ops : ReadWriterAt F) where
  -- Through the adapter, a successful Invalidate of a blob that the cursors contain, an empty one
  -- included, leaves cursors that do not contain it, provided that the blob does not wrap around.
  pub invalidate_removes :
      (ss : FileStateStore F) (offset size_bytes : ℕ)
      → offset + at_least_one size_bytes < 2 ^ 64
      → contains ss.cursors offset size_bytes ≡ true
      → ((positive_sized_blob_state_store (file_state_store ops)).invalidate ss offset size_bytes).0
        ≡ ok tt
      → contains
          ((positive_sized_blob_state_store (file_state_store ops)).invalidate ss offset
            size_bytes).1.cursors
          offset
          size_bytes
        ≡ false
  unfolding positive_sized_blob_state_store invalidate put retract contains
  invalidate_removes ss offset size_bytes fits inside done = ground arith

  -- Without the adapter, invalidating an empty blob at the read cursor changes nothing: the cursors
  -- still contain it.
  pub invalidate_keeps_empty :
      (ss : FileStateStore F) (offset : ℕ)
      → ss.cursors.read ≡ offset
      → contains ss.cursors offset 0 ≡ true
      → contains (invalidate ops ss offset 0).1.cursors offset 0 ≡ true
  unfolding invalidate put retract contains
  invalidate_keeps_empty ss offset at_read inside = ground arith
