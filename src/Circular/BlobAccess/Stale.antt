-- ===== src/Circular/BlobAccess/Stale.antt =====
-- Calls of the backend on top of each other. The mutex makes each locked section one step, and a Put gives
-- it up between its allocation and its last section.
use bazel_buildbarn.Prelude.{
  ℕ, ◌+◌, ◌%◌, ◌≤◌, ◌<◌, ◌^◌, ◌≡◌, refl, inl, inr, List, ◌∷◌, some, true, false, Bool-cases,
  get_elem?,
}
use bazel_buildbarn.Util.Status.{ok, err}
use bazel_buildbarn.Util.Digest.{Digest}
use bazel_buildbarn.Util.Reader.{Reader}
use bazel_buildbarn.Circular.Cursors.{at_least_one, contains}
use bazel_buildbarn.Circular.File.{ReadWriterAt}
use bazel_buildbarn.Circular.StateStore.{FileStateStore, file_state_store}
use bazel_buildbarn.Circular.StateStore.Interleaving as Interleaving
use bazel_buildbarn.Circular.StateStore.Interleaving.{
  History, IsOrderly, contained_ranges_are_disjoint,
}
use bazel_buildbarn.Circular.OffsetStore.{OffsetStore}
use bazel_buildbarn.Circular.BlobAccess.{
  DataStore, CircularBlobAccess, stale, look_up, allocate, write, finish, delete,
}

-- The backend, and the ranges that the calls of Put have been given, newest first.
pub record Shared (O D F : Type 0) : Type 0 where
  pub backend : CircularBlobAccess O D (FileStateStore F)
  pub ranges : List (ℕ × ℕ)

abbrev pub history : {O D F : Type 0} → Shared O D F → History F
history h = record { store = h.backend.state; ranges = h.ranges }

module _ {O D R F : Type 0} (offset_store : OffsetStore O) (data_store : DataStore D R)
    (ops : ReadWriterAt F) where
  -- A section of a call of some client. The write cursor does not reach the end of the word's range, and
  -- what Delete finds in the index is contained by the cursors.
  pub data Step : Shared O D F → Shared O D F → Type 0 where
    allocates :
        (h : Shared O D F) (size_bytes offset : ℕ)
        → h.backend.state.cursors.write + size_bytes < 2 ^ 64
        → (allocate offset_store data_store (file_state_store ops) h.backend size_bytes).0
          ≡ ok offset
        → Step h (record {
          backend =
              (allocate offset_store data_store (file_state_store ops) h.backend size_bytes).1;
          ranges = (offset, size_bytes) ∷ h.ranges;
        })
    fails :
        (h : Shared O D F) (size_bytes : ℕ)
        → h.backend.state.cursors.write + size_bytes < 2 ^ 64
        → Step h record h {
          backend =
              (allocate offset_store data_store (file_state_store ops) h.backend size_bytes).1;
        }
    writes :
        (h : Shared O D F) (r : Reader) (offset : ℕ)
        → Step h record h {
          backend = (write offset_store data_store (file_state_store ops) h.backend r offset).1;
        }
    finishes :
        (h : Shared O D F) (digest : Digest) (offset size_bytes : ℕ)
        → Step h record h {
          backend =
              (finish offset_store data_store
                (file_state_store ops)
                h.backend
                digest
                offset
                size_bytes).1;
        }
    looks_up :
        (h : Shared O D F) (digest : Digest)
        → Step h record h {
          backend = (look_up offset_store data_store (file_state_store ops) h.backend digest).1;
        }
    deletes :
        (h : Shared O D F) (digest : Digest) (offset size_bytes : ℕ)
        → (look_up offset_store data_store (file_state_store ops) h.backend digest).0
          ≡ ok (some (offset, size_bytes))
        → offset + at_least_one size_bytes < 2 ^ 64
        → size_bytes < 2 ^ 63
        → contains h.backend.state.cursors offset size_bytes ≡ true
        → Step h record h {
          backend = (delete offset_store data_store (file_state_store ops) h.backend digest).1;
        }

  pub data Reach (start : Shared O D F) : Shared O D F → Type 0 where
    here : Reach start start
    next : {h k : Shared O D F} → Reach start h → Step h k → Reach start k

  finish_state :
      (ba : CircularBlobAccess O D (FileStateStore F)) (digest : Digest) (offset size_bytes : ℕ)
      → (finish offset_store data_store (file_state_store ops) ba digest offset size_bytes).1.state
        ≡ ba.state
  unfolding finish
  finish_state ba digest offset size_bytes =
      elim (Bool-cases (contains ba.state.cursors offset size_bytes)) [
        | inl h ↦ rw h refl
        | inr h ↦ rw h refl
      ]

  delete_state :
      (ba : CircularBlobAccess O D (FileStateStore F)) (digest : Digest) (offset size_bytes : ℕ)
      → (look_up offset_store data_store (file_state_store ops) ba digest).0
        ≡ ok (some (offset, size_bytes))
      → (delete offset_store data_store (file_state_store ops) ba digest).1.state
        ≡ ((file_state_store ops).invalidate ba.state offset size_bytes).1
  unfolding delete
  delete_state ba digest offset size_bytes found =
      let found' : (offset_store.get ba.offsets digest ba.state.cursors).0
          ≡ ok (some (offset, size_bytes)) =
        found in
      rw (delete, found') refl

  -- The steps of the state store among those of the backend.
  forget :
      {start h : Shared O D F} → Reach start h → Interleaving.Reach ops (history start) (history h)
  forget here = Interleaving.Reach.here
  forget (next r (allocates h size_bytes offset fits done)) =
      Interleaving.Reach.next (forget r)
        (Interleaving.Step.allocated (history h) size_bytes offset fits done)
  forget (next r (fails h size_bytes fits)) =
      Interleaving.Reach.next (forget r) (Interleaving.Step.refused (history h) size_bytes fits)
  forget (next r (writes h reader offset)) = forget r
  forget (next r (looks_up h digest)) = forget r
  forget (next r (finishes h digest offset size_bytes)) =
      rw (finish_state h.backend digest offset size_bytes) (forget r)
  forget (next r (deletes h digest offset size_bytes found fits plain inside)) =
      rw (delete_state h.backend digest offset size_bytes found) (
        Interleaving.Reach.next (forget r)
          (Interleaving.Step.invalidated (history h) offset size_bytes fits plain inside))

  refuses :
      (ba : CircularBlobAccess O D (FileStateStore F)) (digest : Digest) (offset size_bytes : ℕ)
      → contains ba.state.cursors offset size_bytes ≡ false
      → finish offset_store data_store (file_state_store ops) ba digest offset size_bytes
        ≡ (err stale, ba)
  unfolding finish
  refuses ba digest offset size_bytes e = rw e refl

  -- No digest is given a range that another writer may have overwritten. Clients call Get, Put, Delete and
  -- FindMissing on top of each other, from an orderly start, with the sections of each call in any order
  -- among those of the others. If a Put has been given a range, and then another one a range of which some
  -- byte has the same place in the data file as some byte of the first, then the last section of the first
  -- Put fails with the error for stale data, and leaves the index and all else as it is. The write cursor
  -- does not reach the end of the word's range, and what calls of Delete find is contained by the cursors.
  pub put_refuses_overwritten :
      (start h : Shared O D F) (digest : Digest) (i j offset size offset' size' x y : ℕ)
      → IsOrderly (history start)
      → Reach start h
      → i < j
      → get_elem? h.ranges i ≡ some (offset, size)
      → get_elem? h.ranges j ≡ some (offset', size')
      → offset' + at_least_one size' < 2 ^ 64
      → offset ≤ x
      → x < offset + size
      → offset' ≤ y
      → y < offset' + size'
      → x % h.backend.state.data_size ≡ y % h.backend.state.data_size
      → finish offset_store data_store (file_state_store ops) h.backend digest offset' size'
        ≡ (err stale, h.backend)
  put_refuses_overwritten start h digest i j offset size offset' size' x y orderly r lt newer older
        fits low_x high_x low_y high_y same =
      elim (Bool-cases (contains h.backend.state.cursors offset' size')) [
        | inl inside ↦ absurd (
            contained_ranges_are_disjoint ops (history start) (history h) i j offset size offset'
              size' x y orderly (forget r) lt newer older fits inside low_x high_x low_y high_y
              same)
        | inr outside ↦ refuses h.backend digest offset' size' outside
      ]
