-- ===== src/Circular/BlobAccess/RoundTrip.antt =====
-- A blob that is put is read back, through the file stores of offsets, data and cursors.
use Prim.Native.Nat.{max}
use bazel_buildbarn.Prelude.{ℕ, ◌+◌, ◌-◌, ◌%◌, ◌^◌, ◌≤◌, ◌<◌, ◌≡◌, List, some, length, arith, true}
use bazel_buildbarn.Util.Status.{ok, eof}
use bazel_buildbarn.Util.Digest.{Digest, IsDigest}
use bazel_buildbarn.Util.Digest.Generator.{flatten}
use bazel_buildbarn.Util.Reader.{chunks}
use bazel_buildbarn.Circular.Cursors.{Cursors, contains}
use bazel_buildbarn.Circular.File.{ReadWriterAt, IsFile}
use bazel_buildbarn.Circular.StateStore.{FileStateStore, file_state_store}
use bazel_buildbarn.Circular.StateStore.Invariant.{IsWindow, allocate_reserves}
use bazel_buildbarn.Circular.StateStore.Persistence.{new_file_state_store-allocate}
use bazel_buildbarn.Circular.StateStore as StateStore
use bazel_buildbarn.Circular.OffsetStore.{FileOffsetStore, file_offset_store}
use bazel_buildbarn.Circular.OffsetStore.RoundTrip.{HasPlace, get-put_placed}
use bazel_buildbarn.Circular.DataStore.{FileDataStoreReader, read_all}
use bazel_buildbarn.Circular.DataStore as Ring
use bazel_buildbarn.Circular.DataStore.Writes.{read_all-put}
use bazel_buildbarn.Circular.BlobAccess.{
  DataStore, CircularBlobAccess, get, put, finish, put-finish,
}

abbrev pub file_data_store : {F : Type 0} → ReadWriterAt F → ℕ → DataStore F FileDataStoreReader
file_data_store ops store_size = record { put = Ring.put ops store_size; get = Ring.get }

abbrev pub CircularFiles : Type 0 → Type 0
CircularFiles F = CircularBlobAccess (FileOffsetStore F) F (FileStateStore F)

module _ {F : Type 0} (ops : ReadWriterAt F) (content : F → ℕ → ℕ) (length_of : F → ℕ)
    (law : IsFile ops content length_of) where
  -- A backend with room for a blob of `n` bytes: its window is in order, its data file is allocated,
  -- and the index has a place for its record.
  pub record IsReady (ba : CircularFiles F) (digest : Digest) (n : ℕ) : Type 0 where
    pub window : IsWindow ba.state.data_size ba.state.cursors
    pub small : ba.state.data_size ≤ 2 ^ 63
    pub some_data : 0 < ba.state.data_size
    pub allocated : ba.state.data_size ≤ length_of ba.contents
    pub some_slot : 60 ≤ ba.offsets.size
    pub reach : ba.state.cursors.read + ba.state.data_size < 2 ^ 64
    pub place :
        HasPlace ops content length_of law ba.offsets digest ba.state.cursors.write n
          (StateStore.allocate ops ba.state n).1.cursors

  allocated_range :
      (c c' : Cursors) (data_size n : ℕ)
      → IsWindow data_size c
      → 0 < n
      → n ≤ data_size
      → c.write + n < 2 ^ 64
      → c'.write ≡ c.write + n
      → c'.read ≡ max c.read (c.write + n - data_size)
      → contains c' c.write n ≡ true
  unfolding contains
  allocated_range c c' data_size n w nonempty fits word e f =
      let o = w.ordered in let b = w.bounded in ground arith

  module _ (ba : CircularFiles F) (digest : Digest) (n : ℕ) (ready : IsReady ba digest n) where
    abbrev after : FileStateStore F
    after = (StateStore.allocate ops ba.state n).1

    reserved :
        ba.state.cursors.write + n < 2 ^ 64
        → 0 < n
        → n ≤ ba.state.data_size
        → ((StateStore.allocate ops ba.state n).0 ≡ ok ba.state.cursors.write)
          × (contains after.cursors ba.state.cursors.write n ≡ true)
    reserved word nonempty fits =
        let (done, _) =
          new_file_state_store-allocate ops content length_of law ba.state n ready.small
            ready.window in
        let (_, write, read) =
          allocate_reserves ops ba.state n ba.state.cursors.write ready.window word ready.reach
            done in
        (
          done,
          allocated_range ba.state.cursors after.cursors ba.state.data_size n ready.window nonempty
              fits word write read,
        )

  -- The whole way of a blob: a Put of a valid digest succeeds; a Get of that digest then returns the size
  -- of the blob and a reader of its range; and reading that to its end, with any buffer that is not empty,
  -- gives the bytes of the blob, and then io.EOF. The files do not fail. The cursors are in order, with no
  -- more between them than the size of the data file, which is positive and at most 2 ^ 63, and the file
  -- has all these bytes; the read cursor stays below 2 ^ 64 when that size is added. The index has room for
  -- a record, and a place for the new one: either each of its records that the cursors contain, as they are
  -- after the allocation, has an offset below the old write cursor; or the record that stands where the
  -- digest puts the new one is not contained by these cursors, or has the last attempt, or does not belong
  -- there, as is the case for all but one place of a blank index. The blob is neither empty nor cut by the end of
  -- the data file, and the write cursor does not wrap around.
  pub read_all-get-put :
      (ba : CircularFiles F) (digest : Digest) (bs : List (List ℕ)) (buffer : ℕ)
      → IsReady ba digest (length (flatten bs))
      → IsDigest digest
      → 0 < length (flatten bs)
      → ba.state.cursors.write % ba.state.data_size + length (flatten bs) ≤ ba.state.data_size
      → ba.state.cursors.write + length (flatten bs) < 2 ^ 64
      → 0 < buffer
      → ((put
            (file_offset_store ops)
            (file_data_store ops ba.state.data_size)
            (file_state_store ops)
            ba
            digest
            (length (flatten bs))
            (chunks bs)).0
          ≡ ok tt)
        × ((get
              (file_offset_store ops)
              (file_data_store ops ba.state.data_size)
              (file_state_store ops)
              (put
                (file_offset_store ops)
                (file_data_store ops ba.state.data_size)
                (file_state_store ops)
                ba
                digest
                (length (flatten bs))
                (chunks bs)).1
              digest).0
            ≡ ok (length (flatten bs), Ring.get ba.state.cursors.write (length (flatten bs))))
        × (read_all ops ba.state.data_size
              (length (flatten bs) + 1)
              (put
                (file_offset_store ops)
                (file_data_store ops ba.state.data_size)
                (file_state_store ops)
                ba
                digest
                (length (flatten bs))
                (chunks bs)).1.contents
              (Ring.get ba.state.cursors.write (length (flatten bs)))
              buffer
            ≡ (flatten bs, some eof))
  unfolding get finish
  read_all-get-put ba digest bs buffer ready valid nonempty fits word some_buffer =
      let n = length (flatten bs) in
      let (done, inside) = reserved ba digest n ready word nonempty (omega arith) in
      let (written, read) =
        read_all-put ops content length_of law ba.state.data_size bs ba.contents
          ba.state.cursors.write buffer ready.allocated ready.some_data fits word some_buffer in
      let (stored, found) =
        get-put_placed ops content length_of law ba.offsets digest ba.state.cursors.write n
          (after ba digest n ready).cursors valid ready.some_slot (omega (arith, word))
          (omega (arith, word)) inside ready.place in
      let whole =
        put-finish (file_offset_store ops) (file_data_store ops ba.state.data_size)
          (file_state_store ops) ba digest n ba.state.cursors.write (chunks bs) done written in
      rw (whole, inside) (stored, rw found, read)
