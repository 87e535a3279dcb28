-- ===== src/Circular/DataStore/Reads.antt =====
-- Reading wraps around at the end of the data file.
use bazel_buildbarn.Prelude.{
  ℕ, zero, suc, ◌+◌, ◌-◌, ◌%◌, ◌^◌, ◌≤◌, ◌<◌, ◌≡◌, refl, ap, List, [], ◌∷◌, ◌++◌, none, some, ◌==◌,
  arith, false,
}
use bazel_buildbarn.Prelude.Word.{add64}
use bazel_buildbarn.Util.Status.{eof}
use bazel_buildbarn.Circular.File.{ReadWriterAt, IsFile, slice}
use bazel_buildbarn.Circular.DataStore.{FileDataStoreReader, get, read, read_length, read_all}

-- `n` bytes of a ring of `store_size` bytes, from `offset` on.
unfoldable pub ring : (ℕ → ℕ) → ℕ → ℕ → ℕ → List ℕ
ring content store_size offset zero = []
ring content store_size offset (suc n) =
    content (offset % store_size) ∷ ring content store_size (offset + 1) n

next_place :
    (offset store_size : ℕ)
    → offset % store_size + 1 < store_size
    → (offset + 1) % store_size ≡ offset % store_size + 1
next_place offset store_size h = grind arith

-- A slice that does not pass the end is the ring there.
pub slice-ring :
    (content : ℕ → ℕ) (store_size offset n : ℕ)
    → 0 < store_size
    → offset % store_size + n ≤ store_size
    → slice content (offset % store_size) n ≡ ring content store_size offset n
unfolding slice ring
slice-ring content store_size offset zero pos fits = refl
slice-ring content store_size offset (suc zero) pos fits = refl
slice-ring content store_size offset (suc (suc n)) pos fits =
    let next : (offset + 1) % store_size ≡ offset % store_size + 1 =
      next_place offset store_size (omega arith) in
    ap (◌∷◌ (content (offset % store_size)))
      (rw (← next) (slice-ring content store_size (offset + 1) (suc n) pos (rw next (omega arith))))

pub ring-append :
    (content : ℕ → ℕ) (store_size offset m n next total : ℕ)
    → next ≡ offset + m
    → total ≡ m + n
    → ring content store_size offset m ++ ring content store_size next n
      ≡ ring content store_size offset total
unfolding ring
ring-append content store_size offset zero n next total e f =
    let e' : next ≡ offset = omega arith in let f' : total ≡ n = omega arith in rw (e', f')
ring-append content store_size offset (suc m) n next zero e f = absurd (omega arith)
ring-append content store_size offset (suc m) n next (suc total) e f =
    ap (◌∷◌ (content (offset % store_size)))
      (ring-append content store_size (offset + 1) m n next total (omega arith) (omega arith))

module _ {F : Type 0} (ops : ReadWriterAt F) (content : F → ℕ → ℕ) (length_of : F → ℕ)
    (law : IsFile ops content length_of) (store_size : ℕ) (some_room : 0 < store_size) (file : F)
    (long : store_size ≤ length_of file) where
  read_length_bounds :
      (f : FileDataStoreReader) (buffer : ℕ)
      → 0 < f.size
      → 0 < buffer
      → (0 < read_length ops store_size f buffer)
        × (read_length ops store_size f buffer ≤ f.size)
        × (f.offset % store_size + read_length ops store_size f buffer ≤ store_size)
  unfolding read_length
  read_length_bounds f buffer more room =
      let below : f.offset % store_size < store_size = omega arith in
      (omega arith, omega arith, omega arith)

  read_step :
      (f : FileDataStoreReader) (buffer : ℕ)
      → 0 < f.size
      → 0 < buffer
      → read ops store_size file f buffer ≡ (
        (ring (content file) store_size f.offset (read_length ops store_size f buffer), none),
        record {
          offset = add64 f.offset (read_length ops store_size f buffer);
          size = f.size - read_length ops store_size f buffer;
        },
      )
  unfolding read
  read_step f buffer more room =
      let bounds = read_length_bounds f buffer more room in
      let n = read_length ops store_size f buffer in
      let some_left : (f.size == 0) ≡ false = ground arith in
      rw (
        some_left,
        law.reads_full file n (f.offset % store_size) (omega (arith, bounds)),
        slice-ring (content file) store_size f.offset n some_room bounds.2,
      )

  -- Reading a range of the data store to the end, with any buffer, gives the bytes of the ring from
  -- the offset on, each taken at its place modulo the size of the store, and then io.EOF.
  pub read_all-get :
      (fuel offset size buffer : ℕ)
      → size < fuel
      → 0 < buffer
      → offset + size < 2 ^ 64
      → read_all ops store_size fuel file (get offset size) buffer
        ≡ (ring (content file) store_size offset size, some eof)
  unfolding get read_all
  read_all-get zero offset size buffer enough room word = absurd (omega arith)
  read_all-get (suc fuel) offset zero buffer enough room word = unfold read ring in refl
  read_all-get (suc fuel) offset (suc size) buffer enough room word =
      let f : FileDataStoreReader = record { offset = offset; size = suc size } in
      let n = read_length ops store_size f buffer in
      let bounds = read_length_bounds f buffer (omega arith) room in
      let plain : add64 offset n ≡ offset + n = omega (arith, bounds) in
      rw (
        read_step f buffer (omega arith) room,
        plain,
        read_all-get fuel (offset + n) (suc size - n) buffer (omega (arith, bounds)) room
            (omega (arith, bounds)),
        ring-append (content file) store_size offset n (suc size - n) (offset + n) (suc size) refl
            (omega (arith, bounds)),
      )
