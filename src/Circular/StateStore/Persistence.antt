-- ===== src/Circular/StateStore/Persistence.antt =====
-- What is stored is found again when the store is opened on the same file.
use mathlib.Core.List.{append-nil}
use bazel_buildbarn.Prelude.{
  ℕ, ◌+◌, ◌≤◌, ◌<◌, ◌^◌, ◌≡◌, refl, ap, ◌∙◌, List, [], ◌++◌, length, length-append, take, drop,
  none, arith,
}
use bazel_buildbarn.Prelude.LittleEndian.{
  encode, length-encode, decode-encode, capacity-8, take-append, drop-append,
}
use bazel_buildbarn.Util.Status.{ok}
use bazel_buildbarn.Circular.Cursors.{Cursors}
use bazel_buildbarn.Circular.File.{ReadWriterAt, IsFile, slice, slice-written}
use bazel_buildbarn.Circular.StateStore.{
  FileStateStore, decode_cursors, encode_cursors, new_file_state_store, put, allocate, advance,
}
use bazel_buildbarn.Circular.StateStore.Invariant.{IsWindow, advance-IsWindow}

take-encode : (n v : ℕ) (rest : List ℕ) → take n (encode n v ++ rest) ≡ encode n v
take-encode n v rest = rw (length-encode n v) at (take-append (encode n v) rest)

drop-encode : (n v : ℕ) (rest : List ℕ) → drop n (encode n v ++ rest) ≡ rest
drop-encode n v rest = rw (length-encode n v) at (drop-append (encode n v) rest)

take-encode_all : (n v : ℕ) → take n (encode n v) ≡ encode n v
take-encode_all n v = rw append-nil at (take-encode n v [])

decode-encode_cursors :
    (c : Cursors) → c.read ≤ c.write → c.write < 2 ^ 64 → decode_cursors (encode_cursors c) ≡ c
unfolding decode_cursors encode_cursors
decode-encode_cursors c ordered word =
    rw
      (
        take-encode 8 c.read (encode 8 c.write),
        drop-encode 8 c.read (encode 8 c.write),
        take-encode_all 8 c.write,
        decode-encode 8 c.read (rw capacity-8 (omega arith)),
        decode-encode 8 c.write (rw capacity-8 word),
      )
      (ground arith)

length-encode_cursors : (c : Cursors) → length (encode_cursors c) ≡ 16
unfolding encode_cursors
length-encode_cursors c =
    length-append (encode 8 c.read) (encode 8 c.write)
    ∙ rw (length-encode 8 c.read, length-encode 8 c.write)

module _ {F : Type 0} (ops : ReadWriterAt F) (content : F → ℕ → ℕ) (size : F → ℕ)
    (file : IsFile ops content size) where
  written_slice : (f : F) (b : List ℕ) → slice (content (ops.write_at f b 0).0) 0 (length b) ≡ b
  written_slice f b = slice-written _ b 0 λ i h. file.written f b 0 (0 + i) ∙ ground arith

  reread :
      (f : F) (c : Cursors)
      → ops.read_at (ops.write_at f (encode_cursors c) 0).0 16 0 ≡ (encode_cursors c, none)
  reread f c =
      let room = (file.grows f (encode_cursors c) 0).0 in
      let size_16 = length-encode_cursors c in
      file.reads_full _ 16 0 (rw size_16 at room)
      ∙ ap (λ b. (b, none)) (rw size_16 at (written_slice f (encode_cursors c)))

  put-ok :
      (ss : FileStateStore F) (c : Cursors)
      → c.read ≤ c.write
      → put ops ss c
        ≡ (ok tt, record ss { file = (ops.write_at ss.file (encode_cursors c) 0).0; cursors = c })
  unfolding put
  put-ok ss c ordered = ground (arith, file.writes ss.file (encode_cursors c) 0)

  -- On a file that does not fail, an allocation succeeds, and opening a store on the resulting file
  -- finds the cursors that the allocation left.
  pub new_file_state_store-allocate :
      (ss : FileStateStore F) (size_bytes : ℕ)
      → ss.data_size ≤ 2 ^ 63
      → IsWindow ss.data_size ss.cursors
      → ((allocate ops ss size_bytes).0 ≡ ok ss.cursors.write)
        × (new_file_state_store ops (allocate ops ss size_bytes).1.file ss.data_size
            ≡ ok (allocate ops ss size_bytes).1)
  unfolding allocate new_file_state_store
  new_file_state_store-allocate ss size_bytes h w =
      let c = advance ss.cursors ss.data_size size_bytes in
      let next = advance-IsWindow ss.cursors ss.data_size size_bytes h w in
      let decoded = decode-encode_cursors c next.ordered next.word in
      rw (put-ok ss c next.ordered) (refl, rw (reread ss.file c) (rw decoded))
