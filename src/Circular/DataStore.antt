-- ===== src/Circular/DataStore.antt =====
-- The data store of pkg/blobstore/circular: file_data_store.go. The proofs are in the modules below.
pub mod Reads
pub mod Writes
use bazel_buildbarn.Prelude.{
  ℕ, zero, suc, ◌+◌, ◌-◌, ◌%◌, List, [], ◌∷◌, ◌++◌, Option, none, some, ltb, ◌==◌, if◌then◌else◌,
  length, min,
}
use bazel_buildbarn.Prelude.Word.{add64}
use bazel_buildbarn.Util.Status.{Result, ok, err, fatal, Error, eof}
use bazel_buildbarn.Util.Reader.{Reader}
use bazel_buildbarn.Circular.File.{ReadWriterAt}

pub record FileDataStoreReader : Type 0 where
  pub offset : ℕ
  pub size : ℕ

-- Get
unfoldable pub get : ℕ → ℕ → FileDataStoreReader
get offset size = record { offset = offset; size = size }

join : List ℕ × Option Error → List ℕ × Option Error → List ℕ × Option Error
join (b, none) (rest, e) = (b ++ rest, e)
join (b, some x) rest = ([], some x)

module _ {F : Type 0} (ops : ReadWriterAt F) (store_size : ℕ) where
  -- The loop of Put, over what Read returns. The limit that the source computes for the bytes to copy
  -- (copyLength) is never used: all the bytes that were read are written at the write offset.
  put_loop : F → Reader → ℕ → Result (Unit {0}) × F
  put_loop file [] offset = (ok tt, file)
  put_loop file ((b, some eof) ∷ r) offset = (ok tt, file)
  put_loop file ((b, some e) ∷ r) offset = (err e, file)
  put_loop file ((b, none) ∷ r) offset =
      let (file', failed) = ops.write_at file b (offset % store_size) in
      let rest = put_loop file' r (add64 offset (length b)) in
      elim failed [ none ↦ rest | some e ↦ (err e, file') ]

  -- A store of no size makes the remainder panic.
  unfoldable pub put : F → Reader → ℕ → Result (Unit {0}) × F
  unfolding put_loop
  put file r offset = if store_size == 0 then (fatal, file) else put_loop file r offset

  read_done :
      FileDataStoreReader
      → ℕ
      → List ℕ × Option Error
      → (List ℕ × Option Error) × FileDataStoreReader
  read_done f read_length (b, none) =
      ((b, none), record { offset = add64 f.offset read_length; size = f.size - read_length })
  read_done f read_length (b, some e) = (([], some e), f)

  unfoldable pub read_length : FileDataStoreReader → ℕ → ℕ
  read_length f buffer = min (min f.size buffer) (store_size - f.offset % store_size)

  -- Read, into a buffer of the given length.
  unfoldable pub read : F → FileDataStoreReader → ℕ → (List ℕ × Option Error) × FileDataStoreReader
  unfolding read_done
  read file f buffer =
      if f.size == 0
      then (([], some eof), f)
      else read_done f (read_length f buffer)
          (ops.read_at file (read_length f buffer) (f.offset % store_size))

  -- A client that reads until the end, with fuel: the bytes that it gets, and the error, if any.
  unfoldable pub read_all : ℕ → F → FileDataStoreReader → ℕ → List ℕ × Option Error
  unfolding join
  read_all zero file f buffer = ([], none)
  read_all (suc fuel) file f buffer =
      let r = read file f buffer in join r.0 (read_all fuel file r.1 buffer)
