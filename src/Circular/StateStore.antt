-- ===== src/Circular/StateStore.antt =====
-- The state stores of pkg/blobstore/circular: the interface StateStore, and file_state_store.go. The
-- adapters and the proofs are in the modules below.
pub mod Invariant
pub mod Persistence
pub mod Bulk
pub mod Positive
pub mod Interleaving
use bazel_buildbarn.Prelude.{
  ℕ, ◌+◌, ◌≤◌, ◌<◌, ◌^◌, ◌≡◌, List, ◌++◌, Bool, Option, none, some, leb, ltb, if◌then◌else◌, take,
  drop,
}
use bazel_buildbarn.Prelude.Word.{add64, sub64}
use bazel_buildbarn.Prelude.LittleEndian.{encode, decode}
use bazel_buildbarn.Util.Status.{Result, ok, err, fatal, Error, eof}
use bazel_buildbarn.Circular.Cursors.{Cursors}
use bazel_buildbarn.Circular.File.{ReadWriterAt}

-- The interface of circular_blob_access.go; an operation returns the store as it leaves it.
pub record StateStore (S : Type 0) : Type 0 where
  pub get_cursors : S → Cursors
  pub allocate : S → ℕ → Result ℕ × S
  pub invalidate : S → ℕ → ℕ → Result (Unit {0}) × S

pub record FileStateStore (F : Type 0) : Type 0 where
  pub file : F
  pub data_size : ℕ
  pub cursors : Cursors

abbrev pub no_cursors : Cursors
no_cursors = record { read = 0; write = 0 }

-- The cursors that 16 bytes stand for, if they are in order.
unfoldable pub decode_cursors : List ℕ → Cursors
decode_cursors b =
    let read_cursor = decode (take 8 b) in
    let write_cursor = decode (take 8 (drop 8 b)) in
    if leb read_cursor write_cursor
    then record { read = read_cursor; write = write_cursor }
    else no_cursors

unfoldable pub encode_cursors : Cursors → List ℕ
encode_cursors c = encode 8 c.read ++ encode 8 c.write

module _ {F : Type 0} (ops : ReadWriterAt F) where
  opened : F → ℕ → List ℕ × Option Error → Result (FileStateStore F)
  opened file data_size (b, none) =
      ok (record { file = file; data_size = data_size; cursors = decode_cursors b })
  opened file data_size (b, some eof) =
      ok (record { file = file; data_size = data_size; cursors = no_cursors })
  opened file data_size (b, some e) = err e

  unfoldable pub new_file_state_store : F → ℕ → Result (FileStateStore F)
  unfolding opened decode_cursors
  new_file_state_store file data_size = opened file data_size (ops.read_at file 16 0)

  stored : FileStateStore F → Cursors → F × Option Error → Result (Unit {0}) × FileStateStore F
  stored ss cursors (file, none) = (ok tt, record ss { file = file; cursors = cursors })
  stored ss cursors (file, some e) = (err e, record ss { file = file })

  unfoldable pub put : FileStateStore F → Cursors → Result (Unit {0}) × FileStateStore F
  unfolding stored
  put ss cursors =
      if ltb cursors.write cursors.read
      then (fatal, ss)
      else stored ss cursors (ops.write_at ss.file (encode_cursors cursors) 0)

-- The cursors after an allocation.
unfoldable pub advance : Cursors → ℕ → ℕ → Cursors
advance c data_size size_bytes =
    let write = add64 c.write size_bytes in
    if ltb write c.read
    then record { read = write; write = write }
    else if ltb (add64 c.read data_size) write
    then record { read = sub64 write data_size; write = write }
    else record { read = c.read; write = write }

-- The cursors after an invalidation.
unfoldable pub retract : Cursors → ℕ → ℕ → Cursors
retract c offset size_bytes =
    let read = add64 offset size_bytes in
    if ltb c.write read
    then record { read = read; write = read }
    else record { read = read; write = c.write }

abbrev pub returning {ℓ} : {A B : Type 0} {S : Type ℓ} → B → Result A × S → Result B × S
returning b (ok _, s) = (ok b, s)
returning b (err e, s) = (err e, s)
returning b (fatal, s) = (fatal, s)

module _ {F : Type 0} (ops : ReadWriterAt F) where
  unfoldable pub allocate : FileStateStore F → ℕ → Result ℕ × FileStateStore F
  allocate ss size_bytes =
      returning ss.cursors.write (put ops ss (advance ss.cursors ss.data_size size_bytes))

  unfoldable pub invalidate : FileStateStore F → ℕ → ℕ → Result (Unit {0}) × FileStateStore F
  invalidate ss offset size_bytes = put ops ss (retract ss.cursors offset size_bytes)

  abbrev pub file_state_store : StateStore (FileStateStore F)
  file_state_store = record {
    get_cursors = λ ss. ss.cursors;
    allocate = allocate;
    invalidate = invalidate;
  }
