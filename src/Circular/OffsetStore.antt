-- ===== src/Circular/OffsetStore.antt =====
-- The offset stores of pkg/blobstore/circular: the interface OffsetStore, and file_offset_store.go.
-- The adapters and the proofs are in the modules below. The histograms of iterations are left out.
pub mod Slots
pub mod Totality
pub mod Lookup
pub mod Insert
pub mod Kept
pub mod RoundTrip
pub mod Caching
pub mod Demultiplexing
use bazel_buildbarn.Prelude.{
  ℕ, zero, suc, ◌+◌, ◌-◌, ◌*◌, ◌/◌, ◌%◌, ◌≡◌, List, Bool, ◌||◌, not, Option, none, some, leb, ltb,
  ◌==◌, if◌then◌else◌,
}
use bazel_buildbarn.Util.Status.{Result, ok, err, fatal, Error, eof, ◌>>=◌}
use bazel_buildbarn.Util.Digest.{Digest}
use bazel_buildbarn.Circular.Cursors.{Cursors, contains}
use bazel_buildbarn.Circular.File.{ReadWriterAt, pad}
use bazel_buildbarn.Circular.Record.{
  new_simple_digest, new_offset_record, get_slot, get_attempt, get_offset, get_length,
  digest_and_attempt_equal, with_attempt,
}

-- The interface of circular_blob_access.go. Get returns an offset and a length, or nothing.
pub record OffsetStore (S : Type 0) : Type 0 where
  pub get : S → Digest → Cursors → Result (Option (ℕ × ℕ)) × S
  pub put : S → Digest → ℕ → ℕ → Cursors → Result (Unit {0}) × S

abbrev pub maximum_iterations : ℕ
maximum_iterations = 8

-- getPositionOfSlot, in a file of `size` bytes with room for a record
unfoldable pub get_position_of_slot : ℕ → ℕ → ℕ
get_position_of_slot size slot = (slot % (size / 60)) * 60

abbrev pub position_of : ℕ → List ℕ → ℕ
position_of size r = get_position_of_slot size (get_slot r)

abbrev pub is_valid : Cursors → List ℕ → Bool
is_valid cursors r = contains cursors (get_offset r) (get_length r)

module _ {F : Type 0} (ops : ReadWriterAt F) where
  -- What has been read into a zeroed record; the end of the file is no error.
  read_record : List ℕ × Option Error → Result (List ℕ)
  read_record (b, none) = ok (pad 60 b)
  read_record (b, some eof) = ok (pad 60 b)
  read_record (b, some e) = err e

  unfoldable pub get_record_at_position : F → ℕ → Result (List ℕ)
  unfolding read_record
  get_record_at_position file position = read_record (ops.read_at file 60 position)

  write_result {ℓ} : {A : Type ℓ} → A → F × Option Error → Result A × F
  write_result a (file, none) = (ok a, file)
  write_result a (file, some e) = (err e, file)

  -- putRecordAtPosition, and what putRecord returns beside its error
  unfoldable pub put_record_at_position {ℓ} : {A : Type ℓ} → A → F → List ℕ → ℕ → Result A × F
  unfolding write_result
  put_record_at_position a file r position = write_result a (ops.write_at file r position)

  module _ (size : ℕ) (cursors : Cursors) where
    -- The loop of Get from `iteration` on; the fuel is never used up.
    unfoldable pub get_loop : ℕ → ℕ → F → List ℕ → Result (Option (ℕ × ℕ))
    get_loop zero iteration file r = fatal
    get_loop (suc fuel) iteration file r =
        let probe = with_attempt r (iteration - 1) in
        let position = position_of size probe in
        let next = get_loop fuel (iteration + 1) file r in
        let step : Result (Option (ℕ × ℕ)) = do
          stored ← get_record_at_position file position
          let found = some (get_offset stored, get_length stored)
          if not (is_valid cursors stored)
              then ok none
              else if digest_and_attempt_equal stored probe
              then ok found
              else if position_of size stored == position
              then next
              else ok none
        in if leb maximum_iterations iteration then ok none else step

    -- putRecord, once the old record has been read. It returns the record to insert next, if any.
    unfoldable pub displace : F → List ℕ → List ℕ → Result (Option (List ℕ)) × F
    displace file r old =
        let position = position_of size r in
        if not (is_valid cursors old)
          || leb (maximum_iterations - 1) (get_attempt old)
          || not (position_of size old == position)
        then put_record_at_position none file r position
        else if leb (get_offset old) (get_offset r)
        then put_record_at_position (some (with_attempt old (get_attempt old + 1))) file r position
        else if leb (maximum_iterations - 1) (get_attempt r)
        then (ok none, file)
        else (ok (some (with_attempt r (get_attempt r + 1))), file)

    displace_read : F → List ℕ → Result (List ℕ) → Result (Option (List ℕ)) × F
    displace_read file r (ok old) = displace file r old
    displace_read file r (err e) = (err e, file)
    displace_read file r fatal = (fatal, file)

    unfoldable pub put_record : F → List ℕ → Result (Option (List ℕ)) × F
    unfolding displace_read
    put_record file r = displace_read file r (get_record_at_position file (position_of size r))

    -- The loop of Put from `iteration` on; the fuel is never used up.
    unfoldable pub put_loop : ℕ → ℕ → F → List ℕ → Result (Unit {0}) × F
    put_loop zero iteration file r = (fatal, file)
    put_loop (suc fuel) iteration file r =
        let (outcome, file') = put_record file r in
        let step : Result (Unit {0}) × F = elim outcome [
          | ok (some next) ↦ put_loop fuel (iteration + 1) file' next
          | ok none ↦ (ok tt, file')
          | err e ↦ (err e, file')
          | fatal ↦ (fatal, file')
        ] in
        if ltb maximum_iterations iteration then (ok tt, file) else step

pub record FileOffsetStore (F : Type 0) : Type 0 where
  pub file : F
  pub size : ℕ

module _ {F : Type 0} (ops : ReadWriterAt F) where
  get_digest :
      FileOffsetStore F → Cursors → Option (List ℕ) → Result (Option (ℕ × ℕ)) × FileOffsetStore F
  get_digest os cursors none = (fatal, os)
  get_digest os cursors (some digest) =
      (get_loop ops os.size cursors 9 1 os.file (new_offset_record digest 0 0), os)

  -- A file with no room for a record makes the remainder in getPositionOfSlot panic.
  unfoldable pub get :
      FileOffsetStore F → Digest → Cursors → Result (Option (ℕ × ℕ)) × FileOffsetStore F
  unfolding get_digest
  get os digest cursors =
      if os.size / 60 == 0 then (fatal, os) else get_digest os cursors (new_simple_digest digest)

  put_digest :
      FileOffsetStore F → ℕ → ℕ → Cursors → Option (List ℕ) → Result (Unit {0}) × FileOffsetStore F
  put_digest os offset length cursors none = (fatal, os)
  put_digest os offset length cursors (some digest) =
      let (r, file) =
        put_loop ops os.size cursors 10 1 os.file (new_offset_record digest offset length) in
      (r, record os { file = file })

  unfoldable pub put :
      FileOffsetStore F → Digest → ℕ → ℕ → Cursors → Result (Unit {0}) × FileOffsetStore F
  unfolding put_digest
  put os digest offset length cursors =
      if os.size / 60 == 0
      then (fatal, os)
      else put_digest os offset length cursors (new_simple_digest digest)

  abbrev pub file_offset_store : OffsetStore (FileOffsetStore F)
  file_offset_store = record { get = get; put = put }
