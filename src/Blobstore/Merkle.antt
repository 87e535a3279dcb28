-- ===== src/Blobstore/Merkle.antt =====
-- The backend that checks what is read and written against the digest:
-- pkg/blobstore/merkle_blob_access.go. The proofs are in the modules below.
pub mod Validation
pub mod Matching
pub mod Storage
use bazel_buildbarn.Prelude.{
  ℕ, ◌-◌, List, [], ◌∷◌, ◌++◌, Option, none, some, Bool, true, false, not, ltb, ◌==◌, if◌then◌else◌,
  length,
}
use bazel_buildbarn.Prelude.Hex.{encode_to_string}
use bazel_buildbarn.Util.Status.{
  Result, ok, err, fatal, Error, Code, Arg, bytes, number, text, format, status, eof, internal,
  invalid_argument,
}
use bazel_buildbarn.Util.Digest.{Digest, Algorithm, new_hasher, get_hash_bytes}
use bazel_buildbarn.Util.Digest.Generator.{Hashes}
use bazel_buildbarn.Util.Reader.{Reader}
use bazel_buildbarn.Circular.Record.{bytes_equal}
use bazel_buildbarn.Blobstore.BlobAccess.{BlobAccess}

-- checksumValidatingReader, without the reader in it. The size of a digest is not negative.
pub record Checker : Type 0 where
  pub expected_checksum : List ℕ
  pub algorithm : Algorithm
  pub hashed : List ℕ
  pub size_left : ℕ
  pub error_code : Code

start : Code → ℕ → Option (List ℕ) → Option Algorithm → Result Checker
start code size_bytes (some checksum) (some algorithm) = ok (record {
  expected_checksum = checksum;
  algorithm = algorithm;
  hashed = [];
  size_left = size_bytes;
  error_code = code;
})
start code size_bytes (some checksum) none = fatal
start code size_bytes none algorithm = fatal

-- newChecksumValidatingReader
unfoldable pub new_checker : Digest → Code → Result Checker
unfolding start
new_checker digest code =
    start code digest.partial_digest.size_bytes (get_hash_bytes digest) (new_hasher digest)

abbrev pub longer : Code → Error
longer code = status code (text "Blob is longer than expected")

abbrev pub shorter : Code → ℕ → Error
shorter code size_left =
    status code (format "Blob is %d bytes shorter than expected" (number size_left ∷ []))

abbrev pub mismatch : Code → List ℕ → List ℕ → Error
mismatch code actual expected = status code (
    format "Checksum of blob is %s, while %s was expected"
      (bytes (encode_to_string actual) ∷ bytes (encode_to_string expected) ∷ []))

-- What Read returns, and whether it has called the invalidator.
abbrev pub Outcome : Type 0
Outcome = (List ℕ × Option Error) × Bool

module _ (hashes : Hashes) where
  at_end : Checker → List ℕ → Outcome
  at_end v b =
      let actual = hashes.sum v.algorithm v.hashed in
      if not (v.size_left == 0)
      then (([], some (shorter v.error_code v.size_left)), true)
      else if not (bytes_equal actual v.expected_checksum)
      then (([], some (mismatch v.error_code actual v.expected_checksum)), true)
      else ((b, some eof), false)

  in_size : Checker → List ℕ × Option Error → Outcome
  unfolding at_end
  in_size v (b, some eof) = at_end v b
  in_size v event = (event, false)

  -- Read, of what the reader within returns. The bytes go to the hash even if they are too many.
  unfoldable pub read : Checker → List ℕ × Option Error → Outcome × Checker
  unfolding in_size
  read v (b, e) =
      let seen = record v { hashed = v.hashed ++ b } in
      let counted = record seen { size_left = v.size_left - length b } in
      if ltb v.size_left (length b)
      then ((([], some (longer v.error_code)), true), seen)
      else (in_size counted (b, e), counted)

  continue : Outcome → Reader × Bool → Reader × Bool
  continue ((b, some e), invalidated) rest = ((b, some e) ∷ [], invalidated)
  continue ((b, none), invalidated) (events, later) = ((b, none) ∷ events, later)

  -- The calls of Read up to the first error, and whether the invalidator is called.
  unfoldable pub validated : Checker → Reader → Reader × Bool
  unfolding continue
  validated v [] = continue (read v ([], some eof)).0 ([], false)
  validated v (event ∷ events) =
      let (outcome, v') = read v event in continue outcome (validated v' events)

abbrev pub wrong_size : Code → ℕ → ℕ → Error
wrong_size code actual expected = status code (
    format "Blob is %d bytes in size, while %d bytes were expected"
      (number actual ∷ number expected ∷ []))

-- The reader that Get returns. The digest is that of the blob to discard.
pub record CheckedReader (R : Type 0) : Type 0 where
  pub digest : Digest
  pub checker : Checker
  pub reader : R

with_checker : {R : Type 0} → Digest → R → Result Checker → Result (ℕ × CheckedReader R)
with_checker digest r (ok checker) =
    ok (digest.partial_digest.size_bytes, record { digest = digest; checker = checker; reader = r })
with_checker digest r (err e) = err e
with_checker digest r fatal = fatal

module _ {S R : Type 0} (hashes : Hashes) (ba : BlobAccess S R) where
  -- discardBadBlob, which logs the result
  abbrev pub discard_bad_blob : S → Digest → S
  discard_bad_blob s digest = (ba.delete s digest).1

  found : Digest → Result (ℕ × R) × S → Result (ℕ × CheckedReader R) × S
  unfolding with_checker
  found digest (ok (size_bytes, r), s) =
      if not (size_bytes == digest.partial_digest.size_bytes)
      then (
        err (wrong_size internal size_bytes digest.partial_digest.size_bytes),
        discard_bad_blob s digest,
      )
      else (with_checker digest r (new_checker digest internal), s)
  found digest (err e, s) = (err e, s)
  found digest (fatal, s) = (fatal, s)

  unfoldable pub get : S → Digest → Result (ℕ × CheckedReader R) × S
  unfolding found
  get s digest = found digest (ba.get s digest)

  put_checked : S → Digest → Reader → Result Checker → Result (Unit {0}) × S
  put_checked s digest r (ok checker) =
      ba.put s digest digest.partial_digest.size_bytes (validated hashes checker r).0
  put_checked s digest r (err e) = (err e, s)
  put_checked s digest r fatal = (fatal, s)

  unfoldable pub put : S → Digest → ℕ → Reader → Result (Unit {0}) × S
  unfolding put_checked
  put s digest size_bytes r =
      if not (digest.partial_digest.size_bytes == size_bytes)
      then (err (wrong_size invalid_argument size_bytes digest.partial_digest.size_bytes), s)
      else put_checked s digest r (new_checker digest invalid_argument)

  -- To read what Get has returned, until an error.
  unfoldable pub reading : CheckedReader R → S → Reader × S
  reading r s =
      let (events, s') = ba.reading r.reader s in
      let (checked, invalidated) = validated hashes r.checker events in
      (checked, if invalidated then discard_bad_blob s' r.digest else s')

  unfoldable pub merkle_blob_access : BlobAccess S (CheckedReader R)
  merkle_blob_access = record {
    get = get;
    put = put;
    delete = ba.delete;
    find_missing = ba.find_missing;
    reading = reading;
  }
