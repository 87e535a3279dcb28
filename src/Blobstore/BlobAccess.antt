-- ===== src/Blobstore/BlobAccess.antt =====
-- The interface of the storage backends, pkg/blobstore/blob_access.go, and the two adapters that are
-- about errors: error_blob_access.go and existence_precondition_blob_access.go. `S` is the state of a
-- backend, `R` what its Get returns as a reader: `reading` is what a client gets that reads until an
-- error, and the backend afterwards.
pub mod Laws
use bazel_buildbarn.Prelude.{
  ℕ, ◌≡◌, ◌≢◌, refl, List, [], ◌∷◌, Option, none, some, Bool, true, false,
}
use bazel_buildbarn.Util.Status.{
  Result, ok, err, fatal, Error, Code, Converter, violation, format, bytes, number, not_found,
  failed_precondition,
}
use bazel_buildbarn.Util.Digest.{Digest}
use bazel_buildbarn.Util.Reader.{Reader}

pub record BlobAccess (S R : Type 0) : Type 0 where
  pub get : S → Digest → Result (ℕ × R) × S
  pub put : S → Digest → ℕ → Reader → Result (Unit {0}) × S
  pub delete : S → Digest → Result (Unit {0}) × S
  pub find_missing : S → List Digest → Result (List Digest) × S
  pub reading : R → S → Reader × S

-- NewErrorBlobAccess, which has no state.
unfoldable pub error_blob_access : Option Error → Result (BlobAccess (Unit {0}) Reader)
error_blob_access none = fatal
error_blob_access (some e) = ok (record {
  get = λ s digest. (err e, s);
  put = λ s digest size_bytes r. (err e, s);
  delete = λ s digest. (err e, s);
  find_missing = λ s digests. (err e, s);
  reading = λ r s. (r, s);
})

is_not_found : Code → Bool
is_not_found not_found = true
is_not_found _ = false

module _ (convert : Converter) where
  open convert use {code_of, message_of}

  precondition : Digest → Bool → Error → Error
  precondition digest true e = violation failed_precondition (message_of e) "MISSING" (
      format "blobs/%s/%d"
        (bytes digest.partial_digest.hash ∷ number digest.partial_digest.size_bytes ∷ []))
  precondition digest false e = e

  -- The test that Get makes, of what the backend's Get returned.
  unfoldable pub with_precondition : {R : Type 0} → Digest → Result (ℕ × R) → Result (ℕ × R)
  unfolding precondition is_not_found
  with_precondition digest (ok r) = ok r
  with_precondition digest (err e) = err (precondition digest (is_not_found (code_of e)) e)
  with_precondition digest fatal = fatal

  unfoldable pub existence_precondition_blob_access :
      {S R : Type 0} → BlobAccess S R → BlobAccess S R
  existence_precondition_blob_access ba = record ba {
    get = λ s digest. let (r, s') = ba.get s digest in (with_precondition digest r, s');
  }
