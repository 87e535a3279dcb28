-- ===== src/Cas/MissingBlobs.antt =====
-- FindMissing over the remote execution protocol: the client in
-- pkg/blobstore/content_addressable_storage_blob_access.go, and FindMissingBlobs of the server in
-- pkg/cas/content_addressable_storage_server.go. GRPC is a parameter of the client.
pub mod Agreement
use bazel_buildbarn.Prelude.{
  ℕ, List, [], ◌∷◌, Option, some, Bool, true, false, not, ◌&&◌, if◌then◌else◌, map,
}
use bazel_buildbarn.Util.Status.{
  Result, ok, err, fatal, Error, status, text, invalid_argument, ◌>>=◌,
}
use bazel_buildbarn.Util.Digest.{Digest, PartialDigest, new_digest}
use bazel_buildbarn.Circular.Record.{bytes_equal}
use bazel_buildbarn.Blobstore.BlobAccess.{BlobAccess}

pub record FindMissingBlobsRequest : Type 0 where
  pub instance_name : List ℕ
  pub blob_digests : List (Option PartialDigest)

-- The loops over NewDigest, which stop at the first error.
unfoldable pub new_digests : List ℕ → List (Option PartialDigest) → Result (List Digest)
new_digests i [] = ok []
new_digests i (p ∷ ps) =
    new_digest i p >>= λ digest. new_digests i ps >>= λ digests. ok (digest ∷ digests)

-- GetPartialDigest
abbrev pub partial_of : Digest → Option PartialDigest
partial_of digest = some digest.partial_digest

module _ {S R : Type 0} (ba : BlobAccess S R) where
  respond : Result (List Digest) × S → Result (List (Option PartialDigest)) × S
  respond (r, s) = (r >>= λ digests. ok (map partial_of digests), s)

  called : S → Result (List Digest) → Result (List (Option PartialDigest)) × S
  unfolding respond
  called s (ok digests) = respond (ba.find_missing s digests)
  called s (err e) = (err e, s)
  called s fatal = (fatal, s)

  -- FindMissingBlobs of the server
  unfoldable pub serve_find_missing :
      S → FindMissingBlobsRequest → Result (List (Option PartialDigest)) × S
  unfolding called
  serve_find_missing s request = called s (new_digests request.instance_name request.blob_digests)

abbrev pub mixed : Error
mixed = status invalid_argument (text "Cannot use mixed instance names in a single request")

-- The test that the loop over the digests makes.
unfoldable pub has_instance : List ℕ → List Digest → Bool
has_instance i [] = true
has_instance i (digest ∷ digests) = bytes_equal digest.instance_name i && has_instance i digests

module _ {C : Type 0}
    (call : C → FindMissingBlobsRequest → Result (List (Option PartialDigest)) × C) where
  received : List ℕ → Result (List (Option PartialDigest)) × C → Result (List Digest) × C
  received i (r, c) = (r >>= new_digests i, c)

  -- FindMissing of the client
  unfoldable pub request_find_missing : C → List Digest → Result (List Digest) × C
  unfolding received
  request_find_missing c [] = (ok [], c)
  request_find_missing c (digest ∷ digests) =
      let i = digest.instance_name in
      if not (has_instance i (digest ∷ digests))
      then (err mixed, c)
      else received i
          (call c record { instance_name = i; blob_digests = map partial_of (digest ∷ digests) })
