-- ===== src/Ac/RoundTrip.antt =====
-- What the Action Cache returns of what has been put into it.
use mathlib.Core.List.{append-nil}
use bazel_buildbarn.Prelude.{
  ℕ, ◌≡◌, refl, ap, ◌∙◌, inl, inr, List, [], ◌∷◌, none, some, true, length,
}
use bazel_buildbarn.Util.Status.{ok, err, Error, eof, Converter, status_wrap_with_code, not_found}
use bazel_buildbarn.Util.Digest.{Digest, PartialDigest, IsDigest}
use bazel_buildbarn.Util.Digest.Validation.{new_digest_iff}
use bazel_buildbarn.Util.Reader.{drain, chunks}
use bazel_buildbarn.Circular.BlobAccess.{pair_eq}
use bazel_buildbarn.Blobstore.BlobAccess.{BlobAccess}
use bazel_buildbarn.Blobstore.BlobAccess.Laws.{View, Same, Updated, Got, IsStore}
use bazel_buildbarn.Util.Codec.{Codec}
use bazel_buildbarn.Ac.{
  unmarshalled, read_all, found, get_action_result, marshalled, put_action_result,
  blob_access_action_cache, ActionResultRequest, got, serve_get, answered, updated, serve_update,
}

module _ {S R A : Type 0} (convert : Converter) (codec : Codec A) (ba : BlobAccess S R)
    (view : S → View) (Missing : Error → Type 0) (law : IsStore ba view Missing) where
  -- What GetActionResult makes of a blob that the backend has.
  get_blob :
      (s : S) (digest : Digest) (blob : List ℕ)
      → view s digest ≡ some blob
      → (t : S) × (get_action_result convert codec ba s digest
          ≡ unmarshalled convert codec ba t digest (codec.unmarshal blob))
        × Same (view s) (view t)
  unfolding get_action_result found read_all
  get_blob s digest blob stored =
      let has : Got ba view Missing s digest (some blob) = rw stored at (law.get s digest) in
      let (r, read, content, same) = has in
      let step : ba.get s digest ≡ (ok (length blob, r), (ba.get s digest).1) = pair_eq read refl in
      ((ba.reading r (ba.get s digest).1).1, rw (step, content) refl, same)

  put_blob :
      (s : S) (digest : Digest) (result : A) (blob : List ℕ)
      → codec.marshal result ≡ inr blob
      → ((put_action_result convert codec ba s digest result).0 ≡ ok tt)
        × Updated
            (view s)
            digest
            (some blob)
            (view (put_action_result convert codec ba s digest result).1)
  unfolding put_action_result marshalled drain
  put_blob s digest result blob e =
      rw e (law.put s digest blob (chunks (blob ∷ [])) (ap (λ b. (b, eof)) (append-nil blob)))

  -- What has been put is there.
  pub get_action_result-put_action_result :
      (s : S) (digest : Digest) (result : A) (blob : List ℕ)
      → codec.marshal result ≡ inr blob
      → codec.unmarshal blob ≡ inr result
      → ((put_action_result convert codec ba s digest result).0 ≡ ok tt)
        × ((get_action_result convert codec ba
              (put_action_result convert codec ba s digest result).1
              digest).0
            ≡ ok result)
  unfolding unmarshalled
  get_action_result-put_action_result s digest result blob encodes decodes =
      let (stored, (at, others)) = put_blob s digest result blob encodes in
      let s' = (put_action_result convert codec ba s digest result).1 in
      let (t, got, same) = get_blob s' digest blob at in (stored, rw (got, decodes) refl)

-- An action result that a client uploads is the one that clients get, from the server of an Action
-- Cache over a backend that behaves as a map from digests to blobs. The server allows updates, the
-- request has a digest that NewDigest accepts, and marshalling the result and unmarshalling it gives it
-- back.
pub serve_get-serve_update :
    {S R A : Type 0} (convert : Converter) (codec : Codec A) (ba : BlobAccess S R) (view : S → View)
    (Missing : Error → Type 0) (s : S) (i : List ℕ) (p : PartialDigest) (result : A) (blob : List ℕ)
    → IsStore ba view Missing
    → IsDigest (record { instance_name = i; partial_digest = p })
    → codec.marshal result ≡ inr blob
    → codec.unmarshal blob ≡ inr result
    → (let request : ActionResultRequest = record { instance_name = i; action_digest = some p } in
        let cache = blob_access_action_cache convert codec ba in
        let (r, s') = serve_update cache true s request result in
        (r ≡ ok (result, none)) × ((serve_get cache s' request).0 ≡ ok result))
unfolding serve_get serve_update got updated answered blob_access_action_cache unmarshalled
serve_get-serve_update convert codec ba view Missing s i p result blob law valid encodes decodes =
    let d : Digest = record { instance_name = i; partial_digest = p } in
    let digest = (new_digest_iff i p d).1 (refl, valid) in
    let (stored, (at, others)) =
      put_blob convert codec ba view Missing law s d result blob encodes in
    let s' = (put_action_result convert codec ba s d result).1 in
    let (t, got, same) = get_blob convert codec ba view Missing law s' d blob at in
    rw digest (rw stored refl, rw (got, decodes) refl)

-- Malformed data in the Action Cache is reported as absent, and deleted: if the backend, which behaves
-- as a map from digests to blobs, has bytes for the digest that cannot be unmarshalled, GetActionResult
-- fails with the code NOT_FOUND; afterwards the backend has nothing for this digest, and what it had
-- for all others.
pub get_malformed :
    {S R A : Type 0} (convert : Converter) (codec : Codec A) (ba : BlobAccess S R) (view : S → View)
    (Missing : Error → Type 0) (s : S) (digest : Digest) (blob : List ℕ) (e : Error)
    → IsStore ba view Missing
    → view s digest ≡ some blob
    → codec.unmarshal blob ≡ inl e
    → (let (r, s') = get_action_result convert codec ba s digest in
        (x : Error) × (r ≡ err x)
        × (convert.code_of x ≡ not_found)
        × Updated (view s) digest none (view s'))
unfolding unmarshalled status_wrap_with_code
get_malformed convert codec ba view Missing s digest blob e law stored malformed =
    let (t, got, same) = get_blob convert codec ba view Missing law s digest blob stored in
    let (deleted, (gone, others)) = law.delete t digest in
    rw (got, malformed)
      (_, refl, convert.code_of-error_proto not_found _ _, (gone, λ o ne. others o ne ∙ same o))
