-- ===== src/Cas/MissingBlobs/Agreement.antt =====
-- What a client finds missing is what the backend of the server does not have.
use bazel_buildbarn.Prelude.{
  ℕ, ◌≡◌, ◌↔◌, refl, ap, sym, ◌∙◌, inl, inr, List, [], ◌∷◌, none, true, map, Member,
}
use bazel_buildbarn.Util.Status.{Result, ok, Error}
use bazel_buildbarn.Util.Digest.{Digest, IsDigest}
use bazel_buildbarn.Util.Digest.Validation.{new_digest_iff}
use bazel_buildbarn.Circular.Record.{bytes_equal}
use bazel_buildbarn.Circular.Record.Fields.{bytes_equal_refl}
use bazel_buildbarn.Circular.BlobAccess.{pair_eq}
use bazel_buildbarn.Blobstore.BlobAccess.{BlobAccess}
use bazel_buildbarn.Blobstore.BlobAccess.Laws.{View, Same, IsStore}
use bazel_buildbarn.Cas.MissingBlobs.{
  new_digests, partial_of, respond, called, serve_find_missing, has_instance, received,
  request_find_missing,
}

-- Digests as NewDigest makes them, in one instance.
abbrev pub InInstance : List ℕ → List Digest → Type 0
InInstance i digests =
    (digest : Digest) → Member digest digests → IsDigest digest × (digest.instance_name ≡ i)

new_digests-partial_of :
    (i : List ℕ) (digests : List Digest)
    → InInstance i digests
    → new_digests i (map partial_of digests) ≡ ok digests
unfolding new_digests
new_digests-partial_of i [] all = refl
new_digests-partial_of i (digest ∷ digests) all =
    let (valid, named) = all digest (inl refl) in
    let same : digest ≡ record { instance_name = i; partial_digest = digest.partial_digest } =
      ap (λ n. record { instance_name = n; partial_digest = digest.partial_digest }) named in
    let first = (new_digest_iff i digest.partial_digest digest).1 (same, valid) in
    let rest = new_digests-partial_of i digests (λ other m. all other (inr m)) in
    rw (first, rest) refl

in_instance :
    (i : List ℕ) (digests : List Digest) → InInstance i digests → has_instance i digests ≡ true
unfolding has_instance
in_instance i [] all = refl
in_instance i (digest ∷ digests) all =
    let (valid, named) = all digest (inl refl) in
    let rest = in_instance i digests (λ other m. all other (inr m)) in
    let equal : bytes_equal digest.instance_name i ≡ true =
      ap (λ n. bytes_equal n i) named ∙ bytes_equal_refl i in
    rw (equal, rest) refl

module _ {S R : Type 0} (ba : BlobAccess S R) (view : S → View) (Missing : Error → Type 0)
    (law : IsStore ba view Missing) where
  -- What FindMissing is to return.
  abbrev pub Found : S → List Digest → Result (List Digest) × S → Type 0
  Found s digests (r, s') =
      (missing : List Digest) × (r ≡ ok missing)
      × ((digest : Digest)
          → Member digest missing ↔ (Member digest digests × (view s digest ≡ none)))
      × Same (view s) (view s')

  through :
      (i : List ℕ) (s : S) (digests : List Digest)
      → InInstance i digests
      → Found s digests (
          received (serve_find_missing ba) i (
            serve_find_missing ba s
              record { instance_name = i; blob_digests = map partial_of digests }))
  unfolding serve_find_missing called respond received
  through i s digests all =
      let (missing, answer, exact, same) = law.find_missing s digests in
      let asked = new_digests-partial_of i digests all in
      let told = new_digests-partial_of i missing (λ d m. all d ((exact d).0 m).0) in
      let step : ba.find_missing s digests ≡ (ok missing, (ba.find_missing s digests).1) =
        pair_eq answer refl in
      rw (asked, step) (missing, told, exact, same)

-- FindMissing of a client, over a server in front of a backend that behaves as a map from digests to
-- blobs, finds exactly those of the digests for which the backend has no blob, and changes no blob. The
-- digests are as NewDigest makes them, all in one instance, and GRPC delivers the request and the
-- response.
pub request_find_missing-serve_find_missing :
    {S R : Type 0} (ba : BlobAccess S R) (view : S → View) (Missing : Error → Type 0) (s : S)
    (i : List ℕ) (digests : List Digest)
    → IsStore ba view Missing
    → InInstance i digests
    → (let (r, s') = request_find_missing (serve_find_missing ba) s digests in
        (missing : List Digest) × (r ≡ ok missing)
        × ((digest : Digest)
            → Member digest missing ↔ (Member digest digests × (view s digest ≡ none)))
        × Same (view s) (view s'))
unfolding request_find_missing
request_find_missing-serve_find_missing ba view Missing s i [] law all =
    ([], refl, λ d. (λ m. absurd m, λ (m, e). m), λ d. refl)
request_find_missing-serve_find_missing ba view Missing s i (digest ∷ digests) law all =
    let named = (all digest (inl refl)).1 in
    let here : InInstance digest.instance_name (digest ∷ digests) =
      λ d m. ((all d m).0, (all d m).1 ∙ sym named) in
    let one = in_instance digest.instance_name (digest ∷ digests) here in
    rw one (through ba view Missing law digest.instance_name s (digest ∷ digests) here)
