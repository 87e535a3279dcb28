-- ===== src/Cas/Storage/RoundTrip.antt =====
-- What the typed access stores, and gives back.
use mathlib.Core.List.{append-nil}
use bazel_buildbarn.Prelude.{
  ℕ, ◌^◌, ◌<◌, ◌≡◌, refl, ap, sym, ◌∙◌, inr, List, [], ◌∷◌, ◌++◌, none, some, length,
}
use bazel_buildbarn.Util.Status.{Result, ok, Error, eof}
use bazel_buildbarn.Util.Digest.{Digest, IsDigest, new_hasher, get_hash_bytes}
use bazel_buildbarn.Util.Digest.Validation.{valid_digest_is_usable}
use bazel_buildbarn.Util.Digest.Generator.{
  Hashes, IsHashes, DigestGenerator, new_digest_generator, write_all, sum, flatten, sum-write_all,
}
use bazel_buildbarn.Util.Reader.{Reader, drain, chunks}
use bazel_buildbarn.Util.Codec.{Codec}
use bazel_buildbarn.Circular.BlobAccess.{pair_eq}
use bazel_buildbarn.Blobstore.BlobAccess.{BlobAccess}
use bazel_buildbarn.Blobstore.BlobAccess.Laws.{View, Updated, Got, IsStore, put_sized}
use bazel_buildbarn.Cas.Storage.{
  OpenedFile, unmarshalled, read_all, fetched, get_message, with_digest, stored, generated,
  put_blob, marshalled, put_message, pieces, rewound, hashed, put_opened, put_file,
}

-- A digest by the algorithm and in the instance of another one, that names the bytes.
pub record Names (hashes : Hashes) (parent : Digest) (blob : List ℕ) (digest : Digest)
    : Type 0 where
  pub valid : IsDigest digest
  pub instance : digest.instance_name ≡ parent.instance_name
  pub size : digest.partial_digest.size_bytes ≡ length blob
  pub checksum :
      (a : _) × (new_hasher parent ≡ some a) × (get_hash_bytes digest ≡ some (hashes.sum a blob))

generator :
    (parent : Digest)
    → IsDigest parent
    → (g : DigestGenerator) × (new_digest_generator parent ≡ some g)
unfolding new_digest_generator
generator parent valid =
    let (a, bs, hasher, rest, size) = valid_digest_is_usable parent valid in
    let g : DigestGenerator = record {
      instance_name = parent.instance_name;
      algorithm = a;
      hashed = [];
      size_bytes = 0;
    } in
    (g, rw hasher refl)

sum-Names :
    (hashes : Hashes) (parent : Digest) (g : DigestGenerator) (ps : List (List ℕ)) (blob : List ℕ)
    → IsHashes hashes
    → new_digest_generator parent ≡ some g
    → flatten ps ≡ blob
    → length blob < 2 ^ 63
    → Names hashes parent blob (sum hashes (write_all g ps))
sum-Names hashes parent g ps blob laws started joined fits =
    let (valid, name, size, a, checksum) =
      sum-write_all hashes parent g ps laws started (rw joined fits) in
    record {
      valid = valid;
      instance = name;
      size = rw joined at size;
      checksum = (g.algorithm, a, rw joined at checksum);
    }

flatten-pieces :
    {S R : Type 0} (hashes : Hashes) (ba : BlobAccess S R) (r : Reader)
    → flatten (pieces hashes ba r) ≡ (drain r).0
unfolding drain
flatten-pieces hashes ba [] = refl
flatten-pieces hashes ba ((b, none) ∷ r) = ap (λ bs. b ++ bs) (flatten-pieces hashes ba r)
flatten-pieces hashes ba ((b, some e) ∷ r) = append-nil b

module _ {S R : Type 0} (hashes : Hashes) (ba : BlobAccess S R) (view : S → View)
    (Missing : Error → Type 0) (law : IsStore ba view Missing) where
  -- The blob is stored, under a digest that names it.
  abbrev pub Put : S → Digest → List ℕ → Result Digest × S → Type 0
  Put s parent blob (r, s') =
      (digest : Digest) × (r ≡ ok digest)
      × Names hashes parent blob digest
      × Updated (view s) digest (some blob) (view s')

  stored_lem :
      (s : S) (parent digest : Digest) (blob : List ℕ) (r : Reader)
      → Names hashes parent blob digest
      → drain r ≡ (blob, eof)
      → Put s parent blob (stored hashes ba s digest r)
  unfolding stored with_digest
  stored_lem s parent digest blob r names content =
      let end : (drain r).1 ≡ eof = ap (λ p. p.1) content in
      let all : (drain r).0 ≡ blob = ap (λ p. p.0) content in
      let size_bytes = digest.partial_digest.size_bytes in
      let (put, changed) =
        put_sized ba view Missing law s digest size_bytes r end
          (names.size ∙ ap length (sym all)) in
      let step : ba.put s digest size_bytes r ≡ (ok tt, (ba.put s digest size_bytes r).1) =
        pair_eq put refl in
      rw step (digest, refl, names, rw all at changed)

  put_blob_lem :
      (s : S) (parent : Digest) (blob : List ℕ)
      → IsHashes hashes
      → IsDigest parent
      → length blob < 2 ^ 63
      → Put s parent blob (put_blob hashes ba s blob parent)
  unfolding put_blob generated drain write_all
  put_blob_lem s parent blob laws valid fits =
      let (g, started) = generator parent valid in
      let names = sum-Names hashes parent g (blob ∷ []) blob laws started (append-nil blob) fits in
      rw started (
        stored_lem s parent _ blob (chunks (blob ∷ [])) names
          (ap (λ b. (b, eof)) (append-nil blob)))

  -- What getMessage makes of a blob that is there.
  get_message_lem :
      {A : Type 0} (codec : Codec A) (s : S) (digest : Digest) (blob : List ℕ)
      → view s digest ≡ some blob
      → (get_message hashes ba codec s digest).0 ≡ unmarshalled (codec.unmarshal blob)
  unfolding get_message fetched read_all
  get_message_lem codec s digest blob has =
      let there : Got ba view Missing s digest (some blob) = rw has at (law.get s digest) in
      let (r, read, content, same) = there in
      let step : ba.get s digest ≡ (ok (length blob, r), (ba.get s digest).1) = pair_eq read refl in
      rw (step, content) refl

-- A message that is stored is read back, from a backend that behaves as a map from digests to blobs.
-- Storing it succeeds, under a digest that NewDigest accepts, in the instance and by the algorithm of
-- the parent digest, with the size and the checksum of the marshalled message; only the blob of this
-- digest changes, and reading the message of this digest gives what was stored. The parent digest is as
-- NewDigest makes them, the marshalled message is shorter than 2 ^ 63 bytes, and unmarshalling it gives
-- the message back.
pub get_message-put_message :
    {S R A : Type 0} (hashes : Hashes) (codec : Codec A) (ba : BlobAccess S R) (view : S → View)
    (Missing : Error → Type 0) (s : S) (parent : Digest) (message : A) (blob : List ℕ)
    → IsHashes hashes
    → IsStore ba view Missing
    → IsDigest parent
    → codec.marshal message ≡ inr blob
    → codec.unmarshal blob ≡ inr message
    → length blob < 2 ^ 63
    → (let (r, s') = put_message hashes ba codec s message parent in
        (digest : Digest) × (r ≡ ok digest)
        × Names hashes parent blob digest
        × Updated (view s) digest (some blob) (view s')
        × ((get_message hashes ba codec s' digest).0 ≡ ok message))
unfolding put_message marshalled unmarshalled
get_message-put_message hashes codec ba view Missing s parent message blob laws law valid encodes
      decodes fits =
    let (digest, put, names, changed) =
      put_blob_lem hashes ba view Missing law s parent blob laws valid fits in
    let got = get_message_lem hashes ba view Missing law codec _ digest blob changed.0 in
    rw encodes (digest, put, names, changed, rw decodes at got)

-- A file that reads the same both times is stored as it is: PutFile succeeds, under a digest in the
-- instance and by the algorithm of the parent digest with the size and the checksum of the bytes, and
-- only the blob of this digest changes, to those bytes. The backend behaves as a map from digests to
-- blobs, the parent digest is as NewDigest makes them, the file can be rewound, and it is shorter than
-- 2 ^ 63 bytes.
pub put_file_lem :
    {S R : Type 0} (hashes : Hashes) (ba : BlobAccess S R) (view : S → View)
    (Missing : Error → Type 0) (s : S) (parent : Digest) (file : OpenedFile) (blob : List ℕ)
    → IsHashes hashes
    → IsStore ba view Missing
    → IsDigest parent
    → drain file.first ≡ (blob, eof)
    → file.seek ≡ none
    → drain file.second ≡ (blob, eof)
    → length blob < 2 ^ 63
    → (let (r, s') = put_file hashes ba s (ok file) parent in
        (digest : Digest) × (r ≡ ok digest)
        × Names hashes parent blob digest
        × Updated (view s) digest (some blob) (view s'))
unfolding put_file put_opened hashed rewound
put_file_lem hashes ba view Missing s parent file blob laws law valid first seek second fits =
    let (g, started) = generator parent valid in
    let joined = flatten-pieces hashes ba file.first ∙ ap (λ p. p.0) first in
    let names =
      sum-Names hashes parent g (pieces hashes ba file.first) blob laws started joined fits in
    rw (started, first, seek)
      (stored_lem hashes ba view Missing law s parent _ blob file.second names second)
