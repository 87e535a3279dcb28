-- ===== src/Blobstore/BlobAccess/Laws.antt =====
-- The contract of a storage backend that works: a map from digests to blobs. `view` is the map that a
-- state of the backend stands for.
use bazel_buildbarn.Prelude.{ℕ, ◌≡◌, ◌≢◌, ◌↔◌, refl, List, Option, none, some, length, Member}
use bazel_buildbarn.Util.Status.{ok, err, Error, eof}
use bazel_buildbarn.Util.Digest.{Digest}
use bazel_buildbarn.Util.Reader.{Reader, drain}
use bazel_buildbarn.Circular.BlobAccess.{pair_eq}
use bazel_buildbarn.Blobstore.BlobAccess.{BlobAccess}

abbrev pub View : Type 0
View = Digest → Option (List ℕ)

abbrev pub Same : View → View → Type 0
Same v w = (digest : Digest) → w digest ≡ v digest

-- `w` is `v` with another value for one digest.
abbrev pub Updated : View → Digest → Option (List ℕ) → View → Type 0
Updated v digest value w =
    (w digest ≡ value) × ((other : Digest) → other ≢ digest → w other ≡ v other)

module _ {S R : Type 0} (ba : BlobAccess S R) (view : S → View) (Missing : Error → Type 0) where
  -- A Get that finds nothing fails with an error of the kind `Missing`.
  abbrev pub Got : S → Digest → Option (List ℕ) → Type 0
  Got s digest none = (e : Error) × ((ba.get s digest).0 ≡ err e) × Missing e
  Got s digest (some blob) =
      (r : R) × ((ba.get s digest).0 ≡ ok (length blob, r))
      × (drain (ba.reading r (ba.get s digest).1).0 ≡ (blob, eof))
      × Same (view s) (view (ba.reading r (ba.get s digest).1).1)

  -- A Put stores what can be read to the end, and stores nothing when reading fails.
  pub record IsStore : Type 0 where
    pub get : (s : S) (digest : Digest) → Got s digest (view s digest)
    pub get_same : (s : S) (digest : Digest) → Same (view s) (view (ba.get s digest).1)
    pub put :
        (s : S) (digest : Digest) (blob : List ℕ) (r : Reader)
        → drain r ≡ (blob, eof)
        → ((ba.put s digest (length blob) r).0 ≡ ok tt)
          × Updated (view s) digest (some blob) (view (ba.put s digest (length blob) r).1)
    pub put_failed :
        (s : S) (digest : Digest) (size_bytes : ℕ) (r : Reader)
        → (drain r).1 ≢ eof
        → ((e : Error) × ((ba.put s digest size_bytes r).0 ≡ err e))
          × Same (view s) (view (ba.put s digest size_bytes r).1)
    pub delete :
        (s : S) (digest : Digest)
        → ((ba.delete s digest).0 ≡ ok tt)
          × Updated (view s) digest none (view (ba.delete s digest).1)
    pub find_missing :
        (s : S) (digests : List Digest)
        → (missing : List Digest) × ((ba.find_missing s digests).0 ≡ ok missing)
          × ((digest : Digest)
              → Member digest missing ↔ (Member digest digests × (view s digest ≡ none)))
          × Same (view s) (view (ba.find_missing s digests).1)

  -- A Put of a size that is known to be that of the blob.
  pub put_sized :
      IsStore
      → (s : S) (digest : Digest) (size_bytes : ℕ) (r : Reader) → (drain r).1 ≡ eof
      → size_bytes ≡ length (drain r).0
      → ((ba.put s digest size_bytes r).0 ≡ ok tt)
        × Updated (view s) digest (some (drain r).0) (view (ba.put s digest size_bytes r).1)
  put_sized law s digest size_bytes r end size =
      rw size (law.put s digest (drain r).0 r (pair_eq refl end))
