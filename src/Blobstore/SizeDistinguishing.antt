-- ===== src/Blobstore/SizeDistinguishing.antt =====
-- Two backends, one for small and one for large blobs: pkg/blobstore/size_distinguishing_blob_access.go.
-- The two calls of FindMissing run at the same time on backends that share nothing.
pub mod Refinement
use bazel_buildbarn.Prelude.{
  ℕ, ◌⊎◌, inl, inr, List, [], ◌∷◌, ◌++◌, Bool, true, false, if◌then◌else◌, filter, not,
}
use bazel_buildbarn.Prelude.Word.{leb_int64}
use bazel_buildbarn.Util.Status.{Result, ok, err, fatal, Error, ◌>>=◌}
use bazel_buildbarn.Util.Digest.{Digest}
use bazel_buildbarn.Util.Reader.{Reader}
use bazel_buildbarn.Blobstore.BlobAccess.{BlobAccess}

-- A call of one of the backends, which leaves the other as it is.
abbrev pub on_small : {A S L : Type 0} → A × S → L → A × (S × L)
on_small (a, s) l = (a, (s, l))

abbrev pub on_large : {A S L : Type 0} → S → A × L → A × (S × L)
on_large s (a, l) = (a, (s, l))

abbrev pub reader_of : {R U : Type 0} → (R → U) → Result (ℕ × R) → Result (ℕ × U)
reader_of f r = r >>= λ (size_bytes, reader). ok (size_bytes, f reader)

module _ (cutoff_size_bytes : ℕ) where
  abbrev pub is_small : Digest → Bool
  is_small digest = leb_int64 digest.partial_digest.size_bytes cutoff_size_bytes

  -- The loop of FindMissing.
  abbrev pub small_digests : List Digest → List Digest
  small_digests digests = filter is_small digests

  abbrev pub large_digests : List Digest → List Digest
  large_digests digests = filter (λ digest. not (is_small digest)) digests

abbrev pub recombine : Result (List Digest) → Result (List Digest) → Result (List Digest)
recombine small large = small >>= λ missing. large >>= λ others. ok (missing ++ others)

module _ {S L R T : Type 0} (small : BlobAccess S R) (large : BlobAccess L T)
    (cutoff_size_bytes : ℕ) where
  abbrev pub get : S × L → Digest → Result (ℕ × (R ⊎ T)) × (S × L)
  get (s, l) digest =
      if is_small cutoff_size_bytes digest
      then on_small (reader_of inl (small.get s digest).0, (small.get s digest).1) l
      else on_large s (reader_of inr (large.get l digest).0, (large.get l digest).1)

  abbrev pub put : S × L → Digest → ℕ → Reader → Result (Unit {0}) × (S × L)
  put (s, l) digest size_bytes r =
      if is_small cutoff_size_bytes digest
      then on_small (small.put s digest size_bytes r) l
      else on_large s (large.put l digest size_bytes r)

  abbrev pub delete : S × L → Digest → Result (Unit {0}) × (S × L)
  delete (s, l) digest =
      if is_small cutoff_size_bytes digest
      then on_small (small.delete s digest) l
      else on_large s (large.delete l digest)

  abbrev pub find_missing : S × L → List Digest → Result (List Digest) × (S × L)
  find_missing (s, l) digests =
      let from_small = small.find_missing s (small_digests cutoff_size_bytes digests) in
      let from_large = large.find_missing l (large_digests cutoff_size_bytes digests) in
      (recombine from_small.0 from_large.0, (from_small.1, from_large.1))

  -- The reader is that of one of the two.
  abbrev pub reading : R ⊎ T → S × L → Reader × (S × L)
  reading (inl r) (s, l) = on_small (small.reading r s) l
  reading (inr r) (s, l) = on_large s (large.reading r l)

  unfoldable pub size_distinguishing_blob_access : BlobAccess (S × L) (R ⊎ T)
  size_distinguishing_blob_access = record {
    get = get;
    put = put;
    delete = delete;
    find_missing = find_missing;
    reading = reading;
  }
