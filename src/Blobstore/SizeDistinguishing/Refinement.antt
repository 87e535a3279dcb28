-- ===== src/Blobstore/SizeDistinguishing/Refinement.antt =====
-- Two backends that are maps from digests to blobs make one.
use bazel_buildbarn.Prelude.{
  ℕ, ◌≡◌, ◌≢◌, ◌↔◌, refl, ◌∙◌, ◌⊎◌, inl, inr, List, ◌++◌, true, false, Option, none, some,
  if◌then◌else◌, Bool-cases, length, Member, Member-append, Member_split, Member-filter, not, arith,
}
use bazel_buildbarn.Util.Status.{ok, err, Error, eof}
use bazel_buildbarn.Util.Digest.{Digest}
use bazel_buildbarn.Util.Reader.{Reader, drain}
use bazel_buildbarn.Blobstore.BlobAccess.{BlobAccess}
use bazel_buildbarn.Blobstore.BlobAccess.Laws.{View, Same, Updated, Got, IsStore}
use bazel_buildbarn.Blobstore.SizeDistinguishing.{
  is_small, small_digests, large_digests, size_distinguishing_blob_access, on_small, on_large,
}

-- The blobs of both, each at the place of its size.
abbrev pub either_view : {S L : Type 0} → ℕ → (S → View) → (L → View) → S × L → View
either_view cutoff small_view large_view (s, l) digest =
    if is_small cutoff digest then small_view s digest else large_view l digest

module _ {S L R T : Type 0} (small : BlobAccess S R) (large : BlobAccess L T) (cutoff : ℕ)
    (small_view : S → View) (large_view : L → View) (Missing : Error → Type 0) where
  abbrev both : BlobAccess (S × L) (R ⊎ T)
  both = size_distinguishing_blob_access small large cutoff

  abbrev view : S × L → View
  view = either_view cutoff small_view large_view

  same_small :
      (s t : S) (l : L) → Same (small_view s) (small_view t) → Same (view (s, l)) (view (t, l))
  same_small s t l h digest = elim (Bool-cases (is_small cutoff digest)) [
    | inl e ↦ rw e (h digest)
    | inr e ↦ rw e refl
  ]

  same_large :
      (s : S) (l m : L) → Same (large_view l) (large_view m) → Same (view (s, l)) (view (s, m))
  same_large s l m h digest = elim (Bool-cases (is_small cutoff digest)) [
    | inl e ↦ rw e refl
    | inr e ↦ rw e (h digest)
  ]

  updated_small :
      (s t : S) (l : L) (digest : Digest) (v : Option (List ℕ))
      → is_small cutoff digest ≡ true
      → Updated (small_view s) digest v (small_view t)
      → Updated (view (s, l)) digest v (view (t, l))
  updated_small s t l digest v e (at, away) = (
    rw e at,
    λ other differs. elim (Bool-cases (is_small cutoff other)) [
      | inl f ↦ rw f (away other differs)
      | inr f ↦ rw f refl
    ],
  )

  updated_large :
      (s : S) (l m : L) (digest : Digest) (v : Option (List ℕ))
      → is_small cutoff digest ≡ false
      → Updated (large_view l) digest v (large_view m)
      → Updated (view (s, l)) digest v (view (s, m))
  updated_large s l m digest v e (at, away) = (
    rw e at,
    λ other differs. elim (Bool-cases (is_small cutoff other)) [
      | inl f ↦ rw f refl
      | inr f ↦ rw f (away other differs)
    ],
  )

  got_small :
      (s : S) (l : L) (digest : Digest) (v : Option (List ℕ))
      → is_small cutoff digest ≡ true
      → Got small small_view Missing s digest v
      → Got both view Missing (s, l) digest v
  unfolding size_distinguishing_blob_access
  got_small s l digest none e (x, failed, kind) = (x, rw (e, failed) refl, kind)
  got_small s l digest (some blob) e (r, found, content, same) =
      (inl r, rw (e, found) refl, rw e content, rw e (same_small s _ l same))

  got_large :
      (s : S) (l : L) (digest : Digest) (v : Option (List ℕ))
      → is_small cutoff digest ≡ false
      → Got large large_view Missing l digest v
      → Got both view Missing (s, l) digest v
  unfolding size_distinguishing_blob_access
  got_large s l digest none e (x, failed, kind) = (x, rw (e, failed) refl, kind)
  got_large s l digest (some blob) e (r, found, content, same) =
      (inr r, rw (e, found) refl, rw e content, rw e (same_large s l _ same))

  module _ (small_law : IsStore small small_view Missing)
      (large_law : IsStore large large_view Missing) where
    get_lem :
        (s : S) (l : L) (digest : Digest) → Got both view Missing (s, l) digest (view (s, l) digest)
    get_lem s l digest = elim (Bool-cases (is_small cutoff digest)) [
      | inl e ↦ rw e (got_small s l digest (small_view s digest) e (small_law.get s digest))
      | inr e ↦ rw e (got_large s l digest (large_view l digest) e (large_law.get l digest))
    ]

    get_same :
        (s : S) (l : L) (digest : Digest) → Same (view (s, l)) (view (both.get (s, l) digest).1)
    unfolding size_distinguishing_blob_access
    get_same s l digest = elim (Bool-cases (is_small cutoff digest)) [
      | inl e ↦ rw e (same_small s _ l (small_law.get_same s digest))
      | inr e ↦ rw e (same_large s l _ (large_law.get_same l digest))
    ]

    put_of_small :
        (s : S) (l : L) (digest : Digest) (size_bytes : ℕ) (r : Reader)
        → is_small cutoff digest ≡ true
        → both.put (s, l) digest size_bytes r ≡ on_small (small.put s digest size_bytes r) l
    unfolding size_distinguishing_blob_access
    put_of_small s l digest size_bytes r e = rw e refl

    put_of_large :
        (s : S) (l : L) (digest : Digest) (size_bytes : ℕ) (r : Reader)
        → is_small cutoff digest ≡ false
        → both.put (s, l) digest size_bytes r ≡ on_large s (large.put l digest size_bytes r)
    unfolding size_distinguishing_blob_access
    put_of_large s l digest size_bytes r e = rw e refl

    put_lem :
        (s : S) (l : L) (digest : Digest) (blob : List ℕ) (r : Reader)
        → drain r ≡ (blob, eof)
        → ((both.put (s, l) digest (length blob) r).0 ≡ ok tt)
          × Updated
              (view (s, l))
              digest
              (some blob)
              (view (both.put (s, l) digest (length blob) r).1)
    put_lem s l digest blob r read = elim (Bool-cases (is_small cutoff digest)) [
      | inl e ↦
          let (stored, updated) = small_law.put s digest blob r read in
          rw (put_of_small s l digest (length blob) r e)
            (stored, updated_small s _ l digest (some blob) e updated)
      | inr e ↦
          let (stored, updated) = large_law.put l digest blob r read in
          rw (put_of_large s l digest (length blob) r e)
            (stored, updated_large s l _ digest (some blob) e updated)
    ]

    put_failed :
        (s : S) (l : L) (digest : Digest) (size_bytes : ℕ) (r : Reader)
        → (drain r).1 ≢ eof
        → ((x : Error) × ((both.put (s, l) digest size_bytes r).0 ≡ err x))
          × Same (view (s, l)) (view (both.put (s, l) digest size_bytes r).1)
    put_failed s l digest size_bytes r broken = elim (Bool-cases (is_small cutoff digest)) [
      | inl e ↦
          let (failed, same) = small_law.put_failed s digest size_bytes r broken in
          rw (put_of_small s l digest size_bytes r e) (failed, same_small s _ l same)
      | inr e ↦
          let (failed, same) = large_law.put_failed l digest size_bytes r broken in
          rw (put_of_large s l digest size_bytes r e) (failed, same_large s l _ same)
    ]

    delete_of_small :
        (s : S) (l : L) (digest : Digest)
        → is_small cutoff digest ≡ true
        → both.delete (s, l) digest ≡ on_small (small.delete s digest) l
    unfolding size_distinguishing_blob_access
    delete_of_small s l digest e = rw e refl

    delete_of_large :
        (s : S) (l : L) (digest : Digest)
        → is_small cutoff digest ≡ false
        → both.delete (s, l) digest ≡ on_large s (large.delete l digest)
    unfolding size_distinguishing_blob_access
    delete_of_large s l digest e = rw e refl

    delete_lem :
        (s : S) (l : L) (digest : Digest)
        → ((both.delete (s, l) digest).0 ≡ ok tt)
          × Updated (view (s, l)) digest none (view (both.delete (s, l) digest).1)
    delete_lem s l digest = elim (Bool-cases (is_small cutoff digest)) [
      | inl e ↦
          let (deleted, updated) = small_law.delete s digest in
          rw (delete_of_small s l digest e) (deleted, updated_small s _ l digest none e updated)
      | inr e ↦
          let (deleted, updated) = large_law.delete l digest in
          rw (delete_of_large s l digest e) (deleted, updated_large s l _ digest none e updated)
    ]

    -- A digest is missing from the backend of its size.
    reported :
        (s : S) (l : L) (digests from_small from_large : List Digest)
        → ((digest : Digest)
            → Member digest from_small
              ↔ (Member digest (small_digests cutoff digests) × (small_view s digest ≡ none)))
        → ((digest : Digest)
            → Member digest from_large
              ↔ (Member digest (large_digests cutoff digests) × (large_view l digest ≡ none)))
        → (digest : Digest)
        → Member digest (from_small ++ from_large)
          ↔ (Member digest digests × (view (s, l) digest ≡ none))
    reported s l digests from_small from_large in_small in_large digest =
        let smalls = Member-filter (is_small cutoff) digest digests in
        let larges = Member-filter (λ d. not (is_small cutoff d)) digest digests in
        (
          λ m. elim (Member_split digest from_small from_large m) [
            | inl n ↦
                let (asked, absent) = (in_small digest).0 n in
                let (named, e) = smalls.0 asked in (named, rw e absent)
            | inr n ↦
                let (asked, absent) = (in_large digest).0 n in
                let (named, e) = larges.0 asked in
                let f : is_small cutoff digest ≡ false = ground arith in (named, rw f absent)
          ],
          λ (m, absent). elim (Bool-cases (is_small cutoff digest)) [
            | inl e ↦
                let gone : small_view s digest ≡ none = rw e at absent in
                Member-append digest from_small from_large
                  (inl ((in_small digest).1 (smalls.1 (m, e), gone)))
            | inr e ↦
                let gone : large_view l digest ≡ none = rw e at absent in
                Member-append digest from_small from_large
                  (inr ((in_large digest).1 (larges.1 (m, rw e refl), gone)))
          ],
        )

    find_missing_lem :
        (s : S) (l : L) (digests : List Digest)
        → (missing : List Digest) × ((both.find_missing (s, l) digests).0 ≡ ok missing)
          × ((digest : Digest)
              → Member digest missing ↔ (Member digest digests × (view (s, l) digest ≡ none)))
          × Same (view (s, l)) (view (both.find_missing (s, l) digests).1)
    unfolding size_distinguishing_blob_access
    find_missing_lem s l digests =
        let (from_small, found, in_small, same) =
          small_law.find_missing s (small_digests cutoff digests) in
        let (from_large, found', in_large, same') =
          large_law.find_missing l (large_digests cutoff digests) in
        (
          from_small ++ from_large,
          rw (found, found') refl,
          reported s l digests from_small from_large in_small in_large,
          λ digest. same_large _ l _ same' digest ∙ same_small s _ l same digest,
        )

-- If the backend for small blobs and the one for large blobs each behave as a map from digests to blobs
-- (Get, Put, Delete and FindMissing do what they promise, failing readers included), then so do the two
-- together, for every cutoff: their map is that of the first for the digests of a size up to the
-- cutoff, and that of the second for the others.
pub size_distinguishing-IsStore :
    {S L R T : Type 0} (small : BlobAccess S R) (large : BlobAccess L T) (cutoff : ℕ)
    (small_view : S → View) (large_view : L → View) (Missing : Error → Type 0)
    → IsStore small small_view Missing
    → IsStore large large_view Missing
    → IsStore
        (size_distinguishing_blob_access small large cutoff)
        (either_view cutoff small_view large_view)
        Missing
size_distinguishing-IsStore small large cutoff small_view large_view Missing h k = record {
  get = λ (s, l). get_lem small large cutoff small_view large_view Missing h k s l;
  get_same = λ (s, l). get_same small large cutoff small_view large_view Missing h k s l;
  put = λ (s, l). put_lem small large cutoff small_view large_view Missing h k s l;
  put_failed = λ (s, l). put_failed small large cutoff small_view large_view Missing h k s l;
  delete = λ (s, l). delete_lem small large cutoff small_view large_view Missing h k s l;
  find_missing =
      λ (s, l). find_missing_lem small large cutoff small_view large_view Missing h k s l;
}
