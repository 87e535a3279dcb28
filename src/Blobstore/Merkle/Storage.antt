-- ===== src/Blobstore/Merkle/Storage.antt =====
-- What the checking backend makes of a backend that behaves as a map from digests to blobs.
use bazel_buildbarn.Prelude.{
  ℕ, ◌≡◌, ◌≢◌, refl, ap, ◌∙◌, sym, ◌⊎◌, inl, inr, List, none, some, true, false, ◌==◌, length,
  arith, Bool-cases,
}
use bazel_buildbarn.Util.Status.{ok, err, Error, eof, eof-cases, internal, invalid_argument}
use bazel_buildbarn.Util.Digest.{Digest, IsDigest}
use bazel_buildbarn.Util.Digest.Generator.{Hashes}
use bazel_buildbarn.Util.Reader.{Reader, drain}
use bazel_buildbarn.Circular.BlobAccess.{pair_eq}
use bazel_buildbarn.Blobstore.BlobAccess.{BlobAccess}
use bazel_buildbarn.Blobstore.BlobAccess.Laws.{View, Same, Updated, Got, IsStore}
use bazel_buildbarn.Blobstore.Merkle.{
  Checker, CheckedReader, validated, new_checker, get, put, reading, found, put_checked, wrong_size,
  merkle_blob_access, with_checker,
}
use bazel_buildbarn.Blobstore.Merkle.Matching.{Matches, Matches-cases, validated-Matches}

module _ {S R : Type 0} (hashes : Hashes) (ba : BlobAccess S R) (view : S → View)
    (Missing : Error → Type 0) (law : IsStore ba view Missing) (s : S) (digest : Digest)
    (valid : IsDigest digest) where
  put_right_size :
      (size_bytes : ℕ) (r : Reader) (v : Checker)
      → size_bytes ≡ digest.partial_digest.size_bytes
      → new_checker digest invalid_argument ≡ ok v
      → put hashes ba s digest size_bytes r ≡ ba.put s digest size_bytes (validated hashes v r).0
  unfolding put put_checked
  put_right_size size_bytes r v size started =
      let same : (digest.partial_digest.size_bytes == size_bytes) ≡ true = ground (arith, size) in
      rw (same, started) (ap (λ n. ba.put s digest n (validated hashes v r).0) (sym size))

  put_wrong_size :
      (size_bytes : ℕ) (r : Reader)
      → size_bytes ≢ digest.partial_digest.size_bytes
      → put hashes ba s digest size_bytes r
        ≡ (err (wrong_size invalid_argument size_bytes digest.partial_digest.size_bytes), s)
  unfolding put
  put_wrong_size size_bytes r size =
      let differs : (digest.partial_digest.size_bytes == size_bytes) ≡ false =
        ground (arith, size) in
      rw differs refl

  put_matching :
      (r : Reader)
      → (drain r).1 ≡ eof
      → Matches hashes digest (drain r).0
      → ((put hashes ba s digest (length (drain r).0) r).0 ≡ ok tt)
        × Updated
            (view s)
            digest
            (some (drain r).0)
            (view (put hashes ba s digest (length (drain r).0) r).1)
  put_matching r end match =
      let (v, started, ends, content, bad) =
        validated-Matches hashes digest invalid_argument r valid in
      let good = ends.1 (end, match) in
      let checked : drain (validated hashes v r).0 ≡ ((drain r).0, eof) =
        pair_eq (content good) good in
      rw (put_right_size (length (drain r).0) r v match.size started)
        (law.put s digest (drain r).0 (validated hashes v r).0 checked)

  put_refused :
      (size_bytes : ℕ) (r : Reader)
      → (((drain r).1 ≡ eof)
          → Matches hashes digest (drain r).0
          → size_bytes ≡ digest.partial_digest.size_bytes
          → ⊥)
      → ((e : Error) × ((put hashes ba s digest size_bytes r).0 ≡ err e))
        × Same (view s) (view (put hashes ba s digest size_bytes r).1)
  put_refused size_bytes r bad =
      elim (Bool-cases (size_bytes == digest.partial_digest.size_bytes)) [
        | inr differs ↦
            let size : size_bytes ≢ digest.partial_digest.size_bytes = ground (arith, differs) in
            rw (put_wrong_size size_bytes r size) ((_, refl), λ other. refl)
        | inl same ↦
            let size : size_bytes ≡ digest.partial_digest.size_bytes = ground (arith, same) in
            let (v, started, ends, content, found_bad) =
              validated-Matches hashes digest invalid_argument r valid in
            rw (put_right_size size_bytes r v size started) (
              law.put_failed s digest _ (validated hashes v r).0
                (λ end. let (e, match) = ends.0 end in bad e match size))
      ]

  -- What Get returns when the backend has a blob, whatever its digest.
  found_blob :
      (blob : List ℕ) (r : R) (v : Checker)
      → (ba.get s digest).0 ≡ ok (length blob, r)
      → new_checker digest internal ≡ ok v
      → length blob ≡ digest.partial_digest.size_bytes
      → get hashes ba s digest ≡ (
        ok (length blob, record { digest = digest; checker = v; reader = r }),
        (ba.get s digest).1,
      )
  unfolding get found with_checker
  found_blob blob r v e started size =
      let step : ba.get s digest ≡ (ok (length blob, r), (ba.get s digest).1) = pair_eq e refl in
      let same : (length blob == digest.partial_digest.size_bytes) ≡ true = ground (arith, size) in
      ap (found hashes ba digest) step
      ∙ rw (same, started)
          (ap
            (λ n.
              (ok (n, record { digest = digest; checker = v; reader = r }), (ba.get s digest).1))
            (sym size))

  found_wrong_size :
      (blob : List ℕ) (r : R)
      → (ba.get s digest).0 ≡ ok (length blob, r)
      → length blob ≢ digest.partial_digest.size_bytes
      → get hashes ba s digest ≡ (
        err (wrong_size internal (length blob) digest.partial_digest.size_bytes),
        (ba.delete (ba.get s digest).1 digest).1,
      )
  unfolding get found
  found_wrong_size blob r e size =
      let step : ba.get s digest ≡ (ok (length blob, r), (ba.get s digest).1) = pair_eq e refl in
      let differs : (length blob == digest.partial_digest.size_bytes) ≡ false =
        ground (arith, size) in
      ap (found hashes ba digest) step ∙ rw differs refl

  abbrev state_after : CheckedReader R → S
  state_after r = (reading hashes ba r (get hashes ba s digest).1).1

  -- A blob that is not the one that the digest names.
  discarded :
      (blob : List ℕ)
      → view s digest ≡ some blob
      → (Matches hashes digest blob → ⊥)
      → ((e : Error) × ((get hashes ba s digest).0 ≡ err e)
          × Updated (view s) digest none (view (get hashes ba s digest).1))
        ⊎ ((size_bytes : ℕ) × (r : CheckedReader R) × ((get hashes ba s digest).0
              ≡ ok (size_bytes, r))
            × ((drain (reading hashes ba r (get hashes ba s digest).1).0).1 ≢ eof)
            × Updated (view s) digest none (view (state_after r)))
  unfolding reading
  discarded blob stored differs =
      let got : Got ba view Missing s digest (some blob) = rw stored at (law.get s digest) in
      let (r, read, content, same) = got in
      let got_same = law.get_same s digest in
      elim (Bool-cases (length blob == digest.partial_digest.size_bytes)) [
        | inr wrong ↦
            let size : length blob ≢ digest.partial_digest.size_bytes = ground (arith, wrong) in
            let (deleted, (gone, others)) = law.delete (ba.get s digest).1 digest in
            inl (
              rw (found_wrong_size blob r read size)
                (_, refl, (gone, λ other ne. others other ne ∙ got_same other)))
        | inl right ↦
            let size : length blob ≡ digest.partial_digest.size_bytes = ground (arith, right) in
            let events = (ba.reading r (ba.get s digest).1).0 in
            let (v, started, ends, kept, bad) =
              validated-Matches hashes digest internal events valid in
            let whole = found_blob blob r v read started size in
            let invalidated : (validated hashes v events).1 ≡ true =
              bad.1 (inr (ap (λ p. p.1) content, λ match. differs (rw content at match))) in
            let t = (ba.reading r (ba.get s digest).1).1 in
            let (deleted, (gone, others)) = law.delete t digest in
            inr (
              rw whole (
                _,
                record { digest = digest; checker = v; reader = r },
                refl,
                λ end. let (e, match) = ends.0 end in differs (rw content at match),
                rw invalidated (gone, λ other ne. others other ne ∙ same other),
              ))
      ]

  -- The blob that the digest names.
  returned :
      (blob : List ℕ)
      → view s digest ≡ some blob
      → Matches hashes digest blob
      → Got (merkle_blob_access hashes ba) view Missing s digest (some blob)
  unfolding reading merkle_blob_access
  returned blob stored match =
      let got : Got ba view Missing s digest (some blob) = rw stored at (law.get s digest) in
      let (r, read, content, same) = got in
      let events = (ba.reading r (ba.get s digest).1).0 in
      let (v, started, ends, kept, bad) = validated-Matches hashes digest internal events valid in
      let whole = found_blob blob r v read started match.size in
      let good = ends.1 (ap (λ p. p.1) content, rw content match) in
      let valid' : (validated hashes v events).1 ≡ false =
        elim (Bool-cases (validated hashes v events).1) [
          | inr fine ↦ fine
          | inl broken ↦ elim (bad.0 broken) [
            | inl over ↦
                let sized = match.size in let over' = rw content at over in absurd (omega arith)
            | inr (end, differs) ↦ absurd (differs (rw content match))
          ]
        ] in
      rw whole (
        record { digest = digest; checker = v; reader = r },
        refl,
        pair_eq (kept good ∙ ap (λ p. p.0) content) good,
        rw valid' same,
      )

-- The reader has the blob that the digest names, and its size is passed.
abbrev pub IsWhole : Hashes → Digest → ℕ → Reader → Type 0
IsWhole hashes digest size_bytes r =
    ((drain r).1 ≡ eof) × Matches hashes digest (drain r).0 × (size_bytes ≡ length (drain r).0)

IsWhole-cases :
    (hashes : Hashes) (digest : Digest) (size_bytes : ℕ) (r : Reader)
    → IsDigest digest
    → IsWhole hashes digest size_bytes r ⊎ (IsWhole hashes digest size_bytes r → ⊥)
IsWhole-cases hashes digest size_bytes r valid = elim (eof-cases (drain r).1) [
  | inr failing ↦ inr (λ (end, match, size). failing end)
  | inl end ↦ elim (Matches-cases hashes digest (drain r).0 valid) [
    | inr differs ↦ inr (λ (end, match, size). differs match)
    | inl match ↦ elim (Bool-cases (size_bytes == length (drain r).0)) [
      | inr other ↦ inr (λ (end, match, same). ground (arith, other, same))
      | inl same ↦ inl (end, match, ground (arith, same))
    ]
  ]
]

-- In front of a backend that behaves as a map from digests to blobs, a Put for a digest as NewDigest
-- makes them stores exactly the blob that the digest names. Either the reader can be read to its end,
-- its bytes are that blob, the size passed is theirs, Put succeeds, and only the blob of that digest
-- changes, to these bytes; or one of the first three does not hold, Put fails, and no blob changes.
pub put_exact :
    {S R : Type 0} (hashes : Hashes) (ba : BlobAccess S R) (view : S → View)
    (Missing : Error → Type 0) (s : S) (digest : Digest) (size_bytes : ℕ) (r : Reader)
    → IsStore ba view Missing
    → IsDigest digest
    → (let (result, s') = put hashes ba s digest size_bytes r in
        (IsWhole hashes digest size_bytes r
          × (result ≡ ok tt)
          × Updated (view s) digest (some (drain r).0) (view s'))
        ⊎ ((IsWhole hashes digest size_bytes r → ⊥)
            × ((e : Error) × (result ≡ err e))
            × Same (view s) (view s')))
put_exact hashes ba view Missing s digest size_bytes r law valid =
    elim (IsWhole-cases hashes digest size_bytes r valid) [
      | inl (end, match, size) ↦
          let (done, changed) =
            put_matching hashes ba view Missing law s digest valid r end match in
          inl ((end, match, size), rw size done, rw size changed)
      | inr bad ↦
          let (fails, same) =
            put_refused hashes ba view Missing law s digest valid size_bytes r
              (λ end match size. bad (end, match, size ∙ sym match.size)) in
          inr (bad, fails, same)
    ]

-- In front of a backend that behaves as a map from digests to blobs, Get returns the blob that a digest
-- names, and lets the others go. Either the backend has for the digest the blob that it names, and Get
-- and reading to the end yield exactly it, and change no blob. Or it has other bytes, and then either
-- Get fails, or reading what it returns ends in an error other than EOF; afterwards the backend has no
-- blob for this digest, and all its other blobs. The digest is as NewDigest makes them.
pub get_exact :
    {S R : Type 0} (hashes : Hashes) (ba : BlobAccess S R) (view : S → View)
    (Missing : Error → Type 0) (s : S) (digest : Digest) (blob : List ℕ)
    → IsStore ba view Missing
    → IsDigest digest
    → view s digest ≡ some blob
    → (let (result, s') = get hashes ba s digest in
        (Matches hashes digest blob
          × Got (merkle_blob_access hashes ba) view Missing s digest (some blob))
        ⊎ ((Matches hashes digest blob → ⊥)
            × (((e : Error) × (result ≡ err e) × Updated (view s) digest none (view s'))
                ⊎ ((size_bytes : ℕ) × (r : CheckedReader R) × (result ≡ ok (size_bytes, r))
                    × ((drain (reading hashes ba r s').0).1 ≢ eof)
                    × Updated (view s) digest none (view (reading hashes ba r s').1)))))
get_exact hashes ba view Missing s digest blob law valid stored =
    elim (Matches-cases hashes digest blob valid) [
      | inl match ↦
          inl (match, returned hashes ba view Missing law s digest valid blob stored match)
      | inr differs ↦
          inr (differs, discarded hashes ba view Missing law s digest valid blob stored differs)
    ]
