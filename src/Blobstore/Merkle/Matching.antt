-- ===== src/Blobstore/Merkle/Matching.antt =====
-- What the checking reader says of a blob, in terms of its digest.
use bazel_buildbarn.Prelude.{
  ℕ, ◌<◌, ◌≡◌, ◌↔◌, refl, ap, ◌∙◌, sym, ◌⊎◌, inl, inr, List, [], ◌++◌, some, true, false, ltb, ◌==◌,
  length, arith, Bool-cases,
}
use bazel_buildbarn.Util.Status.{ok, Error, Code, eof, internal, status, violation, other}
use bazel_buildbarn.Util.Digest.Generator.{Hashes}
use bazel_buildbarn.Util.Reader.{Reader, drain}
use bazel_buildbarn.Circular.Record.{bytes_equal}
use bazel_buildbarn.Circular.Record.Fields.{bytes_equal_sound, bytes_equal_refl}
use bazel_buildbarn.Util.Digest.{Digest, Algorithm, IsDigest, new_hasher, get_hash_bytes}
use bazel_buildbarn.Util.Digest.Validation.{valid_digest_is_usable}
use bazel_buildbarn.Blobstore.Merkle.{new_checker, Checker, validated, new_checker}
use bazel_buildbarn.Blobstore.Merkle.Validation.{agrees, verdict, of_end}

-- The blob is the one that the digest names.
pub record Matches (hashes : Hashes) (digest : Digest) (blob : List ℕ) : Type 0 where
  pub algorithm : Algorithm
  pub size : length blob ≡ digest.partial_digest.size_bytes
  pub hasher : new_hasher digest ≡ some algorithm
  pub checksum : get_hash_bytes digest ≡ some (hashes.sum algorithm blob)

-- What newChecksumValidatingReader starts from.
record Started (digest : Digest) (code : Code) (v : Checker) : Type 0 where
  started : new_checker digest code ≡ ok v
  hasher : new_hasher digest ≡ some v.algorithm
  checksum : get_hash_bytes digest ≡ some v.expected_checksum
  nothing : v.hashed ≡ []
  size : v.size_left ≡ digest.partial_digest.size_bytes
  reports : v.error_code ≡ code

new_checker-Started :
    (digest : Digest) (code : Code) → IsDigest digest → (v : Checker) × Started digest code v
unfolding new_checker
new_checker-Started digest code valid =
    let (algorithm, checksum, hasher, decoded, size) = valid_digest_is_usable digest valid in
    (
      _,
      record {
        started = rw (decoded, hasher) refl;
        hasher = hasher;
        checksum = decoded;
        nothing = refl;
        size = refl;
        reports = refl;
      },
    )

module _ (hashes : Hashes) (digest : Digest) (code : Code) (v : Checker)
    (from : Started digest code v) where
  accepted :
      (blob : List ℕ)
      → length blob ≡ v.size_left
      → bytes_equal (hashes.sum v.algorithm (v.hashed ++ blob)) v.expected_checksum ≡ true
      → Matches hashes digest blob
  accepted blob size same =
      let nothing = from.nothing in
      let sum : hashes.sum v.algorithm blob ≡ v.expected_checksum =
        bytes_equal_sound _ _ (rw nothing at same) in
      record {
        algorithm = v.algorithm;
        size = size ∙ from.size;
        hasher = from.hasher;
        checksum = rw sum from.checksum;
      }

  -- The conclusions of the checker, in terms of the digest.
  good_verdict :
      (blob : List ℕ) (e : Error)
      → (verdict hashes v blob e).0 ≡ eof
      → (e ≡ eof) × Matches hashes digest blob
  unfolding verdict of_end
  good_verdict blob eof h =
      let over : ltb v.size_left (length blob) ≡ false = ground arith in
      let size : length blob ≡ v.size_left = ground arith in
      (refl, accepted blob size (ground arith))
  good_verdict blob (status c m) h = absurd (ground arith)
  good_verdict blob (violation c m t u) h = absurd (ground arith)
  good_verdict blob (other m) h = absurd (ground arith)

  matching_verdict :
      (blob : List ℕ) → Matches hashes digest blob → verdict hashes v blob eof ≡ (eof, false)
  unfolding verdict of_end
  matching_verdict blob match =
      let whole : length blob ≡ v.size_left = match.size ∙ sym from.size in
      let algorithm : some match.algorithm ≡ some v.algorithm = sym match.hasher ∙ from.hasher in
      let checksum : some (hashes.sum match.algorithm blob) ≡ some v.expected_checksum =
        sym match.checksum ∙ from.checksum in
      let nothing = from.nothing in
      let sum : hashes.sum v.algorithm (v.hashed ++ blob) ≡ v.expected_checksum = cc in
      let under : ltb v.size_left (length blob) ≡ false = ground (arith, whole) in
      let size : (length blob == v.size_left) ≡ true = ground (arith, whole) in
      rw (under, size, sum, bytes_equal_refl v.expected_checksum) refl

  bad_verdict :
      (blob : List ℕ) (e : Error)
      → (verdict hashes v blob e).1 ≡ true
      → (digest.partial_digest.size_bytes < length blob)
        ⊎ ((e ≡ eof) × (Matches hashes digest blob → ⊥))
  unfolding verdict of_end
  bad_verdict blob eof h = inr (refl, λ match. let good = matching_verdict blob match in cc)
  bad_verdict blob (status c m) h = inl (let size = from.size in ground (arith, size))
  bad_verdict blob (violation c m t u) h = inl (let size = from.size in ground (arith, size))
  bad_verdict blob (other m) h = inl (let size = from.size in ground (arith, size))

  unbad :
      (blob : List ℕ) → (verdict hashes v blob eof).1 ≡ false → (verdict hashes v blob eof).0 ≡ eof
  unfolding verdict of_end
  unbad blob h = ground arith

  is_bad :
      (blob : List ℕ) (e : Error)
      → (digest.partial_digest.size_bytes < length blob)
        ⊎ ((e ≡ eof) × (Matches hashes digest blob → ⊥))
      → (verdict hashes v blob e).1 ≡ true
  unfolding verdict of_end
  is_bad blob e (inl over) =
      let size = from.size in
      let large : ltb v.size_left (length blob) ≡ true = ground (arith, size) in rw large refl
  is_bad blob e (inr (end, differs)) = elim (Bool-cases (verdict hashes v blob e).1) [
    | inl bad ↦ bad
    | inr fine ↦
        let end' : (verdict hashes v blob eof).0 ≡ eof = unbad blob (rw end at fine) in
        absurd (differs (good_verdict blob eof end').1)
  ]

pub Matches-cases :
    (hashes : Hashes) (digest : Digest) (blob : List ℕ)
    → IsDigest digest
    → Matches hashes digest blob ⊎ (Matches hashes digest blob → ⊥)
Matches-cases hashes digest blob valid =
    let (v, from) = new_checker-Started digest internal valid in
    elim (Bool-cases (verdict hashes v blob eof).1) [
      | inl bad ↦
          inr
            (λ match. (let good = matching_verdict hashes digest internal v from blob match in cc))
      | inr good ↦
          let end = unbad hashes digest internal v from blob good in
          inl (good_verdict hashes digest internal v from blob eof end).1
    ]

-- A reader that checks what another one returns, for a digest as NewDigest makes them, always exists,
-- and reads as follows until the first error. Reading ends in EOF exactly if the reader within ends in
-- EOF and all its bytes are the blob that the digest names, of its size and with its checksum; then
-- the client has got all of these bytes. The invalidator is called exactly if there are more bytes than
-- the size, or if the reader within ends in EOF and its bytes are not that blob.
pub validated-Matches :
    (hashes : Hashes) (digest : Digest) (code : Code) (r : Reader)
    → IsDigest digest
    → (v : Checker) × (new_checker digest code ≡ ok v)
      × (((drain (validated hashes v r).0).1 ≡ eof)
          ↔ (((drain r).1 ≡ eof) × Matches hashes digest (drain r).0))
      × ((drain (validated hashes v r).0).1 ≡ eof
          → (drain (validated hashes v r).0).0 ≡ (drain r).0)
      × (((validated hashes v r).1 ≡ true) ↔ (
          (digest.partial_digest.size_bytes < length (drain r).0)
          ⊎ (((drain r).1 ≡ eof) × (Matches hashes digest (drain r).0 → ⊥))))
validated-Matches hashes digest code r valid =
    let (v, from) = new_checker-Started digest code valid in
    let (said, invalidated, content) = agrees hashes v r in
    let blob = (drain r).0 in
    let ends : ((drain (validated hashes v r).0).1 ≡ eof)
        → (((drain r).1 ≡ eof) × Matches hashes digest blob) =
      λ h. good_verdict hashes digest code v from blob (drain r).1 (sym said ∙ h) in
    let passes : ((drain r).1 ≡ eof)
        → Matches hashes digest blob
        → verdict hashes v blob (drain r).1 ≡ (eof, false) =
      λ end match. rw end (matching_verdict hashes digest code v from blob match) in
    (
      v,
      from.started,
      (ends, λ (end, match). said ∙ ap (λ p. p.0) (passes end match)),
      λ h. content (let (end, match) = ends h in ap (λ p. p.1) (passes end match)),
      (
        λ h. bad_verdict hashes digest code v from blob (drain r).1 (sym invalidated ∙ h),
        λ h. invalidated ∙ is_bad hashes digest code v from blob (drain r).1 h,
      ),
    )
