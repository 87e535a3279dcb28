-- ===== src/Blobstore/Merkle/Validation.antt =====
-- Checking a blob while it is read is checking it as a whole.
use mathlib.Core.List.{append_assoc}
use bazel_buildbarn.Prelude.{
  ℕ, ◌-◌, ◌≤◌, ◌≡◌, refl, ap, ◌∙◌, sym, inl, inr, List, [], ◌∷◌, ◌++◌, none, some, Bool, true,
  false, not, ltb, ◌==◌, if◌then◌else◌, length, length-append, arith, Bool-cases,
}
use bazel_buildbarn.Util.Status.{Error, eof, status, violation, other}
use bazel_buildbarn.Util.Digest.Generator.{Hashes}
use bazel_buildbarn.Util.Reader.{Reader, drain}
use bazel_buildbarn.Circular.Record.{bytes_equal}
use bazel_buildbarn.Blobstore.Merkle.{Checker, longer, shorter, mismatch, read, validated, continue}

-- What is to be said of the bytes that were read up to an error: the error that the client gets, and
-- whether the blob is bad.
unfoldable pub of_end : Hashes → Checker → List ℕ → Error → Error × Bool
of_end hashes v blob eof =
    let actual = hashes.sum v.algorithm (v.hashed ++ blob) in
    if not (length blob == v.size_left)
    then (shorter v.error_code (v.size_left - length blob), true)
    else if not (bytes_equal actual v.expected_checksum)
    then (mismatch v.error_code actual v.expected_checksum, true)
    else (eof, false)
of_end hashes v blob e = (e, false)

unfoldable pub verdict : Hashes → Checker → List ℕ → Error → Error × Bool
unfolding of_end
verdict hashes v blob e =
    if ltb v.size_left (length blob) then (longer v.error_code, true) else of_end hashes v blob e

-- The checker after it has seen some bytes.
abbrev after : Checker → List ℕ → Checker
after v b = record v { hashed = v.hashed ++ b; size_left = v.size_left - length b }

module _ (hashes : Hashes) where
  of_end-append :
      (v : Checker) (b blob : List ℕ) (e : Error)
      → ltb v.size_left (length b) ≡ false
      → ltb v.size_left (length (b ++ blob)) ≡ false
      → of_end hashes v (b ++ blob) e ≡ of_end hashes (after v b) blob e
  unfolding of_end
  of_end-append v b blob eof fits all =
      let split = length-append b blob in
      let joined = append_assoc v.hashed b blob in
      let room : length b ≤ v.size_left = ground arith in
      let same : (length (b ++ blob) == v.size_left) ≡ (length blob == v.size_left - length b) =
        ground (arith, split) in
      let left : v.size_left - length (b ++ blob) ≡ v.size_left - length b - length blob =
        omega arith in
      rw (joined, same, left) refl
  of_end-append v b blob (status c m) fits all = refl
  of_end-append v b blob (violation c m t u) fits all = refl
  of_end-append v b blob (other m) fits all = refl

  verdict-append :
      (v : Checker) (b blob : List ℕ) (e : Error)
      → ltb v.size_left (length b) ≡ false
      → verdict hashes v (b ++ blob) e ≡ verdict hashes (after v b) blob e
  unfolding verdict
  verdict-append v b blob e fits =
      let split = length-append b blob in
      let room : length b ≤ v.size_left = ground arith in
      let same : ltb v.size_left (length (b ++ blob)) ≡ ltb (v.size_left - length b) (length blob) =
        ground (arith, split) in
      elim (Bool-cases (ltb v.size_left (length (b ++ blob)))) [
        | inl over ↦ let over' = sym same ∙ over in rw (over, over') refl
        | inr under ↦
            let under' = sym same ∙ under in
            rw (under, under') (of_end-append v b blob e fits under)
      ]

  -- Both results of the checker: what the client gets, and whether the blob is found to be bad.
  abbrev pub Agrees : Checker → Reader × Bool → List ℕ → Error → Type 0
  Agrees v (events, invalidated) blob e =
      ((drain events).1 ≡ (verdict hashes v blob e).0)
      × (invalidated ≡ (verdict hashes v blob e).1)
      × ((verdict hashes v blob e).1 ≡ false → (drain events).0 ≡ blob)

  verdict_at_end :
      (v : Checker) (b : List ℕ) (rest : Reader × Bool)
      → Agrees v (continue hashes (read hashes v (b, some eof)).0 rest) b eof
  unfolding continue drain read verdict
  verdict_at_end v b rest = elim (Bool-cases (ltb v.size_left (length b))) [
    | inl over ↦ rw over (refl, refl, λ h. absurd (cc))
    | inr under ↦
        let size : (v.size_left - length b == 0) ≡ (length b == v.size_left) = ground arith in
        let actual = hashes.sum v.algorithm (v.hashed ++ b) in
        elim (Bool-cases (length b == v.size_left)) [
          | inr short ↦ rw (under, size, short) (refl, refl, λ h. absurd (cc))
          | inl whole ↦ elim (Bool-cases (bytes_equal actual v.expected_checksum)) [
            | inl same ↦ rw (under, size, whole, same) (refl, refl, λ h. refl)
            | inr differs ↦ rw (under, size, whole, differs) (refl, refl, λ h. absurd (cc))
          ]
        ]
  ]

  verdict_on_error :
      (v : Checker) (b : List ℕ) (e : Error) (rest : Reader × Bool)
      → Agrees v (continue hashes (read hashes v (b, some e)).0 rest) b e
  unfolding continue drain read verdict
  verdict_on_error v b eof rest = verdict_at_end v b rest
  verdict_on_error v b (status c m) rest = elim (Bool-cases (ltb v.size_left (length b))) [
    | inl over ↦ rw over (refl, refl, λ h. absurd (cc))
    | inr under ↦ rw under (refl, refl, λ h. refl)
  ]
  verdict_on_error v b (violation c m t u) rest = elim (Bool-cases (ltb v.size_left (length b))) [
    | inl over ↦ rw over (refl, refl, λ h. absurd (cc))
    | inr under ↦ rw under (refl, refl, λ h. refl)
  ]
  verdict_on_error v b (other m) rest = elim (Bool-cases (ltb v.size_left (length b))) [
    | inl over ↦ rw over (refl, refl, λ h. absurd (cc))
    | inr under ↦ rw under (refl, refl, λ h. refl)
  ]

  -- More than the expected bytes are too many, whatever comes after them.
  verdict_over :
      (v : Checker) (b blob : List ℕ) (e : Error)
      → ltb v.size_left (length b) ≡ true
      → verdict hashes v (b ++ blob) e ≡ (longer v.error_code, true)
  unfolding verdict
  verdict_over v b blob e over =
      let split = length-append b blob in
      let all : ltb v.size_left (length (b ++ blob)) ≡ true = ground (arith, split) in rw all refl

  pub agrees : (v : Checker) (r : Reader) → Agrees v (validated hashes v r) (drain r).0 (drain r).1
  unfolding validated drain read
  agrees v [] = verdict_at_end v [] ([], false)
  agrees v ((b, some e) ∷ r) =
      verdict_on_error v b e (validated hashes (read hashes v (b, some e)).1 r)
  agrees v ((b, none) ∷ r) = elim (Bool-cases (ltb v.size_left (length b))) [
    | inl over ↦
        let bad = verdict_over v b (drain r).0 (drain r).1 over in
        rw bad (rw over (refl, refl, λ h. absurd (cc)))
    | inr under ↦
        let (said, invalidated, content) = agrees (after v b) r in
        rw (verdict-append v b (drain r).0 (drain r).1 under)
          (rw under (said, invalidated, λ h. ap (λ rest. b ++ rest) (content h)))
  ]
