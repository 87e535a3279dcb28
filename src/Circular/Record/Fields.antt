-- ===== src/Circular/Record/Fields.antt =====
-- The fields of a record can be read back, and changing the attempt leaves the others alone.
use mathlib.Core.List.{append_assoc, append-nil}
use bazel_buildbarn.Prelude.{
  ℕ, zero, suc, ◌+◌, ◌<◌, ◌^◌, ◌≡◌, refl, sym, ap, ◌∙◌, List, [], ◌∷◌, ◌++◌, length, length-append,
  length-take, length-drop, take, drop, true, arith,
}
use bazel_buildbarn.Prelude.LittleEndian.{
  encode, decode, length-encode, decode-encode, capacity-4, capacity-8, take-append, drop-append,
}
use bazel_buildbarn.Circular.File.{pad}
use bazel_buildbarn.Circular.Record.{
  simple_digest, new_offset_record, key, get_attempt, get_offset, get_length, bytes_equal,
  with_attempt,
}

take_at : (n : ℕ) (xs ys : List ℕ) → length xs ≡ n → take n (xs ++ ys) ≡ xs
take_at n xs ys h = rw h at (take-append xs ys)

drop_at : (n : ℕ) (xs ys : List ℕ) → length xs ≡ n → drop n (xs ++ ys) ≡ ys
drop_at n xs ys h = rw h at (drop-append xs ys)

take-encode : (n v : ℕ) (rest : List ℕ) → take n (encode n v ++ rest) ≡ encode n v
take-encode n v rest = take_at n (encode n v) rest (length-encode n v)

take_all : (n v : ℕ) → take n (encode n v) ≡ encode n v
take_all n v = rw append-nil at (take-encode n v [])

length-pad : (n : ℕ) (b : List ℕ) → length (pad n b) ≡ n
length-pad zero b = refl
length-pad (suc n) [] = ap suc (length-pad n [])
length-pad (suc n) (x ∷ b) = ap suc (length-pad n b)

pub length-simple_digest :
    (hash : List ℕ) (size_bytes : ℕ) → length (simple_digest hash size_bytes) ≡ 40
unfolding simple_digest
length-simple_digest hash size_bytes = omega (
  arith,
  length-append (pad 32 hash) (encode 4 size_bytes ++ pad 4 []),
  length-append (encode 4 size_bytes) (pad 4 []),
  length-pad 32 hash,
  length-pad 4 [],
  length-encode 4 size_bytes,
)

drop_nothing : (n : ℕ) → drop {A = ℕ} n [] ≡ []
drop_nothing zero = refl
drop_nothing (suc n) = refl

drop-add : (m n k : ℕ) (xs : List ℕ) → k ≡ m + n → drop k xs ≡ drop n (drop m xs)
drop-add zero n k xs e = let same : k ≡ n = omega arith in rw same
drop-add (suc m) n zero xs e = absurd (omega arith)
drop-add (suc m) n (suc k) [] e = sym (drop_nothing n)
drop-add (suc m) n (suc k) (x ∷ xs) e = drop-add m n k xs (omega arith)

pub bytes_equal_sound : (xs ys : List ℕ) → bytes_equal xs ys ≡ true → xs ≡ ys
unfolding bytes_equal
bytes_equal_sound [] [] h = refl
bytes_equal_sound [] (y ∷ ys) h = cc
bytes_equal_sound (x ∷ xs) [] h = cc
bytes_equal_sound (x ∷ xs) (y ∷ ys) h = ground (arith, bytes_equal_sound xs ys)

pub bytes_equal_refl : (xs : List ℕ) → bytes_equal xs xs ≡ true
unfolding bytes_equal
bytes_equal_refl [] = refl
bytes_equal_refl (x ∷ xs) = ground (arith, bytes_equal_refl xs)

-- A record from its parts.
abbrev assemble : List ℕ → ℕ → ℕ → ℕ → List ℕ
assemble digest attempt offset extent =
    digest ++ (encode 4 attempt ++ (encode 8 offset ++ encode 8 extent))

module _ (front back : List ℕ) (attempt : ℕ) (size : length front ≡ 40) where
  front_44 : length (front ++ encode 4 attempt) ≡ 44
  front_44 = omega (arith, length-append front (encode 4 attempt), length-encode 4 attempt)

  regroup : front ++ (encode 4 attempt ++ back) ≡ (front ++ encode 4 attempt) ++ back
  regroup = sym (append_assoc front (encode 4 attempt) back)

  key_parts : key (front ++ (encode 4 attempt ++ back)) ≡ front ++ encode 4 attempt
  key_parts = rw regroup (take_at 44 (front ++ encode 4 attempt) back front_44)

  front_parts : take 40 (front ++ (encode 4 attempt ++ back)) ≡ front
  front_parts = take_at 40 front (encode 4 attempt ++ back) size

  back_parts : drop 44 (front ++ (encode 4 attempt ++ back)) ≡ back
  back_parts = rw regroup (drop_at 44 (front ++ encode 4 attempt) back front_44)

  attempt_parts : attempt < 2 ^ 32 → get_attempt (front ++ (encode 4 attempt ++ back)) ≡ attempt
  unfolding get_attempt
  attempt_parts h =
      rw (drop_at 40 front (encode 4 attempt ++ back) size, take-encode 4 attempt back)
        (decode-encode 4 attempt (rw capacity-4 h))

  offset_parts : get_offset (front ++ (encode 4 attempt ++ back)) ≡ decode (take 8 back)
  unfolding get_offset
  offset_parts = rw back_parts

  length_parts : get_length (front ++ (encode 4 attempt ++ back)) ≡ decode (take 8 (drop 8 back))
  unfolding get_length
  length_parts = rw (drop-add 44 8 52 (front ++ (encode 4 attempt ++ back)) refl, back_parts)

module _ (digest : List ℕ) (offset extent : ℕ) (size : length digest ≡ 40) where
  pub key-new_offset_record : key (new_offset_record digest offset extent) ≡ digest ++ encode 4 0
  unfolding new_offset_record
  key-new_offset_record = key_parts digest (encode 8 offset ++ encode 8 extent) 0 size

  pub take-new_offset_record : take 40 (new_offset_record digest offset extent) ≡ digest
  unfolding new_offset_record
  take-new_offset_record = front_parts digest (encode 8 offset ++ encode 8 extent) 0 size

  pub get_attempt-new_offset_record : get_attempt (new_offset_record digest offset extent) ≡ 0
  unfolding new_offset_record
  get_attempt-new_offset_record =
      attempt_parts digest (encode 8 offset ++ encode 8 extent) 0 size (omega arith)

  pub get_offset-new_offset_record :
      offset < 2 ^ 64 → get_offset (new_offset_record digest offset extent) ≡ offset
  unfolding new_offset_record
  get_offset-new_offset_record h =
      rw
        (
          offset_parts digest (encode 8 offset ++ encode 8 extent) 0 size,
          take-encode 8 offset (encode 8 extent),
        )
        (decode-encode 8 offset (rw capacity-8 h))

  pub get_length-new_offset_record :
      extent < 2 ^ 64 → get_length (new_offset_record digest offset extent) ≡ extent
  unfolding new_offset_record
  get_length-new_offset_record h =
      rw
        (
          length_parts digest (encode 8 offset ++ encode 8 extent) 0 size,
          drop_at 8 (encode 8 offset) (encode 8 extent) (length-encode 8 offset),
          take_all 8 extent,
        )
        (decode-encode 8 extent (rw capacity-8 h))

  pub length-new_offset_record : length (new_offset_record digest offset extent) ≡ 60
  unfolding new_offset_record
  length-new_offset_record = omega (
    arith,
    length-append digest (encode 4 0 ++ (encode 8 offset ++ encode 8 extent)),
    length-append (encode 4 0) (encode 8 offset ++ encode 8 extent),
    length-append (encode 8 offset) (encode 8 extent),
    length-encode 4 0,
    length-encode 8 offset,
    length-encode 8 extent,
  )

module _ (r : List ℕ) (attempt : ℕ) (size : length r ≡ 60) where
  front_size : length (take 40 r) ≡ 40
  front_size = omega (arith, length-take 40 r)

  pub key-with_attempt : key (with_attempt r attempt) ≡ take 40 r ++ encode 4 attempt
  unfolding with_attempt
  key-with_attempt = key_parts (take 40 r) (drop 44 r) attempt front_size

  pub get_attempt-with_attempt : attempt < 2 ^ 32 → get_attempt (with_attempt r attempt) ≡ attempt
  unfolding with_attempt
  get_attempt-with_attempt = attempt_parts (take 40 r) (drop 44 r) attempt front_size

  pub get_offset-with_attempt : get_offset (with_attempt r attempt) ≡ get_offset r
  unfolding with_attempt
  get_offset-with_attempt =
      offset_parts (take 40 r) (drop 44 r) attempt front_size ∙ unfold get_offset in refl

  pub get_length-with_attempt : get_length (with_attempt r attempt) ≡ get_length r
  unfolding with_attempt
  get_length-with_attempt =
      length_parts (take 40 r) (drop 44 r) attempt front_size
      ∙ unfold get_length in rw (drop-add 44 8 52 r refl)

  pub length-with_attempt : length (with_attempt r attempt) ≡ 60
  unfolding with_attempt
  length-with_attempt = omega (
    arith,
    length-append (take 40 r) (encode 4 attempt ++ drop 44 r),
    length-append (encode 4 attempt) (drop 44 r),
    length-take 40 r,
    length-drop 44 r,
    length-encode 4 attempt,
  )
