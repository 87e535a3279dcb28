-- ===== src/Circular/Record.antt =====
-- simple_digest.go, and the offsetRecord of file_offset_store.go: the bytes of one slot of the offset
-- file, which are a simple digest (40), an attempt (4), an offset (8) and a length (8).
pub mod Fields
use Prim.Native.Nat.{bit_xor}
use mathlib.Core.Option
use bazel_buildbarn.Prelude.{
  ℕ, ◌+◌, ◌*◌, ◌%◌, ◌^◌, ◌≡◌, List, [], ◌∷◌, ◌++◌, Bool, true, false, ◌&&◌, ◌==◌, Option, take,
  drop,
}
use bazel_buildbarn.Prelude.LittleEndian.{encode, decode}
use bazel_buildbarn.Util.Digest.{Digest, get_hash_bytes}
use bazel_buildbarn.Circular.File.{pad}

-- The hash, with room for a SHA-256 sum, the low 32 bits of the size, and four bytes that stay zero.
unfoldable pub simple_digest : List ℕ → ℕ → List ℕ
simple_digest hash size_bytes = pad 32 hash ++ (encode 4 size_bytes ++ pad 4 [])

unfoldable pub new_simple_digest : Digest → Option (List ℕ)
new_simple_digest d =
    Option.map (λ hash. simple_digest hash d.partial_digest.size_bytes) (get_hash_bytes d)

-- The attempt of a new record is zero.
unfoldable pub new_offset_record : List ℕ → ℕ → ℕ → List ℕ
new_offset_record digest offset length =
    digest ++ (encode 4 0 ++ (encode 8 offset ++ encode 8 length))

-- FNV-1a of the bytes in reverse order: the last byte is mixed in first.
unfoldable pub fnv : List ℕ → ℕ
fnv [] = 2166136261
fnv (b ∷ bs) = (bit_xor (fnv bs) b * 16777619) % 2 ^ 32

-- The digest and the attempt.
abbrev pub key : List ℕ → List ℕ
key r = take 44 r

unfoldable pub get_slot : List ℕ → ℕ
get_slot r = fnv (key r)

unfoldable pub get_attempt : List ℕ → ℕ
get_attempt r = decode (take 4 (drop 40 r))

unfoldable pub get_offset : List ℕ → ℕ
get_offset r = decode (take 8 (drop 44 r))

unfoldable pub get_length : List ℕ → ℕ
get_length r = decode (take 8 (drop 52 r))

-- bytes.Equal
unfoldable pub bytes_equal : List ℕ → List ℕ → Bool
bytes_equal [] [] = true
bytes_equal (x ∷ xs) (y ∷ ys) = x == y && bytes_equal xs ys
bytes_equal _ _ = false

unfoldable pub digest_and_attempt_equal : List ℕ → List ℕ → Bool
digest_and_attempt_equal r other = bytes_equal (key r) (key other)

unfoldable pub with_attempt : List ℕ → ℕ → List ℕ
with_attempt r attempt = take 40 r ++ (encode 4 attempt ++ drop 44 r)
