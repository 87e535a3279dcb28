-- ===== src/Util/Digest/Defs.antt =====
-- The data and the operations of pkg/util/digest.go.
use bazel_buildbarn.Prelude.{
  ℕ, ◌<◌, ◌^◌, ◌≡◌, List, [], ◌∷◌, ◌++◌, Bool, true, ◌&&◌, ◌||◌, not, Option, none, some, ltb, ◌==◌,
  if◌then◌else◌, length, get_or,
}
use bazel_buildbarn.Prelude.Word.{is_negative}
use bazel_buildbarn.Prelude.Decimal.{format_int}
use bazel_buildbarn.Prelude.Utf8.{rune}
use bazel_buildbarn.Prelude.Hex.{decode_string, AllHex}
use bazel_buildbarn.Util.Status.{Result, ok, err, status, invalid_argument, text, format, number}

-- remoteexecution.Digest
pub record PartialDigest : Type 0 where
  pub hash : List ℕ
  pub size_bytes : ℕ

pub record Digest : Type 0 where
  pub instance_name : List ℕ
  pub partial_digest : PartialDigest

unfoldable pub is_hex : ℕ → Bool
is_hex c = not ((ltb c b'0' || ltb b'9' c) && (ltb c b'a' || ltb b'f' c))

-- The first code point that the loop over the hash rejects. The ones that it accepts are one byte each,
-- and a byte of a longer one is not among them.
unfoldable pub find_non_hex : List ℕ → Option ℕ
unfolding is_hex
find_non_hex [] = none
find_non_hex (c ∷ cs) =
    if is_hex c
    then find_non_hex cs
    else some (rune c (get_or cs 0 0) (get_or cs 1 0) (get_or cs 2 0)).0

-- Twice md5.Size, sha1.Size and sha256.Size.
unfoldable pub is_known_length : ℕ → Bool
is_known_length n = n == 32 || n == 40 || n == 64

check_size : List ℕ → PartialDigest → Result Digest
check_size instance_name p =
    if is_negative p.size_bytes
    then err (
        status invalid_argument (format "Invalid digest size: %d bytes" (number p.size_bytes ∷ [])))
    else ok (record { instance_name = instance_name; partial_digest = p })

check_hex : List ℕ → PartialDigest → Option ℕ → Result Digest
unfolding check_size
check_hex instance_name p (some c) = err (
    status invalid_argument
      (format "Non-hexadecimal character in digest hash: %#U" (number c ∷ [])))
check_hex instance_name p none = check_size instance_name p

unfoldable pub new_digest : List ℕ → Option PartialDigest → Result Digest
unfolding check_hex is_known_length
new_digest instance_name none = err (status invalid_argument (text "No digest provided"))
new_digest instance_name (some p) =
    if is_known_length (length p.hash)
    then check_hex instance_name p (find_non_hex p.hash)
    else err (
        status invalid_argument
          (format "Unknown digest hash length: %d characters" (number (length p.hash) ∷ [])))

unfoldable pub new_derived_digest : Digest → Option PartialDigest → Result Digest
unfolding new_digest
new_derived_digest d p = new_digest d.instance_name p

unfoldable pub get_hash_bytes : Digest → Option (List ℕ)
get_hash_bytes d = decode_string d.partial_digest.hash

pub data KeyFormat : Type 0 where
  without_instance with_instance : KeyFormat

unfoldable pub get_key : Digest → KeyFormat → List ℕ
get_key d without_instance = d.partial_digest.hash ++ b'-' ∷ format_int d.partial_digest.size_bytes
get_key d with_instance =
    d.partial_digest.hash
    ++ b'-' ∷ (format_int d.partial_digest.size_bytes ++ b'-' ∷ d.instance_name)

pub data Algorithm : Type 0 where
  md5 sha1 sha256 : Algorithm

unfoldable pub new_hasher : Digest → Option Algorithm
new_hasher d =
    if length d.partial_digest.hash == 32
    then some md5
    else if length d.partial_digest.hash == 40
    then some sha1
    else if length d.partial_digest.hash == 64
    then some sha256
    else none

-- What NewDigest promises: a hash of known length in lower-case hexadecimal, and a size that is no
-- negative number.
pub record IsDigest (d : Digest) : Type 0 where
  pub hex : AllHex d.partial_digest.hash
  pub known : is_known_length (length d.partial_digest.hash) ≡ true
  pub size : d.partial_digest.size_bytes < 2 ^ 63
