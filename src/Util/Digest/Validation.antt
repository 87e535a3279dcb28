-- ===== src/Util/Digest/Validation.antt =====
-- What NewDigest accepts, and what it then guarantees.
use bazel_buildbarn.Prelude.{
  ℕ, ◌≤◌, ◌*◌, ◌≡◌, ◌↔◌, refl, inl, inr, List, [], ◌∷◌, true, false, none, some, arith, length,
  Bool-cases, ◌⊎◌,
}
use bazel_buildbarn.Prelude.Word.{is_negative}
use bazel_buildbarn.Prelude.Hex.{AllHex, decode_string_total}
use bazel_buildbarn.Util.Status.{ok}
use bazel_buildbarn.Util.Digest.Defs.{
  PartialDigest, Digest, IsDigest, get_hash_bytes, new_hasher, Algorithm, is_known_length, is_hex,
  find_non_hex, new_digest,
}

is_hex_sound : (c : ℕ) → is_hex c ≡ true → ((48 ≤ c) × (c ≤ 57) ⊎ (97 ≤ c) × (c ≤ 102))
unfolding is_hex
is_hex_sound c h = ground arith

is_hex_complete : (c : ℕ) → ((48 ≤ c) × (c ≤ 57) ⊎ (97 ≤ c) × (c ≤ 102)) → is_hex c ≡ true
unfolding is_hex
is_hex_complete c h = ground arith

find_non_hex_sound : (s : List ℕ) → find_non_hex s ≡ none → AllHex s
unfolding find_non_hex
find_non_hex_sound [] h = tt
find_non_hex_sound (c ∷ s) h = elim (Bool-cases (is_hex c)) [
  | inl e ↦ (is_hex_sound c e, find_non_hex_sound s (ground (arith, e)))
  | inr e ↦ absurd (ground (arith, e))
]

find_non_hex_complete : (s : List ℕ) → AllHex s → find_non_hex s ≡ none
unfolding find_non_hex
find_non_hex_complete [] h = refl
find_non_hex_complete (c ∷ s) h = rw (is_hex_complete c h.0) (find_non_hex_complete s h.1)

accepted :
    (instance_name : List ℕ) (p : PartialDigest) (d : Digest)
    → new_digest instance_name (some p) ≡ ok d
    → (d ≡ record { instance_name = instance_name; partial_digest = p }) × IsDigest d
unfolding new_digest
accepted instance_name p d h =
    let known : is_known_length (length p.hash) ≡ true = ground arith in
    let clean : find_non_hex p.hash ≡ none = ground arith in
    let same : d ≡ record { instance_name = instance_name; partial_digest = p } = ground arith in
    (
      same,
      rw same
          (record { hex = find_non_hex_sound p.hash clean; known = known; size = ground arith }),
    )

accepts :
    (instance_name : List ℕ) (p : PartialDigest)
    → IsDigest (record { instance_name = instance_name; partial_digest = p })
    → new_digest instance_name (some p)
      ≡ ok (record { instance_name = instance_name; partial_digest = p })
unfolding new_digest
accepts instance_name p v =
    let size = v.size in
    let positive : is_negative p.size_bytes ≡ false = ground arith in
    rw (v.known, find_non_hex_complete p.hash v.hex, positive) refl

-- NewDigest returns a digest exactly when it is made of the instance name and the protocol's digest,
-- its hash is 32, 40 or 64 lower-case hexadecimal characters, and its size is not negative.
pub new_digest_iff :
    (instance_name : List ℕ) (p : PartialDigest) (d : Digest)
    → (new_digest instance_name (some p) ≡ ok d)
      ↔ ((d ≡ record { instance_name = instance_name; partial_digest = p }) × IsDigest d)
new_digest_iff instance_name p d =
    (accepted instance_name p d, λ (same, v). rw same (accepts instance_name p (rw same at v)))

known_half : (n : ℕ) → is_known_length n ≡ true → (n ≡ 2 * 16) ⊎ ((n ≡ 2 * 20) ⊎ (n ≡ 2 * 32))
unfolding is_known_length
known_half n h = ground arith

-- The bytes of a sum.
abbrev pub sum_size : Algorithm → ℕ
sum_size Algorithm.md5 = 16
sum_size Algorithm.sha1 = 20
sum_size Algorithm.sha256 = 32

-- The log.Fatal calls of GetHashBytes and NewHasher are never reached with a valid digest: the hash
-- decodes to half as many bytes as it has characters, and one of the three algorithms is chosen,
-- whose sum has that number of bytes.
pub valid_digest_is_usable :
    (d : Digest)
    → IsDigest d
    → (algorithm : Algorithm) × (bs : List ℕ) × (new_hasher d ≡ some algorithm)
      × (get_hash_bytes d ≡ some bs)
      × (length bs ≡ sum_size algorithm)
unfolding get_hash_bytes new_hasher
valid_digest_is_usable d v = elim (known_half (length d.partial_digest.hash) v.known) [
  | inl e ↦
      let (bs, decoded, size) = decode_string_total 16 d.partial_digest.hash v.hex e in
      (Algorithm.md5, bs, rw e, decoded, size)
  | inr (inl e) ↦
      let (bs, decoded, size) = decode_string_total 20 d.partial_digest.hash v.hex e in
      (Algorithm.sha1, bs, rw e, decoded, size)
  | inr (inr e) ↦
      let (bs, decoded, size) = decode_string_total 32 d.partial_digest.hash v.hex e in
      (Algorithm.sha256, bs, rw e, decoded, size)
]
