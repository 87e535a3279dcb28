-- ===== src/Util/Digest/Generator.antt =====
-- DigestGenerator: the digest of data that is written in chunks.
use bazel_buildbarn.Prelude.{
  ℕ, ◌+◌, ◌*◌, ◌<◌, ◌^◌, ◌≡◌, List, [], ◌∷◌, ◌++◌, Option, none, some, true, arith, length,
  length-append, sym, refl, ◌∙◌, inl, inr, Option-cases,
}
use mathlib.Core.List.{append-nil, append_assoc}
use bazel_buildbarn.Prelude.Word.{add64}
use bazel_buildbarn.Prelude.Hex.{
  AllBytes, encode_to_string, encode_to_string-AllHex, length-encode_to_string,
  decode-encode_to_string,
}
use bazel_buildbarn.Util.Digest.Defs.{
  Digest, Algorithm, is_known_length, new_hasher, get_hash_bytes, IsDigest,
}

-- crypto/md5, crypto/sha1 and crypto/sha256 as hash.Hash: a sum over all the bytes written.
pub record Hashes : Type 0 where
  pub sum : Algorithm → List ℕ → List ℕ

-- A hash has the size that its package documents, and consists of bytes.
pub record IsHashes (h : Hashes) : Type 0 where
  pub size : (a : Algorithm) (b : List ℕ) → is_known_length (2 * length (h.sum a b)) ≡ true
  pub bytes : (a : Algorithm) (b : List ℕ) → AllBytes (h.sum a b)

pub record DigestGenerator : Type 0 where
  pub instance_name : List ℕ
  pub algorithm : Algorithm
  pub hashed : List ℕ
  pub size_bytes : ℕ

start : List ℕ → Option Algorithm → Option DigestGenerator
start i none = none
start i (some a) = some (record { instance_name = i; algorithm = a; hashed = []; size_bytes = 0 })

unfoldable pub new_digest_generator : Digest → Option DigestGenerator
unfolding start
new_digest_generator d = start d.instance_name (new_hasher d)

-- A hash.Hash never fails to write.
unfoldable pub write : DigestGenerator → List ℕ → DigestGenerator
write g p = record g { hashed = g.hashed ++ p; size_bytes = add64 g.size_bytes (length p) }

module _ (hashes : Hashes) where
  unfoldable pub sum : DigestGenerator → Digest
  sum g = record {
    instance_name = g.instance_name;
    partial_digest = record {
      hash = encode_to_string (hashes.sum g.algorithm g.hashed);
      size_bytes = g.size_bytes;
    };
  }

unfoldable pub write_all : DigestGenerator → List (List ℕ) → DigestGenerator
unfolding write
write_all g [] = g
write_all g (p ∷ ps) = write_all (write g p) ps

abbrev pub flatten : List (List ℕ) → List ℕ
flatten [] = []
flatten (p ∷ ps) = p ++ flatten ps

write_all_hashed :
    (g : DigestGenerator) (ps : List (List ℕ)) → (write_all g ps).hashed ≡ g.hashed ++ flatten ps
unfolding write_all
write_all_hashed g [] = sym (append-nil g.hashed)
write_all_hashed g (p ∷ ps) = write_all_hashed (write g p) ps ∙ append_assoc g.hashed p (flatten ps)

write_all_size :
    (g : DigestGenerator) (ps : List (List ℕ))
    → g.size_bytes + length (flatten ps) < 2 ^ 63
    → (write_all g ps).size_bytes ≡ g.size_bytes + length (flatten ps)
unfolding write_all
write_all_size g [] h = omega arith
write_all_size g (p ∷ ps) h =
    let split = length-append p (flatten ps) in
    let fits : add64 g.size_bytes (length p) ≡ g.size_bytes + length p = omega arith in
    write_all_size (write g p) ps (unfold write in omega arith) ∙ (unfold write in omega arith)

write_all_fixed :
    (g : DigestGenerator) (ps : List (List ℕ))
    → ((write_all g ps).instance_name ≡ g.instance_name)
      × ((write_all g ps).algorithm ≡ g.algorithm)
unfolding write_all
write_all_fixed g [] = (refl, refl)
write_all_fixed g (p ∷ ps) = write_all_fixed (write g p) ps

-- What the generator of a digest starts from.
record Fresh (d : Digest) (g : DigestGenerator) : Type 0 where
  name : g.instance_name ≡ d.instance_name
  nothing : g.hashed ≡ []
  none_counted : g.size_bytes ≡ 0
  hasher : new_hasher d ≡ some g.algorithm

new_digest_generator-Fresh :
    (d : Digest) (g : DigestGenerator) → new_digest_generator d ≡ some g → Fresh d g
unfolding new_digest_generator
new_digest_generator-Fresh d g started = elim (Option-cases (new_hasher d)) [
  | inl e ↦ absurd (ground (arith, e))
  | inr (a, e) ↦ let same = rw (e, start) at started in ground (arith, e, same)
]

-- Writing any chunks of fewer than 2 ^ 63 bytes in all into a fresh generator of a digest `d` and
-- taking the sum gives a digest that NewDigest would accept, in the instance of `d`, whose size is
-- the number of bytes written and whose hash bytes are the sum, by the algorithm of `d`, over the
-- chunks joined in order.
pub sum-write_all :
    (hashes : Hashes) (d : Digest) (g : DigestGenerator) (ps : List (List ℕ))
    → IsHashes hashes
    → new_digest_generator d ≡ some g
    → length (flatten ps) < 2 ^ 63
    → IsDigest (sum hashes (write_all g ps))
      × ((sum hashes (write_all g ps)).instance_name ≡ d.instance_name)
      × ((sum hashes (write_all g ps)).partial_digest.size_bytes ≡ length (flatten ps))
      × (new_hasher d ≡ some g.algorithm)
      × (get_hash_bytes (sum hashes (write_all g ps)) ≡ some (hashes.sum g.algorithm (flatten ps)))
unfolding sum new_digest_generator get_hash_bytes
sum-write_all hashes d g ps laws started fits =
    let f = new_digest_generator-Fresh d g started in
    let fixed = write_all_fixed g ps in
    let hashed = write_all_hashed g ps in
    let size = write_all_size g ps (rw f.none_counted (omega arith)) in
    let total : (write_all g ps).size_bytes ≡ length (flatten ps) = omega (arith, f.none_counted) in
    let joined : (write_all g ps).hashed ≡ flatten ps = rw hashed (rw f.nothing) in
    let a = (write_all g ps).algorithm in
    let sum_bytes = hashes.sum a (write_all g ps).hashed in
    (
      record {
        hex = encode_to_string-AllHex sum_bytes (laws.bytes a _);
        known = rw (length-encode_to_string sum_bytes) (laws.size a _);
        size = rw total fits;
      },
      fixed.0 ∙ f.name,
      total,
      f.hasher,
      decode-encode_to_string sum_bytes (laws.bytes a _) ∙ cc (fixed.1, joined),
    )
