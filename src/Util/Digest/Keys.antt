-- ===== src/Util/Digest/Keys.antt =====
-- Keys identify digests, and a valid digest never reaches a log.Fatal.
use bazel_buildbarn.Prelude.{ℕ, ◌≡◌, List, [], ◌∷◌, arith}
use bazel_buildbarn.Prelude.Decimal.{Lacks, split_unique, format_int-Lacks, format_int-injective}
use bazel_buildbarn.Prelude.Hex.{AllHex}
use bazel_buildbarn.Util.Digest.Defs.{Digest, IsDigest, without_instance, with_instance, get_key}

AllHex-Lacks : (s : List ℕ) → AllHex s → Lacks b'-' s
AllHex-Lacks [] h = tt
AllHex-Lacks (c ∷ s) h = (omega arith, AllHex-Lacks s h.1)

-- Two valid digests with the same key in the format without the instance have the same hash and the
-- same size.
pub get_key-identifies_blob :
    (a b : Digest)
    → IsDigest a
    → IsDigest b
    → get_key a without_instance ≡ get_key b without_instance
    → a.partial_digest ≡ b.partial_digest
unfolding get_key
get_key-identifies_blob a b ha hb e =
    let (hash, size) =
      split_unique b'-' a.partial_digest.hash b.partial_digest.hash _ _ (AllHex-Lacks _ ha.hex)
        (AllHex-Lacks _ hb.hex) e in
    ground (arith, hash, format_int-injective _ _ ha.size hb.size size)

-- Two valid digests with the same key in the format with the instance are equal.
pub get_key-injective :
    (a b : Digest)
    → IsDigest a
    → IsDigest b
    → get_key a with_instance ≡ get_key b with_instance
    → a ≡ b
unfolding get_key
get_key-injective a b ha hb e =
    let (hash, rest) =
      split_unique b'-' a.partial_digest.hash b.partial_digest.hash _ _ (AllHex-Lacks _ ha.hex)
        (AllHex-Lacks _ hb.hex) e in
    let (size, instance_name) =
      split_unique b'-' _ _ _ _ (format_int-Lacks b'-' _ (omega arith) ha.size)
        (format_int-Lacks b'-' _ (omega arith) hb.size) rest in
    ground (arith, hash, format_int-injective _ _ ha.size hb.size size, instance_name)
