-- ===== src/Tests/Digests.antt =====
-- pkg/util
use bazel_buildbarn.Prelude.{ℕ, ◌≡◌, ◌↔◌, refl, List, [], ◌∷◌, some}
use bazel_buildbarn.Util.Status.{ok}
use bazel_buildbarn.Util.Digest.{IsDigest, new_digest, find_non_hex, new_hasher}
use bazel_buildbarn.Util.Digest.{md5}
use bazel_buildbarn.Util.Digest.Validation.{new_digest_iff}
use bazel_buildbarn.Util.Digest.Generator.{DigestGenerator, new_digest_generator}
use bazel_buildbarn.Tests.Data.{hello}

new_digest_iff_example :
    (new_digest (b'x' ∷ []) (some hello.partial_digest) ≡ ok hello)
    ↔ ((hello ≡ hello) × IsDigest hello)
new_digest_iff_example = new_digest_iff (b'x' ∷ []) hello.partial_digest hello

-- The digest is accepted.
new_digest-hello : new_digest (b'x' ∷ []) (some hello.partial_digest) ≡ ok hello
unfolding new_digest find_non_hex
new_digest-hello = refl

abbrev generator : DigestGenerator
generator = record { instance_name = b'x' ∷ []; algorithm = md5; hashed = []; size_bytes = 0 }

hello-generator : new_digest_generator hello ≡ some generator
unfolding new_digest_generator new_hasher
hello-generator = refl

abbrev pieces : List (List ℕ)
pieces = (1 ∷ 2 ∷ []) ∷ (3 ∷ []) ∷ []
