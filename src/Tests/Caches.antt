-- ===== src/Tests/Caches.antt =====
-- The caches of pkg/cas, and the shards of pkg/blobstore/sharding.
use bazel_buildbarn.Prelude.{
  ◌⊎◌, ℕ, ◌%◌, ◌≡◌, refl, ap, inl, inr, List, [], ◌∷◌, none, some, true, length, arith, Member, map,
}
use bazel_buildbarn.Util.Status.{Error, Result, ok}
use bazel_buildbarn.Util.Digest.{Digest, without_instance, get_key}
use bazel_buildbarn.Util.KeyMap.{no_keys}
use bazel_buildbarn.Blobstore.BlobAccess.Laws.{IsStore}
use bazel_buildbarn.Blobstore.Sharding.Access.{sharding_blob_access}
use bazel_buildbarn.Blobstore.Sharding.Refinement.{shard_view, sharding-IsStore}
use bazel_buildbarn.Cas.Hardlinking.{Surroundings, HardlinkingStorage, get_file_cached, file_key}
use bazel_buildbarn.Cas.Hardlinking.Limits.{IsCache}
use bazel_buildbarn.Cas.Hardlinking.Files.{get_file_cached-IsCache}
use bazel_buildbarn.Cas.DirectoryCaching.{DirectoryCache, get_directory}
use bazel_buildbarn.Cas.DirectoryCaching.Invariant.{IsDirectoryCache}
use bazel_buildbarn.Cas.DirectoryCaching.Lookups.{Outcome, get_directory-Outcome}
use bazel_buildbarn.Tests.Data.{hello}
use bazel_buildbarn.Tests.Memory.{memory, view, NotFound, memory-IsStore}

-- Everything succeeds, and the first of a range is drawn.
abbrev calm : Surroundings (Unit {0}) ℕ
calm = record {
  intn = λ w n. (0, w);
  remove = λ w key. (none, w);
  link = λ w key target. (none, w);
  link_to_cache = λ w target key. (none, w);
  get_file = λ w digest target x. (none, w);
}

abbrev no_files : HardlinkingStorage
no_files = record {
  files_present_list = [];
  files_present_size = no_keys;
  files_present_total_size = 0;
}

no_files-IsCache : IsCache 2 10 no_files
no_files-IsCache = record {
  consistent = record {
    unique = tt;
    listed = λ key. (λ m. absurd m, λ (size, e). absurd (cc));
    total = refl;
    small = λ key size e. absurd (cc);
    word = omega arith;
  };
  files = inl (omega arith);
  size = inl (omega arith);
}

get_file_cached-IsCache_example :
    (let (e, (cas', w')) = get_file_cached calm without_instance 2 10 no_files hello 1 true tt in
      IsCache 2 10 cas'
      × (((x : Error) × (e ≡ some x))
          ⊎ ((size : ℕ) × (cas'.files_present_size (file_key without_instance hello true)
                ≡ some size))))
get_file_cached-IsCache_example =
    get_file_cached-IsCache calm without_instance 2 10 no_files hello 1 true tt
      (λ w n positive. positive) (omega arith) (omega arith) (omega arith) no_files-IsCache

abbrev no_directories : DirectoryCache ℕ
no_directories = record { directories_present_list = []; directories_present_message = no_keys }

-- The storage has the length of the key for each key.
abbrev Content : List ℕ → ℕ → Type 0
Content key v = v ≡ length key

abbrev download : Unit {0} → Digest → Result ℕ × Unit {0}
download w digest = (ok (length (get_key digest without_instance)), w)

no_directories-IsDirectoryCache : IsDirectoryCache Content 1 no_directories
no_directories-IsDirectoryCache = record {
  unique = tt;
  listed = λ key. (λ m. absurd m, λ (v, e). absurd (cc));
  content = λ key v e. absurd (cc);
  limited = omega arith;
}

get_directory-Outcome_example :
    Outcome Content
      (λ w n. (0, w))
      download
      without_instance
      1
      (get_key hello without_instance)
      (get_directory (λ w n. (0, w)) download without_instance 1 no_directories hello tt)
get_directory-Outcome_example =
    get_directory-Outcome Content (λ w n. (0, w)) download without_instance 1 no_directories hello
      tt (omega arith) (omega arith) (λ w n positive. positive) (λ w d v e. cc) (λ w d e. cc)
      no_directories-IsDirectoryCache

-- Two shards, for the digests of even and of odd size.
abbrev parity : Digest → ℕ
parity digest = digest.partial_digest.size_bytes % 2

parity_lem :
    (digests : List Digest) (digest : Digest)
    → Member digest digests
    → Member (parity digest) (map parity digests)
parity_lem [] digest m = absurd m
parity_lem (d ∷ digests) digest (inl e) = inl (ap parity e)
parity_lem (d ∷ digests) digest (inr m) = inr (parity_lem digests digest m)

sharding-IsStore_example :
    IsStore
      (sharding_blob_access (λ i. memory) parity (λ digests. map parity digests))
      (shard_view parity (λ i. view))
      NotFound
sharding-IsStore_example =
    sharding-IsStore (λ i. memory) parity (λ digests. map parity digests) (λ i. view) NotFound
      (λ i. memory-IsStore) parity_lem
