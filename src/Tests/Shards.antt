-- ===== src/Tests/Shards.antt =====
-- pkg/blobstore/sharding
use bazel_buildbarn.Prelude.{ℕ, ◌<◌, ◌≤◌, ◌≡◌, ◌↔◌, refl, List, [], ◌∷◌, some, false, ◌==◌, arith}
use bazel_buildbarn.Util.Digest.{without_instance}
use bazel_buildbarn.Blobstore.Sharding.{
  cumulative_weights, shard_of_slot, search_between, ShardingBlobAccess, get_backend,
}
use bazel_buildbarn.Blobstore.Sharding.Search.{weight_before, shard_of_slot-weights}
use bazel_buildbarn.Blobstore.Sharding.Backend.{get_backend_undrained}
use bazel_buildbarn.Tests.Data.{hello}

abbrev weights : List ℕ
weights = 1 ∷ 4 ∷ 2 ∷ 5 ∷ 3 ∷ []

shard_of_slot-weights_example :
    ((shard_of_slot (cumulative_weights weights) 6 ≡ 2)
      ↔ ((weight_before weights 2 ≤ 6) × (6 < weight_before weights 3)))
    × (shard_of_slot (cumulative_weights weights) 6 < 5)
shard_of_slot-weights_example = shard_of_slot-weights weights 6 2 (omega arith) (omega arith)

-- The second backend is drained.
abbrev shards : ShardingBlobAccess
shards = record {
  cumulative = cumulative_weights weights;
  drained = λ i. i == 1;
  key_format = without_instance;
  hash_initialization = 14695981039346656037;
}

-- A sequence that counts.
abbrev counting : ℕ → ℕ → ℕ
counting seed i = i

get_backend_undrained_example :
    (index : ℕ) × (get_backend counting 3 shards hello ≡ some index)
    × ((index == 1) ≡ false)
    × (index < 5)
unfolding cumulative_weights shard_of_slot search_between
get_backend_undrained_example =
    get_backend_undrained counting weights 3 0 shards hello (omega arith) (omega arith) refl
      (omega arith) refl
