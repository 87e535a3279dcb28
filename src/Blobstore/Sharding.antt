-- ===== src/Blobstore/Sharding.antt =====
-- The choice of a backend by the hash of a digest: pkg/blobstore/sharding/weighted_shard_permuter.go, and
-- getBackend of sharding_blob_access.go. The pseudo-random sequence is that of another package.
pub mod Search
pub mod Backend
pub mod Access
pub mod Refinement
use Prim.Native.Nat.{bit_xor}
use bazel_buildbarn.Prelude.{
  ℕ, zero, suc, ◌+◌, ◌-◌, ◌*◌, ◌/◌, ◌%◌, ◌^◌, List, [], ◌∷◌, Option, none, some, Bool, true, false,
  ◌&&◌, leb, ltb, ◌==◌, if◌then◌else◌, length, get_elem?, get_or, drop,
}
use bazel_buildbarn.Prelude.Word.{add64, mul64}
use bazel_buildbarn.Prelude.Utf8.{runes}
use bazel_buildbarn.Util.Digest.{Digest, KeyFormat, get_key}

-- The loop of NewWeightedShardPermuter
accumulate : ℕ → List ℕ → List ℕ
accumulate total [] = []
accumulate total (w ∷ ws) = add64 total w ∷ accumulate (add64 total w) ws

unfoldable pub cumulative_weights : List ℕ → List ℕ
unfolding accumulate
cumulative_weights weights = accumulate 0 weights

-- sort.Search, between `i` and `j`; the fuel is never used up.
unfoldable pub search_between : ℕ → (ℕ → Bool) → ℕ → ℕ → ℕ
search_between zero f i j = i
search_between (suc fuel) f i j =
    let h = (i + j) / 2 in
    let left = search_between fuel f i h in
    let right = search_between fuel f (h + 1) j in
    if ltb i j then (if f h then left else right) else i

-- `slot < s.cumulativeWeights[i]`
abbrev pub slot_below : List ℕ → ℕ → ℕ → Bool
slot_below cumulative slot i = ltb slot (get_or cumulative i 0)

unfoldable pub shard_of_slot : List ℕ → ℕ → ℕ
shard_of_slot cumulative slot =
    search_between (length cumulative) (slot_below cumulative slot) 0 (length cumulative)

-- The last cumulative weight.
abbrev pub total_weight : List ℕ → ℕ
total_weight [] = 0
total_weight (w ∷ []) = w
total_weight (w ∷ v ∷ ws) = total_weight (v ∷ ws)

module _ (sequence : ℕ → ℕ → ℕ) where
  -- The loop of GetShard with the selector of getBackend, from the number `i` of the sequence on. With
  -- fuel for so many shards; the source goes on for ever if all shards are drained.
  unfoldable pub select : ℕ → ℕ → List ℕ → (ℕ → Bool) → ℕ → Option ℕ
  select zero seed cumulative drained i = none
  select (suc fuel) seed cumulative drained i =
      let index = shard_of_slot cumulative (sequence seed i % total_weight cumulative) in
      let rest = select fuel seed cumulative drained (i + 1) in
      if drained index then rest else some index

  unfoldable pub get_shard : ℕ → List ℕ → (ℕ → Bool) → ℕ → Option ℕ
  get_shard fuel cumulative drained hash =
      select fuel (if hash == 0 then 1 else hash) cumulative drained 0

-- FNV-1a over the characters of the key
hash_runes : ℕ → List ℕ → ℕ
hash_runes h [] = h
hash_runes h (c ∷ cs) = hash_runes (mul64 (bit_xor h c) 1099511628211) cs

unfoldable pub hash_key : ℕ → List ℕ → ℕ
unfolding hash_runes
hash_key initialization key = hash_runes initialization (runes key)

pub record ShardingBlobAccess : Type 0 where
  pub cumulative : List ℕ
  pub drained : ℕ → Bool
  pub key_format : KeyFormat
  pub hash_initialization : ℕ

-- getBackend: the index of the backend
unfoldable pub get_backend : (ℕ → ℕ → ℕ) → ℕ → ShardingBlobAccess → Digest → Option ℕ
get_backend sequence fuel ba digest =
    get_shard sequence fuel ba.cumulative ba.drained
      (hash_key ba.hash_initialization (get_key digest ba.key_format))
