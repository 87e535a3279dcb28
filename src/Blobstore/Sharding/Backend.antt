-- ===== src/Blobstore/Sharding/Backend.antt =====
-- The backend that is chosen takes requests.
use bazel_buildbarn.Prelude.{
  ℕ, zero, suc, ◌+◌, ◌%◌, ◌^◌, ◌<◌, ◌≤◌, ◌≡◌, ◌≢◌, refl, ap, ◌∙◌, List, [], ◌∷◌, some, Bool, false,
  ◌==◌, if◌then◌else◌, length, arith, Bool-cases, inl, inr,
}
use bazel_buildbarn.Prelude.Word.{add64}
use bazel_buildbarn.Util.Digest.{Digest, get_key}
use bazel_buildbarn.Blobstore.Sharding.{
  accumulate, cumulative_weights, shard_of_slot, total_weight, select, get_shard, hash_key,
  ShardingBlobAccess, get_backend,
}
use bazel_buildbarn.Blobstore.Sharding.Search.{sum, shard_of_slot-weights}

total_weight-accumulate :
    (w : ℕ) (ws : List ℕ) (total : ℕ)
    → total + sum (w ∷ ws) < 2 ^ 64
    → total_weight (accumulate total (w ∷ ws)) ≡ total + sum (w ∷ ws)
unfolding accumulate
total_weight-accumulate w [] total fits = omega arith
total_weight-accumulate w (v ∷ ws) total fits =
    let plain : add64 total w ≡ total + w = omega arith in
    ap (λ t. total_weight (accumulate t (v ∷ ws))) plain
    ∙ total_weight-accumulate v ws (total + w) (omega arith)
    ∙ omega arith

total_weight-cumulative_weights :
    (weights : List ℕ)
    → sum weights < 2 ^ 64
    → total_weight (cumulative_weights weights) ≡ sum weights
unfolding cumulative_weights accumulate
total_weight-cumulative_weights [] fits = refl
total_weight-cumulative_weights (w ∷ ws) fits =
    total_weight-accumulate w ws 0 (omega (arith, fits)) ∙ omega arith

module _ (sequence : ℕ → ℕ → ℕ) (weights : List ℕ) (fits : sum weights < 2 ^ 64)
    (some_weight : 0 < sum weights) where
  -- The shard that the number `i` of the sequence stands for.
  abbrev pub shard : ℕ → ℕ → ℕ
  shard seed i =
      shard_of_slot (cumulative_weights weights)
        (sequence seed i % total_weight (cumulative_weights weights))

  shard_below : (seed i : ℕ) → shard seed i < length weights
  shard_below seed i =
      let whole = total_weight-cumulative_weights weights fits in
      let slot_below : sequence seed i % total_weight (cumulative_weights weights) < sum weights =
        rw whole (omega arith) in
      (shard_of_slot-weights weights _ 0 fits slot_below).1

  select_first :
      (drained : ℕ → Bool) (fuel seed i n : ℕ)
      → i ≤ n
      → n < i + fuel
      → drained (shard seed n) ≡ false
      → (k : ℕ) × (select sequence fuel seed (cumulative_weights weights) drained i
          ≡ some (shard seed k))
        × (k ≤ n)
        × (drained (shard seed k) ≡ false)
  unfolding select
  select_first drained zero seed i n low high up = absurd (omega arith)
  select_first drained (suc fuel) seed i n low high up =
      elim (Bool-cases (drained (shard seed i))) [
        | inr open_ ↦ (i, rw open_, low, open_)
        | inl down ↦
            let other : i ≢ n = λ e. (let same = rw (← e) at up in absurd (cc)) in
            let (k, e, le, live) =
              select_first drained fuel seed (i + 1) n (omega arith) (omega arith) up in
            (k, rw down e, le, live)
      ]

-- If one of the first `fuel` numbers of the sequence for the hash of a digest's key stands for a shard
-- that is not drained, getBackend ends, and chooses a backend that exists and is not drained. The
-- weights are not all zero, and fit in 64 bits.
pub get_backend_undrained :
    (sequence : ℕ → ℕ → ℕ) (weights : List ℕ) (fuel n : ℕ) (ba : ShardingBlobAccess)
    (digest : Digest)
    → sum weights < 2 ^ 64
    → 0 < sum weights
    → ba.cumulative ≡ cumulative_weights weights
    → n < fuel
    → (let h = hash_key ba.hash_initialization (get_key digest ba.key_format) in
        ba.drained (
          shard_of_slot
            (cumulative_weights weights)
            (sequence (if h == 0 then 1 else h) n % total_weight (cumulative_weights weights)))
        ≡ false)
    → (index : ℕ) × (get_backend sequence fuel ba digest ≡ some index)
      × (ba.drained index ≡ false)
      × (index < length weights)
unfolding get_backend get_shard
get_backend_undrained sequence weights fuel n ba digest fits some_weight built within up =
    let h = hash_key ba.hash_initialization (get_key digest ba.key_format) in
    let seed = if h == 0 then 1 else h in
    let (k, e, le, live) =
      select_first sequence weights fits some_weight ba.drained fuel seed 0 n (omega arith)
        (omega (arith, within)) up in
    (
      shard sequence weights fits some_weight seed k,
      rw built e,
      live,
      shard_below sequence weights fits some_weight seed k,
    )
