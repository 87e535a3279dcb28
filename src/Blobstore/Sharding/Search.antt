-- ===== src/Blobstore/Sharding/Search.antt =====
-- Every shard gets its weight.
use native.Mathlib.Decide.{dec_lt}
use bazel_buildbarn.Prelude.{
  ℕ, zero, suc, ◌+◌, ◌/◌, ◌^◌, ◌<◌, ◌≤◌, ◌≡◌, ◌↔◌, refl, sym, ap, ◌∙◌, inl, inr, List, [], ◌∷◌,
  Bool, true, false, ltb, length, get_or, take, arith, Bool-cases,
}
use bazel_buildbarn.Prelude.Word.{add64}
use bazel_buildbarn.Blobstore.Sharding.{
  accumulate, cumulative_weights, search_between, slot_below, shard_of_slot,
}

-- The first place at which a test holds that holds from some place on.
pub record IsFirst (f : ℕ → Bool) (i j r : ℕ) : Type 0 where
  pub low : i ≤ r
  pub high : r ≤ j
  pub no_before : (k : ℕ) → i ≤ k → k < r → f k ≡ false
  pub yes : r < j → f r ≡ true

-- Below `n`, a test that holds at a place holds at the later ones.
abbrev pub IsMonotone : ℕ → (ℕ → Bool) → Type 0
IsMonotone n f = (k m : ℕ) → k ≤ m → m < n → f k ≡ true → f m ≡ true

holds_at : (f : ℕ → Bool) (i h r : ℕ) → f h ≡ true → IsFirst f i h r → f r ≡ true
holds_at f i h r t p = elim (dec_lt r h) [
  | yes lower ↦ p.yes lower
  | no other ↦ let high = p.high in let same : r ≡ h = omega arith in rw same t
]

fails_before :
    (n : ℕ) (f : ℕ → Bool) (h j r k : ℕ)
    → IsMonotone n f
    → h < n
    → f h ≡ false
    → IsFirst f (h + 1) j r
    → k < r
    → f k ≡ false
fails_before n f h j r k mono below t p b = elim (dec_lt h k) [
  | yes later ↦ p.no_before k (omega arith) b
  | no other ↦ elim (Bool-cases (f k)) [
    | inl e ↦ let h' = mono k h (omega arith) below e in absurd (cc)
    | inr e ↦ e
  ]
]

search_between-IsFirst :
    (n : ℕ) (f : ℕ → Bool) (fuel i j : ℕ)
    → IsMonotone n f
    → i ≤ j
    → j ≤ n
    → j ≤ i + fuel
    → IsFirst f i j (search_between fuel f i j)
unfolding search_between
search_between-IsFirst n f zero i j mono le in_range enough = record {
  low = omega arith;
  high = le;
  no_before = λ k a b. absurd (omega arith);
  yes = λ h. absurd (omega arith);
}
search_between-IsFirst n f (suc fuel) i j mono le in_range enough = elim (Bool-cases (ltb i j)) [
  | inr e ↦
      let same : i ≡ j = ground arith in
      rw e (record {
        low = omega arith;
        high = le;
        no_before = λ k a b. absurd (omega arith);
        yes = λ h. absurd (omega arith);
      })
  | inl e ↦
      let lt : i < j = ground arith in
      let h = (i + j) / 2 in
      let bounds : (i ≤ h) × (h < j) = (omega arith, omega arith) in
      elim (Bool-cases (f h)) [
        | inl t ↦
            let r =
              search_between-IsFirst n f fuel i h mono bounds.0 (omega (arith, bounds))
                (omega (arith, bounds)) in
            rw (e, t)
              (record {
                low = r.low;
                high = let u = r.high in omega (arith, bounds);
                no_before = r.no_before;
                yes = λ q. holds_at f i h (search_between fuel f i h) t r;
              })
        | inr t ↦
            let r =
              search_between-IsFirst n f fuel (h + 1) j mono (omega (arith, bounds)) in_range
                (omega (arith, bounds)) in
            rw (e, t)
              (record {
                low = let u = r.low in omega (arith, bounds);
                high = r.high;
                no_before = λ k a b.
                    fails_before n f h j (search_between fuel f (h + 1) j) k mono
                      (omega (arith, bounds)) t r b;
                yes = r.yes;
              })
      ]
]

abbrev pub sum : List ℕ → ℕ
sum [] = 0
sum (w ∷ ws) = w + sum ws

-- The weights before a shard.
abbrev pub weight_before : List ℕ → ℕ → ℕ
weight_before weights i = sum (take i weights)

length-accumulate : (total : ℕ) (ws : List ℕ) → length (accumulate total ws) ≡ length ws
unfolding accumulate
length-accumulate total [] = refl
length-accumulate total (w ∷ ws) = ap suc (length-accumulate (add64 total w) ws)

get_or-accumulate :
    (total : ℕ) (ws : List ℕ) (i : ℕ)
    → i < length ws
    → total + sum ws < 2 ^ 64
    → get_or (accumulate total ws) i 0 ≡ total + weight_before ws (suc i)
unfolding accumulate
get_or-accumulate total [] i inside fits = absurd (omega arith)
get_or-accumulate total (w ∷ ws) zero inside fits = omega arith
get_or-accumulate total (w ∷ ws) (suc i) inside fits =
    let plain : add64 total w ≡ total + w = omega arith in
    rw plain (get_or-accumulate (total + w) ws i (omega arith) (omega arith) ∙ omega arith)

weight_before-le : (ws : List ℕ) (i j : ℕ) → i ≤ j → weight_before ws i ≤ weight_before ws j
weight_before-le ws zero j le = omega arith
weight_before-le [] (suc i) zero le = omega arith
weight_before-le [] (suc i) (suc j) le = omega arith
weight_before-le (w ∷ ws) (suc i) zero le = absurd (omega arith)
weight_before-le (w ∷ ws) (suc i) (suc j) le =
    let r = weight_before-le ws i j (omega arith) in omega arith

weight_before-length : (ws : List ℕ) → weight_before ws (length ws) ≡ sum ws
weight_before-length [] = refl
weight_before-length (w ∷ ws) = ap (λ n. w + n) (weight_before-length ws)

module _ (weights : List ℕ) (slot : ℕ) (fits : sum weights < 2 ^ 64)
    (inside : slot < sum weights) where
  abbrev test : ℕ → Bool
  test = slot_below (cumulative_weights weights) slot

  test-ok : (i : ℕ) → i < length weights → test i ≡ ltb slot (weight_before weights (suc i))
  unfolding cumulative_weights
  test-ok i h = ap (ltb slot) (get_or-accumulate 0 weights i h (omega (arith, fits)) ∙ omega arith)

  test-IsMonotone : IsMonotone (length weights) test
  test-IsMonotone k m le below t =
      let grows = weight_before-le weights (suc k) (suc m) (omega arith) in
      let at_k = test-ok k (omega arith) in
      let lower : ltb slot (weight_before weights (suc k)) ≡ true = sym at_k ∙ t in
      test-ok m below ∙ ground arith

  abbrev chosen : ℕ
  chosen = shard_of_slot (cumulative_weights weights) slot

  chosen-IsFirst : IsFirst test 0 (length weights) chosen
  unfolding shard_of_slot cumulative_weights
  chosen-IsFirst = rw (length-accumulate 0 weights) (
      search_between-IsFirst (length weights) test (length weights) 0 (length weights)
        test-IsMonotone (omega arith) (omega arith) (omega arith))

  last_weight : (m : ℕ) → length weights ≡ suc m → test m ≡ true
  last_weight m e =
      let whole = weight_before-length weights in
      let same : weight_before weights (suc m) ≡ sum weights = rw e at whole in
      test-ok m (omega arith) ∙ ground (arith, same)

  chosen_below : chosen < length weights
  chosen_below = elim (dec_lt chosen (length weights)) [
    | yes lower ↦ lower
    | no other ↦ absurd (past (length weights) refl (omega arith))
  ]
    where
      past : (n : ℕ) → length weights ≡ n → length weights ≤ chosen → ⊥
      past zero e beyond =
          let whole = weight_before-length weights in
          let none_left : 0 ≡ sum weights = rw e at whole in omega arith
      past (suc m) e beyond =
          let high = chosen-IsFirst.high in
          let at = last_weight m e in
          let not = chosen-IsFirst.no_before m (omega arith) (omega arith) in cc

  chosen_bounds :
      (weight_before weights chosen ≤ slot) × (slot < weight_before weights (suc chosen))
  chosen_bounds = (
    low chosen refl,
    let below = chosen_below in
        let at = test-ok chosen below in
        let holds = chosen-IsFirst.yes below in
        let h : ltb slot (weight_before weights (suc chosen)) ≡ true = sym at ∙ holds in
        ground arith,
  )
    where
      low : (c : ℕ) → chosen ≡ c → weight_before weights c ≤ slot
      low zero e = omega arith
      low (suc m) e =
          let below = chosen_below in
          let not = chosen-IsFirst.no_before m (omega arith) (omega arith) in
          let at = test-ok m (omega arith) in
          let h : ltb slot (weight_before weights (suc m)) ≡ false = sym at ∙ not in ground arith

  separate :
      (i : ℕ) → weight_before weights i ≤ slot → slot < weight_before weights (suc i) → chosen ≡ i
  separate i low high =
      let (l, h) = chosen_bounds in
      elim (dec_lt chosen i) [
        | yes lower ↦ let up = weight_before-le weights (suc chosen) i lower in absurd (omega arith)
        | no other ↦ elim (dec_lt i chosen) [
          | yes higher ↦
              let up = weight_before-le weights (suc i) chosen higher in absurd (omega arith)
          | no same ↦ omega arith
        ]
      ]

-- Of the slots below the total weight, which fits in 64 bits, the binary search over the cumulative
-- weights gives a shard exactly those that are past the weights of the shards before it and within its
-- own: as many slots as its weight. It gives no slot to anything that is not a shard.
pub shard_of_slot-weights :
    (weights : List ℕ) (slot i : ℕ)
    → sum weights < 2 ^ 64
    → slot < sum weights
    → ((shard_of_slot (cumulative_weights weights) slot ≡ i)
        ↔ ((weight_before weights i ≤ slot) × (slot < weight_before weights (suc i))))
      × (shard_of_slot (cumulative_weights weights) slot < length weights)
shard_of_slot-weights weights slot i fits inside = (
  (
    λ e. rw (← e) (chosen_bounds weights slot fits inside),
    λ (low, high). separate weights slot fits inside i low high,
  ),
  chosen_below weights slot fits inside,
)
