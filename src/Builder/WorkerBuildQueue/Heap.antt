-- ===== src/Builder/WorkerBuildQueue/Heap.antt =====
-- Pop takes the job that is to be executed first.
use mathlib.Core.Path.{subst}
use native.Mathlib.Decide.{dec_lt}
use bazel_buildbarn.Prelude.{
  ℕ, suc, ◌+◌, ◌%◌, ◌^◌, ◌<◌, ◌≡◌, refl, sym, ap, ◌⊎◌, inl, inr, List, [], ◌∷◌, Option, none, some,
  Bool, true, false, ◌&&◌, ◌||◌, ltb, ◌==◌, length, arith, Bool-cases, Option-cases, get_elem?,
}
use bazel_buildbarn.Builder.WorkerBuildQueue.{
  Job, pop, less, less_in, less_at, priority, priority_below,
}

abbrev pub In : ℕ → List ℕ → Type 0
In x [] = ⊥
In x (y ∷ ys) = (x ≡ y) ⊎ In x ys

pub In_eq : {x y : ℕ} (ys : List ℕ) → x ≡ y → In y ys → In x ys
In_eq ys e m = subst (λ v. In v ys) (sym e) m

abbrev pub Distinct : List ℕ → Type 0
Distinct [] = Unit
Distinct (x ∷ xs) = (In x xs → ⊥) × Distinct xs

-- What holds of the first job and of the others.
pub record Popped (below : ℕ → ℕ → Bool) (all : List ℕ) (x : ℕ) (rest : List ℕ) : Type 0 where
  pub taken : In x all
  pub kept : (z : ℕ) → In z rest → In z all
  pub nothing_lost : (z : ℕ) → In z all → (z ≡ x) ⊎ In z rest
  pub shorter : length all ≡ suc (length rest)
  pub distinct : Distinct all → Distinct rest × (In x rest → ⊥)
  pub least : (z : ℕ) → In z rest → below z x ≡ false

-- An order in which Less is negatively transitive and asymmetric.
pub record IsOrder (below : ℕ → ℕ → Bool) : Type 0 where
  pub asymmetric : (x y : ℕ) → below x y ≡ true → below y x ≡ false
  pub through : (x y z : ℕ) → below x y ≡ false → below y z ≡ false → below x z ≡ false

pop-none : (below : ℕ → ℕ → Bool) (all : List ℕ) → pop below all ≡ none → all ≡ []
unfolding pop
pop-none below [] h = refl
pop-none below (y ∷ ys) h = elim (Option-cases (pop below ys)) [
  | inl e ↦ absurd (let h' = rw e at h in cc)
  | inr ((z, r), e) ↦ elim (Bool-cases (below z y)) [
    | inl lower ↦ absurd (let h' = rw (e, lower) at h in cc)
    | inr other ↦ absurd (let h' = rw (e, other) at h in cc)
  ]
]

module _ (below : ℕ → ℕ → Bool) (order : IsOrder below) where
  single-Popped : (y : ℕ) → Popped below (y ∷ []) y []
  single-Popped y = record {
    taken = inl refl;
    kept = λ z m. absurd m;
    nothing_lost = λ z m. m;
    shorter = refl;
    distinct = λ d. (tt, λ m. m);
    least = λ z m. absurd m;
  }

  lower-Popped :
      (y z : ℕ) (ys r : List ℕ)
      → Popped below ys z r
      → below z y ≡ true
      → Popped below (y ∷ ys) z (y ∷ r)
  lower-Popped y z ys r p lower = record {
    taken = inr p.taken;
    kept = λ w m. elim m [ inl e ↦ inl e | inr m' ↦ inr (p.kept w m') ];
    nothing_lost = λ w m. elim m [
      | inl e ↦ inr (inl e)
      | inr m' ↦ elim (p.nothing_lost w m') [ inl e ↦ inl e | inr q ↦ inr (inr q) ]
    ];
    shorter = ap suc p.shorter;
    distinct = λ (fresh, d). (
      (λ m. fresh (p.kept y m), (p.distinct d).0),
      λ m. elim m [ inl e ↦ fresh (In_eq ys (sym e) p.taken) | inr m' ↦ (p.distinct d).1 m' ],
    );
    least = λ w m. elim m [ inl e ↦ rw e (order.asymmetric z y lower) | inr m' ↦ p.least w m' ];
  }

  keep-Popped :
      (y z : ℕ) (ys r : List ℕ)
      → Popped below ys z r
      → below z y ≡ false
      → Popped below (y ∷ ys) y (z ∷ r)
  keep-Popped y z ys r p higher = record {
    taken = inl refl;
    kept = λ w m. elim m [ inl e ↦ inr (In_eq ys e p.taken) | inr m' ↦ inr (p.kept w m') ];
    nothing_lost = λ w m. elim m [ inl e ↦ inl e | inr m' ↦ inr (p.nothing_lost w m') ];
    shorter = ap suc p.shorter;
    distinct = λ (fresh, d). (
      ((p.distinct d).1, (p.distinct d).0),
      λ m. elim m [ inl e ↦ fresh (In_eq ys e p.taken) | inr m' ↦ fresh (p.kept y m') ],
    );
    least =
        λ w m. elim m [ inl e ↦ rw e higher | inr m' ↦ order.through w z y (p.least w m') higher ];
  }

  pub pop-Popped :
      (all : List ℕ) (x : ℕ) (rest : List ℕ)
      → pop below all ≡ some (x, rest)
      → Popped below all x rest
  unfolding pop
  pop-Popped [] x rest h = absurd (cc)
  pop-Popped (y ∷ ys) x rest h = elim (Option-cases (pop below ys)) [
    | inl e ↦
        let h' = rw e at h in
        let at : x ≡ y = cc in
        let others : rest ≡ [] = cc in rw (at, others, pop-none below ys e) (single-Popped y)
    | inr ((z, r), e) ↦ elim (Bool-cases (below z y)) [
      | inl lower ↦
          let h' = rw (e, lower) at h in
          let at : x ≡ z = cc in
          let others : rest ≡ y ∷ r = cc in
          rw (at, others) (lower-Popped y z ys r (pop-Popped ys z r e) lower)
      | inr higher ↦
          let h' = rw (e, higher) at h in
          let at : x ≡ y = cc in
          let others : rest ≡ z ∷ r = cc in
          rw (at, others) (keep-Popped y z ys r (pop-Popped ys z r e) higher)
    ]
  ]

pub less-asymmetric : {R : Type 0} (i j : Job R) → less i j ≡ true → less j i ≡ false
unfolding less priority_below
less-asymmetric i j h = ground arith

-- A pattern of a signed number, moved up so that the order is that of natural numbers.
moved_injective :
    (p q : ℕ) → p < 2 ^ 32 → q < 2 ^ 32 → (p + 2 ^ 31) % 2 ^ 32 ≡ (q + 2 ^ 31) % 2 ^ 32 → p ≡ q
moved_injective p q hp hq e = omega arith

abbrev before : ℕ → ℕ → ℕ → ℕ → ℕ → ℕ → Bool
before p a m q b n = ltb m n || p == q && ltb a b

before_through :
    (p a m q b n r c o : ℕ)
    → (m ≡ n → p ≡ q)
    → (p ≡ r → m ≡ o)
    → before p a m q b n ≡ false
    → before q b n r c o ≡ false
    → before p a m r c o ≡ false
before_through p a m q b n r c o same moved h h' = elim (dec_lt m n) [
  | yes lower ↦ absurd (ground arith)
  | no low ↦ elim (dec_lt n m) [
    | yes higher ↦ ground arith
    | no high ↦ let e : m ≡ n = omega arith in let e' = same e in ground arith
  ]
]

priority-lt : {R : Type 0} (i : Job R) → priority i < 2 ^ 32
priority-lt i = elim (Option-cases i.request.policy_priority) [
  | inl e ↦ rw e (omega arith)
  | inr (p, e) ↦ rw e (omega arith)
]

less-through : {R : Type 0} (i j k : Job R) → less i j ≡ false → less j k ≡ false → less i k ≡ false
unfolding less priority_below
less-through i j k h h' =
    before_through (priority i) i.insertion_order ((priority i + 2 ^ 31) % 2 ^ 32) (priority j)
      j.insertion_order ((priority j + 2 ^ 31) % 2 ^ 32) (priority k) k.insertion_order
      ((priority k + 2 ^ 31) % 2 ^ 32)
      (moved_injective (priority i) (priority j) (priority-lt i) (priority-lt j))
      (λ e. ap (λ p. (p + 2 ^ 31) % 2 ^ 32) e) h h'

less_at-asymmetric : {R : Type 0} (i j : Option (Job R)) → less_at i j ≡ true → less_at j i ≡ false
unfolding less_at
less_at-asymmetric (some i) (some j) h = less-asymmetric i j h
less_at-asymmetric (some i) none h = refl
less_at-asymmetric none j h = absurd (cc)

less_at-through :
    {R : Type 0} (i j k : Option (Job R))
    → less_at i j ≡ false
    → less_at j k ≡ false
    → less_at i k ≡ false
unfolding less_at
less_at-through (some i) (some j) (some k) h h' = less-through i j k h h'
less_at-through (some i) (some j) none h h' = absurd (cc)
less_at-through (some i) none k h h' = absurd (cc)
less_at-through none j k h h' = refl

pub less_in-IsOrder : {R : Type 0} (jobs : List (Job R)) → IsOrder (less_in jobs)
unfolding less_in
less_in-IsOrder jobs = record {
  asymmetric = λ x y. less_at-asymmetric (get_elem? jobs x) (get_elem? jobs y);
  through = λ x y z. less_at-through (get_elem? jobs x) (get_elem? jobs y) (get_elem? jobs z);
}
