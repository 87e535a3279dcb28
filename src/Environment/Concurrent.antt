-- ===== src/Environment/Concurrent.antt =====
-- The manager that shares one environment: pkg/environment/concurrent_manager.go. Its mutex makes each
-- call one step.
use bazel_buildbarn.Prelude.{
  ℕ, ◌+◌, ◌-◌, ◌^◌, ◌<◌, ◌≡◌, ◌≢◌, refl, inl, inr, Option, none, some, false, ◌==◌, if◌then◌else◌,
  arith, Bool-cases,
}
use bazel_buildbarn.Prelude.Word.{add64, sub64}
use bazel_buildbarn.Util.Status.{Result, ok, err, fatal}
use bazel_buildbarn.Util.Digest.{Digest}
use bazel_buildbarn.Environment.{Manager, Platform, IsManager, Acquired, Released}

-- The state of the manager, and that of the one within.
pub record ConcurrentManager (W E : Type 0) : Type 0 where
  pub refcount : ℕ
  pub environment : Option E
  pub base_state : W

module _ {W E : Type 0} (base : Manager W E) where
  first_acquired :
      Option (Result E × W) → ConcurrentManager W E → Option (Result E × ConcurrentManager W E)
  first_acquired none em = none
  first_acquired (some (ok e, w)) em =
      some (ok e, record { refcount = add64 em.refcount 1; environment = some e; base_state = w })
  first_acquired (some (err x, w)) em = some (err x, record em { base_state = w })
  first_acquired (some (fatal, w)) em = some (fatal, record em { base_state = w })

  -- When the environment is there already. A nil environment is never returned.
  shared : Option E → ConcurrentManager W E → Option (Result E × ConcurrentManager W E)
  shared none em = some (fatal, em)
  shared (some e) em = some (ok e, record em { refcount = add64 em.refcount 1 })

  unfoldable pub acquire :
      ConcurrentManager W E → Digest → Platform → Option (Result E × ConcurrentManager W E)
  unfolding first_acquired shared
  acquire em digest platform =
      if em.refcount == 0
      then first_acquired (base.acquire em.base_state digest platform) em
      else shared em.environment em

  last_released :
      Option (Result (Unit {0}) × W)
      → ConcurrentManager W E
      → Option (Result (Unit {0}) × ConcurrentManager W E)
  last_released none em = none
  last_released (some (r, w)) em = some (r, record em { base_state = w })

  unfoldable pub release :
      ConcurrentManager W E → E → Option (Result (Unit {0}) × ConcurrentManager W E)
  unfolding last_released
  release em e =
      let less = record em { refcount = sub64 em.refcount 1 } in
      if em.refcount == 0
      then some (fatal, em)
      else if em.refcount - 1 == 0
      then last_released (base.release em.base_state e) less
      else some (ok tt, less)

  unfoldable pub concurrent_manager : Manager (ConcurrentManager W E) E
  concurrent_manager = record { acquire = acquire; release = release }

-- The environment is there while there are consumers, and the manager within has given out one
-- environment then, and none otherwise.
pub record IsShared {W E : Type 0} (out : W → ℕ) (em : ConcurrentManager W E) : Type 0 where
  pub counted : em.refcount < 2 ^ 64
  pub base_count : out em.base_state ≡ (if em.refcount == 0 then 0 else 1)
  pub there : em.refcount ≢ 0 → (e : E) × (em.environment ≡ some e)

module _ {W E : Type 0} (base : Manager W E) (out : W → ℕ) (law : IsManager base out 1) where
  -- What Acquire leaves: the environment is the shared one.
  abbrev pub Joined : ConcurrentManager W E → Option (Result E × ConcurrentManager W E) → Type 0
  Joined em none = ⊥
  Joined em (some (ok e, em')) =
      (em'.refcount ≡ em.refcount + 1)
      × (em'.environment ≡ some e)
      × (em.refcount ≢ 0 → em'.environment ≡ em.environment)
      × IsShared out em'
  Joined em (some (err e, em')) = (em.refcount ≡ 0) × (em'.refcount ≡ 0) × IsShared out em'
  Joined em (some (fatal, em')) = ⊥

  abbrev pub Left :
      ConcurrentManager W E → Option (Result (Unit {0}) × ConcurrentManager W E) → Type 0
  Left em none = ⊥
  Left em (some (ok _, em')) =
      (em'.refcount + 1 ≡ em.refcount) × (em'.environment ≡ em.environment) × IsShared out em'
  Left em (some (err e, em')) = ⊥
  Left em (some (fatal, em')) = ⊥

  first_acquired_lem :
      (em : ConcurrentManager W E) (outcome : Option (Result E × W))
      → IsShared out em
      → em.refcount ≡ 0
      → Acquired base out 1 0 outcome
      → Joined em (first_acquired base outcome em)
  unfolding first_acquired
  first_acquired_lem em none h zero' a = a
  first_acquired_lem em (some (ok e, w)) h zero' a =
      let one : add64 em.refcount 1 ≡ 1 = omega arith in
      (
        omega arith,
        refl,
        λ n. absurd (n zero'),
        record {
          counted = omega arith;
          base_count = rw one (omega (arith, a));
          there = λ n. (e, refl);
        },
      )
  first_acquired_lem em (some (err x, w)) h zero' a = (
    zero',
    zero',
    record { counted = h.counted; base_count = rw zero' a; there = λ n. absurd (n zero') },
  )
  first_acquired_lem em (some (fatal, w)) h zero' a = a

  shared_lem :
      (em : ConcurrentManager W E) (o : Option E)
      → IsShared out em
      → em.refcount ≢ 0
      → em.refcount + 1 < 2 ^ 64
      → em.environment ≡ o
      → Joined em (shared base o em)
  unfolding shared
  shared_lem em none h n small e = absurd (let (x, f) = h.there n in cc)
  shared_lem em (some e) h n small same =
      let more : add64 em.refcount 1 ≡ em.refcount + 1 = omega arith in
      let nonzero : (em.refcount == 0) ≡ false = ground (arith, n) in
      let nonzero' : (em.refcount + 1 == 0) ≡ false = ground arith in
      let count : out em.base_state ≡ 1 = rw nonzero at h.base_count in
      (
        more,
        same,
        λ m. refl,
        record {
          counted = omega (arith, more);
          base_count = rw (more, nonzero') count;
          there = λ m. (e, same);
        },
      )

  pub acquire_lem :
      (em : ConcurrentManager W E) (digest : Digest) (platform : Platform)
      → IsShared out em
      → em.refcount + 1 < 2 ^ 64
      → Joined em (acquire base em digest platform)
  unfolding acquire
  acquire_lem em digest platform h small = elim (Bool-cases (em.refcount == 0)) [
    | inl e ↦
        let zero' : em.refcount ≡ 0 = ground (arith, e) in
        let none_out : out em.base_state ≡ 0 = rw e at h.base_count in
        rw e (
          first_acquired_lem em (base.acquire em.base_state digest platform) h zero'
            (rw none_out at (law.acquire em.base_state digest platform (omega (arith, none_out)))))
    | inr e ↦
        let n : em.refcount ≢ 0 = ground (arith, e) in
        rw e (shared_lem em em.environment h n small refl)
  ]

  last_released_lem :
      (em : ConcurrentManager W E) (outcome : Option (Result (Unit {0}) × W))
      → IsShared out em
      → em.refcount ≡ 1
      → Released base out 1 1 outcome
      → Left em (last_released base outcome record em { refcount = sub64 em.refcount 1 })
  unfolding last_released
  last_released_lem em none h one r = r
  last_released_lem em (some (ok _, w)) h one r =
      let nothing : sub64 em.refcount 1 ≡ 0 = omega arith in
      (
        omega arith,
        refl,
        record {
          counted = omega arith;
          base_count = rw nothing (omega (arith, r));
          there = λ n. absurd (n nothing);
        },
      )
  last_released_lem em (some (err x, w)) h one r = r
  last_released_lem em (some (fatal, w)) h one r = r

  pub release_lem :
      (em : ConcurrentManager W E) (e : E)
      → IsShared out em
      → em.refcount ≢ 0
      → Left em (release base em e)
  unfolding release
  release_lem em e h n =
      let nonzero : (em.refcount == 0) ≡ false = ground (arith, n) in
      let count : out em.base_state ≡ 1 = rw nonzero at h.base_count in
      let counted = h.counted in
      elim (Bool-cases (em.refcount - 1 == 0)) [
        | inl last ↦
            let one : em.refcount ≡ 1 = ground (arith, last, n) in
            rw (nonzero, last)
              (last_released_lem em (base.release em.base_state e) h one
                (rw count at (law.release em.base_state e (omega (arith, count)))))
        | inr more ↦
            let less : sub64 em.refcount 1 ≡ em.refcount - 1 = omega (arith, n) in
            rw (nonzero, more)
              (
                omega (arith, less, n),
                refl,
                record {
                  counted = omega (arith, less);
                  base_count = rw (less, more) count;
                  there = λ m. h.there n;
                },
              )
      ]
