-- ===== src/Environment.antt =====
-- pkg/environment: where build actions run. manager.go, environment.go, and singleton_manager.go. `W` is
-- the state of all that a manager acts on, and `E` are its environments. Acquire may wait, which is
-- `none`: then nothing happens until the state is another.
pub mod Concurrent
pub mod Sharing
pub mod Directories
use bazel_buildbarn.Prelude.{
  ℕ, ◌+◌, ◌-◌, ◌≤◌, ◌<◌, ◌≡◌, refl, ◌⊎◌, inl, inr, List, [], ◌∷◌, Option, none, some, arith,
}
use bazel_buildbarn.Util.Status.{Result, ok, err, fatal, Error}
use bazel_buildbarn.Util.Digest.{Digest}

-- Platform properties are names and values.
abbrev pub Platform : Type 0
Platform = List (List ℕ × List ℕ)

pub record Manager (W E : Type 0) : Type 0 where
  pub acquire : W → Digest → Platform → Option (Result E × W)
  pub release : W → E → Option (Result (Unit {0}) × W)

-- The channel of the singleton manager holds its environment, or nothing.
abbrev singleton_acquire : {E : Type 0} → Option E → Option (Result E × Option E)
singleton_acquire none = none
singleton_acquire (some e) = some (ok e, none)

-- Sending to the channel waits when it is full.
abbrev singleton_release : {E : Type 0} → Option E → E → Option (Result (Unit {0}) × Option E)
singleton_release none e = some (ok tt, some e)
singleton_release (some _) e = none

unfoldable pub singleton_manager : {E : Type 0} → Manager (Option E) E
singleton_manager = record {
  acquire = λ channel digest platform. singleton_acquire channel;
  release = λ channel e. singleton_release channel e;
}

module _ {W E : Type 0} (manager : Manager W E) (out : W → ℕ) (capacity : ℕ) where
  -- After Acquire, one more environment is out, unless it fails.
  abbrev pub Acquired : ℕ → Option (Result E × W) → Type 0
  Acquired n none = ⊥
  Acquired n (some (ok e, w)) = out w ≡ n + 1
  Acquired n (some (err e, w)) = out w ≡ n
  Acquired n (some (fatal, w)) = ⊥

  abbrev pub Released : ℕ → Option (Result (Unit {0}) × W) → Type 0
  Released n none = ⊥
  Released n (some (ok _, w)) = out w + 1 ≡ n
  Released n (some (err e, w)) = ⊥
  Released n (some (fatal, w)) = ⊥

  -- The contract of managers: `out` is the number of environments that are acquired and not released.
  -- As long as they are fewer than the capacity, Acquire does not wait; and one that is out can be
  -- released.
  pub record IsManager : Type 0 where
    pub acquire :
        (w : W) (digest : Digest) (platform : Platform)
        → out w < capacity
        → Acquired (out w) (manager.acquire w digest platform)
    pub release : (w : W) (e : E) → 0 < out w → Released (out w) (manager.release w e)

abbrev pub taken : {E : Type 0} → Option E → ℕ
taken none = 1
taken (some _) = 0

singleton_acquire_lem :
    {E : Type 0} (channel : Option E) (digest : Digest) (platform : Platform)
    → taken channel < 1
    → Acquired singleton_manager taken 1 (taken channel) (singleton_acquire channel)
singleton_acquire_lem none digest platform free = absurd (omega arith)
singleton_acquire_lem (some e) digest platform free = refl

singleton_release_lem :
    {E : Type 0} (channel : Option E) (e : E)
    → 0 < taken channel
    → Released singleton_manager taken 1 (taken channel) (singleton_release channel e)
singleton_release_lem none e out = refl
singleton_release_lem (some _) e out = absurd (omega arith)

-- The singleton manager is one of capacity 1.
pub singleton_manager-IsManager : {E : Type 0} → IsManager (singleton_manager {E = E}) taken 1
unfolding singleton_manager
singleton_manager-IsManager = record {
  acquire = λ channel. singleton_acquire_lem channel;
  release = λ channel. singleton_release_lem channel;
}
