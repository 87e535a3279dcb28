-- ===== src/Circular/Cursors.antt =====
-- pkg/blobstore/circular/cursors.go.
use bazel_buildbarn.Prelude.{
  ℕ, ◌+◌, ◌≤◌, ◌<◌, ◌^◌, ◌≡◌, Bool, true, ◌&&◌, ◌||◌, leb, ◌==◌, if◌then◌else◌, arith,
}
use bazel_buildbarn.Prelude.Word.{add64, is_negative}

pub record Cursors : Type 0 where
  pub read : ℕ
  pub write : ℕ

-- `if length < 1 { length = 1 }`
abbrev pub at_least_one : ℕ → ℕ
at_least_one length = if is_negative length || length == 0 then 1 else length

unfoldable pub contains : Cursors → ℕ → ℕ → Bool
contains c offset length =
    leb c.read offset && leb offset c.write && leb (add64 offset (at_least_one length)) c.write

-- Of a range that does not wrap around, Contains says that it lies between the cursors, an empty
-- range counting as one byte.
pub contains_bounds :
    (c : Cursors) (offset length : ℕ)
    → contains c offset length ≡ true
    → offset + at_least_one length < 2 ^ 64
    → (c.read ≤ offset) × (offset + at_least_one length ≤ c.write)
unfolding contains
contains_bounds c offset length h fits = ground arith
