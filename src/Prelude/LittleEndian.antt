-- ===== src/Prelude/LittleEndian.antt =====
-- encoding/binary's little-endian byte order, and byte strings that are fields laid end to end.
use Prim.Native.Nat.{ℕ, zero, suc, ◌+◌, ◌*◌, ◌/◌, ◌%◌, ◌^◌, ◌<◌}
use mathlib.Core.Path.{◌≡◌, refl, ap}
use mathlib.Core.List.{List, [], ◌∷◌, ◌++◌}
use native.Mathlib.Omega.{arith}
use bazel_buildbarn.Prelude.Lists.{length, take, drop}

-- PutUint32 and PutUint64, for `n` bytes
unfoldable pub encode : ℕ → ℕ → List ℕ
encode zero v = []
encode (suc n) v = v % 256 ∷ encode n (v / 256)

-- Uint32 and Uint64, of all the bytes given
unfoldable pub decode : List ℕ → ℕ
decode [] = 0
decode (b ∷ bs) = b + 256 * decode bs

pub length-encode : (n v : ℕ) → length (encode n v) ≡ n
unfolding encode
length-encode zero v = refl
length-encode (suc n) v = ap suc (length-encode n (v / 256))

-- The numbers that `n` bytes can hold.
unfoldable pub capacity : ℕ → ℕ
capacity zero = 1
capacity (suc n) = 256 * capacity n

pub decode-encode : (n v : ℕ) → v < capacity n → decode (encode n v) ≡ v
unfolding encode decode capacity
decode-encode zero v h = omega arith
decode-encode (suc n) v h = omega (arith, decode-encode n (v / 256) (omega arith))

pub capacity-4 : capacity 4 ≡ 2 ^ 32
unfolding capacity
capacity-4 = refl

pub capacity-8 : capacity 8 ≡ 2 ^ 64
unfolding capacity
capacity-8 = refl

module _ {ℓ} {A : Type ℓ} where
  pub take-append : (xs ys : List A) → take (length xs) (xs ++ ys) ≡ xs
  take-append [] ys = refl
  take-append (x ∷ xs) ys = ap (◌∷◌ x) (take-append xs ys)

  pub drop-append : (xs ys : List A) → drop (length xs) (xs ++ ys) ≡ ys
  drop-append [] ys = refl
  drop-append (x ∷ xs) ys = drop-append xs ys
