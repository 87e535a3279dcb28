-- ===== src/Prelude/Utf8.antt =====
-- What Go's `range` over a string yields: the code points of its UTF-8, and U+FFFD for each byte that
-- does not begin a valid sequence.
use Prim.Native.Nat.{ℕ, zero, suc, ◌+◌, ◌-◌, ◌*◌, ◌%◌}
use mathlib.Core.Bool.{Bool, ◌&&◌}
use mathlib.Core.List.{List, [], ◌∷◌}
use bazel_buildbarn.Prelude.Lists.{length, get_or, drop}
use bazel_buildbarn.Prelude.Tests.{leb, ltb, ◌==◌, if◌then◌else◌}

abbrev between : ℕ → ℕ → ℕ → Bool
between low high b = leb low b && leb b high

-- The code point at the start of four bytes, and the number of bytes that it takes.
unfoldable pub rune : ℕ → ℕ → ℕ → ℕ → ℕ × ℕ
rune a b c d =
    if ltb a 128
    then (a, 1)
    else if between 194 223 a && between 128 191 b
    then (a % 32 * 64 + b % 64, 2)
    else if between 224 239 a
        && between (if a == 224 then 160 else 128) (if a == 237 then 159 else 191) b
        && between 128 191 c
    then (a % 16 * 4096 + b % 64 * 64 + c % 64, 3)
    else if between 240 244 a
        && between (if a == 240 then 144 else 128) (if a == 244 then 143 else 191) b
        && between 128 191 c
        && between 128 191 d
    then (a % 8 * 262144 + b % 64 * 4096 + c % 64 * 64 + d % 64, 4)
    else (65533, 1)

-- A step takes a byte at least, so that the length is fuel enough.
runes_from : ℕ → List ℕ → List ℕ
unfolding rune
runes_from zero bs = []
runes_from (suc fuel) [] = []
runes_from (suc fuel) (b ∷ bs) =
    let (r, width) = rune b (get_or bs 0 0) (get_or bs 1 0) (get_or bs 2 0) in
    r ∷ runes_from fuel (drop (width - 1) bs)

unfoldable pub runes : List ℕ → List ℕ
unfolding runes_from
runes bs = runes_from (length bs) bs
