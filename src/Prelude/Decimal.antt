-- ===== src/Prelude/Decimal.antt =====
-- Decimal numbers as fmt's `%d` prints them and strconv.ParseInt(s, 10, 64) reads them.
use Prim.Native.Nat.{ℕ, zero, suc, ◌+◌, ◌-◌, ◌*◌, ◌/◌, ◌%◌, ◌^◌, ◌<◌, ◌≤◌}
use mathlib.Core.Path.{◌≡◌, refl, ◌∙◌}
use mathlib.Core.Logic.{inl, inr, ◌≢◌}
use mathlib.Core.Bool.{Bool, true, false, ◌&&◌}
use mathlib.Core.Option.{Option, none, some}
use mathlib.Core.List.{List, [], ◌∷◌, ◌++◌}
use native.Mathlib.Omega.{arith}
use bazel_buildbarn.Prelude.Tests.{ltb, leb, ◌==◌, if◌then◌else◌, Bool-cases}
use bazel_buildbarn.Prelude.Word.{is_negative}

-- The digits of `n` in front of `out`, last digit first.
digits : ℕ → ℕ → List ℕ → List ℕ
digits zero n out = out
digits (suc k) n out =
    let grown = (48 + n % 10) ∷ out in
    let rest = digits k (n / 10) grown in if ltb n 10 then grown else rest

unfoldable pub format_uint : ℕ → List ℕ
unfolding digits
format_uint n = digits (n + 1) n []

-- `%d` of an `int64`
unfoldable pub format_int : ℕ → List ℕ
unfolding format_uint
format_int w = if is_negative w then b'-' ∷ format_uint (2 ^ 64 - w) else format_uint w

abbrev pub is_digit : ℕ → Bool
is_digit c = leb 48 c && leb c 57

unfoldable pub parse_digits : ℕ → List ℕ → Option ℕ
parse_digits n [] = some n
parse_digits n (c ∷ s) = if is_digit c then parse_digits (n * 10 + (c - 48)) s else none

-- A sign has been read; the magnitude has to fit an `int64`.
abbrev in_range : Bool → Option ℕ → Option ℕ
in_range minus none = none
in_range minus (some n) =
    if minus
    then (if leb n (2 ^ 63) then some ((2 ^ 64 - n) % 2 ^ 64) else none)
    else (if ltb n (2 ^ 63) then some n else none)

abbrev parse_magnitude : Bool → List ℕ → Option ℕ
parse_magnitude minus [] = none
parse_magnitude minus (c ∷ s) = in_range minus (parse_digits 0 (c ∷ s))

unfoldable pub parse_int : List ℕ → Option ℕ
unfolding parse_digits
parse_int [] = none
parse_int (c ∷ s) =
    if c == b'-'
    then parse_magnitude true s
    else if c == b'+'
    then parse_magnitude false s
    else parse_magnitude false (c ∷ s)

parse_digits-digits :
    (k n : ℕ) (out : List ℕ) → n < k → parse_digits 0 (digits k n out) ≡ parse_digits n out
unfolding digits parse_digits
parse_digits-digits zero n out h = absurd (omega arith)
parse_digits-digits (suc k) n out h =
    ground (arith, parse_digits-digits k (n / 10) ((48 + n % 10) ∷ out))

-- The digits do start with a digit.
record Starts (s : List ℕ) : Type 0 where
  first : ℕ
  others : List ℕ
  shape : s ≡ first ∷ others
  low : 48 ≤ first
  high : first ≤ 57

digits-Starts : (k n : ℕ) (out : List ℕ) → n < k → Starts (digits k n out)
unfolding digits
digits-Starts zero n out h = absurd (omega arith)
digits-Starts (suc k) n out h = elim (Bool-cases (ltb n 10)) [
  | inl e ↦ rw e (record {
    first = 48 + n % 10;
    others = out;
    shape = refl;
    low = omega arith;
    high = omega arith;
  })
  | inr e ↦ rw e (digits-Starts k (n / 10) ((48 + n % 10) ∷ out) (ground arith))
]

unsigned :
    (c : ℕ) (s : List ℕ) → 48 ≤ c → parse_int (c ∷ s) ≡ in_range false (parse_digits 0 (c ∷ s))
unfolding parse_int
unsigned c s h = ground arith

-- A text that starts with a digit is read as a magnitude.
parse_int-Starts : (s : List ℕ) → Starts s → parse_int s ≡ in_range false (parse_digits 0 s)
unfolding parse_int
parse_int-Starts s h = rw h.shape (unsigned h.first h.others h.low)

-- What is printed is read back.
pub parse_int-format_uint : (n : ℕ) → n < 2 ^ 63 → parse_int (format_uint n) ≡ some n
unfolding format_uint parse_digits
parse_int-format_uint n h =
    parse_int-Starts (digits (n + 1) n []) (digits-Starts (n + 1) n [] (omega arith))
    ∙ rw (parse_digits-digits (n + 1) n [] (omega arith)) (ground arith)

-- Texts in which a byte does not occur, and where such texts end.
abbrev pub Lacks : ℕ → List ℕ → Type 0
Lacks b [] = Unit
Lacks b (c ∷ s) = (c ≢ b) × Lacks b s

pub split_unique :
    (b : ℕ) (xs ys r s : List ℕ)
    → Lacks b xs
    → Lacks b ys
    → xs ++ b ∷ r ≡ ys ++ b ∷ s
    → (xs ≡ ys) × (r ≡ s)
split_unique b [] [] r s hx hy e = (refl, cc)
split_unique b [] (y ∷ ys) r s hx hy e = absurd (hy.0 (cc))
split_unique b (x ∷ xs) [] r s hx hy e = absurd (hx.0 (cc))
split_unique b (x ∷ xs) (y ∷ ys) r s hx hy e =
    let rest = split_unique b xs ys r s hx.1 hy.1 (cc) in (cc (rest.0), rest.1)

digits-Lacks : (b k n : ℕ) (out : List ℕ) → b < 48 → Lacks b out → Lacks b (digits k n out)
unfolding digits
digits-Lacks b zero n out h l = l
digits-Lacks b (suc k) n out h l = elim (Bool-cases (ltb n 10)) [
  | inl e ↦ rw e (omega arith, l)
  | inr e ↦ rw e (digits-Lacks b k (n / 10) ((48 + n % 10) ∷ out) h (omega arith, l))
]

pub format_int-Lacks : (b w : ℕ) → b < 48 → w < 2 ^ 63 → Lacks b (format_int w)
unfolding format_int
format_int-Lacks b w h small =
    let positive : is_negative w ≡ false = ground arith in
    rw positive (digits-Lacks b (w + 1) w [] h tt)

pub parse_int-format_int : (w : ℕ) → w < 2 ^ 63 → parse_int (format_int w) ≡ some w
unfolding format_int
parse_int-format_int w h =
    let positive : is_negative w ≡ false = ground arith in rw positive (parse_int-format_uint w h)

-- Numbers that print alike are equal.
pub format_int-injective : (v w : ℕ) → v < 2 ^ 63 → w < 2 ^ 63 → format_int v ≡ format_int w → v ≡ w
format_int-injective v w hv hw e = cc (parse_int-format_int v hv, parse_int-format_int w hw)
