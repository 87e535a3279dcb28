-- ===== src/Prelude/Hex.antt =====
-- encoding/hex.
use Prim.Native.Nat.{ℕ, zero, suc, ◌≤◌, ◌+◌, ◌-◌, ◌*◌, ◌/◌, ◌%◌, ◌<◌}
use mathlib.Core.Path.{◌≡◌, refl, ap}
use mathlib.Core.Logic.{◌⊎◌, inl, inr}
use mathlib.Core.Bool.{◌&&◌}
use mathlib.Core.Option.{Option, none, some}
use mathlib.Core.List.{List, [], ◌∷◌}
use native.Mathlib.Omega.{arith}
use bazel_buildbarn.Prelude.Tests.{ltb, leb, if◌then◌else◌}
use bazel_buildbarn.Prelude.Lists.{length}

hex_char : ℕ → ℕ
hex_char v = if ltb v 10 then 48 + v else 87 + v

hex_value : ℕ → Option ℕ
hex_value c =
    if leb 48 c && leb c 57
    then some (c - 48)
    else if leb 97 c && leb c 102
    then some (c - 87)
    else if leb 65 c && leb c 70
    then some (c - 55)
    else none

unfoldable pub encode_to_string : List ℕ → List ℕ
unfolding hex_char
encode_to_string [] = []
encode_to_string (b ∷ bs) = hex_char (b / 16) ∷ hex_char (b % 16) ∷ encode_to_string bs

abbrev join : Option ℕ → Option ℕ → Option (List ℕ) → Option (List ℕ)
join (some h) (some l) (some bs) = some ((h * 16 + l) ∷ bs)
join _ _ _ = none

unfoldable pub decode_string : List ℕ → Option (List ℕ)
unfolding hex_value
decode_string [] = some []
decode_string (c ∷ []) = none
decode_string (c ∷ d ∷ s) = join (hex_value c) (hex_value d) (decode_string s)

abbrev pub AllBytes : List ℕ → Type 0
AllBytes [] = Unit
AllBytes (b ∷ bs) = (b < 256) × AllBytes bs

hex_value-hex_char : (v : ℕ) → v < 16 → hex_value (hex_char v) ≡ some v
unfolding hex_value hex_char
hex_value-hex_char v h = ground arith

pub decode-encode_to_string :
    (bs : List ℕ) → AllBytes bs → decode_string (encode_to_string bs) ≡ some bs
unfolding decode_string encode_to_string
decode-encode_to_string [] h = refl
decode-encode_to_string (b ∷ bs) h =
    rw
      (
        hex_value-hex_char (b / 16) (omega arith),
        hex_value-hex_char (b % 16) (omega arith),
        decode-encode_to_string bs h.1,
      )
      (ap (λ c. some (c ∷ bs)) (omega arith))

pub length-encode_to_string : (bs : List ℕ) → length (encode_to_string bs) ≡ 2 * length bs
unfolding encode_to_string
length-encode_to_string [] = refl
length-encode_to_string (b ∷ bs) = omega (arith, length-encode_to_string bs)

-- A text of lower-case hexadecimal digits.
abbrev pub AllHex : List ℕ → Type 0
AllHex [] = Unit
AllHex (c ∷ cs) = ((48 ≤ c) × (c ≤ 57) ⊎ (97 ≤ c) × (c ≤ 102)) × AllHex cs

hex_value_total :
    (c : ℕ) → ((48 ≤ c) × (c ≤ 57) ⊎ (97 ≤ c) × (c ≤ 102)) → (v : ℕ) × (hex_value c ≡ some v)
unfolding hex_value
hex_value_total c (inl h) = (c - 48, ground arith)
hex_value_total c (inr h) = (c - 87, ground arith)

-- Such a text of even length decodes, to half as many bytes.
pub decode_string_total :
    (n : ℕ) (s : List ℕ)
    → AllHex s
    → length s ≡ 2 * n
    → (bs : List ℕ) × (decode_string s ≡ some bs) × (length bs ≡ n)
unfolding decode_string
decode_string_total n [] h e = ([], refl, omega arith)
decode_string_total n (c ∷ []) h e = absurd (omega arith)
decode_string_total zero (c ∷ d ∷ s) h e = absurd (omega arith)
decode_string_total (suc n) (c ∷ d ∷ s) h e =
    let (v, hv) = hex_value_total c h.0 in
    let (w, hw) = hex_value_total d h.1.0 in
    let (bs, decoded, size) = decode_string_total n s h.1.1 (omega arith) in
    ((v * 16 + w) ∷ bs, rw (hv, hw, decoded), omega (arith, size))

hex_char_range :
    (v : ℕ)
    → v < 16
    → ((48 ≤ hex_char v) × (hex_char v ≤ 57) ⊎ (97 ≤ hex_char v) × (hex_char v ≤ 102))
unfolding hex_char
hex_char_range v h = ground arith

pub encode_to_string-AllHex : (bs : List ℕ) → AllBytes bs → AllHex (encode_to_string bs)
unfolding encode_to_string
encode_to_string-AllHex [] h = tt
encode_to_string-AllHex (b ∷ bs) h = (
  hex_char_range (b / 16) (omega arith),
  (hex_char_range (b % 16) (omega arith), encode_to_string-AllHex bs h.1),
)
