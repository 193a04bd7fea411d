-- ===== src/Chain/Hex.antt =====
-- Texts of ASCII bytes and hexadecimal: what internal/blockchain/evm/calldata.go uses of Go's strings
-- and encoding/hex.
use unbelievable_fish.Prelude.{
  ℕ, ◌+◌, ◌-◌, ◌*◌, ◌/◌, ◌%◌, ◌≤◌, ◌<◌, ◌≡◌, refl, ap, ◌∙◌, Bool, ◌&&◌, ◌||◌, List, [], ◌∷◌, Option,
  none, some, All, length, arith, leb, ltb, ◌==◌, if◌then◌else◌, ◌⊎◌,
}

abbrev pub Bytes : Type 0
Bytes = List ℕ

abbrev pub IsByte : ℕ → Type 0
IsByte b = b < 256

abbrev pub is_space : ℕ → Bool
is_space c = c == 32 || (leb 9 c && leb c 13)

abbrev pub trim_left : Bytes → Bytes
trim_left [] = []
trim_left (c ∷ s) = let rest = trim_left s in if is_space c then rest else c ∷ s

abbrev pub put_before : ℕ → Bytes → Bytes
put_before c [] = if is_space c then [] else c ∷ []
put_before c (d ∷ s) = c ∷ d ∷ s

abbrev pub trim_right : Bytes → Bytes
trim_right [] = []
trim_right (c ∷ s) = put_before c (trim_right s)

-- `strings.TrimSpace`
unfoldable pub trim_space : Bytes → Bytes
trim_space s = trim_right (trim_left s)

abbrev pub lower : ℕ → ℕ
lower c = if leb 65 c && leb c 90 then c + 32 else c

-- `strings.ToLower`
unfoldable pub to_lower : Bytes → Bytes
to_lower [] = []
to_lower (c ∷ s) = lower c ∷ to_lower s

-- `strings.TrimPrefix(s, "0x")`
unfoldable pub trim_prefix : Bytes → Bytes
trim_prefix [] = []
trim_prefix (c ∷ []) = c ∷ []
trim_prefix (c ∷ d ∷ s) = if c == 48 && d == 120 then s else c ∷ d ∷ s

abbrev pub hex_digit : ℕ → ℕ
hex_digit d = if ltb d 10 then 48 + d else 87 + d

-- `hex.EncodeToString`
unfoldable pub encode : Bytes → Bytes
encode [] = []
encode (b ∷ bs) = hex_digit (b / 16) ∷ hex_digit (b % 16) ∷ encode bs

unfoldable pub hex_value : ℕ → Option ℕ
hex_value c =
    if leb 48 c && leb c 57
    then some (c - 48)
    else if leb 97 c && leb c 102
    then some (c - 87)
    else if leb 65 c && leb c 70
    then some (c - 55)
    else none

abbrev pub join : Option ℕ → Option ℕ → Option Bytes → Option Bytes
join (some x) (some y) (some bs) = some ((x * 16 + y) ∷ bs)
join _ _ _ = none

-- `hex.DecodeString`; an odd digit left over is an error too.
unfoldable pub decode : Bytes → Option Bytes
unfolding hex_value
decode [] = some []
decode (c ∷ []) = none
decode (c ∷ d ∷ s) = join (hex_value c) (hex_value d) (decode s)

-- A digit as `encode` writes it.
abbrev pub IsDigit : ℕ → Type 0
IsDigit c = ((48 ≤ c) × (c ≤ 57)) ⊎ ((97 ≤ c) × (c ≤ 102))

hex_digit-IsDigit : (d : ℕ) → d < 16 → IsDigit (hex_digit d)
hex_digit-IsDigit d h = ground arith

hex_value-digit : (d : ℕ) → d < 16 → hex_value (hex_digit d) ≡ some d
unfolding hex_value
hex_value-digit d h = ground arith

pub encode-IsDigit : (bs : Bytes) → All IsByte bs → All IsDigit (encode bs)
unfolding encode
encode-IsDigit [] h = tt
encode-IsDigit (b ∷ bs) h = (
  hex_digit-IsDigit (b / 16) (omega (arith, h.0)),
  (hex_digit-IsDigit (b % 16) (omega arith), encode-IsDigit bs h.1),
)

pub decode-encode : (bs : Bytes) → All IsByte bs → decode (encode bs) ≡ some bs
unfolding encode decode
decode-encode [] h = refl
decode-encode (b ∷ bs) h =
    let high = hex_value-digit (b / 16) (omega (arith, h.0)) in
    let low = hex_value-digit (b % 16) (omega arith) in
    rw (high, low, decode-encode bs h.1) (ap (λ x. some (x ∷ bs)) (omega arith))

pub length-encode : (bs : Bytes) → length (encode bs) ≡ 2 * length bs
unfolding encode
length-encode [] = omega arith
length-encode (b ∷ bs) = omega (arith, length-encode bs)

abbrev pub IsPlain : ℕ → Type 0
IsPlain c = (32 < c) × (c < 128) × (lower c ≡ c)

trim_right_plain : (s : Bytes) → All IsPlain s → trim_right s ≡ s
trim_right_plain [] h = refl
trim_right_plain (c ∷ s) h = ap (put_before c) (trim_right_plain s h.1) ∙ put_plain c s h.0
  where
    put_plain : (c : ℕ) (s : Bytes) → IsPlain c → put_before c s ≡ c ∷ s
    put_plain c [] h = ground arith
    put_plain c (d ∷ s) h = refl

trim_left_plain : (s : Bytes) → All IsPlain s → trim_left s ≡ s
trim_left_plain [] h = refl
trim_left_plain (c ∷ s) h = ground arith

pub trim_space_plain : (s : Bytes) → All IsPlain s → trim_space s ≡ s
unfolding trim_space
trim_space_plain s h = ap trim_right (trim_left_plain s h) ∙ trim_right_plain s h

pub to_lower_plain : (s : Bytes) → All IsPlain s → to_lower s ≡ s
unfolding to_lower
to_lower_plain [] h = refl
to_lower_plain (c ∷ s) h = let a = to_lower_plain s h.1 in let b = h.0 in cc

pub digits-IsPlain : (s : Bytes) → All IsDigit s → All IsPlain s
digits-IsPlain [] h = tt
digits-IsPlain (c ∷ s) h = (digit_plain c h.0, digits-IsPlain s h.1)
  where
    digit_plain : (c : ℕ) → IsDigit c → IsPlain c
    digit_plain c h = ground arith
