-- ===== src/Chain/Word.antt =====
-- Words of 32 bytes: `uint256Word` and `asBytes32Word` of internal/blockchain/evm/calldata.go.
use native.Mathlib.Nat.{pow-suc}
use unbelievable_fish.Prelude.{
  ℕ, zero, suc, ◌+◌, ◌-◌, ◌*◌, ◌/◌, ◌%◌, ◌^◌, ◌≤◌, ◌<◌, ◌≡◌, refl, ap, ◌∙◌, not, [], ◌∷◌, ◌++◌,
  Option, none, some, Result, ok, err, All, All-append, length, length-append, arith, ◌==◌,
  if◌then◌else◌, if_both,
}
use unbelievable_fish.Chain.Hex.{
  Bytes, IsByte, IsDigit, trim_space, to_lower, trim_prefix, decode, encode, decode-encode,
  encode-IsDigit, length-encode, trim_space_plain, to_lower_plain, digits-IsPlain, IsPlain,
}

-- `big.Int.Bytes`: the digits to the base 256, the first one not zero. The fuel is the number of
-- digits at most.
unfoldable pub big_bytes : ℕ → ℕ → Bytes
big_bytes zero n = []
big_bytes (suc fuel) n =
    let rest = big_bytes fuel (n / 256) in if n == 0 then [] else rest ++ n % 256 ∷ []

abbrev pub zeros : ℕ → Bytes
zeros zero = []
zeros (suc n) = 0 ∷ zeros n

-- `uint256Word` of an int64 that is not negative, which has eight bytes at most.
unfoldable pub uint256_word : ℕ → Bytes
unfolding big_bytes
uint256_word n = let b = big_bytes 8 n in zeros (32 - length b) ++ b

-- A word: 32 bytes.
abbrev pub IsWord : Bytes → Type 0
IsWord w = All IsByte w × (length w ≡ 32)

-- The number that bytes stand for, the first one the highest.
abbrev pub number_from : ℕ → Bytes → ℕ
number_from n [] = n
number_from n (b ∷ bs) = number_from (n * 256 + b) bs

unfoldable pub number_of : Bytes → ℕ
number_of bs = number_from 0 bs

number_from-append :
    (n : ℕ) (bs cs : Bytes) → number_from n (bs ++ cs) ≡ number_from (number_from n bs) cs
number_from-append n [] cs = refl
number_from-append n (b ∷ bs) cs = number_from-append (n * 256 + b) bs cs

number_from-zeros : (n : ℕ) → number_from 0 (zeros n) ≡ 0
number_from-zeros zero = refl
number_from-zeros (suc n) = number_from-zeros n

big_bytes-number : (fuel n : ℕ) → n < 256 ^ fuel → number_from 0 (big_bytes fuel n) ≡ n
unfolding big_bytes
big_bytes-number zero n h = omega arith
big_bytes-number (suc fuel) n h =
    let ih = big_bytes-number fuel (n / 256) (omega (arith, pow-suc 256 fuel)) in
    let whole = number_from-append 0 (big_bytes fuel (n / 256)) (n % 256 ∷ []) in ground arith

length-big_bytes : (fuel n : ℕ) → length (big_bytes fuel n) ≤ fuel
unfolding big_bytes
length-big_bytes zero n = omega arith
length-big_bytes (suc fuel) n =
    let shorter = length-big_bytes fuel (n / 256) in
    let one = length-append (big_bytes fuel (n / 256)) (n % 256 ∷ []) in ground arith

big_bytes_small : (fuel n : ℕ) → All IsByte (big_bytes fuel n)
unfolding big_bytes
big_bytes_small zero n = tt
big_bytes_small (suc fuel) n =
    if_both (All IsByte) (n == 0) _ _ (λ _. tt)
      (λ _.
        All-append IsByte (big_bytes fuel (n / 256)) (n % 256 ∷ []) (big_bytes_small fuel (n / 256))
          (omega arith, tt))

zeros_small : (n : ℕ) → All IsByte (zeros n)
zeros_small zero = tt
zeros_small (suc n) = (omega arith, zeros_small n)

length-zeros : (n : ℕ) → length (zeros n) ≡ n
length-zeros zero = refl
length-zeros (suc n) = ap suc (length-zeros n)

-- The word of a number below 2 ^ 64 is 32 bytes, which stand for the number.
pub uint256_word-IsWord : (n : ℕ) → IsWord (uint256_word n)
unfolding uint256_word
uint256_word-IsWord n =
    let b = big_bytes 8 n in
    (
      All-append IsByte (zeros (32 - length b)) b (zeros_small (32 - length b))
          (big_bytes_small 8 n),
      omega (
        arith,
        length-append (zeros (32 - length b)) b,
        length-zeros (32 - length b),
        length-big_bytes 8 n,
      ),
    )

pub number_of-uint256_word : (n : ℕ) → n < 2 ^ 64 → number_of (uint256_word n) ≡ n
unfolding number_of uint256_word
number_of-uint256_word n h =
    let b = big_bytes 8 n in
    number_from-append 0 (zeros (32 - length b)) b
    ∙ (ap (λ m. number_from m b) (number_from-zeros (32 - length b)) ∙ big_bytes-number 8 n h)

-- `asBytes32Word`, with an error for a wrong length and one for a wrong digit.
pub data HashError : Type 0 where
  not_32_bytes : ℕ → HashError
  no_hex_text : HashError

abbrev decoded : Option Bytes → Result HashError Bytes
decoded none = err no_hex_text
decoded (some w) = ok w

abbrev word_of_digits : Bytes → Result HashError Bytes
word_of_digits normalized =
    if not (length normalized == 64)
    then err (not_32_bytes (length normalized))
    else decoded (decode normalized)

unfoldable pub as_bytes32_word : Bytes → Result HashError Bytes
unfolding trim_space to_lower trim_prefix decode
as_bytes32_word value = word_of_digits (trim_prefix (to_lower (trim_space value)))

decoded_ok : (o : Option Bytes) (w : Bytes) → decoded o ≡ ok w → o ≡ some w
decoded_ok none w h = cc
decoded_ok (some v) w h = cc

word_of_digits_ok : (s w : Bytes) → word_of_digits s ≡ ok w → (length s ≡ 64) × (decode s ≡ some w)
word_of_digits_ok s w h = let k = decoded_ok (decode s) w in ground arith

-- A text that is read as a word is the hexadecimal text of the word, but for what is trimmed.
pub as_bytes32_word_ok :
    (value w : Bytes)
    → as_bytes32_word value ≡ ok w
    → (s : Bytes) × (length s ≡ 64) × (decode s ≡ some w)
unfolding as_bytes32_word
as_bytes32_word_ok value w h =
    let s = trim_prefix (to_lower (trim_space value)) in
    let (long, back) = word_of_digits_ok s w h in (s, long, back)

trim_prefix_digits : (s : Bytes) → All IsDigit s → trim_prefix s ≡ s
unfolding trim_prefix
trim_prefix_digits [] h = refl
trim_prefix_digits (c ∷ []) h = refl
trim_prefix_digits (c ∷ d ∷ s) h = let k = h.1.0 in ground arith

word_of_encode : (w : Bytes) → IsWord w → word_of_digits (encode w) ≡ ok w
word_of_encode w h =
    let long : length (encode w) ≡ 64 = omega (arith, length-encode w, h.1) in
    rw (long, decode-encode w h.0) refl

word_of_prefixed :
    (w : Bytes) → IsWord w → word_of_digits (trim_prefix (48 ∷ 120 ∷ encode w)) ≡ ok w
unfolding trim_prefix
word_of_prefixed w h = word_of_encode w h

-- A hash as the services write it, with its prefix or without.
pub as_bytes32_word-encode :
    (w : Bytes)
    → IsWord w
    → (as_bytes32_word (48 ∷ 120 ∷ encode w) ≡ ok w) × (as_bytes32_word (encode w) ≡ ok w)
unfolding as_bytes32_word
as_bytes32_word-encode w h =
    let digits = encode-IsDigit w h.0 in
    let plain = digits-IsPlain (encode w) digits in
    let longer : All IsPlain (48 ∷ 120 ∷ encode w) =
      ((omega arith, omega arith, refl), ((omega arith, omega arith, refl), plain)) in
    (
      ap (λ s. word_of_digits (trim_prefix (to_lower s)))
            (trim_space_plain (48 ∷ 120 ∷ encode w) longer)
          ∙ (ap (λ s. word_of_digits (trim_prefix s)) (to_lower_plain (48 ∷ 120 ∷ encode w) longer)
              ∙ word_of_prefixed w h),
      ap (λ s. word_of_digits (trim_prefix (to_lower s))) (trim_space_plain (encode w) plain)
          ∙ (ap (λ s. word_of_digits (trim_prefix s)) (to_lower_plain (encode w) plain)
              ∙ (ap word_of_digits (trim_prefix_digits (encode w) digits) ∙ word_of_encode w h)),
    )
