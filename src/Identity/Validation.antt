-- ===== src/Identity/Validation.antt =====
-- The checks of logins and numbers: internal/identity/domain/validation.go.
use Prim.Native.Char.{code}
use unbelievable_fish.Prelude.{
  ℕ, ◌+◌, ◌-◌, ◌*◌, ◌%◌, Bool, true, false, ◌&&◌, ◌||◌, not, List, [], ◌∷◌, String, Option, none,
  some, leb, ◌==◌, length, get_elem?, take, if◌then◌else◌,
}
use unbelievable_fish.Prelude.Trim.{trim_space}

unfoldable pub codes : String → List ℕ
codes String.[] = []
codes (String.◌∷◌ c s) = code c ∷ codes s

-- `unicode.ToLower` as far as it gives an ASCII letter; every other rune that it changes becomes one
-- that no login and no role has.
abbrev pub lower_code : ℕ → ℕ
lower_code c =
    if leb 65 c && leb c 90 then c + 32 else if c == 8490 then 107 else if c == 304 then 105 else c

-- `normalizeLogin`, on the code points of the login.
unfoldable pub lower_codes : List ℕ → List ℕ
lower_codes [] = []
lower_codes (c ∷ s) = lower_code c ∷ lower_codes s

unfoldable pub normalize_login : String → List ℕ
unfolding codes lower_codes trim_space
normalize_login value = lower_codes (codes (trim_space value))

abbrev pub is_lower : ℕ → Bool
is_lower c = leb 97 c && leb c 122

abbrev pub is_digit : ℕ → Bool
is_digit c = leb 48 c && leb c 57

-- `[a-z0-9._%+\-]`
abbrev pub is_local : ℕ → Bool
is_local c = is_lower c || is_digit c || c == 46 || c == 95 || c == 37 || c == 43 || c == 45

-- `[a-z0-9.\-]`
abbrev pub is_domain : ℕ → Bool
is_domain c = is_lower c || is_digit c || c == 46 || c == 45

abbrev pub all_of : (ℕ → Bool) → List ℕ → Bool
all_of p [] = true
all_of p (c ∷ s) = p c && all_of p s

abbrev pub is_nil : List ℕ → Bool
is_nil [] = true
is_nil (_ ∷ _) = false

-- `[a-z]{2}$`
abbrev pub is_top_level : List ℕ → Bool
is_top_level s = leb 2 (length s) && all_of is_lower s

-- `[a-z0-9.\-]*\.[a-z]{2}$`
unfoldable pub domain_rest : List ℕ → Bool
domain_rest [] = false
domain_rest (c ∷ s) = (c == 46 && is_top_level s) || (is_domain c && domain_rest s)

-- `[a-z0-9.\-]+\.[a-z]{2}$`
unfoldable pub is_domain_text : List ℕ → Bool
unfolding domain_rest
is_domain_text [] = false
is_domain_text (c ∷ s) = is_domain c && domain_rest s

-- `[a-z0-9._%+\-]*@[a-z0-9.\-]+\.[a-z]{2}$`
unfoldable pub local_rest : List ℕ → Bool
unfolding is_domain_text
local_rest [] = false
local_rest (c ∷ s) = (c == 64 && is_domain_text s) || (is_local c && local_rest s)

-- `emailRegex.MatchString`
unfoldable pub is_email : List ℕ → Bool
unfolding local_rest
is_email [] = false
is_email (c ∷ s) = is_local c && local_rest s

-- `isDigits`
unfoldable pub is_digits : List ℕ → Bool
is_digits s = not (is_nil s) && all_of is_digit s

-- The value of a digit, and of the digits as a decimal number: `strconv.ParseInt` of digits, where
-- it does not overflow.
abbrev pub digit : ℕ → ℕ
digit c = c - 48

abbrev pub number_from : ℕ → List ℕ → ℕ
number_from n [] = n
number_from n (c ∷ s) = number_from (n * 10 + digit c) s

-- `digitChecksum`
abbrev pub weighted : List ℕ → List ℕ → ℕ
weighted [] ws = 0
weighted (c ∷ s) [] = 0
weighted (c ∷ s) (w ∷ ws) = digit c * w + weighted s ws

unfoldable pub digit_checksum : List ℕ → List ℕ → ℕ
digit_checksum value weights = weighted value weights % 11 % 10

-- Whether the code at an index is the digit.
abbrev pub is_check : ℕ → Option ℕ → Bool
is_check d none = false
is_check d (some c) = d == digit c

abbrev pub weights_9 : List ℕ
weights_9 = 2 ∷ 4 ∷ 10 ∷ 3 ∷ 5 ∷ 9 ∷ 4 ∷ 6 ∷ 8 ∷ []

abbrev pub weights_10 : List ℕ
weights_10 = 7 ∷ weights_9

abbrev pub weights_11 : List ℕ
weights_11 = 3 ∷ weights_10

-- `isValidINN`
unfoldable pub is_inn : List ℕ → Bool
unfolding digit_checksum is_digits
is_inn s =
    is_digits s
    && (if length s == 10
        then is_check (digit_checksum (take 9 s) weights_9) (get_elem? s 9)
        else if length s == 12
        then is_check (digit_checksum (take 10 s) weights_10) (get_elem? s 10)
          && is_check (digit_checksum (take 11 s) weights_11) (get_elem? s 11)
        else false)

unfoldable pub is_valid_inn : String → Bool
unfolding codes is_inn
is_valid_inn inn = is_inn (codes (trim_space inn))

-- `isValidOGRN`
unfoldable pub is_ogrn : List ℕ → Bool
unfolding is_digits
is_ogrn s =
    is_digits s
    && (if length s == 13
        then is_check (number_from 0 (take 12 s) % 11 % 10) (get_elem? s 12)
        else if length s == 15
        then is_check (number_from 0 (take 14 s) % 13 % 10) (get_elem? s 14)
        else false)

unfoldable pub is_valid_ogrn : String → Bool
unfolding codes is_ogrn
is_valid_ogrn ogrn = is_ogrn (codes (trim_space ogrn))
