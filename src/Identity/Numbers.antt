-- ===== src/Identity/Numbers.antt =====
-- The numbers of companies (internal/identity/domain/validation.go).
use native.Mathlib.Nat.{pow-suc, pow-le-pow_right, mul_comm, mul_assoc}
use unbelievable_fish.Prelude.{
  ℕ, zero, suc, ◌+◌, ◌*◌, ◌%◌, ◌^◌, ◌≤◌, ◌<◌, ◌≡◌, refl, sym, ap, ◌∙◌, subst, ◌⊎◌, inl, inr, Bool,
  true, false, ◌&&◌, not, List, [], ◌∷◌, ◌++◌, Option, some, ◌==◌, length, take, length-take_le,
  get_elem?, arith, if◌then◌else◌,
}
use unbelievable_fish.Identity.Validation.{
  is_digit, all_of, is_nil, is_digits, digit, number_from, is_ogrn, is_inn, digit_checksum,
  weights_9, weights_10, weights_11, is_check,
}

and_both : (a b : Bool) → (a && b) ≡ true → (a ≡ true) × (b ≡ true)
and_both true b h = (refl, h)
and_both false b h = cc

-- Numbers of digits: no more than fourteen of them are far from the range of an int64.
number_from_bound :
    (s : List ℕ) (n m : ℕ) → all_of is_digit s ≡ true → n < m → number_from n s < m * 10 ^ length s
number_from_bound [] n m h k = omega (arith, k)
number_from_bound (c ∷ s) n m h k =
    let (e, rest) = and_both (is_digit c) (all_of is_digit s) h in
    let low : digit c < 10 = ground arith in
    let step = number_from_bound s (n * 10 + digit c) (m * 10) rest (omega (arith, k, low)) in
    let power =
      mul_assoc m 10 (10 ^ length s)
      ∙ ap (λ x. m * x) (mul_comm 10 (10 ^ length s) ∙ sym (pow-suc 10 (length s))) in
    subst (λ x. number_from (n * 10 + digit c) s < x) power step

take_digits : (n : ℕ) (s : List ℕ) → all_of is_digit s ≡ true → all_of is_digit (take n s) ≡ true
take_digits zero s h = refl
take_digits (suc n) [] h = refl
take_digits (suc n) (c ∷ s) h =
    let (e, rest) = and_both (is_digit c) (all_of is_digit s) h in
    let more = take_digits n s rest in rw (e, more) refl

first_bound :
    (k : ℕ) (s : List ℕ) → k ≤ 14 → all_of is_digit s ≡ true → number_from 0 (take k s) < 10 ^ 14
first_bound k s small digits =
    let exact = number_from_bound (take k s) 0 1 (take_digits k s digits) (omega arith) in
    let short = length-take_le k s in
    let power =
      pow-le-pow_right {n = 10} (omega arith) {i = length (take k s)} {j = 14}
        (omega (arith, short, small)) in
    omega (arith, exact, power)

-- The number that `isValidOGRN` parses, of the first twelve or fourteen digits, is below 10 ^ 14, so
-- that it is an int64 and the parse does not fail.
pub ogrn_base_bound :
    (s : List ℕ)
    → is_digits s ≡ true
    → (number_from 0 (take 12 s) < 10 ^ 14) × (number_from 0 (take 14 s) < 10 ^ 14)
unfolding is_digits
ogrn_base_bound s h =
    let digits = (and_both (not (is_nil s)) (all_of is_digit s) h).1 in
    (first_bound 12 s (omega arith) digits, first_bound 14 s (omega arith) digits)

-- The last of some digits.
last_split :
    (n : ℕ) (s : List ℕ)
    → length s ≡ suc n
    → (c : ℕ) × (get_elem? s n ≡ some c) × (s ≡ take n s ++ c ∷ [])
last_split n [] h = cc
last_split zero (c ∷ []) h = (c, refl, refl)
last_split zero (c ∷ d ∷ s) h = ground arith
last_split (suc n) (c ∷ s) h =
    let (x, found, same) = last_split n s (omega (arith, h)) in (x, found, ap (λ y. c ∷ y) same)

check_of : (d : ℕ) (o : Option ℕ) (c : ℕ) → o ≡ some c → is_check d o ≡ true → digit c ≡ d
check_of d o c e h = ground arith

last_same :
    (n : ℕ) (s t : List ℕ) (c d : ℕ)
    → s ≡ take n s ++ c ∷ []
    → t ≡ take n t ++ d ∷ []
    → take n s ≡ take n t
    → c ≡ d
    → s ≡ t
last_same n s t c d a b e f =
    a ∙ (ap (λ x. x ++ c ∷ []) e ∙ (ap (λ x. take n t ++ x ∷ []) f ∙ sym b))

-- The check digit that a number of digits asks for.
abbrev inn_check : ℕ → List ℕ → ℕ
inn_check n s = if n == 9 then digit_checksum s weights_9 else digit_checksum s weights_11

-- The three cases of `isValidINN`, by the length.
inn_by_length : (k : ℕ) (s : List ℕ) → Bool
inn_by_length k s =
    is_digits s
    && (if k == 10
        then is_check (digit_checksum (take 9 s) weights_9) (get_elem? s 9)
        else if k == 12
        then is_check (digit_checksum (take 10 s) weights_10) (get_elem? s 10)
          && is_check (digit_checksum (take 11 s) weights_11) (get_elem? s 11)
        else false)

by_tests :
    (n : ℕ) (d a b c : Bool)
    → (d && (if suc n == 10 then a else if suc n == 12 then b && c else false)) ≡ true
    → (n ≡ 9) ⊎ ((n ≡ 11) × (c ≡ true))
by_tests n d a b c h = ground arith

inn_cases :
    (n : ℕ) (s : List ℕ)
    → inn_by_length (suc n) s ≡ true
    → (n ≡ 9)
      ⊎ ((n ≡ 11) × (is_check (digit_checksum (take 11 s) weights_11) (get_elem? s 11) ≡ true))
unfolding inn_by_length
inn_cases n s h =
    let a = is_check (digit_checksum (take 9 s) weights_9) (get_elem? s 9) in
    let b = is_check (digit_checksum (take 10 s) weights_10) (get_elem? s 10) in
    let c = is_check (digit_checksum (take 11 s) weights_11) (get_elem? s 11) in
    by_tests n (is_digits s) a b c h

inn_nine :
    (s : List ℕ)
    → inn_by_length 10 s ≡ true
    → is_check (digit_checksum (take 9 s) weights_9) (get_elem? s 9) ≡ true
unfolding inn_by_length
inn_nine s h = (and_both (is_digits s) _ h).1

inn_last :
    (n : ℕ) (s : List ℕ)
    → length s ≡ suc n
    → is_inn s ≡ true
    → is_check (inn_check n (take n s)) (get_elem? s n) ≡ true
unfolding is_inn inn_by_length
inn_last n s l h =
    let h' = subst (λ k. inn_by_length k s ≡ true) l h in
    elim (inn_cases n s h') [
      | inl nine ↦
          subst (λ k. is_check (inn_check k (take k s)) (get_elem? s k) ≡ true) (sym nine)
            (inn_nine s (subst (λ k. inn_by_length (suc k) s ≡ true) nine h'))
      | inr (eleven, check) ↦
          subst (λ k. is_check (inn_check k (take k s)) (get_elem? s k) ≡ true) (sym eleven) check
    ]

ogrn_check : ℕ → List ℕ → ℕ
ogrn_check n s = if n == 12 then number_from 0 s % 11 % 10 else number_from 0 s % 13 % 10

ogrn_last :
    (n : ℕ) (s : List ℕ)
    → length s ≡ suc n
    → is_ogrn s ≡ true
    → is_check (ogrn_check n (take n s)) (get_elem? s n) ≡ true
unfolding is_ogrn ogrn_check
ogrn_last n s l h = ground arith

-- The digits of what is accepted.
digits_of : (s : List ℕ) → (is_inn s ≡ true) ⊎ (is_ogrn s ≡ true) → all_of is_digit s ≡ true
unfolding is_inn is_ogrn is_digits
digits_of s h = ground arith

digit_at : (n c : ℕ) (s : List ℕ) → all_of is_digit s ≡ true → get_elem? s n ≡ some c → (48 ≤ c)
digit_at n c [] h e = cc
digit_at zero c (d ∷ s) h e = ground arith
digit_at (suc n) c (d ∷ s) h e = digit_at n c s (and_both (is_digit d) (all_of is_digit s) h).1 e

digit_injective : (c d : ℕ) → 48 ≤ c → 48 ≤ d → digit c ≡ digit d → c ≡ d
digit_injective c d h k e = omega (arith, h, k, e)

-- The last digit of a number that is accepted is fixed by the digits before it: two numbers of one
-- length that the check of the INN accepts, or that of the OGRN, and that agree in all digits but the
-- last are the same. A last digit that is mistyped is always refused.
pub last_digit_unique :
    (n : ℕ) (s t : List ℕ)
    → length s ≡ suc n
    → length t ≡ suc n
    → ((is_inn s ≡ true) × (is_inn t ≡ true)) ⊎ ((is_ogrn s ≡ true) × (is_ogrn t ≡ true))
    → take n s ≡ take n t
    → s ≡ t
last_digit_unique n s t ls lt (inl (hs, ht)) same =
    let (c, found, whole) = last_split n s ls in
    let (d, found', whole') = last_split n t lt in
    let dc = check_of (inn_check n (take n s)) (get_elem? s n) c found (inn_last n s ls hs) in
    let dd = check_of (inn_check n (take n t)) (get_elem? t n) d found' (inn_last n t lt ht) in
    let equal =
      digit_injective c d (digit_at n c s (digits_of s (inl hs)) found)
        (digit_at n d t (digits_of t (inl ht)) found') (dc ∙ (ap (inn_check n) same ∙ sym dd)) in
    last_same n s t c d whole whole' same equal
last_digit_unique n s t ls lt (inr (hs, ht)) same =
    let (c, found, whole) = last_split n s ls in
    let (d, found', whole') = last_split n t lt in
    let dc = check_of (ogrn_check n (take n s)) (get_elem? s n) c found (ogrn_last n s ls hs) in
    let dd = check_of (ogrn_check n (take n t)) (get_elem? t n) d found' (ogrn_last n t lt ht) in
    let equal =
      digit_injective c d (digit_at n c s (digits_of s (inr hs)) found)
        (digit_at n d t (digits_of t (inr ht)) found') (dc ∙ (ap (ogrn_check n) same ∙ sym dd)) in
    last_same n s t c d whole whole' same equal
