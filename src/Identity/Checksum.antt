-- ===== src/Identity/Checksum.antt =====
-- What the checks of logins and numbers accept (internal/identity/domain/validation.go).
use unbelievable_fish.Prelude.{
  ℕ, ◌≤◌, ◌≡◌, refl, ap, ◌∙◌, ◌↔◌, ◌⊎◌, inl, inr, Bool, true, false, ◌&&◌, ◌||◌, List, [], ◌∷◌,
  ◌++◌, leb, ◌==◌, length, arith,
}
use unbelievable_fish.Identity.Validation.{
  is_lower, is_local, is_domain, all_of, is_nil, is_top_level, domain_rest, is_domain_text,
  local_rest, is_email,
}

-- A domain: letters, digits, dots and hyphens, at least one, then a dot and two letters at least.
abbrev pub IsDomain : List ℕ → Type 0
IsDomain s =
    (d : List ℕ) × (t : List ℕ) × (s ≡ d ++ 46 ∷ t)
    × (is_nil d ≡ false)
    × (all_of is_domain d ≡ true)
    × (2 ≤ length t)
    × (all_of is_lower t ≡ true)

-- An address: what may stand before the sign, at least one of it, the sign, and a domain.
abbrev pub IsAddress : List ℕ → Type 0
IsAddress s =
    (l : List ℕ) × (r : List ℕ) × (s ≡ l ++ 64 ∷ r)
    × (is_nil l ≡ false)
    × (all_of is_local l ≡ true)
    × IsDomain r

abbrev Rest : List ℕ → Type 0
Rest s =
    (d : List ℕ) × (t : List ℕ) × (s ≡ d ++ 46 ∷ t)
    × (all_of is_domain d ≡ true)
    × (2 ≤ length t)
    × (all_of is_lower t ≡ true)

or_cases : (a b : Bool) → (a || b) ≡ true → (a ≡ true) ⊎ (b ≡ true)
or_cases true b h = inl refl
or_cases false b h = inr h

and_both : (a b : Bool) → (a && b) ≡ true → (a ≡ true) × (b ≡ true)
and_both true b h = (refl, h)
and_both false b h = cc

domain_rest-Rest : (s : List ℕ) → domain_rest s ≡ true → Rest s
unfolding domain_rest
domain_rest-Rest [] h = cc
domain_rest-Rest (c ∷ s) h =
    elim (or_cases (c == 46 && is_top_level s) (is_domain c && domain_rest s) h) [
      | inl dot ↦
          let (e, top) = and_both (c == 46) (is_top_level s) dot in
          let same : c ≡ 46 = ground arith in
          (
            [],
            s,
            ap (λ x. x ∷ s) same,
            refl,
            ground arith,
            (and_both (leb 2 (length s)) (all_of is_lower s) top).1,
          )
      | inr more ↦
          let (e, rest) = and_both (is_domain c) (domain_rest s) more in
          let (d, t, same, all, long, low) = domain_rest-Rest s rest in
          (c ∷ d, t, ap (λ x. c ∷ x) same, rw (e, all) refl, long, low)
    ]

rest_to :
    (d t : List ℕ)
    → all_of is_domain d ≡ true
    → 2 ≤ length t
    → all_of is_lower t ≡ true
    → domain_rest (d ++ 46 ∷ t) ≡ true
unfolding domain_rest
rest_to [] t a l h = ground arith
rest_to (c ∷ d) t a l h =
    let (e, all) = and_both (is_domain c) (all_of is_domain d) a in
    let r = rest_to d t all l h in ground arith

is_domain_text-IsDomain : (s : List ℕ) → is_domain_text s ≡ true → IsDomain s
unfolding is_domain_text
is_domain_text-IsDomain [] h = cc
is_domain_text-IsDomain (c ∷ s) h =
    let (e, rest) = and_both (is_domain c) (domain_rest s) h in
    let (d, t, same, all, long, low) = domain_rest-Rest s rest in
    (c ∷ d, t, ap (λ x. c ∷ x) same, refl, rw (e, all) refl, long, low)

domain_to :
    (d t : List ℕ)
    → is_nil d ≡ false
    → all_of is_domain d ≡ true
    → 2 ≤ length t
    → all_of is_lower t ≡ true
    → is_domain_text (d ++ 46 ∷ t) ≡ true
unfolding is_domain_text
domain_to [] t n a l h = cc
domain_to (c ∷ d) t n a l h =
    let (e, all) = and_both (is_domain c) (all_of is_domain d) a in
    let r = rest_to d t all l h in rw (e, r) refl

-- The rest of an address, whose local part may be empty.
abbrev Tail : List ℕ → Type 0
Tail s = (l : List ℕ) × (r : List ℕ) × (s ≡ l ++ 64 ∷ r) × (all_of is_local l ≡ true) × IsDomain r

local_rest-Tail : (s : List ℕ) → local_rest s ≡ true → Tail s
unfolding local_rest
local_rest-Tail [] h = cc
local_rest-Tail (c ∷ s) h =
    elim (or_cases (c == 64 && is_domain_text s) (is_local c && local_rest s) h) [
      | inl sign ↦
          let (e, domain) = and_both (c == 64) (is_domain_text s) sign in
          let same : c ≡ 64 = ground arith in
          ([], s, ap (λ x. x ∷ s) same, refl, is_domain_text-IsDomain s domain)
      | inr more ↦
          let (e, rest) = and_both (is_local c) (local_rest s) more in
          let (l, r, same, all, domain) = local_rest-Tail s rest in
          (c ∷ l, r, ap (λ x. c ∷ x) same, rw (e, all) refl, domain)
    ]

tail_to :
    (l r : List ℕ)
    → all_of is_local l ≡ true
    → is_domain_text r ≡ true
    → local_rest (l ++ 64 ∷ r) ≡ true
unfolding local_rest
tail_to [] r a h = rw h refl
tail_to (c ∷ l) r a h =
    let (e, all) = and_both (is_local c) (all_of is_local l) a in
    let rest = tail_to l r all h in ground arith

is_email-IsAddress : (s : List ℕ) → is_email s ≡ true → IsAddress s
unfolding is_email
is_email-IsAddress [] h = cc
is_email-IsAddress (c ∷ s) h =
    let (e, rest) = and_both (is_local c) (local_rest s) h in
    let (l, r, same, all, domain) = local_rest-Tail s rest in
    (c ∷ l, r, ap (λ x. c ∷ x) same, refl, rw (e, all) refl, domain)

address_to :
    (l r : List ℕ)
    → is_nil l ≡ false
    → all_of is_local l ≡ true
    → is_domain_text r ≡ true
    → is_email (l ++ 64 ∷ r) ≡ true
unfolding is_email
address_to [] r n a h = cc
address_to (c ∷ l) r n a h =
    let (e, all) = and_both (is_local c) (all_of is_local l) a in
    let rest = tail_to l r all h in rw (e, rest) refl

-- The match of the login expression accepts exactly the addresses: a local part of its characters,
-- the sign, a domain of its characters, a dot and two lower letters at least.
pub is_email_iff : (s : List ℕ) → is_email s ≡ true ↔ IsAddress s
is_email_iff s = (
  is_email-IsAddress s,
  λ x.
      let (l, r, same, n, a, (d, t, same', n', a', long, low)) = x in
      let domain = ap is_domain_text same' ∙ domain_to d t n' a' long low in
      ap is_email same ∙ address_to l r n a domain,
)
