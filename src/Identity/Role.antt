-- ===== src/Identity/Role.antt =====
-- internal/identity/domain/role.go. A role is the code points of its text.
use unbelievable_fish.Prelude.{
  ℕ, ◌≡◌, refl, sym, subst, ◌↔◌, ◌⊎◌, inl, inr, Bool, true, false, ◌&&◌, ◌||◌, List, [], ◌∷◌,
  String, arith, ◌==◌,
}
use unbelievable_fish.Prelude.Trim.{trim_space, trim_left, trim_right}
use unbelievable_fish.Prelude.Text.{is_empty, str_eq}
use unbelievable_fish.Identity.Validation.{codes, lower_codes}

abbrev pub eq_codes : List ℕ → List ℕ → Bool
eq_codes [] [] = true
eq_codes (c ∷ s) (d ∷ t) = c == d && eq_codes s t
eq_codes _ _ = false

pub eq_codes_iff : (s t : List ℕ) → (eq_codes s t ≡ true) ↔ (s ≡ t)
eq_codes_iff [] [] = (λ _. refl, λ _. refl)
eq_codes_iff [] (d ∷ t) = (λ h. cc, λ h. cc)
eq_codes_iff (c ∷ s) [] = (λ h. cc, λ h. cc)
eq_codes_iff (c ∷ s) (d ∷ t) = let (f, g) = eq_codes_iff s t in ground arith

abbrev pub role_admin : String
role_admin = "admin"

abbrev pub role_seller : String
role_seller = "seller"

abbrev pub role_buyer : String
role_buyer = "buyer"

abbrev pub role_buyer_seller : String
role_buyer_seller = "buyer_seller"

-- Whether a normalized role is one of the constants.
unfoldable pub is_role : String → List ℕ → Bool
unfolding codes
is_role name role = eq_codes role (codes name)

-- `normalizeRole`
unfoldable pub normalize_role : String → List ℕ
unfolding codes lower_codes trim_space
normalize_role role = lower_codes (codes (trim_space role))

abbrev pub is_known_role : List ℕ → Bool
is_known_role role =
    is_role role_admin role
    || is_role role_seller role
    || is_role role_buyer role
    || is_role role_buyer_seller role

-- `IsValidRole`
unfoldable pub is_valid_role : String → Bool
unfolding normalize_role is_role
is_valid_role role = is_known_role (normalize_role role)

abbrev pub includes_codes : List ℕ → List ℕ → Bool
includes_codes current required =
    eq_codes current required
    || (is_role role_buyer_seller current
        && (is_role role_buyer required || is_role role_seller required))

-- `IncludesRole`
unfoldable pub includes_role : String → String → Bool
unfolding normalize_role is_role
includes_role current required = includes_codes (normalize_role current) (normalize_role required)

no_both :
    (a b : String) (role : List ℕ)
    → eq_codes (codes a) (codes b) ≡ false
    → is_role a role ≡ true
    → is_role b role ≡ false
unfolding is_role
no_both a b role h k =
    let here = eq_codes_iff role (codes a) in
    let there = eq_codes_iff role (codes b) in
    let apart = eq_codes_iff (codes a) (codes b) in ground arith

included :
    (a b : List ℕ)
    → includes_codes a b ≡ true
    → (a ≡ b)
      ⊎ ((is_role role_buyer_seller a ≡ true)
          × ((is_role role_buyer b || is_role role_seller b) ≡ true))
included a b h = let same = eq_codes_iff a b in ground arith

no_part :
    (b : List ℕ)
    → is_role role_buyer_seller b ≡ true
    → (is_role role_buyer b || is_role role_seller b) ≡ false
unfolding codes
no_part b h =
    let x = no_both role_buyer_seller role_buyer b refl h in
    let y = no_both role_buyer_seller role_seller b refl h in rw (x, y) refl

includes_trans :
    (a b c : List ℕ)
    → includes_codes a b ≡ true
    → includes_codes b c ≡ true
    → includes_codes a c ≡ true
includes_trans a b c h k = elim (included a b h) [
  | inl same ↦ subst (λ x. includes_codes x c ≡ true) (sym same) k
  | inr (both, part) ↦ elim (included b c k) [
    | inl same ↦ subst (λ x. includes_codes a x ≡ true) same h
    | inr (both', _) ↦ let none_of = no_part b both' in cc
  ]
]

eq_codes_refl : (s : List ℕ) → eq_codes s s ≡ true
eq_codes_refl s = (eq_codes_iff s s).1 refl

-- The roles are ordered by what they include: a role includes itself, and what a role that it includes
-- includes in turn.
pub includes_role_order :
    (a b c : String)
    → (includes_role a a ≡ true)
      × (includes_role a b ≡ true → includes_role b c ≡ true → includes_role a c ≡ true)
unfolding includes_role
includes_role_order a b c = (
  rw (eq_codes_refl (normalize_role a)) refl,
  includes_trans (normalize_role a) (normalize_role b) (normalize_role c),
)

admin_normal : normalize_role role_admin ≡ codes role_admin
unfolding normalize_role codes lower_codes trim_space trim_left trim_right is_empty str_eq
admin_normal = refl

admin_alone :
    (is_role role_buyer (codes role_admin) || is_role role_seller (codes role_admin)) ≡ false
unfolding is_role codes
admin_alone = refl

-- Only the administrator has the role of the administrator.
pub includes_admin :
    (a : String) → includes_role a role_admin ≡ true → normalize_role a ≡ codes role_admin
unfolding includes_role
includes_admin a h =
    elim (included (normalize_role a) (codes role_admin)
      (subst (λ x. includes_codes (normalize_role a) x ≡ true) admin_normal h)) [
        | inl same ↦ same
        | inr (_, part) ↦ let alone = admin_alone in cc
      ]
