-- ===== src/Wallet/Movement.antt =====
-- The movements of money on an account, one by one (internal/billing/wallet/account.go).
use unbelievable_fish.Prelude.{◌≡◌, sym, ◌∙◌, ap, subst, arith, Succeeds, Method}
use unbelievable_fish.Prelude.Int.{
  ℤ, pos, pos_part, neg_part, ◌+ℤ◌, ◌-ℤ◌, ◌≤ℤ◌, ◌<ℤ◌, int_laws, eq_of_parts,
}
use unbelievable_fish.Prelude.Int64.{
  IsInt64, add64, sub64, add64_exact, sub64_exact, IsInt64-by_parts,
}
use unbelievable_fish.Wallet.Types.{Error, Account}
use unbelievable_fish.Wallet.Account.{deposit, reserve, release, capture}

pub data Movement : Type 0 where
  deposit_it reserve_it release_it capture_it : ℤ → Movement

unfoldable pub move : Movement → Method Error Account (Unit {0})
move (deposit_it amount) = deposit amount
move (reserve_it amount) = reserve amount
move (release_it amount) = release amount
move (capture_it amount) = capture amount

-- All the money of an account.
abbrev pub balance : Account → ℤ
balance a = a.available +ℤ a.held

-- No balance is negative, and all the money together is an int64.
pub record IsSolvent (a : Account) : Type 0 where
  pub available_nonneg : pos 0 ≤ℤ a.available
  pub held_nonneg : pos 0 ≤ℤ a.held
  pub fits : IsInt64 (balance a)

-- What a movement that succeeds brings into the account.
abbrev pub inflow : Movement → ℤ
inflow (deposit_it amount) = amount
inflow (reserve_it amount) = pos 0
inflow (release_it amount) = pos 0
inflow (capture_it amount) = pos 0 -ℤ amount

-- A deposit does not take the account past the range of int64.
abbrev pub Bounded : Movement → Account → Type 0
Bounded (deposit_it amount) a = IsInt64 (balance a +ℤ amount)
Bounded _ a = Unit {0}

-- The account that a movement leaves when it goes through.
abbrev pub Accounted : ℤ → Account → Account → Type 0
Accounted gain a a' = IsSolvent a' × (balance a' ≡ balance a +ℤ gain)

deposit_effect :
    (amount : ℤ) (a : Account)
    → Succeeds (deposit amount a).1
    → (pos 0 <ℤ amount) × ((deposit amount a).0 ≡ record a { available = add64 a.available amount })
unfolding deposit
deposit_effect amount a h = ground arith

pub reserve_effect :
    (amount : ℤ) (a : Account)
    → Succeeds (reserve amount a).1
    → (pos 0 <ℤ amount)
      × (amount ≤ℤ a.available)
      × ((reserve amount a).0
          ≡ record a { available = sub64 a.available amount; held = add64 a.held amount })
unfolding reserve
reserve_effect amount a h = ground arith

pub release_effect :
    (amount : ℤ) (a : Account)
    → Succeeds (release amount a).1
    → (pos 0 <ℤ amount)
      × (amount ≤ℤ a.held)
      × ((release amount a).0
          ≡ record a { held = sub64 a.held amount; available = add64 a.available amount })
unfolding release
release_effect amount a h = ground arith

pub capture_effect :
    (amount : ℤ) (a : Account)
    → Succeeds (capture amount a).1
    → (pos 0 <ℤ amount)
      × (amount ≤ℤ a.held)
      × ((capture amount a).0 ≡ record a { held = sub64 a.held amount })
unfolding capture
capture_effect amount a h = ground arith

-- The sums of a movement, in the integers.
module _ (gain : ℤ) (a a' : Account) where
  Accounted-by_parts :
      (dv dh : ℤ)
      → a'.available ≡ a.available +ℤ dv
      → a'.held ≡ a.held +ℤ dh
      → dv +ℤ dh ≡ gain
      → pos 0 ≤ℤ a.available +ℤ dv
      → pos 0 ≤ℤ a.held +ℤ dh
      → IsInt64 (balance a +ℤ gain)
      → Accounted gain a a'
  Accounted-by_parts dv dh ev eh eg nv nh f = (
    record {
      available_nonneg = subst (λ z. pos 0 ≤ℤ z) (sym ev) nv;
      held_nonneg = subst (λ z. pos 0 ≤ℤ z) (sym eh) nh;
      fits = subst IsInt64 (sym same) f;
    },
    same,
  )
    where
      same : balance a' ≡ balance a +ℤ gain
      same =
          let whole = ap (λ z. z +ℤ a'.held) ev ∙ ap (λ z. (a.available +ℤ dv) +ℤ z) eh in
          whole ∙ eq_of_parts _ _ omega (int_laws, ap pos_part eg, ap neg_part eg)

pub deposit-Accounted :
    (amount : ℤ) (a : Account)
    → IsSolvent a
    → IsInt64 (balance a +ℤ amount)
    → Succeeds (deposit amount a).1
    → Accounted amount a (deposit amount a).0
deposit-Accounted amount a s f h =
    let (up, e) = deposit_effect amount a h in
    let nv = s.available_nonneg in
    let nh = s.held_nonneg in
    let exact =
      add64_exact a.available amount (IsInt64-by_parts _ omega (int_laws) omega (int_laws)) in
    subst (λ x. Accounted amount a x) (sym e)
      (Accounted-by_parts amount a _ amount (pos 0) exact (eq_of_parts _ _ omega (int_laws))
        (eq_of_parts _ _ omega (int_laws)) omega (int_laws) omega (int_laws) f)

no_gain : (a : Account) → IsSolvent a → IsInt64 (balance a +ℤ pos 0)
no_gain a s = subst IsInt64 (eq_of_parts _ _ omega (int_laws)) s.fits

pub reserve-Accounted :
    (amount : ℤ) (a : Account)
    → IsSolvent a
    → Succeeds (reserve amount a).1
    → Accounted (pos 0) a (reserve amount a).0
reserve-Accounted amount a s h =
    let (up, enough, e) = reserve_effect amount a h in
    let nv = s.available_nonneg in
    let nh = s.held_nonneg in
    let f = s.fits in
    let less =
      sub64_exact a.available amount (IsInt64-by_parts _ omega (int_laws) omega (int_laws)) in
    let more = add64_exact a.held amount (IsInt64-by_parts _ omega (int_laws) omega (int_laws)) in
    subst (λ x. Accounted (pos 0) a x) (sym e)
      (Accounted-by_parts (pos 0) a _ (pos 0 -ℤ amount) amount
        (less ∙ eq_of_parts _ _ omega (int_laws)) more (eq_of_parts _ _ omega (int_laws)) omega
        (int_laws) omega (int_laws) (no_gain a s))

pub release-Accounted :
    (amount : ℤ) (a : Account)
    → IsSolvent a
    → Succeeds (release amount a).1
    → Accounted (pos 0) a (release amount a).0
release-Accounted amount a s h =
    let (up, enough, e) = release_effect amount a h in
    let nv = s.available_nonneg in
    let nh = s.held_nonneg in
    let f = s.fits in
    let less = sub64_exact a.held amount (IsInt64-by_parts _ omega (int_laws) omega (int_laws)) in
    let more =
      add64_exact a.available amount (IsInt64-by_parts _ omega (int_laws) omega (int_laws)) in
    subst (λ x. Accounted (pos 0) a x) (sym e)
      (Accounted-by_parts (pos 0) a _ amount (pos 0 -ℤ amount) more
        (less ∙ eq_of_parts _ _ omega (int_laws)) (eq_of_parts _ _ omega (int_laws)) omega
        (int_laws) omega (int_laws) (no_gain a s))

pub capture-Accounted :
    (amount : ℤ) (a : Account)
    → IsSolvent a
    → Succeeds (capture amount a).1
    → Accounted (pos 0 -ℤ amount) a (capture amount a).0
capture-Accounted amount a s h =
    let (up, enough, e) = capture_effect amount a h in
    let nv = s.available_nonneg in
    let nh = s.held_nonneg in
    let f = s.fits in
    let less = sub64_exact a.held amount (IsInt64-by_parts _ omega (int_laws) omega (int_laws)) in
    subst (λ x. Accounted (pos 0 -ℤ amount) a x) (sym e)
      (Accounted-by_parts (pos 0 -ℤ amount) a _ (pos 0) (pos 0 -ℤ amount)
        (eq_of_parts _ _ omega (int_laws)) (less ∙ eq_of_parts _ _ omega (int_laws))
        (eq_of_parts _ _ omega (int_laws)) omega (int_laws) omega (int_laws)
        (IsInt64-by_parts _ omega (int_laws) omega (int_laws)))
