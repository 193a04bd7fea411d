-- ===== src/Wallet/Balance.antt =====
-- The balances of an account under its operations (internal/billing/wallet/account.go).
use unbelievable_fish.Prelude.{
  ◌∙◌, ap, Result, ok, ◌^◌, ◌-◌, ◌≡◌, refl, ◌↔◌, false, String, arith, is_ok, Succeeds,
}
use unbelievable_fish.Prelude.Int.{
  ℤ, ◌-ℤ◌, pos_part, neg_part, int_laws, eq_of_parts, pos, negsuc, ◌+ℤ◌, ◌≤ℤ◌, ◌<ℤ◌,
}
use unbelievable_fish.Prelude.Int64.{
  sub64, IsInt64, add64_exact, sub64_exact, IsInt64-by_parts, add64, wrap64,
}
use unbelievable_fish.Wallet.Types.{Error, currency_rub, Account}
use unbelievable_fish.Wallet.Account.{deposit, reserve, release, capture}
use unbelievable_fish.Wallet.Movement.{
  reserve_effect, Movement, deposit_it, reserve_it, release_it, capture_it, move, IsSolvent, inflow,
  Bounded, Accounted, deposit-Accounted, reserve-Accounted, release-Accounted, capture-Accounted,
}

-- A movement of a solvent account that goes through (a deposit within the range of int64) leaves a
-- solvent account, whose whole money has changed by exactly what the movement brings in: a deposit
-- adds its amount, a capture takes its amount, a reservation and a release move it inside.
pub move-IsSolvent :
    (m : Movement) (a : Account)
    → IsSolvent a
    → Bounded m a
    → Succeeds (move m a).1
    → Accounted (inflow m) a (move m a).0
unfolding move
move-IsSolvent (deposit_it x) a s b h = deposit-Accounted x a s b h
move-IsSolvent (reserve_it x) a s b h = reserve-Accounted x a s h
move-IsSolvent (release_it x) a s b h = release-Accounted x a s h
move-IsSolvent (capture_it x) a s b h = capture-Accounted x a s h

-- A movement that returns an error has not changed the account.
pub move_unchanged : (m : Movement) (a : Account) → is_ok (move m a).1 ≡ false → (move m a).0 ≡ a
unfolding move deposit reserve release capture
move_unchanged (deposit_it x) a h = ground arith
move_unchanged (reserve_it x) a h = ground arith
move_unchanged (release_it x) a h = ground arith
move_unchanged (capture_it x) a h = ground arith

-- What a movement needs: a positive amount, and for each of the last three the balance that it takes
-- the amount from.
abbrev pub IsCovered : Movement → Account → Type 0
IsCovered (deposit_it x) a = pos 0 <ℤ x
IsCovered (reserve_it x) a = (pos 0 <ℤ x) × (x ≤ℤ a.available)
IsCovered (release_it x) a = (pos 0 <ℤ x) × (x ≤ℤ a.held)
IsCovered (capture_it x) a = (pos 0 <ℤ x) × (x ≤ℤ a.held)

-- A movement goes through exactly when its amount is positive and, for a reservation, is available,
-- and for a release or a capture is held.
pub move_iff : (m : Movement) (a : Account) → Succeeds (move m a).1 ↔ IsCovered m a
unfolding move deposit reserve release capture
move_iff (deposit_it x) a = ground arith
move_iff (reserve_it x) a = ground arith
move_iff (release_it x) a = ground arith
move_iff (capture_it x) a = ground arith

abbrev pub full_account : String → String → Account
full_account id company = record {
  id = id;
  company_id = company;
  currency = currency_rub;
  available = pos (2 ^ 63 - 1);
  held = pos 0;
}

-- A deposit of 1 on the largest balance that an int64 holds succeeds, and the available money is then
-- the least int64, which is negative.
pub deposit_wraps :
    (id company : String)
    → Succeeds (deposit (pos 1) (full_account id company)).1
      × ((deposit (pos 1) (full_account id company)).0.available ≡ negsuc (2 ^ 63 - 1))
unfolding deposit add64 wrap64 ◌+ℤ◌
deposit_wraps id company = (refl, refl)

taken_back : (a x : ℤ) → IsInt64 a → IsInt64 (a -ℤ x) → add64 (sub64 a x) x ≡ a
taken_back a x f g = rw (sub64_exact a x g) (
    add64_exact (a -ℤ x) x (IsInt64-by_parts _ omega (int_laws) omega (int_laws))
    ∙ eq_of_parts _ _ omega (int_laws))

put_back : (a x : ℤ) → IsInt64 a → IsInt64 (a +ℤ x) → sub64 (add64 a x) x ≡ a
put_back a x f g = rw (add64_exact a x g) (
    sub64_exact (a +ℤ x) x (IsInt64-by_parts _ omega (int_laws) omega (int_laws))
    ∙ eq_of_parts _ _ omega (int_laws))

release_goes :
    (amount : ℤ) (a : Account)
    → pos 0 <ℤ amount
    → amount ≤ℤ a.held
    → release amount a
      ≡ (record a { held = sub64 a.held amount; available = add64 a.available amount }, ok tt)
unfolding release
release_goes amount a up enough = ground arith

-- A reservation on a solvent account that goes through can be released in full, and that restores
-- the account exactly.
pub reserve-release :
    (amount : ℤ) (a : Account)
    → IsSolvent a
    → Succeeds (reserve amount a).1
    → release amount (reserve amount a).0 ≡ (a, ok tt)
reserve-release amount a s h =
    let (up, enough, e) = reserve_effect amount a h in
    let nv = s.available_nonneg in
    let nh = s.held_nonneg in
    let f = s.fits in
    let more = add64_exact a.held amount (IsInt64-by_parts _ omega (int_laws) omega (int_laws)) in
    let av =
      taken_back a.available amount (IsInt64-by_parts _ omega (int_laws) omega (int_laws))
        (IsInt64-by_parts _ omega (int_laws) omega (int_laws)) in
    let hd =
      put_back a.held amount (IsInt64-by_parts _ omega (int_laws) omega (int_laws))
        (IsInt64-by_parts _ omega (int_laws) omega (int_laws)) in
    let covered : amount ≤ℤ add64 a.held amount =
      omega (int_laws, ap pos_part more, ap neg_part more) in
    rw e (release_goes amount _ up covered ∙ same av hd)
  where
    same :
        add64 (sub64 a.available amount) amount ≡ a.available
        → sub64 (add64 a.held amount) amount ≡ a.held
        → ◌≡◌ {A = Account × Result Error (Unit {0})}
            (
              record a {
                held = sub64 (add64 a.held amount) amount;
                available = add64 (sub64 a.available amount) amount;
              },
              ok tt,
            )
            (a, ok tt)
    same p q = rw (p, q) refl
