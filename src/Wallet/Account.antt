-- ===== src/Wallet/Account.antt =====
-- internal/billing/wallet/account.go: the two balances of a company, and what moves money between
-- them.
use unbelievable_fish.Prelude.{
  Bool, not, ◌||◌, String, Result, ok, err, gets, modify, fail_if, check, ◌then_also◌, ◌>>=◌, ◌>>◌,
  Method, if◌then◌else◌,
}
use unbelievable_fish.Prelude.Int.{ℤ, pos, ltb_ℤ, leb_ℤ}
use unbelievable_fish.Prelude.Int64.{add64, sub64}
use unbelievable_fish.Wallet.Types.{is_blank, Error, Currency, is_rub, Account}

unfoldable pub new_account : String → String → Currency → Result Error Account
unfolding is_blank is_rub
new_account id company currency =
    check (is_blank id || is_blank company) Error.invalid_identifier
    then_also check (not (is_rub currency)) Error.unsupported_currency
    then_also ok (record {
      id = id;
      company_id = company;
      currency = currency;
      available = pos 0;
      held = pos 0;
    })

abbrev set_balances : ℤ → ℤ → Result Error Account → Result Error Account
set_balances available held (ok a) =
    if ltb_ℤ available (pos 0) || ltb_ℤ held (pos 0)
    then err Error.invalid_amount
    else ok (record a { available = available; held = held })
set_balances available held (err e) = err e

unfoldable pub rehydrate_account : String → String → Currency → ℤ → ℤ → Result Error Account
unfolding new_account
rehydrate_account id company currency available held =
    set_balances available held (new_account id company currency)

unfoldable pub total : Account → ℤ
total a = add64 a.available a.held

abbrev this_account : Method Error Account Account
this_account = gets λ a. a

abbrev pub is_not_positive : ℤ → Bool
is_not_positive amount = leb_ℤ amount (pos 0)

unfoldable pub deposit : ℤ → Method Error Account (Unit {0})
deposit amount = do
  fail_if (is_not_positive amount) Error.invalid_amount
  modify λ (a : Account). record a { available = add64 a.available amount }

unfoldable pub reserve : ℤ → Method Error Account (Unit {0})
reserve amount = do
  fail_if (is_not_positive amount) Error.invalid_amount
  a ← this_account
  fail_if (ltb_ℤ a.available amount) Error.insufficient_funds
  modify
      λ (x : Account). record x { available = sub64 x.available amount; held = add64 x.held amount }

unfoldable pub release : ℤ → Method Error Account (Unit {0})
release amount = do
  fail_if (is_not_positive amount) Error.invalid_amount
  a ← this_account
  fail_if (ltb_ℤ a.held amount) Error.insufficient_held
  modify
      λ (x : Account). record x { held = sub64 x.held amount; available = add64 x.available amount }

unfoldable pub capture : ℤ → Method Error Account (Unit {0})
capture amount = do
  fail_if (is_not_positive amount) Error.invalid_amount
  a ← this_account
  fail_if (ltb_ℤ a.held amount) Error.insufficient_held
  modify λ (x : Account). record x { held = sub64 x.held amount }
