-- ===== src/Wallet/TopUp.antt =====
-- internal/billing/wallet/top_up.go.
use unbelievable_fish.Prelude.{
  Bool, true, false, not, ◌||◌, String, Result, ok, gets, modify, fail_if, check, ◌then_also◌,
  ◌>>=◌, ◌>>◌, Method, none, some,
}
use unbelievable_fish.Prelude.Int.{ℤ, pos, leb_ℤ}
use unbelievable_fish.Prelude.Time.{Time}
use unbelievable_fish.Wallet.Types.{is_blank, Error, Currency, is_rub, TopUpStatus, TopUp}

unfoldable pub new_top_up :
    String → String → String → ℤ → Currency → String → Time → Result Error TopUp
unfolding is_blank is_rub
new_top_up id company account amount currency provider now =
    check (is_blank id || is_blank company || is_blank account || is_blank provider)
      Error.invalid_identifier
    then_also check (leb_ℤ amount (pos 0)) Error.invalid_amount
    then_also check (not (is_rub currency)) Error.unsupported_currency
    then_also ok (record {
      id = id;
      company_id = company;
      account_id = account;
      amount = amount;
      currency = currency;
      status = TopUpStatus.pending;
      provider = provider;
      provider_payment_id = "";
      confirmation_url = "";
      created_at = now;
      confirmed_at = none;
      failed_at = none;
    })

abbrev this_top_up : Method Error TopUp TopUp
this_top_up = gets λ t. t

abbrev pub is_pending : TopUpStatus → Bool
is_pending TopUpStatus.pending = true
is_pending _ = false

unfoldable pub attach_provider_payment : String → String → Method Error TopUp (Unit {0})
attach_provider_payment payment url = do
  t ← this_top_up
  fail_if (not (is_pending t.status)) Error.invalid_top_up_status
  fail_if (is_blank payment) Error.invalid_identifier
  modify λ (x : TopUp). record x { provider_payment_id = payment; confirmation_url = url }

unfoldable pub mark_succeeded : Time → Method Error TopUp (Unit {0})
mark_succeeded now = do
  t ← this_top_up
  fail_if (not (is_pending t.status)) Error.invalid_top_up_status
  fail_if (is_blank t.provider_payment_id) Error.invalid_identifier
  modify λ (x : TopUp). record x { status = TopUpStatus.succeeded; confirmed_at = some now }

unfoldable pub mark_failed : Time → Method Error TopUp (Unit {0})
mark_failed now = do
  t ← this_top_up
  fail_if (not (is_pending t.status)) Error.invalid_top_up_status
  modify λ (x : TopUp). record x { status = TopUpStatus.failed; failed_at = some now }
