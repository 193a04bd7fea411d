-- ===== src/Wallet/Deposit.antt =====
-- internal/billing/wallet/deposit.go.
use unbelievable_fish.Prelude.{not, ◌||◌, String, Result, ok, check, ◌then_also◌, none, some}
use unbelievable_fish.Prelude.Int.{ℤ, pos, leb_ℤ}
use unbelievable_fish.Prelude.Time.{Time}
use unbelievable_fish.Wallet.Types.{
  is_blank, Error, Currency, is_rub, DepositStatus, AuctionDeposit,
}

unfoldable pub new_auction_deposit :
    String → String → String → ℤ → Currency → Time → Result Error AuctionDeposit
unfolding is_blank is_rub
new_auction_deposit auction company account amount currency now =
    check (is_blank auction || is_blank company || is_blank account) Error.invalid_identifier
    then_also check (leb_ℤ amount (pos 0)) Error.invalid_amount
    then_also check (not (is_rub currency)) Error.unsupported_currency
    then_also ok (record {
      auction_id = auction;
      company_id = company;
      account_id = account;
      amount = amount;
      currency = currency;
      status = DepositStatus.held;
      created_at = now;
      released_at = none;
      captured_at = none;
    })

unfoldable pub mark_released : Time → AuctionDeposit → AuctionDeposit
mark_released now d = record d { status = DepositStatus.released; released_at = some now }

unfoldable pub mark_captured : Time → AuctionDeposit → AuctionDeposit
mark_captured now d = record d { status = DepositStatus.captured; captured_at = some now }

unfoldable pub mark_settled : Time → AuctionDeposit → AuctionDeposit
mark_settled now d = record d {
  status = DepositStatus.settled;
  released_at = some now;
  captured_at = some now;
}
