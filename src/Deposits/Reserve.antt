-- ===== src/Deposits/Reserve.antt =====
-- The reservation of a deposit: reserve_auction_deposit.go of internal/billing/app, and the amount
-- from helpers.go.
use unbelievable_fish.Prelude.{
  ◌/◌, suc, ◌||◌, ◌&&◌, not, String, Option, none, some, Method, Result, ok, err, gets, raise, pure,
  lift, fail_if, ◌>>=◌, ◌>>◌, if◌then◌else◌,
}
use unbelievable_fish.Prelude.Int.{ℤ, pos, negsuc, ◌-ℤ◌, leb_ℤ, ltb_ℤ}
use unbelievable_fish.Prelude.Int64.{mul64}
use unbelievable_fish.Prelude.Time.{Time}
use unbelievable_fish.Prelude.Text.{str_eq}
use unbelievable_fish.Wallet.Types.{Error, is_blank, is_rub, Currency, Account, AuctionDeposit}
use unbelievable_fish.Wallet.Account
use unbelievable_fish.Wallet.Deposit.{new_auction_deposit}
use unbelievable_fish.Deposits.Store
use unbelievable_fish.Deposits.Store.{
  Store, of_wallet, insufficient_funds_for_deposit, deposit_not_held, bid_deposit_reserved,
  deposit_reserved, load_account, save_account, find_deposit, create_deposit, is_recorded, append,
  publish, deposit_reference,
}
use unbelievable_fish.Deposits.Finish.{is_held}

-- `z / 100`, which is cut off towards zero.
unfoldable pub hundredth : ℤ → ℤ
hundredth (pos n) = pos (n / 100)
hundredth (negsuc n) = pos 0 -ℤ pos (suc n / 100)

unfoldable pub deposit_from_start_price : ℤ → ℤ
deposit_from_start_price price =
    let d = hundredth (mul64 price (pos 5)) in
    if ltb_ℤ d (pos 1) && ltb_ℤ (pos 0) price then pos 1 else d

-- `Reserve` on the account that is loaded, with its error for too little money renamed.
unfoldable pub reserved : ℤ → Account → Result Store.Error Account
reserved amount acc =
    let (acc', r) = Account.reserve amount acc in
    elim r [ ok _ ↦ ok acc' | err e ↦ err (renamed e) ]
  where
    renamed : Error → Store.Error
    renamed Error.insufficient_funds = insufficient_funds_for_deposit
    renamed e = of_wallet e

abbrev pub made : Result Error AuctionDeposit → Result Store.Error AuctionDeposit
made (ok d) = ok d
made (err e) = err (of_wallet e)

-- What is recorded and published of a reservation.
unfoldable pub record_reservation :
    AuctionDeposit
    → Account
    → String
    → String
    → ℤ
    → Currency
    → String
    → Time
    → Method Store.Error Store (Unit {0})
record_reservation dep acc company auction amount currency generated now = do
  exists ← gets λ (s : Store).
      is_recorded company "auction_deposit" (deposit_reference auction company) bid_deposit_reserved
        s.ledger
  if exists then pure tt else do
    append (record {
      id = generated;
      account_id = acc.id;
      company_id = company;
      currency = currency;
      amount = amount;
      entry_type = bid_deposit_reserved;
      reference_type = "auction_deposit";
      reference_id = deposit_reference auction company;
      reason = "RESERVE_DEPOSIT";
      created_at = now;
    })
    publish (deposit_reserved dep.auction_id company dep.amount dep.currency)

unfoldable pub reserve_new :
    Account → String → String → ℤ → Currency → String → Time → Method Store.Error Store (Unit {0})
reserve_new acc company auction amount currency generated now = do
  fail_if (leb_ℤ amount (pos 0)) (of_wallet Error.invalid_amount)
  acc' ← lift (reserved amount acc)
  dep ← lift (made (new_auction_deposit auction company acc'.id amount currency now))
  create_deposit dep
  save_account acc'
  record_reservation dep acc' company auction amount currency generated now

unfoldable pub reserve_found :
    Option AuctionDeposit
    → Account
    → String
    → String
    → ℤ
    → Currency
    → String
    → Time
    → Method Store.Error Store (Unit {0})
reserve_found (some dep) acc company auction price currency generated now =
    if is_held dep.status then pure tt else raise deposit_not_held
reserve_found none acc company auction price currency generated now =
    reserve_new acc company auction (deposit_from_start_price price) currency generated now

unfoldable pub reserve_deposit :
    String → String → ℤ → Currency → String → Time → Method Store.Error Store (Unit {0})
reserve_deposit company auction price currency generated now = do
  fail_if (is_blank company || is_blank auction) (of_wallet Error.invalid_identifier)
  fail_if (not (is_rub currency)) (of_wallet Error.unsupported_currency)
  acc ← load_account company
  fail_if (not (str_eq acc.currency currency)) (of_wallet Error.unsupported_currency)
  existing ← gets λ (s : Store). find_deposit auction company s.deposits
  reserve_found existing acc company auction price currency generated now
