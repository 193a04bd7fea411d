-- ===== src/Deposits/Finish.antt =====
-- The release and the capture of a deposit: release_auction_deposit.go and capture_auction_deposit.go
-- of internal/billing/app.
use unbelievable_fish.Prelude.{
  Bool, true, false, ◌||◌, not, String, Option, none, some, Method, gets, raise, pure, lift,
  fail_if, ◌>>=◌, ◌>>◌, if◌then◌else◌,
}
use unbelievable_fish.Prelude.Time.{Time}
use unbelievable_fish.Wallet.Types.{Error, is_blank, Account, AuctionDeposit, DepositStatus}
use unbelievable_fish.Wallet.Account
use unbelievable_fish.Wallet.Deposit.{mark_released, mark_captured}
use unbelievable_fish.Deposits.Store
use unbelievable_fish.Deposits.Store.{
  Store, of_wallet, deposit_not_held, deposit_not_found, bid_deposit_released, bid_deposit_captured,
  deposit_released, deposit_captured, load_account, save_account, find_deposit, save_deposit,
  is_recorded, append, publish, on_account, deposit_reference,
}

abbrev pub is_held : DepositStatus → Bool
is_held DepositStatus.held = true
is_held _ = false

abbrev pub is_released : DepositStatus → Bool
is_released DepositStatus.released = true
is_released _ = false

abbrev pub is_captured : DepositStatus → Bool
is_captured DepositStatus.captured = true
is_captured _ = false

-- What comes once nothing speaks against it.
unfoldable pub release_now :
    AuctionDeposit
    → Account
    → String
    → String
    → String
    → String
    → Time
    → Method Store.Error Store (Unit {0})
release_now dep acc company auction reason generated now = do
  acc' ← lift (on_account (Account.release dep.amount) acc)
  save_deposit (mark_released now dep)
  save_account acc'
  append (record {
    id = generated;
    account_id = acc'.id;
    company_id = company;
    currency = dep.currency;
    amount = dep.amount;
    entry_type = bid_deposit_released;
    reference_type = "auction_deposit_release";
    reference_id = deposit_reference auction company;
    reason = reason;
    created_at = now;
  })
  publish (deposit_released dep.auction_id company dep.amount dep.currency reason)

unfoldable pub release_found :
    Option AuctionDeposit
    → Account
    → String
    → String
    → String
    → String
    → Time
    → Method Store.Error Store (Unit {0})
release_found none acc company auction reason generated now = raise deposit_not_found
release_found (some dep) acc company auction reason generated now =
    if is_released dep.status then pure tt else do
      fail_if (not (is_held dep.status)) deposit_not_held
      exists ← gets λ (s : Store).
          is_recorded company "auction_deposit_release" (deposit_reference auction company)
            bid_deposit_released s.ledger
      if exists then pure tt else release_now dep acc company auction reason generated now

unfoldable pub release_deposit :
    String → String → String → String → Time → Method Store.Error Store (Unit {0})
release_deposit company auction reason generated now = do
  fail_if (is_blank company || is_blank auction) (of_wallet Error.invalid_identifier)
  acc ← load_account company
  found ← gets λ (s : Store). find_deposit auction company s.deposits
  release_found found acc company auction reason generated now

unfoldable pub capture_now :
    AuctionDeposit
    → Account
    → String
    → String
    → String
    → String
    → Time
    → Method Store.Error Store (Unit {0})
capture_now dep acc company auction reason generated now = do
  acc' ← lift (on_account (Account.capture dep.amount) acc)
  save_deposit (mark_captured now dep)
  save_account acc'
  append (record {
    id = generated;
    account_id = acc'.id;
    company_id = company;
    currency = dep.currency;
    amount = dep.amount;
    entry_type = bid_deposit_captured;
    reference_type = "auction_deposit_capture";
    reference_id = deposit_reference auction company;
    reason = reason;
    created_at = now;
  })
  publish (deposit_captured dep.auction_id company dep.amount dep.currency reason)

unfoldable pub capture_found :
    Option AuctionDeposit
    → Account
    → String
    → String
    → String
    → String
    → Time
    → Method Store.Error Store (Unit {0})
capture_found none acc company auction reason generated now = raise deposit_not_found
capture_found (some dep) acc company auction reason generated now =
    if is_captured dep.status then pure tt else do
      fail_if (not (is_held dep.status)) deposit_not_held
      exists ← gets λ (s : Store).
          is_recorded company "auction_deposit_capture" (deposit_reference auction company)
            bid_deposit_captured s.ledger
      if exists then pure tt else capture_now dep acc company auction reason generated now

unfoldable pub capture_deposit :
    String → String → String → String → Time → Method Store.Error Store (Unit {0})
capture_deposit company auction reason generated now = do
  fail_if (is_blank company || is_blank auction) (of_wallet Error.invalid_identifier)
  acc ← load_account company
  found ← gets λ (s : Store). find_deposit auction company s.deposits
  capture_found found acc company auction reason generated now
