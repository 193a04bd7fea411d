-- ===== src/Deposits/Fee.antt =====
-- The platform fee taken from a deposit: capture_platform_fee_from_deposit.go of internal/billing/app.
use Prim.Native.String.{◌++◌}
use unbelievable_fish.Prelude.{
  Bool, ◌||◌, not, List, String, Option, none, some, Method, gets, raise, pure, lift, fail_if,
  ◌>>=◌, ◌>>◌, if◌then◌else◌,
}
use unbelievable_fish.Prelude.Int.{ℤ, pos, leb_ℤ, ltb_ℤ, eqb_ℤ}
use unbelievable_fish.Prelude.Int64.{sub64}
use unbelievable_fish.Prelude.Time.{Time}
use unbelievable_fish.Wallet.Types.{Error, is_blank, Account, AuctionDeposit}
use unbelievable_fish.Wallet.Account
use unbelievable_fish.Wallet.Deposit.{mark_released, mark_captured, mark_settled}
use unbelievable_fish.Deposits.Store
use unbelievable_fish.Deposits.Store.{
  Store, LedgerEntry, LedgerEntryType, of_wallet, deposit_not_held, deposit_not_found, load_account,
  save_account, find_deposit, save_deposit, is_recorded, append, publish, on_account,
  deposit_reference,
}
use unbelievable_fish.Deposits.Finish.{is_held}
use unbelievable_fish.Deposits.Settle.{platform_fee}

-- What a run of the use case is given, and the two ids that it may generate.
pub record Capturing : Type 0 where
  pub company : String
  pub auction : String
  pub first_id : String
  pub second_id : String
  pub now : Time

-- `settlementAlreadyRecorded`
unfoldable pub is_fee_recorded : String → String → List LedgerEntry → Bool
unfolding is_recorded
is_fee_recorded company ref ledger =
    is_recorded company "platform_fee_from_deposit" ref LedgerEntryType.platform_fee_captured ledger
    || is_recorded company "platform_fee_from_deposit_zero" ref LedgerEntryType.bid_deposit_released
        ledger

module _ (x : Capturing) where
  abbrev pub fee_ref : String
  fee_ref = deposit_reference x.auction x.company

  -- An entry of the ledger for the account and the deposit.
  unfoldable pub enter :
      String
      → Account
      → AuctionDeposit
      → ℤ
      → LedgerEntryType
      → String
      → String
      → String
      → Method Store.Error Store (Unit {0})
  enter id acc dep amount type kind reference reason = append (record {
    id = id;
    account_id = acc.id;
    company_id = x.company;
    currency = dep.currency;
    amount = amount;
    entry_type = type;
    reference_type = kind;
    reference_id = reference;
    reason = reason;
    created_at = x.now;
  })

  unfoldable pub publish_fee : AuctionDeposit → ℤ → Method Store.Error Store (Unit {0})
  publish_fee dep amount =
      publish (Store.platform_fee_captured dep.auction_id x.company amount dep.currency)

  -- No fee: the whole deposit is released.
  unfoldable pub give_back : AuctionDeposit → Account → Method Store.Error Store (Unit {0})
  give_back dep acc = do
    acc' ← lift (on_account (Account.release dep.amount) acc)
    save_deposit (mark_released x.now dep)
    save_account acc'
    enter x.first_id acc' dep dep.amount LedgerEntryType.bid_deposit_released
        "platform_fee_from_deposit_zero" fee_ref "PLATFORM_FEE_ZERO"

  -- A fee below the deposit: the fee is captured and the rest released.
  unfoldable pub take_part : ℤ → AuctionDeposit → Account → Method Store.Error Store (Unit {0})
  take_part fee dep acc = do
    let remainder = sub64 dep.amount fee
    acc' ← lift (on_account (Account.capture fee) acc)
    acc'' ← lift (on_account (Account.release remainder) acc')
    save_deposit (mark_settled x.now dep)
    save_account acc''
    enter x.first_id acc'' dep fee LedgerEntryType.platform_fee_captured "platform_fee_from_deposit"
        fee_ref "PLATFORM_FEE"
    enter x.second_id acc'' dep remainder LedgerEntryType.bid_deposit_released
        "platform_fee_deposit_remainder" (fee_ref ++ ":remainder") "PLATFORM_FEE_REMAINDER"
    publish_fee dep fee

  -- A fee that is the deposit.
  unfoldable pub take_all : AuctionDeposit → Account → Method Store.Error Store (Unit {0})
  take_all dep acc = do
    acc' ← lift (on_account (Account.capture dep.amount) acc)
    save_deposit (mark_captured x.now dep)
    save_account acc'
    enter x.first_id acc' dep dep.amount LedgerEntryType.platform_fee_captured
        "platform_fee_from_deposit" fee_ref "PLATFORM_FEE"
    publish_fee dep dep.amount

  -- A fee above the deposit: what is missing is due.
  unfoldable pub take_all_with_due :
      ℤ → AuctionDeposit → Account → Method Store.Error Store (Unit {0})
  take_all_with_due fee dep acc = do
    acc' ← lift (on_account (Account.capture dep.amount) acc)
    save_deposit (mark_captured x.now dep)
    save_account acc'
    enter x.first_id acc' dep dep.amount LedgerEntryType.platform_fee_captured
        "platform_fee_from_deposit" fee_ref "PLATFORM_FEE"
    enter x.second_id acc' dep (sub64 fee dep.amount) LedgerEntryType.platform_fee_due
        "platform_fee_due" (fee_ref ++ ":due") "PLATFORM_FEE_DUE"
    publish_fee dep dep.amount
    publish (
        Store.platform_fee_payment_required dep.auction_id x.company (sub64 fee dep.amount)
          dep.currency)

  unfoldable pub capture_fee_now :
      ℤ → AuctionDeposit → Account → Method Store.Error Store (Unit {0})
  capture_fee_now fee dep acc =
      if leb_ℤ fee (pos 0)
      then give_back dep acc
      else if ltb_ℤ fee dep.amount
      then take_part fee dep acc
      else if eqb_ℤ dep.amount fee
      then take_all dep acc
      else take_all_with_due fee dep acc

  unfoldable pub capture_fee_found :
      Option AuctionDeposit → ℤ → Account → Method Store.Error Store (Unit {0})
  capture_fee_found none price acc = raise deposit_not_found
  capture_fee_found (some dep) price acc =
      fail_if (not (is_held dep.status)) deposit_not_held
      >> capture_fee_now (platform_fee price) dep acc

  -- `Execute`
  unfoldable pub capture_fee : ℤ → Method Store.Error Store (Unit {0})
  capture_fee price = do
    fail_if (is_blank x.company || is_blank x.auction) (of_wallet Error.invalid_identifier)
    fail_if (ltb_ℤ price (pos 0)) (of_wallet Error.invalid_amount)
    done ← gets λ (s : Store). is_fee_recorded x.company fee_ref s.ledger
    if done then pure tt else do
      acc ← load_account x.company
      found ← gets λ (s : Store). find_deposit x.auction x.company s.deposits
      capture_fee_found found price acc
