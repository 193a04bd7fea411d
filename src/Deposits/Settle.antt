-- ===== src/Deposits/Settle.antt =====
-- The settlement of the winner's deposit after the invoice is paid:
-- settle_winner_deposit_after_invoice_paid.go of internal/billing/app, and the fee from helpers.go.
use Prim.Native.String.{◌++◌}
use unbelievable_fish.Prelude.{
  Bool, ◌||◌, ◌&&◌, not, List, String, Option, none, some, Method, gets, raise, pure, lift, fail_if,
  ◌>>=◌, ◌>>◌, if◌then◌else◌,
}
use unbelievable_fish.Prelude.Int.{ℤ, pos, leb_ℤ, ltb_ℤ, eqb_ℤ}
use unbelievable_fish.Prelude.Int64.{mul64, sub64}
use unbelievable_fish.Prelude.Time.{Time}
use unbelievable_fish.Wallet.Types.{Error, is_blank, Account, AuctionDeposit}
use unbelievable_fish.Wallet.Account
use unbelievable_fish.Wallet.Deposit.{mark_released, mark_captured, mark_settled}
use unbelievable_fish.Deposits.Store
use unbelievable_fish.Deposits.Store.{
  Store, LedgerEntry, of_wallet, deposit_not_found, platform_fee_due_mismatch, load_account,
  save_account, find_deposit, save_deposit, is_recorded, append, publish, on_account,
  deposit_reference,
}
use unbelievable_fish.Deposits.Finish.{is_held}
use unbelievable_fish.Deposits.Reserve.{hundredth}

-- `platformFeeFromFinalPrice`
unfoldable pub platform_fee : ℤ → ℤ
unfolding hundredth mul64
platform_fee price = if leb_ℤ price (pos 0) then pos 0 else hundredth (mul64 price (pos 3))

-- What the invoice has to bring beside the deposit.
unfoldable pub expected_due : ℤ → ℤ → ℤ
unfolding sub64
expected_due fee amount = let due = sub64 fee amount in if ltb_ℤ due (pos 0) then pos 0 else due

-- `settlementLedgerReason`
unfoldable pub settlement_reason : String → String → String
unfolding is_blank
settlement_reason scenario kind = if is_blank scenario then kind else scenario ++ ":" ++ kind

abbrev pub settled_kind : String
settled_kind = "winner_deposit_after_invoice"

-- `settlementAlreadyRecorded`
unfoldable pub is_settlement_recorded : String → String → List LedgerEntry → Bool
unfolding is_recorded
is_settlement_recorded company ref ledger =
    is_recorded company settled_kind ref Store.platform_fee_captured ledger
    || is_recorded company settled_kind (ref ++ ":remainder") Store.bid_deposit_released ledger
    || is_recorded company settled_kind (ref ++ ":full_release") Store.bid_deposit_released ledger
    || is_recorded company settled_kind (ref ++ ":fee_zero") Store.bid_deposit_released ledger

-- What a run of the use case is given, and the two ids that it may generate.
pub record Settling : Type 0 where
  pub company : String
  pub auction : String
  pub reason : String
  pub fee_id : String
  pub release_id : String
  pub now : Time

module _ (x : Settling) where
  abbrev pub settlement_ref : String
  settlement_ref = deposit_reference x.auction x.company

  -- `appendFeeLedger`
  unfoldable pub append_fee : Account → AuctionDeposit → ℤ → Method Store.Error Store (Unit {0})
  append_fee acc dep amount = append (record {
    id = x.fee_id;
    account_id = acc.id;
    company_id = x.company;
    currency = dep.currency;
    amount = amount;
    entry_type = Store.platform_fee_captured;
    reference_type = settled_kind;
    reference_id = settlement_ref;
    reason = settlement_reason x.reason "PLATFORM_FEE_AFTER_INVOICE";
    created_at = x.now;
  })

  -- `appendReleaseLedger`
  unfoldable pub append_release :
      Account → AuctionDeposit → ℤ → String → Method Store.Error Store (Unit {0})
  append_release acc dep amount reference = append (record {
    id = x.release_id;
    account_id = acc.id;
    company_id = x.company;
    currency = dep.currency;
    amount = amount;
    entry_type = Store.bid_deposit_released;
    reference_type = settled_kind;
    reference_id = reference;
    reason = settlement_reason x.reason "DEPOSIT_RELEASE_AFTER_INVOICE";
    created_at = x.now;
  })

  -- `publishCaptured`
  unfoldable pub publish_captured : AuctionDeposit → ℤ → Method Store.Error Store (Unit {0})
  publish_captured dep amount =
      publish (Store.platform_fee_captured dep.auction_id x.company amount dep.currency)

  -- `releaseFullDeposit`, and the last branch of `Execute`, which ends the reference otherwise.
  unfoldable pub release_all :
      String → ℤ → AuctionDeposit → Account → Method Store.Error Store (Unit {0})
  release_all suffix amount dep acc = do
    acc' ← lift (on_account (Account.release amount) acc)
    save_deposit (mark_released x.now dep)
    save_account acc'
    append_release acc' dep amount (settlement_ref ++ suffix)

  unfoldable pub capture_all : ℤ → AuctionDeposit → Account → Method Store.Error Store (Unit {0})
  capture_all amount dep acc = do
    acc' ← lift (on_account (Account.capture amount) acc)
    save_deposit (mark_captured x.now dep)
    save_account acc'
    append_fee acc' dep amount
    publish_captured dep amount

  unfoldable pub split_deposit :
      ℤ → ℤ → AuctionDeposit → Account → Method Store.Error Store (Unit {0})
  split_deposit taken given dep acc = do
    acc' ← lift (on_account (Account.capture taken) acc)
    acc'' ← lift (on_account (Account.release given) acc')
    save_deposit (mark_settled x.now dep)
    save_account acc''
    append_fee acc'' dep taken
    append_release acc'' dep given (settlement_ref ++ ":remainder")
    publish_captured dep taken

  -- `Execute` from the account on.
  unfoldable pub settle_now : ℤ → AuctionDeposit → Account → Method Store.Error Store (Unit {0})
  settle_now fee dep acc =
      let taken = if ltb_ℤ fee dep.amount then fee else dep.amount in
      let given = sub64 dep.amount taken in
      if leb_ℤ fee (pos 0)
      then release_all ":fee_zero" dep.amount dep acc
      else if ltb_ℤ (pos 0) taken && ltb_ℤ (pos 0) given
      then split_deposit taken given dep acc
      else if ltb_ℤ (pos 0) taken && eqb_ℤ given (pos 0)
      then capture_all taken dep acc
      else release_all ":full_release" given dep acc

  unfoldable pub settle_found : Option AuctionDeposit → ℤ → ℤ → Method Store.Error Store (Unit {0})
  settle_found none goods paid = raise deposit_not_found
  settle_found (some dep) goods paid = if not (is_held dep.status) then pure tt else do
    fail_if (not (eqb_ℤ paid (expected_due (platform_fee goods) dep.amount)))
        platform_fee_due_mismatch
    done ← gets λ (s : Store). is_settlement_recorded x.company settlement_ref s.ledger
    if done then pure tt else (load_account x.company >>= settle_now (platform_fee goods) dep)

  -- `Execute`
  unfoldable pub settle_deposit : ℤ → ℤ → Method Store.Error Store (Unit {0})
  settle_deposit goods paid = do
    fail_if (is_blank x.auction || is_blank x.company) (of_wallet Error.invalid_identifier)
    fail_if (leb_ℤ goods (pos 0)) (of_wallet Error.invalid_amount)
    found ← gets λ (s : Store). find_deposit x.auction x.company s.deposits
    settle_found found goods paid
