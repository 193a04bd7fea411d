-- ===== src/Deposits/Store.antt =====
-- What the use cases on deposits read and write: the tables of the accounts, the deposits and the
-- ledger as the repositories of internal/billing/postgres query them, and the events published.
use Prim.Native.String.{◌++◌}
use unbelievable_fish.Prelude.{
  Bool, true, false, ◌&&◌, ◌||◌, List, [], ◌∷◌, String, Option, none, some, Result, ok, err, Method,
  modify, lift, if◌then◌else◌,
}
use unbelievable_fish.Prelude.Int.{ℤ}
use unbelievable_fish.Prelude.Time.{Time}
use unbelievable_fish.Prelude.Text.{str_eq}
use unbelievable_fish.Wallet.Types
use unbelievable_fish.Wallet.Types.{Currency, Account, AuctionDeposit, DepositStatus}
use unbelievable_fish.Wallet.Account.{rehydrate_account}

-- The errors of the use cases, and those of the wallet that they pass on.
pub data Error : Type 0 where
  of_wallet : Types.Error → Error
  insufficient_funds_for_deposit deposit_not_held deposit_not_found : Error
  account_not_found platform_fee_due_mismatch : Error

pub data LedgerEntryType : Type 0 where
  top_up_confirmed bid_deposit_reserved bid_deposit_released bid_deposit_captured : LedgerEntryType
  platform_fee_captured platform_fee_due seller_payout_credited : LedgerEntryType

abbrev type_eq : LedgerEntryType → LedgerEntryType → Bool
type_eq top_up_confirmed top_up_confirmed = true
type_eq bid_deposit_reserved bid_deposit_reserved = true
type_eq bid_deposit_released bid_deposit_released = true
type_eq bid_deposit_captured bid_deposit_captured = true
type_eq platform_fee_captured platform_fee_captured = true
type_eq platform_fee_due platform_fee_due = true
type_eq seller_payout_credited seller_payout_credited = true
type_eq _ _ = false

pub record LedgerEntry : Type 0 where
  pub id : String
  pub account_id : String
  pub company_id : String
  pub currency : Currency
  pub amount : ℤ
  pub entry_type : LedgerEntryType
  pub reference_type : String
  pub reference_id : String
  pub reason : String
  pub created_at : Time

-- The events of these use cases: auction, company, amount, currency, and the reason of the second
-- and third.
pub data Event : Type 0 where
  deposit_reserved : String → String → ℤ → Currency → Event
  deposit_released deposit_captured : String → String → ℤ → Currency → String → Event
  platform_fee_captured platform_fee_payment_required : String → String → ℤ → Currency → Event

pub record Store : Type 0 where
  pub accounts : List Account
  pub deposits : List AuctionDeposit
  pub ledger : List LedgerEntry
  -- What was published, last first; `none` where the use case has no publisher.
  pub events : Option (List Event)

-- `WHERE company_id = $1`
unfoldable pub find_account : String → List Account → Option Account
find_account company [] = none
find_account company (a ∷ rest) =
    if str_eq a.company_id company then some a else find_account company rest

abbrev from_wallet : Result Types.Error Account → Result Error Account
from_wallet (ok x) = ok x
from_wallet (err e) = err (of_wallet e)

abbrev pub loaded : Option Account → Result Error Account
loaded none = err account_not_found
loaded (some a) = from_wallet (rehydrate_account a.id a.company_id a.currency a.available a.held)

unfoldable pub load_account : String → Method Error Store Account
unfolding find_account
load_account company s = lift (loaded (find_account company s.accounts)) s

-- `UPDATE ... WHERE id = $1`, on every row.
unfoldable pub update_accounts : Account → List Account → List Account
update_accounts acc [] = []
update_accounts acc (a ∷ rest) =
    let others = update_accounts acc rest in
    if str_eq a.id acc.id
    then record a { available = acc.available; held = acc.held } ∷ others
    else a ∷ others

unfoldable pub has_account : String → List Account → Bool
has_account id [] = false
has_account id (a ∷ rest) = str_eq a.id id || has_account id rest

unfoldable pub save_account : Account → Method Error Store (Unit {0})
unfolding update_accounts has_account
save_account acc s =
    if has_account acc.id s.accounts
    then (record s { accounts = update_accounts acc s.accounts }, ok tt)
    else (s, err account_not_found)

-- `WHERE auction_id = $1 AND company_id = $2`
abbrev is_deposit_of : String → String → AuctionDeposit → Bool
is_deposit_of auction company d = str_eq d.auction_id auction && str_eq d.company_id company

unfoldable pub find_deposit : String → String → List AuctionDeposit → Option AuctionDeposit
find_deposit auction company [] = none
find_deposit auction company (d ∷ rest) =
    if is_deposit_of auction company d then some d else find_deposit auction company rest

unfoldable pub create_deposit : AuctionDeposit → Method Error Store (Unit {0})
create_deposit d = modify λ (s : Store). record s { deposits = d ∷ s.deposits }

unfoldable pub update_deposits : AuctionDeposit → List AuctionDeposit → List AuctionDeposit
update_deposits dep [] = []
update_deposits dep (d ∷ rest) =
    let others = update_deposits dep rest in
    if is_deposit_of dep.auction_id dep.company_id d
    then record d {
      status = dep.status;
      released_at = dep.released_at;
      captured_at = dep.captured_at;
    }
      ∷ others
    else d ∷ others

unfoldable pub save_deposit : AuctionDeposit → Method Error Store (Unit {0})
unfolding update_deposits
save_deposit dep = modify λ (s : Store). record s { deposits = update_deposits dep s.deposits }

-- `ExistsByReference`
unfoldable pub is_recorded : String → String → String → LedgerEntryType → List LedgerEntry → Bool
is_recorded company kind reference type [] = false
is_recorded company kind reference type (e ∷ rest) =
    (str_eq e.company_id company
      && str_eq e.reference_type kind
      && str_eq e.reference_id reference
      && type_eq e.entry_type type)
    || is_recorded company kind reference type rest

-- An entry of a reference that is there is dropped without an error, by the unique index.
unfoldable pub append : LedgerEntry → Method Error Store (Unit {0})
unfolding is_recorded
append e = modify λ (s : Store).
    if is_recorded e.company_id e.reference_type e.reference_id e.entry_type s.ledger
    then s
    else record s { ledger = e ∷ s.ledger }

abbrev published : Event → Option (List Event) → Option (List Event)
published e none = none
published e (some es) = some (e ∷ es)

unfoldable pub publish : Event → Method Error Store (Unit {0})
publish e = modify λ (s : Store). record s { events = published e s.events }

-- A method of an account that is loaded.
unfoldable pub on_account : Method Types.Error Account (Unit {0}) → Account → Result Error Account
on_account m acc = let (acc', r) = m acc in elim r [ ok _ ↦ ok acc' | err e ↦ err (of_wallet e) ]

unfoldable pub deposit_reference : String → String → String
deposit_reference auction company = "auction:" ++ auction ++ ":company:" ++ company
