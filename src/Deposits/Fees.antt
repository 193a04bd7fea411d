-- ===== src/Deposits/Fees.antt =====
-- The platform fee from a deposit as a whole, and beside the other ends of a deposit
-- (internal/billing/app).
use unbelievable_fish.Prelude.{
  ◌≡◌, ◌∙◌, ap, subst, Bool, true, false, ◌||◌, List, String, arith, some, Succeeds, ok, Method,
  fail_if_passed, ◌>>=◌, ◌>>◌, lift, fail_if, if◌then◌else◌, pure,
}
use unbelievable_fish.Prelude.Int.{ℤ, pos, ltb_ℤ}
use unbelievable_fish.Prelude.Int64.{IsInt64}
use unbelievable_fish.Wallet.Types.{Error, is_blank, Account, AuctionDeposit}
use unbelievable_fish.Wallet.Movement.{IsSolvent}
use unbelievable_fish.Deposits.Store
use unbelievable_fish.Deposits.Store.{
  Store, LedgerEntryType, load_account, save_account, save_deposit, append, publish, find_deposit,
  update_deposits, update_accounts, on_account, find_account, loaded,
}
use unbelievable_fish.Deposits.Finish.{is_held}
use unbelievable_fish.Deposits.Settle.{platform_fee}
use unbelievable_fish.Deposits.Settled.{Spent, saved_account}
use unbelievable_fish.Deposits.Settlement.{
  kept, settled_of, settled_of_over, settled_found, settle_again,
}
use unbelievable_fish.Deposits.Settle.{Settling, settle_deposit}
use unbelievable_fish.Deposits.FeeTaken.{capture_fee_now-Effect}
use unbelievable_fish.Deposits.Once.{Call, run_calls, calls_settled}
use unbelievable_fish.Deposits.Fee.{
  Capturing, fee_ref, is_fee_recorded, capture_fee_now, capture_fee_found, capture_fee,
}

load_goes :
    (company : String) (f : Account → Method Store.Error Store (Unit {0})) (acc : Account)
    (s : Store)
    → loaded (find_account company s.accounts) ≡ ok acc
    → (load_account company >>= f) s ≡ f acc s
unfolding load_account
load_goes company f acc s there = ap (λ r. (lift r >>= f) s) there

module _ (x : Capturing) where
  fee_found_enters :
      (price : ℤ) (dep : AuctionDeposit) (acc : Account) (s : Store)
      → is_held dep.status ≡ true
      → capture_fee_found x (some dep) price acc s
        ≡ capture_fee_now x (platform_fee price) dep acc s
  unfolding capture_fee_found
  fee_found_enters price dep acc s k = ground arith

  fee_rest : ℤ → Bool → Method Store.Error Store (Unit {0})
  fee_rest price recorded =
      if recorded
      then pure tt
      else (load_account x.company >>= λ acc s.
          capture_fee_found x (find_deposit x.auction x.company s.deposits) price acc s)

  fee_rest_enters :
      (price : ℤ) (dep : AuctionDeposit) (acc : Account) (s : Store)
      → find_deposit x.auction x.company s.deposits ≡ some dep
      → is_held dep.status ≡ true
      → is_fee_recorded x.company (fee_ref x) s.ledger ≡ false
      → loaded (find_account x.company s.accounts) ≡ ok acc
      → fee_rest price (is_fee_recorded x.company (fee_ref x) s.ledger) s
        ≡ capture_fee_now x (platform_fee price) dep acc s
  unfolding fee_rest
  fee_rest_enters price dep acc s h k n there = rw n (
      load_goes x.company
        (λ acc y. capture_fee_found x (find_deposit x.auction x.company y.deposits) price acc y) acc
        s there
      ∙ (ap (λ d. capture_fee_found x d price acc s) h ∙ fee_found_enters price dep acc s k))

  fee_reaches :
      (price : ℤ) (dep : AuctionDeposit) (acc : Account) (s : Store)
      → find_deposit x.auction x.company s.deposits ≡ some dep
      → is_held dep.status ≡ true
      → is_fee_recorded x.company (fee_ref x) s.ledger ≡ false
      → loaded (find_account x.company s.accounts) ≡ ok acc
      → Succeeds (capture_fee x price s).1
      → capture_fee x price s ≡ capture_fee_now x (platform_fee price) dep acc s
  unfolding capture_fee fee_rest
  fee_reaches price dep acc s h k n there done =
      let go_on : Method Store.Error Store (Unit {0}) =
        λ y. fee_rest price (is_fee_recorded x.company (fee_ref x) y.ledger) y in
      let (_, e1, h1) =
        fail_if_passed (is_blank x.company || is_blank x.auction)
          (Store.of_wallet Error.invalid_identifier)
          (fail_if (ltb_ℤ price (pos 0)) (Store.of_wallet Error.invalid_amount) >> go_on) s done in
      let (_, e2, h2) =
        fail_if_passed (ltb_ℤ price (pos 0)) (Store.of_wallet Error.invalid_amount) go_on s h1 in
      e1 ∙ (e2 ∙ fee_rest_enters price dep acc s h k n there)

  fee_again :
      (price : ℤ) (dep : AuctionDeposit) (s : Store)
      → find_deposit x.auction x.company s.deposits ≡ some dep
      → is_held dep.status ≡ false
      → (capture_fee x price s).0 ≡ s
  unfolding capture_fee capture_fee_found load_account
  fee_again price dep s h k = ground arith

-- The platform fee taken from a deposit, where that succeeds, the deposit is held with an amount
-- within int64, the ledger has no entry of it yet and the account loads and is solvent: the deposit
-- leaves the held money whole, and of all the money of the account exactly the fee is gone, or the
-- deposit where the fee is larger; the company's account in the store is that account with these
-- balances, solvent, and the table of the accounts has no other change than those balances under its
-- id; the deposit has the status of its end. After that the deposit is done with: to take the fee
-- again, to settle the deposit after an invoice, or to release or capture it, in any number of calls,
-- changes nothing in the store.
pub fee_taken_once :
    (x y : Capturing) (z : Settling) (price again goods paid : ℤ) (cs : List Call)
    (dep : AuctionDeposit) (acc : Account) (s : Store)
    → y.auction ≡ x.auction
    → y.company ≡ x.company
    → z.auction ≡ x.auction
    → z.company ≡ x.company
    → find_deposit x.auction x.company s.deposits ≡ some dep
    → is_held dep.status ≡ true
    → is_fee_recorded x.company (fee_ref x) s.ledger ≡ false
    → loaded (find_account x.company s.accounts) ≡ ok acc
    → IsInt64 dep.amount
    → IsSolvent acc
    → Succeeds (capture_fee x price s).1
    → let s' = (capture_fee x price s).0 in
      (acc' : Account) × (loaded (find_account x.company s'.accounts) ≡ ok acc')
      × (s'.accounts ≡ update_accounts acc' s.accounts)
      × Spent (kept (platform_fee price) dep.amount) dep.amount acc acc'
      × (find_deposit x.auction x.company s'.deposits
          ≡ some (settled_of x.now (platform_fee price) dep))
      × ((capture_fee y again s').0 ≡ s')
      × ((settle_deposit z goods paid s').0 ≡ s')
      × (run_calls x.company x.auction cs s' ≡ s')
fee_taken_once x y z price again goods paid cs dep acc s ya yc za zc h k n there f solvent done =
    let fee = platform_fee price in
    let e = fee_reaches x price dep acc s h k n there done in
    let (acc', (table, accounts), spent) =
      capture_fee_now-Effect x fee dep acc s f solvent (subst (λ r. Succeeds r.1) e done) in
    let whole = ap (λ r. r.0.accounts) e ∙ accounts in
    let end = settled_of x.now fee dep in
    let found = settled_found x.auction x.company x.now fee dep s.deposits h in
    let found' =
      ap (λ r. find_deposit x.auction x.company r.0.deposits) e
      ∙ (ap (find_deposit x.auction x.company) table ∙ found) in
    let over = settled_of_over x.now fee dep in
    (
      acc',
      saved_account x.company (kept fee dep.amount) dep.amount acc acc' s (capture_fee x price s).0
          there spent whole,
      whole,
      spent,
      found',
      fee_again y again end _ (rw (ya, yc) found') over,
      settle_again z goods paid end _ (rw (za, zc) found') over,
      calls_settled x.company x.auction cs _ end found' over,
    )
