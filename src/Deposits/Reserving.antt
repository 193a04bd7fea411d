-- ===== src/Deposits/Reserving.antt =====
-- A deposit is reserved once for a company and an auction (internal/billing/app).
use unbelievable_fish.Prelude.{
  ◌≡◌, ◌∙◌, ap, subst, ◌||◌, not, List, ◌∷◌, String, arith, none, some, Succeeds, Method, lift,
  fail_if, fail_if_passed, lift_passed, ok, ◌>>=◌, ◌>>◌,
}
use unbelievable_fish.Prelude.Int.{ℤ, pos, leb_ℤ}
use unbelievable_fish.Prelude.Time.{Time}
use unbelievable_fish.Prelude.Text.{str_eq, str_eq_iff}
use unbelievable_fish.Wallet.Types.{
  Error, is_blank, is_rub, Currency, Account, AuctionDeposit, DepositStatus,
}
use unbelievable_fish.Wallet.Deposit.{new_auction_deposit}
use unbelievable_fish.Deposits.Store
use unbelievable_fish.Deposits.Store.{
  Store, load_account, save_account, find_deposit, find_account, loaded, create_deposit, append,
  publish,
}
use unbelievable_fish.Deposits.Reserve.{
  deposit_from_start_price, reserved, made, record_reservation, reserve_new, reserve_found,
  reserve_deposit,
}

module _ (company auction : String) (price : ℤ) (currency : Currency) (generated : String)
    (now : Time) where
  reserve_reaches :
      (s : Store)
      → find_deposit auction company s.deposits ≡ none
      → Succeeds (reserve_deposit company auction price currency generated now s).1
      → (acc : Account) × (reserve_deposit company auction price currency generated now s
          ≡ reserve_new acc company auction
              (deposit_from_start_price price)
              currency
              generated
              now
              s)
        × Succeeds
            (reserve_new acc company auction
              (deposit_from_start_price price)
              currency
              generated
              now
              s).1
  unfolding reserve_deposit load_account reserve_found
  reserve_reaches s h done =
      let found : Account → Method Store.Error Store (Unit {0}) = λ acc x.
        reserve_found (find_deposit auction company x.deposits) acc company auction price currency
          generated now x in
      let go_on : Account → Method Store.Error Store (Unit {0}) = λ acc.
        fail_if (not (str_eq acc.currency currency)) (Store.of_wallet Error.unsupported_currency)
        >> found acc in
      let (_, e1, h1) =
        fail_if_passed (is_blank company || is_blank auction)
          (Store.of_wallet Error.invalid_identifier)
          (fail_if (not (is_rub currency)) (Store.of_wallet Error.unsupported_currency)
            >> (load_account company >>= go_on))
          s done in
      let (_, e2, h2) =
        fail_if_passed (not (is_rub currency)) (Store.of_wallet Error.unsupported_currency)
          (load_account company >>= go_on) s h1 in
      let (acc, _, e3, h3) = lift_passed (loaded (find_account company s.accounts)) go_on s h2 in
      let (_, e4, h4) =
        fail_if_passed (not (str_eq acc.currency currency))
          (Store.of_wallet Error.unsupported_currency) (found acc) s h3 in
      let e5 = ap (λ f. reserve_found f acc company auction price currency generated now s) h in
      (acc, e1 ∙ (e2 ∙ (e3 ∙ (e4 ∙ e5))), subst (λ r. Succeeds r.1) e5 h4)

  made_ok :
      (id : String) (amount : ℤ) (dep : AuctionDeposit)
      → made (new_auction_deposit auction company id amount currency now) ≡ ok dep
      → (dep.auction_id ≡ auction)
        × (dep.company_id ≡ company)
        × (dep.amount ≡ amount)
        × (dep.status ≡ DepositStatus.held)
  unfolding new_auction_deposit
  made_ok id amount dep h = ground arith

  -- What comes after the deposit is made adds it to the table.
  rest_writes :
      (dep : AuctionDeposit) (acc : Account) (amount : ℤ) (s : Store)
      → let m : Method Store.Error Store (Unit {0}) =
          create_deposit dep
          >> (save_account acc
              >> record_reservation dep acc company auction amount currency generated now) in
        Succeeds (m s).1 → (m s).0.deposits ≡ dep ∷ s.deposits
  unfolding create_deposit save_account record_reservation append publish
  rest_writes dep acc amount s h = ground arith

  new_writes :
      (acc : Account) (amount : ℤ) (s : Store)
      → Succeeds (reserve_new acc company auction amount currency generated now s).1
      → (dep : AuctionDeposit) × (dep.auction_id ≡ auction)
        × (dep.company_id ≡ company)
        × (dep.amount ≡ amount)
        × (dep.status ≡ DepositStatus.held)
        × ((reserve_new acc company auction amount currency generated now s).0.deposits
            ≡ dep ∷ s.deposits)
  unfolding reserve_new
  new_writes acc amount s done =
      let last : Account → AuctionDeposit → Method Store.Error Store (Unit {0}) = λ acc' dep.
        create_deposit dep
        >> (save_account acc'
            >> record_reservation dep acc' company auction amount currency generated now) in
      let deposit_for : Account → Method Store.Error Store (Unit {0}) = λ acc'.
        lift (made (new_auction_deposit auction company acc'.id amount currency now))
        >>= last acc' in
      let (_, e1, h1) =
        fail_if_passed (leb_ℤ amount (pos 0)) (Store.of_wallet Error.invalid_amount)
          (lift (reserved amount acc) >>= deposit_for) s done in
      let (acc', _, e2, h2) = lift_passed (reserved amount acc) deposit_for s h1 in
      let (dep, made_it, e3, h3) =
        lift_passed (made (new_auction_deposit auction company acc'.id amount currency now))
          (last acc') s h2 in
      let (a, c, n, held) = made_ok acc'.id amount dep made_it in
      (
        dep,
        a,
        c,
        n,
        held,
        ap (λ r. r.0.deposits) (e1 ∙ (e2 ∙ e3)) ∙ rest_writes dep acc' amount s h3,
      )

find_first :
    (auction company : String) (dep : AuctionDeposit) (ds : List AuctionDeposit)
    → dep.auction_id ≡ auction
    → dep.company_id ≡ company
    → find_deposit auction company (dep ∷ ds) ≡ some dep
unfolding find_deposit
find_first auction company dep ds a c =
    ground (arith, str_eq_iff dep.auction_id auction, str_eq_iff dep.company_id company)

reserved_already :
    (company auction : String) (price : ℤ) (currency : Currency) (generated : String) (now : Time)
    (s : Store) (dep : AuctionDeposit)
    → find_deposit auction company s.deposits ≡ some dep
    → (reserve_deposit company auction price currency generated now s).0 ≡ s
unfolding reserve_deposit reserve_found load_account
reserved_already company auction price currency generated now s dep h = ground arith

-- Where a company has no deposit for an auction yet, a reservation that succeeds makes one that is
-- held, of the amount that the start price asks for; to reserve once more for the two, at any price,
-- changes nothing in the store.
pub reserve_once :
    (company auction : String) (price again : ℤ) (currency other : Currency)
    (generated generated' : String) (now later : Time) (s : Store)
    → find_deposit auction company s.deposits ≡ none
    → Succeeds (reserve_deposit company auction price currency generated now s).1
    → let s' = (reserve_deposit company auction price currency generated now s).0 in
      (dep : AuctionDeposit) × (find_deposit auction company s'.deposits ≡ some dep)
      × (dep.status ≡ DepositStatus.held)
      × (dep.amount ≡ deposit_from_start_price price)
      × ((reserve_deposit company auction again other generated' later s').0 ≡ s')
reserve_once company auction price again currency other generated generated' now later s h done =
    let (acc, e, ok_new) = reserve_reaches company auction price currency generated now s h done in
    let (dep, a, c, n, held, table) =
      new_writes company auction price currency generated now acc (deposit_from_start_price price) s
        ok_new in
    let found =
      ap (λ r. find_deposit auction company r.0.deposits) e
      ∙ (ap (find_deposit auction company) table ∙ find_first auction company dep s.deposits a c) in
    (dep, found, held, n, reserved_already company auction again other generated' later _ dep found)
