-- ===== src/Deposits/Released.antt =====
-- What the release of the deposits of an auction does to each of them (internal/billing/app).
use unbelievable_fish.Prelude.{
  ◌≡◌, ◌≢◌, refl, ◌∙◌, ap, subst, ◌⊎◌, inl, inr, Bool, true, false, ◌&&◌, not, List, [], ◌∷◌,
  String, arith, Succeeds, Bool-cases, Method, lift_passed, ◌>>=◌,
}
use unbelievable_fish.Prelude.Text.{str_eq_iff}
use unbelievable_fish.Prelude.Time.{Time}
use unbelievable_fish.Wallet.Types.{Account, AuctionDeposit}
use unbelievable_fish.Wallet.Deposit.{mark_released}
use unbelievable_fish.Deposits.Store
use unbelievable_fish.Deposits.Store.{
  Store, bid_deposit_released, LedgerEntryType, load_account, save_account, save_deposit, append,
  publish, is_recorded, deposit_reference, find_deposit, update_deposits, on_account, find_account,
  loaded,
}
use unbelievable_fish.Deposits.Finish.{is_held, release_now}
use unbelievable_fish.Deposits.Once.{release_writes}
use unbelievable_fish.Deposits.Rest.{is_candidate, Releasing, release_one}

-- The update of one deposit leaves the deposits of other keys.
find_other :
    (auction company : String) (new : AuctionDeposit) (ds : List AuctionDeposit)
    → (new.auction_id ≢ auction) ⊎ (new.company_id ≢ company)
    → find_deposit auction company (update_deposits new ds) ≡ find_deposit auction company ds
unfolding find_deposit update_deposits
find_other auction company new [] k = refl
find_other auction company new (d ∷ ds) k = ground (
  arith,
  find_other auction company new ds k,
  str_eq_iff d.auction_id new.auction_id,
  str_eq_iff d.company_id new.company_id,
  str_eq_iff d.auction_id auction,
  str_eq_iff d.company_id company,
)

-- A release for a company does not enter anything for another.
release_ledger :
    (dep : AuctionDeposit) (acc : Account)
    (company auction reason generated other kind ref : String) (type : LedgerEntryType) (now : Time)
    (s : Store)
    → company ≢ other
    → Succeeds (release_now dep acc company auction reason generated now s).1
    → is_recorded other kind ref type
        (release_now dep acc company auction reason generated now s).0.ledger
      ≡ is_recorded other kind ref type s.ledger
unfolding release_now save_deposit save_account append publish is_recorded
release_ledger dep acc company auction reason generated other kind ref type now s k h =
    ground (arith, str_eq_iff company other)

module _ (x : Releasing) where
  -- Whether the ledger has the release of the deposit of a company.
  abbrev pub is_released_in : String → Store → Bool
  is_released_in company s =
      is_recorded company "auction_deposit_release" (deposit_reference x.auction company)
        bid_deposit_released s.ledger

  -- Whether the deposit is one to release.
  abbrev pub is_chosen : AuctionDeposit → Store → Bool
  is_chosen dep s =
      not (is_candidate dep.company_id x.candidates)
      && is_held dep.status
      && not (is_released_in dep.company_id s)

  abbrev pub now_of : AuctionDeposit → Account → Method Store.Error Store (Unit {0})
  now_of dep acc =
      release_now dep acc dep.company_id x.auction x.reason (x.generated dep.company_id) x.now

  pub one_skips :
      (dep : AuctionDeposit) (s : Store) → is_chosen dep s ≡ false → (release_one x dep s).0 ≡ s
  unfolding release_one
  one_skips dep s h = ground arith

  one_goes :
      (dep : AuctionDeposit) (s : Store)
      → is_chosen dep s ≡ true
      → release_one x dep s ≡ (load_account dep.company_id >>= now_of dep) s
  unfolding release_one
  one_goes dep s h = ground arith

  pub one_releases :
      (dep : AuctionDeposit) (s : Store)
      → is_chosen dep s ≡ true
      → Succeeds (release_one x dep s).1
      → (acc : Account) × (release_one x dep s ≡ now_of dep acc s) × Succeeds (now_of dep acc s).1
  unfolding load_account
  one_releases dep s h done =
      let e = one_goes dep s h in
      let (acc, _, e', done') =
        lift_passed (loaded (find_account dep.company_id s.accounts)) (now_of dep) s
          (subst (λ r. Succeeds r.1) e done) in
      (acc, e ∙ e', done')

  -- What a step leaves for another key.
  pub one_other :
      (dep : AuctionDeposit) (auction company : String) (s : Store)
      → (dep.auction_id ≢ auction) ⊎ (dep.company_id ≢ company)
      → Succeeds (release_one x dep s).1
      → find_deposit auction company (release_one x dep s).0.deposits
        ≡ find_deposit auction company s.deposits
  unfolding mark_released
  one_other dep auction company s k done = elim (Bool-cases (is_chosen dep s)) [
    | inl chosen ↦
        let (acc, e, went) = one_releases dep s chosen done in
        ap (λ r. find_deposit auction company r.0.deposits) e
        ∙ (ap (find_deposit auction company) (
              release_writes dep.company_id x.auction x.reason (x.generated dep.company_id) x.now s
                dep acc went)
            ∙ find_other auction company (mark_released x.now dep) s.deposits k)
    | inr left ↦ ap (λ y. find_deposit auction company y.deposits) (one_skips dep s left)
  ]

  pub one_other_ledger :
      (dep : AuctionDeposit) (company : String) (s : Store)
      → dep.company_id ≢ company
      → Succeeds (release_one x dep s).1
      → is_released_in company (release_one x dep s).0 ≡ is_released_in company s
  one_other_ledger dep company s k done = elim (Bool-cases (is_chosen dep s)) [
    | inl chosen ↦
        let (acc, e, went) = one_releases dep s chosen done in
        ap (λ r. is_released_in company r.0) e
        ∙ release_ledger dep acc dep.company_id x.auction x.reason (x.generated dep.company_id)
            company "auction_deposit_release" (deposit_reference x.auction company)
            bid_deposit_released x.now s k went
    | inr left ↦ ap (is_released_in company) (one_skips dep s left)
  ]
