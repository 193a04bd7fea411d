-- ===== src/Deposits/Rest.antt =====
-- The release of the deposits of an auction but for the candidates:
-- release_auction_deposits_except_candidates.go of internal/billing/app.
use unbelievable_fish.Prelude.{
  Bool, false, ◌||◌, not, List, [], ◌∷◌, String, Method, gets, pure, fail_if, ◌>>=◌, ◌>>◌,
  if◌then◌else◌, Permᴰ,
}
use unbelievable_fish.Prelude.Time.{Time}
use unbelievable_fish.Prelude.Text.{str_eq}
use unbelievable_fish.Wallet.Types.{Error, is_blank, AuctionDeposit}
use unbelievable_fish.Deposits.Store
use unbelievable_fish.Deposits.Store.{
  Store, of_wallet, bid_deposit_released, load_account, is_recorded, deposit_reference,
}
use unbelievable_fish.Deposits.Finish.{is_held, release_now}

-- The order that the query gives the deposits of an auction in.
pub record Listing : Type 0 where
  pub arrange : List AuctionDeposit → List AuctionDeposit
  pub arrange-perm : (ds : List AuctionDeposit) → Permᴰ (arrange ds) ds

-- `WHERE auction_id = $1`
unfoldable pub of_auction : String → List AuctionDeposit → List AuctionDeposit
unfolding str_eq
of_auction auction [] = []
of_auction auction (d ∷ ds) =
    let rest = of_auction auction ds in if str_eq d.auction_id auction then d ∷ rest else rest

unfoldable pub is_candidate : String → List String → Bool
unfolding str_eq
is_candidate company [] = false
is_candidate company (c ∷ cs) = str_eq c company || is_candidate company cs

abbrev pub any_blank : List String → Bool
any_blank [] = false
any_blank (c ∷ cs) = is_blank c || any_blank cs

-- The reason, the candidates, the id that is generated for the entry of a company, and the time.
pub record Releasing : Type 0 where
  pub auction : String
  pub candidates : List String
  pub reason : String
  pub generated : String → String
  pub now : Time

module _ (x : Releasing) where
  -- The body of the loop.
  unfoldable pub release_one : AuctionDeposit → Method Store.Error Store (Unit {0})
  unfolding is_candidate
  release_one dep =
      if is_candidate dep.company_id x.candidates
      then pure tt
      else if not (is_held dep.status)
      then pure tt
      else do
        exists ← gets λ (s : Store).
            is_recorded dep.company_id "auction_deposit_release"
              (deposit_reference x.auction dep.company_id) bid_deposit_released s.ledger
        if exists
            then pure tt
            else (load_account dep.company_id >>= λ acc.
                release_now dep acc dep.company_id x.auction x.reason (x.generated dep.company_id)
                  x.now)

  unfoldable pub release_each : List AuctionDeposit → Method Store.Error Store (Unit {0})
  unfolding release_one
  release_each [] = pure tt
  release_each (dep ∷ ds) = release_one dep >> release_each ds

  -- `Execute`
  unfoldable pub release_rest : Listing → Method Store.Error Store (Unit {0})
  unfolding of_auction
  release_rest listing = do
    fail_if (is_blank x.auction) (of_wallet Error.invalid_identifier)
    fail_if (any_blank x.candidates) (of_wallet Error.invalid_identifier)
    ds ← gets λ (s : Store). listing.arrange (of_auction x.auction s.deposits)
    release_each ds
