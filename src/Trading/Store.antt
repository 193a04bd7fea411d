-- ===== src/Trading/Store.antt =====
-- What the trading use cases read and write: the tables behind internal/trading/postgres
-- (auction_repository.go, bid_repository.go, winners_repository.go, outbox_repository.go and the
-- queue of chain_ops_repository.go) with what the statements do to their rows, and the data of
-- internal/trading/app (repository.go, meta.go, actor.go, errors.go, chain_ops.go).
use unbelievable_fish.Prelude.{
  ℕ, ◌+◌, max, Bool, true, false, ◌&&◌, List, [], ◌∷◌, String, Option, none, some, Result, ok, err,
  if◌then◌else◌, ◌==◌,
}
use unbelievable_fish.Prelude.Int.{ℤ, eqb_ℤ}
use unbelievable_fish.Prelude.Time.{Time, Timestamptz}
use unbelievable_fish.Prelude.Text.{str_eq}
use unbelievable_fish.Trading.Types
use unbelievable_fish.Trading.Types.{Event, Bid, Auction}
use unbelievable_fish.Trading.Auction.{rehydrate_auction}

-- The errors of the use cases, those of an auction that they pass on, `deposit_refused` for one of
-- the deposit service and `storage` for one of the database.
pub data Error : Type 0 where
  of_auction : Types.Error → Error
  not_found close_forbidden_before_end_with_bids : Error
  deposit_refused storage bid_row_not_found auction_row_not_found : Error

-- An ActorKind is a string; `other_kind` is one that is none of the constants, "" among them.
pub data ActorKind : Type 0 where
  company platform_admin system : ActorKind
  other_kind : String → ActorKind

pub record CommandMeta : Type 0 where
  pub company_id : String
  pub user_id : String
  pub actor_kind : ActorKind
  pub correlation_id : String
  pub causation_id : String

pub record AuctionRow : Type 0 where
  pub stored : Auction
  pub chain_result_hash : Option String
  pub chain_finalize_status : String

pub record BidRow : Type 0 where
  pub auction_id : String
  pub bid : Bid
  pub chain_bid_hash : Option String
  pub chain_status : String

pub record WinnerRecord : Type 0 where
  pub place : ℕ
  pub company_id : String
  pub amount : ℤ
  pub placed_at : Time

-- What an operation is about: the start, the end and the step; the hash of the bid and its time;
-- the hash of the result, the winner and the price.
pub data ChainPayload : Type 0 where
  auction_create : Time → Time → ℤ → ChainPayload
  bid_anchor : String → Time → ChainPayload
  auction_finalize : String → String → ℤ → ChainPayload

pub record ChainOperation : Type 0 where
  pub op_nonce : ℕ
  pub auction_id : String
  pub auction_ref_hash : String
  pub payload : ChainPayload
  pub status : String

-- `deposits` is the state of the deposit service. `answers` says which of the statements to come go
-- through; those past its end do.
pub record Database (W : Type 0) : Type 0 where
  pub auctions : List AuctionRow
  pub bids : List BidRow
  pub winners : List (String × WinnerRecord)
  pub operations : List ChainOperation
  pub outbox : List (CommandMeta × Event)
  pub deposits : W
  pub answers : List Bool

unfoldable pub find_auction : String → List AuctionRow → Option AuctionRow
find_auction id [] = none
find_auction id (r ∷ rows) = if str_eq r.stored.id id then some r else find_auction id rows

abbrev pub lift_auction : {A : Type 0} → Result Types.Error A → Result Error A
lift_auction (ok a) = ok a
lift_auction (err e) = err (of_auction e)

-- The row as `RehydrateAuction` takes it.
unfoldable pub reload : Auction → Result Error Auction
reload a = lift_auction (
    rehydrate_auction a.id a.lot_id a.state a.starts_at a.ends_at a.start_price a.current_price
      a.min_bid_step a.leader_company_id)

abbrev pub scan_auction : Option AuctionRow → Result Error Auction
scan_auction none = err not_found
scan_auction (some r) = reload r.stored

-- What the columns of a time hold of an auction, a bid, a winner and an operation.
abbrev pub auction_columns : Timestamptz → Auction → Auction
auction_columns z a = record a { starts_at = z.rounded a.starts_at; ends_at = z.rounded a.ends_at }

abbrev pub bid_columns : Timestamptz → Bid → Bid
bid_columns z b = record b { placed_at = z.rounded b.placed_at }

abbrev pub winner_columns : Timestamptz → WinnerRecord → WinnerRecord
winner_columns z w = record w { placed_at = z.rounded w.placed_at }

abbrev pub payload_columns : Timestamptz → ChainPayload → ChainPayload
payload_columns z (auction_create starts ends step) =
    auction_create (z.rounded starts) (z.rounded ends) step
payload_columns z (bid_anchor hash placed) = bid_anchor hash (z.rounded placed)
payload_columns z (auction_finalize hash winner price) = auction_finalize hash winner price

-- `ON CONFLICT (auction_id) DO UPDATE`: the columns of the chain stay.
unfoldable pub upsert : Timestamptz → Auction → List AuctionRow → List AuctionRow
upsert z a [] =
    record {
      stored = auction_columns z a;
      chain_result_hash = none;
      chain_finalize_status = "NOT_FINALIZED";
    }
    ∷ []
upsert z a (r ∷ rows) =
    let rest = upsert z a rows in
    if str_eq r.stored.id a.id then record r { stored = auction_columns z a } ∷ rows else r ∷ rest

unfoldable pub bids_of : String → List BidRow → List Bid
bids_of id [] = []
bids_of id (r ∷ rows) =
    let rest = bids_of id rows in if str_eq r.auction_id id then r.bid ∷ rest else rest

-- The bids that `NewBid` takes.
unfoldable pub checked : List Bid → Result Error (List Bid)
checked [] = ok []
checked (b ∷ bids) =
    let rest = checked bids in
    elim (Types.new_bid b.bidder_company_id b.amount b.placed_at) [
      | err e ↦ err (of_auction e)
      | ok b' ↦ elim rest [ err e ↦ err e | ok bs ↦ ok (b' ∷ bs) ]
    ]

unfoldable pub without : String → List (String × WinnerRecord) → List (String × WinnerRecord)
without id [] = []
without id ((x, w) ∷ rows) =
    let rest = without id rows in if str_eq x id then rest else (x, w) ∷ rest

-- `COALESCE(MAX(op_nonce), -1) + 1`
unfoldable pub next_nonce : String → List ChainOperation → ℕ
next_nonce id [] = 0
next_nonce id (o ∷ rest) =
    let n = next_nonce id rest in if str_eq o.auction_id id then max (o.op_nonce + 1) n else n

abbrev is_row_of : String → Bid → BidRow → Bool
is_row_of id b r =
    str_eq r.auction_id id
    && str_eq r.bid.bidder_company_id b.bidder_company_id
    && eqb_ℤ r.bid.amount b.amount
    && (r.bid.placed_at == b.placed_at)

-- The update of `trading_bids`, and whether it affects a row.
unfoldable pub mark_anchored : String → Bid → String → List BidRow → List BidRow
mark_anchored id b hash [] = []
mark_anchored id b hash (r ∷ rows) =
    let rest = mark_anchored id b hash rows in
    if is_row_of id b r
    then record r { chain_bid_hash = some hash; chain_status = "PENDING_SUBMIT" } ∷ rest
    else r ∷ rest

unfoldable pub has_row : String → Bid → List BidRow → Bool
has_row id b [] = false
has_row id b (r ∷ rows) = let rest = has_row id b rows in if is_row_of id b r then true else rest

unfoldable pub mark_finalized : String → String → List AuctionRow → List AuctionRow
mark_finalized id hash [] = []
mark_finalized id hash (r ∷ rows) =
    let rest = mark_finalized id hash rows in
    if str_eq r.stored.id id
    then record r { chain_result_hash = some hash; chain_finalize_status = "PENDING_SUBMIT" } ∷ rows
    else r ∷ rest
