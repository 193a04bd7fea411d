-- ===== src/Trading/Statements.antt =====
-- The statements that the repositories of internal/trading/postgres send: auction_repository.go,
-- bid_repository.go, winners_repository.go, outbox_repository.go and chain_ops_repository.go.
use unbelievable_fish.Prelude.{
  Bool, true, false, not, List, [], ◌∷◌, String, Option, none, some, ok, err, Method, pure, gets,
  modify, lift, fail_if, ◌>>=◌, ◌>>◌,
}
use unbelievable_fish.Prelude.Time.{Timestamptz}
use unbelievable_fish.Prelude.Int.{ℤ, pos, leb_ℤ}
use unbelievable_fish.Trading.Types.{Event, Bid, Auction}
use unbelievable_fish.Trading.Winner.{RankingSort}
use unbelievable_fish.Trading.Store.{
  bid_columns, winner_columns, payload_columns, Error, storage, bid_row_not_found,
  auction_row_not_found, CommandMeta, WinnerRecord, ChainPayload, bid_anchor, auction_finalize,
  Database, find_auction, scan_auction, upsert, bids_of, checked, without, next_nonce,
  mark_anchored, has_row, mark_finalized,
}

abbrev is_some : {A : Type 0} → Option A → Bool
is_some none = false
is_some (some _) = true

module _ {W : Type 0} where
  -- Whether a statement that was sent goes through.
  unfoldable pub statement : Method Error (Database W) (Unit {0})
  statement db = elim (db.answers) [
    | [] ↦ (db, ok tt)
    | true ∷ rest ↦ (record db { answers = rest }, ok tt)
    | false ∷ rest ↦ (record db { answers = rest }, err storage)
  ]

  -- `Load` and `LoadForUpdate`
  unfoldable pub load : String → Method Error (Database W) Auction
  unfolding statement find_auction
  load id =
      statement
      >> (gets (λ (db : Database W). find_auction id db.auctions) >>= λ found.
          lift (scan_auction found))

  -- `AuctionRepository.Save`, with the table's check that the start price is positive.
  unfoldable pub save_auction : Timestamptz → Auction → Method Error (Database W) (Unit {0})
  unfolding statement upsert
  save_auction z a = do
    statement
    fail_if (leb_ℤ a.start_price (pos 0)) storage
    modify λ (db : Database W). record db { auctions = upsert z a db.auctions }

  -- `BidRepository.Save`
  unfoldable pub save_bid : Timestamptz → String → Bid → Method Error (Database W) (Unit {0})
  unfolding statement
  save_bid z id b = do
    statement
    modify λ (db : Database W). record db {
      bids =
          record {
            auction_id = id;
            bid = bid_columns z b;
            chain_bid_hash = none;
            chain_status = "NOT_ANCHORED";
          }
          ∷ db.bids;
    }

  -- `TopBids`, whose `ORDER BY` has the order of the ranking.
  unfoldable pub top_bids : RankingSort → String → Method Error (Database W) (List Bid)
  unfolding statement bids_of checked
  top_bids order id = do
    statement
    found ← gets λ (db : Database W). order.sort (bids_of id db.bids)
    lift (checked found)

  unfoldable pub insert_winners :
      Timestamptz → String → List WinnerRecord → Method Error (Database W) (Unit {0})
  unfolding statement
  insert_winners z id [] = pure tt
  insert_winners z id (w ∷ ws) = do
    statement
    modify λ (db : Database W). record db { winners = (id, winner_columns z w) ∷ db.winners }
    insert_winners z id ws

  -- `WinnersRepository.Save`
  unfoldable pub save_winners :
      Timestamptz → String → List WinnerRecord → Method Error (Database W) (Unit {0})
  unfolding insert_winners without
  save_winners z id ws = do
    statement
    modify λ (db : Database W). record db { winners = without id db.winners }
    insert_winners z id ws

  -- `OutboxRepository.Add`
  unfoldable pub add_events : CommandMeta → List Event → Method Error (Database W) (Unit {0})
  unfolding statement
  add_events meta [] = pure tt
  add_events meta (e ∷ es) = do
    statement
    modify λ (db : Database W). record db { outbox = (meta, e) ∷ db.outbox }
    add_events meta es

  -- What the three methods of the queue begin with.
  unfoldable pub enqueue :
      Timestamptz → String → String → ChainPayload → Method Error (Database W) (Unit {0})
  unfolding statement next_nonce
  enqueue z id ref payload = do
    statement
    nonce ← gets λ (db : Database W). next_nonce id db.operations
    statement
    modify λ (db : Database W). record db {
      operations =
          record {
            op_nonce = nonce;
            auction_id = id;
            auction_ref_hash = ref;
            payload = payload_columns z payload;
            status = "CREATED";
          }
          ∷ db.operations;
    }

  -- `EnqueueBidAnchor`
  unfoldable pub enqueue_bid_anchor :
      Timestamptz → String → String → String → Bid → Method Error (Database W) (Unit {0})
  unfolding enqueue has_row mark_anchored
  enqueue_bid_anchor z id ref hash b = do
    enqueue z id ref (bid_anchor hash b.placed_at)
    statement
    affected ← gets λ (db : Database W). has_row id (bid_columns z b) db.bids
    modify λ (db : Database W). record db { bids = mark_anchored id (bid_columns z b) hash db.bids }
    fail_if (not affected) bid_row_not_found

  -- `EnqueueAuctionFinalize`
  unfoldable pub enqueue_auction_finalize :
      Timestamptz → String → String → String → String → ℤ → Method Error (Database W) (Unit {0})
  unfolding enqueue find_auction mark_finalized
  enqueue_auction_finalize z id ref hash winner price = do
    enqueue z id ref (auction_finalize hash winner price)
    statement
    affected ← gets λ (db : Database W). is_some (find_auction id db.auctions)
    modify λ (db : Database W). record db { auctions = mark_finalized id hash db.auctions }
    fail_if (not affected) auction_row_not_found
