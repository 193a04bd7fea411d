-- ===== src/Trading/Placing.antt =====
-- The use case that places a bid, over the tables: `PlaceBid` of internal/trading/app/usecases.go
-- with internal/trading/postgres.
use unbelievable_fish.Prelude.{
  ◌≤◌, Succeeds, ◌≡◌, refl, sym, ◌∙◌, ap, subst, Bool, true, false, List, [], ◌∷◌, String, some,
  none, Result, ok, err, gets, lift, pure, ◌>>=◌, ◌>>◌, bind_ok, bind_err, arith,
}
use unbelievable_fish.Prelude.Int.{ℤ, pos, ◌+ℤ◌, ◌≤ℤ◌, leb_ℤ}
use unbelievable_fish.Prelude.Int64.{IsInt64}
use unbelievable_fish.Prelude.Time.{Time, Timestamptz}
use unbelievable_fish.Prelude.Text.{str_eq_refl}
use unbelievable_fish.Trading.Types
use unbelievable_fish.Trading.Types.{Event, Bid, Auction, new_bid}
use unbelievable_fish.Trading.Auction.{place_bid}
use unbelievable_fish.Trading.Bidding.{place_bid_effect, place_bid_extends}
use unbelievable_fish.Trading.Validity.{IsValid, place_bid-IsValid}
use unbelievable_fish.Trading.Store.{
  auction_columns, bid_columns, storage, CommandMeta, AuctionRow, BidRow, Database, find_auction,
  upsert, bids_of, mark_anchored, next_nonce, bid_anchor, scan_auction, lift_auction,
}
use unbelievable_fish.Trading.Statements.{
  load, statement, save_bid, save_auction, add_events, enqueue_bid_anchor,
}
use unbelievable_fish.Trading.Usecases.{
  DepositService, Texts, PlaceBidResult, bid_in_tx, place_bid_with_result, build_bid_hash,
  build_auction_ref_hash, on_auction, taken_auction, reserved, write_bid, reserve_for, unit_of_work,
}
use unbelievable_fish.Trading.Rows.{
  found_id, find-upsert, bids_of-mark, reload_valid, columns-IsValid, columns_again, has_new_row,
  save_auction_lem, add_events_lem, anchor_lem, added,
}

module _ {W : Type 0} (t : Texts) (z : Timestamptz) (meta : CommandMeta) (id : String)
    (service : DepositService W) (amount : ℤ) (placed : Time) where
  -- The table has the auction, which takes the bid, and the company can cover the deposit.
  pub record IsTaken (db : Database W) (row : AuctionRow) (b : Bid) (a : Auction)
      (events : List Event) (w : W) : Type 0 where
    pub found : find_auction id db.auctions ≡ some row
    pub valid : IsValid row.stored
    pub priced : pos 1 ≤ℤ row.stored.start_price
    pub fits : IsInt64 (row.stored.current_price +ℤ row.stored.min_bid_step)
    pub made : new_bid meta.company_id amount placed ≡ ok b
    pub accepted : place_bid b row.stored ≡ (a, ok events)
    pub covered :
        service.reserve_auction_deposit meta.company_id id row.stored.start_price db.deposits
        ≡ (w, ok tt)

  module _ (db : Database W) (row : AuctionRow) (b : Bid) (a : Auction) (events : List Event)
      (w : W) (h : IsTaken db row b a events w) where
    abbrev new_row : BidRow
    new_row = record {
      auction_id = id;
      bid = bid_columns z b;
      chain_bid_hash = none;
      chain_status = "NOT_ANCHORED";
    }

    -- The auction is loaded wherever the statement for it goes through.
    loads :
        (here rest : List Bool)
        → statement (record db { answers = here }) ≡ (record db { answers = rest }, ok tt)
        → load id (record db { answers = here }) ≡ (record db { answers = rest }, ok row.stored)
    unfolding load
    loads here rest e =
        bind_ok statement
          (λ _. gets (λ (d : Database W). find_auction id d.auctions) >>= λ found.
            lift (scan_auction found))
          (record db { answers = here }) (record db { answers = rest }) tt e
        ∙ ap (λ r. lift r (record db { answers = rest }))
            (ap scan_auction h.found ∙ reload_valid row.stored h.valid)

    reserves :
        (here : List Bool)
        → reserve_for t z meta id service row.stored (record db { answers = here })
          ≡ (record db { answers = here; deposits = w }, ok tt)
    unfolding reserve_for
    reserves here =
        ap (λ (p : W × Result String (Unit {0})). reserved p (record db { answers = here }))
          h.covered

    -- The part up to the writes.
    reaches :
        (here rest : List Bool)
        → statement (record db { answers = here }) ≡ (record db { answers = rest }, ok tt)
        → bid_in_tx t z meta id service amount placed (record db { answers = here })
          ≡ write_bid t z meta id b a events (record db { answers = rest; deposits = w })
    unfolding bid_in_tx
    reaches here rest e =
        bind_ok (load id)
          (λ x. lift (lift_auction (new_bid meta.company_id amount placed)) >>= λ y.
            lift (on_auction (place_bid y) x) >>= λ done.
            reserve_for t z meta id service x >> write_bid t z meta id y done.0 done.1)
          (record db { answers = here }) (record db { answers = rest }) row.stored
          (loads here rest e)
        ∙ ap
            (λ r.
              (lift (lift_auction r) >>= λ y. lift (on_auction (place_bid y) row.stored) >>= λ done.
              reserve_for t z meta id service row.stored >> write_bid t z meta id y done.0 done.1)
                (record db { answers = rest }))
            h.made
        ∙ ap
            (λ (p : Auction × Result Types.Error (List Event)).
              (lift (taken_auction p) >>= λ done.
              reserve_for t z meta id service row.stored >> write_bid t z meta id b done.0 done.1)
                (record db { answers = rest }))
            h.accepted
        ∙ bind_ok (reserve_for t z meta id service row.stored)
            (λ _. write_bid t z meta id b a events) (record db { answers = rest })
            (record db { answers = rest; deposits = w }) tt (reserves rest)

    -- Take a valid auction in the tables with a positive start price, a bid that `NewBid` and the
    -- auction accept, with the current price and the step having a sum within int64, and a deposit
    -- service that reserves the deposit. If the write of the auction is the first statement to fail,
    -- the use case returns the database's error, but only the auctions are as they were: the bid is
    -- in the table, its time rounded as the column has it, and the deposit stays reserved.
    pub bid_torn_lem :
        let (db', r) =
          place_bid_with_result t z meta id service amount placed
            (record db { answers = true ∷ true ∷ true ∷ false ∷ [] }) in
        (r ≡ err storage)
        × (db'.auctions ≡ db.auctions)
        × (bids_of id db'.bids ≡ bid_columns z b ∷ bids_of id db.bids)
        × (db'.deposits ≡ w)
    unfolding place_bid_with_result unit_of_work write_bid save_bid save_auction bids_of
    bid_torn_lem =
        let whole =
          bind_err (bid_in_tx t z meta id service amount placed) (λ r. statement >> pure r)
            (record db { answers = true ∷ true ∷ false ∷ [] })
            (record db { answers = []; deposits = w; bids = new_row ∷ db.bids }) storage
            (reaches (true ∷ true ∷ false ∷ []) (true ∷ false ∷ []) refl) in
        rw (whole, str_eq_refl id) (refl, refl, refl, refl)

    abbrev bid_hash : String
    bid_hash = build_bid_hash t id b.bidder_company_id b.amount b.placed_at

    abbrev after_bid : Database W
    after_bid = record db { answers = []; deposits = w; bids = new_row ∷ db.bids }

    abbrev after_save : Database W
    after_save = record after_bid { auctions = upsert z a db.auctions }

    abbrev after_anchor : Database W
    after_anchor = record after_save {
      bids = mark_anchored id (bid_columns z b) bid_hash (new_row ∷ db.bids);
      operations =
          record {
            op_nonce = next_nonce id db.operations;
            auction_id = id;
            auction_ref_hash = build_auction_ref_hash t id;
            payload = bid_anchor bid_hash (z.rounded b.placed_at);
            status = "CREATED";
          }
          ∷ db.operations;
    }

    -- What the auction keeps when it takes the bid.
    kept : (a.id ≡ id) × (a.start_price ≡ row.stored.start_price) × IsValid a
    kept =
        let left = ap (λ p. p.0) h.accepted in
        let set = (place_bid_effect b row.stored).1 (rw h.accepted refl) in
        (
          ap (λ (x : Auction). x.id) (sym left ∙ set) ∙ found_id id db.auctions row h.found,
          ap (λ (x : Auction). x.start_price) (sym left ∙ set),
          subst IsValid left (place_bid-IsValid b row.stored h.valid h.fits),
        )

    written : write_bid t z meta id b a events (record db { answers = []; deposits = w }) ≡ (
      record after_anchor { outbox = added meta events db.outbox },
      ok (record { auction_id = id; bid_hash = bid_hash; chain_status = "PENDING_SUBMIT" }),
    )
    unfolding write_bid save_bid
    written =
        let result : PlaceBidResult = record {
          auction_id = id;
          bid_hash = bid_hash;
          chain_status = "PENDING_SUBMIT";
        } in
        let priced : leb_ℤ a.start_price (pos 0) ≡ false = rw kept.1 (ground (arith, h.priced)) in
        bind_ok (save_auction z a)
          (λ _.
            enqueue_bid_anchor z id (build_auction_ref_hash t id) bid_hash b
            >> (add_events meta events >> pure result))
          after_bid after_save tt (save_auction_lem z a after_bid priced)
        ∙ bind_ok (enqueue_bid_anchor z id (build_auction_ref_hash t id) bid_hash b)
            (λ _. add_events meta events >> pure result) after_save after_anchor tt
            (anchor_lem z id (build_auction_ref_hash t id) bid_hash b after_save
              (has_new_row id new_row db.bids refl))
        ∙ bind_ok (add_events meta events) (λ _. pure result) after_anchor
            (record after_anchor { outbox = added meta events db.outbox }) tt
            (add_events_lem meta events after_anchor)

    saved-IsValid : auction_columns z row.stored ≡ row.stored → IsValid (auction_columns z a)
    saved-IsValid held =
        let left = ap (λ p. p.0) h.accepted in
        let took : Succeeds (place_bid b row.stored).1 = rw h.accepted refl in
        columns-IsValid z row.stored a held h.valid kept.2
          (ap (λ (x : Auction). x.starts_at) (sym left ∙ (place_bid_effect b row.stored).1 took))
          (subst (λ (x : Auction). row.stored.ends_at ≤ x.ends_at) left
            (rw (place_bid_extends b row.stored h.valid.window h.valid.duration took)
              (omega arith)))

    found_new :
        find_auction id (upsert z a db.auctions)
        ≡ some (record row { stored = auction_columns z a })
    found_new =
        subst
          (λ x.
            find_auction x (upsert z a db.auctions)
            ≡ some (record row { stored = auction_columns z a }))
          kept.0
          (find-upsert z a db.auctions row
            (subst (λ x. find_auction x db.auctions ≡ some row) (sym kept.0) h.found))

    loads_new :
        auction_columns z row.stored ≡ row.stored
        → (load id (record after_anchor { outbox = added meta events db.outbox })).1
          ≡ ok (auction_columns z a)
    unfolding load statement
    loads_new held =
        let here : Database W = record after_anchor { outbox = added meta events db.outbox } in
        ap (λ o. (lift (scan_auction o) here).1) found_new
        ∙ ap (λ r. (lift r here).1) (reload_valid (auction_columns z a) (saved-IsValid held))

    marked :
        bids_of id (mark_anchored id (bid_columns z b) bid_hash (new_row ∷ db.bids))
        ≡ bid_columns z b ∷ bids_of id db.bids
    unfolding bids_of
    marked =
        bids_of-mark id id (bid_columns z b) bid_hash (new_row ∷ db.bids) ∙ rw (str_eq_refl id) refl

    -- Take a valid auction in the tables with a positive start price and times that a column can
    -- hold, a bid that `NewBid` and the auction accept, with the current price and the step having a
    -- sum within int64, and a deposit service that reserves the deposit. If every statement goes
    -- through, the use case returns the hash of the bid at its exact time; the auction is reloaded as
    -- its own `PlaceBid` left it and its bids are the new one before those it had, both with their
    -- times rounded as the columns have them; the times of the auction are again such that a column
    -- can hold them; the events, not rounded, are in the outbox, and the deposit is reserved.
    pub bid_stored_lem :
        auction_columns z row.stored ≡ row.stored
        → let (db', r) =
            place_bid_with_result t z meta id service amount placed (record db { answers = [] }) in
          (r
            ≡ ok (record { auction_id = id; bid_hash = bid_hash; chain_status = "PENDING_SUBMIT" }))
          × ((load id db').1 ≡ ok (auction_columns z a))
          × (auction_columns z (auction_columns z a) ≡ auction_columns z a)
          × (bids_of id db'.bids ≡ bid_columns z b ∷ bids_of id db.bids)
          × (db'.outbox ≡ added meta events db.outbox)
          × (db'.deposits ≡ w)
    unfolding place_bid_with_result unit_of_work
    bid_stored_lem held =
        let whole =
          bind_ok (bid_in_tx t z meta id service amount placed) (λ r. statement >> pure r)
            (record db { answers = [] })
            (record after_anchor { outbox = added meta events db.outbox })
            (record { auction_id = id; bid_hash = bid_hash; chain_status = "PENDING_SUBMIT" })
            (reaches [] [] refl ∙ written) in
        subst
          (λ p.
            (p.1
              ≡ ok (record {
                auction_id = id;
                bid_hash = bid_hash;
                chain_status = "PENDING_SUBMIT";
              }))
            × ((load id p.0).1 ≡ ok (auction_columns z a))
            × (auction_columns z (auction_columns z a) ≡ auction_columns z a)
            × (bids_of id p.0.bids ≡ bid_columns z b ∷ bids_of id db.bids)
            × (p.0.outbox ≡ added meta events db.outbox)
            × (p.0.deposits ≡ w))
          (sym whole) (refl, loads_new held, columns_again z a, marked, refl, refl)
