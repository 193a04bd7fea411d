-- ===== src/Trading/StoreTests.antt =====
-- Sample runs of the trading use cases over the tables, and the theorems at concrete inputs.
use unbelievable_fish.Prelude.{
  ◌+◌, ◌*◌, ◌/◌, ◌≡◌, refl, true, false, List, [], ◌∷◌, map, Result, none, ok, err, arith,
}
use unbelievable_fish.Prelude.Int.{ℤ, pos}
use unbelievable_fish.Prelude.Time.{minute, hour, Timestamptz}
use unbelievable_fish.Trading.Types.{
  State, Bid, Auction, Event, default_extension_window, default_extension_duration, new_bid,
}
use unbelievable_fish.Trading.Auction.{place_bid, close, rehydrate_auction, is_valid_state}
use unbelievable_fish.Trading.Sort.{by_insertion, insertion_sort}
use unbelievable_fish.Trading.Store.{
  auction_columns, bid_columns, Error, company, platform_admin, storage,
  close_forbidden_before_end_with_bids, CommandMeta, AuctionRow, Database, bids_of, find_auction,
  reload,
}
use unbelievable_fish.Trading.Statements.{load}
use unbelievable_fish.Trading.Usecases.{
  DepositService, Texts, PlaceBidResult, place_bid_with_result, close_auction, build_bid_hash,
}
use unbelievable_fish.Trading.Rows.{added}
use unbelievable_fish.Trading.Placing.{IsTaken, bid_torn_lem, bid_stored_lem}

abbrev texts : Texts
texts = record {
  keccak_digits = λ s. s;
  rfc3339 = λ _. "2026-01-01T12:01:00Z";
  decimal = λ _. "100";
}

-- Microseconds, the rest cut off.
abbrev micros : Timestamptz
micros = record {
  rounded = λ t. t / 1000 * 1000;
  rounded-mono = λ t u h. omega arith;
  rounded-idem = λ t. omega arith;
}

abbrev north : CommandMeta
north = record {
  company_id = "north";
  user_id = "u1";
  actor_kind = company;
  correlation_id = "";
  causation_id = "";
}

abbrev admin : CommandMeta
admin = record north { actor_kind = platform_admin }

-- A service that keeps the amounts it was asked for.
abbrev service : DepositService (List ℤ)
service = record { reserve_auction_deposit = λ _ _ price held. (price ∷ held, ok tt) }

abbrev opened : Auction
opened = record {
  id = "a1";
  lot_id = "l1";
  state = State.published;
  starts_at = 12 * hour;
  ends_at = 13 * hour;
  start_price = pos 100;
  current_price = pos 100;
  min_bid_step = pos 10;
  leader_company_id = "";
  extension_window = default_extension_window;
  extension_duration = default_extension_duration;
}

abbrev opened_row : AuctionRow
opened_row = record {
  stored = opened;
  chain_result_hash = none;
  chain_finalize_status = "NOT_FINALIZED";
}

abbrev tables : Database (List ℤ)
tables = record {
  auctions = opened_row ∷ [];
  bids = [];
  winners = [];
  operations = [];
  outbox = [];
  deposits = [];
  answers = [];
}

abbrev first_bid : Bid
first_bid = record {
  bidder_company_id = "north";
  amount = pos 100;
  placed_at = 12 * hour + minute + 7;
}

abbrev led : Auction
led = record opened { leader_company_id = "north" }

first-IsTaken :
    IsTaken texts micros north "a1" service
      (pos 100)
      (12 * hour + minute + 7)
      tables
      opened_row
      first_bid
      led
      (Event.bid_placed "a1" "north" (pos 100) (12 * hour + minute + 7) (13 * hour) ∷ [])
      (pos 100 ∷ [])
unfolding place_bid new_bid is_valid_state find_auction
first-IsTaken = record {
  found = refl;
  valid = record {
    has_id = refl;
    has_lot = refl;
    known = refl;
    starts_set = omega arith;
    ordered = omega arith;
    start_nonneg = omega arith;
    step_pos = omega arith;
    floor = omega arith;
    window = refl;
    duration = refl;
  };
  priced = omega arith;
  fits = (omega arith, omega arith);
  made = refl;
  accepted = refl;
  covered = refl;
}

abbrev first_events : List Event
first_events = Event.bid_placed "a1" "north" (pos 100) (12 * hour + minute + 7) (13 * hour) ∷ []

-- The write of the auction fails: the bid stays.
abbrev torn : Database (List ℤ) × Result Error PlaceBidResult
torn =
    place_bid_with_result texts micros north "a1" service (pos 100) (12 * hour + minute + 7)
      (record tables { answers = true ∷ true ∷ true ∷ false ∷ [] })

-- The bid that was refused with an error then wins the auction.
torn_wins :
    map
      (λ x. x.1.company_id)
      (close_auction texts micros admin "a1" by_insertion by_insertion
        (12 * hour + 2 * minute)
        torn.0).0.winners
    ≡ "north" ∷ []
unfolding close_auction place_bid_with_result reload rehydrate_auction insertion_sort close
torn_wins = refl

-- A company cannot close an auction with bids early; an administrator can.
early_close :
    (close_auction texts micros north "a1" by_insertion by_insertion
      (12 * hour + 2 * minute)
      torn.0).1
    ≡ err close_forbidden_before_end_with_bids
unfolding close_auction place_bid_with_result reload rehydrate_auction insertion_sort
early_close = refl

bid_torn_lem_example :
    (torn.1 ≡ err storage)
    × (torn.0.auctions ≡ opened_row ∷ [])
    × (bids_of "a1" torn.0.bids ≡ bid_columns micros first_bid ∷ [])
    × (torn.0.deposits ≡ pos 100 ∷ [])
unfolding bids_of
bid_torn_lem_example =
    bid_torn_lem texts micros north "a1" service (pos 100) (12 * hour + minute + 7) tables
      opened_row first_bid led first_events (pos 100 ∷ []) first-IsTaken

bid_stored_lem_example :
    let (db', r) =
      place_bid_with_result texts micros north "a1" service
        (pos 100)
        (12 * hour + minute + 7)
        tables in
    (r
      ≡ ok (record {
        auction_id = "a1";
        bid_hash = "0xbid|a1|north|100|2026-01-01T12:01:00Z";
        chain_status = "PENDING_SUBMIT";
      }))
    × ((load "a1" db').1 ≡ ok (auction_columns micros led))
    × (auction_columns micros (auction_columns micros led) ≡ auction_columns micros led)
    × (bids_of "a1" db'.bids ≡ bid_columns micros first_bid ∷ [])
    × (db'.outbox ≡ added north first_events [])
    × (db'.deposits ≡ pos 100 ∷ [])
unfolding build_bid_hash bids_of
bid_stored_lem_example =
    bid_stored_lem texts micros north "a1" service (pos 100) (12 * hour + minute + 7) tables
      opened_row first_bid led first_events (pos 100 ∷ []) first-IsTaken refl
