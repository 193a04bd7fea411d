-- ===== src/Trading/Rows.antt =====
-- The rows of the trading tables before and after a statement: internal/trading/postgres.
use mathlib.Core.Option
use unbelievable_fish.Prelude.{
  ◌≤◌, subst, ◌∙◌, ◌≡◌, refl, ap, true, false, List, [], ◌∷◌, String, some, ok, arith, Bool-cases,
  inl, inr,
}
use unbelievable_fish.Prelude.Time.{Timestamptz}
use unbelievable_fish.Prelude.Int.{pos, leb_ℤ}
use unbelievable_fish.Prelude.Text.{str_eq, str_eq_iff, str_eq_refl}
use unbelievable_fish.Trading.Types.{Event, Bid, Auction}
use unbelievable_fish.Trading.Validity.{IsValid, rehydrate_auction-roundtrip}
use unbelievable_fish.Trading.Store.{
  auction_columns, bid_columns, CommandMeta, AuctionRow, BidRow, Database, find_auction, reload,
  upsert, bids_of, has_row, mark_anchored, next_nonce, bid_anchor,
}
use unbelievable_fish.Trading.Statements.{save_auction, add_events, enqueue_bid_anchor}

pub found_id :
    (id : String) (rows : List AuctionRow) (r : AuctionRow)
    → find_auction id rows ≡ some r
    → r.stored.id ≡ id
unfolding find_auction
found_id id [] r h = cc
found_id id (x ∷ rows) r h = elim (Bool-cases (str_eq x.stored.id id)) [
  | inl same ↦ ground (arith, str_eq_iff x.stored.id id)
  | inr other' ↦ found_id id rows r (rw other' at h)
]

pub find-upsert :
    (z : Timestamptz) (a : Auction) (rows : List AuctionRow) (r : AuctionRow)
    → find_auction a.id rows ≡ some r
    → find_auction a.id (upsert z a rows) ≡ some (record r { stored = auction_columns z a })
unfolding find_auction upsert
find-upsert z a [] r h = cc
find-upsert z a (x ∷ rows) r h = elim (Bool-cases (str_eq x.stored.id a.id)) [
  | inl same ↦
      let hit : some x ≡ some r = rw same at h in
      rw (same, str_eq_refl a.id)
        (ap (Option.map (λ (y : AuctionRow). record y { stored = auction_columns z a })) hit)
  | inr other' ↦ rw (other', other') (find-upsert z a rows r (rw other' at h))
]

pub bids_of-mark :
    (id x : String) (b : Bid) (hash : String) (rows : List BidRow)
    → bids_of id (mark_anchored x b hash rows) ≡ bids_of id rows
unfolding bids_of mark_anchored
bids_of-mark id x b hash [] = refl
bids_of-mark id x b hash (r ∷ rows) = ground (arith, bids_of-mark id x b hash rows)

pub reload_valid : (a : Auction) → IsValid a → reload a ≡ ok a
unfolding reload
reload_valid a v = rw (rehydrate_auction-roundtrip a v) refl

-- What is saved of an auction is valid if it keeps the start and does not end before the row that
-- was there: rounding keeps the order of the start and the end.
pub columns-IsValid :
    (z : Timestamptz) (row a : Auction)
    → auction_columns z row ≡ row
    → IsValid row
    → IsValid a
    → a.starts_at ≡ row.starts_at
    → row.ends_at ≤ a.ends_at
    → IsValid (auction_columns z a)
columns-IsValid z row a held old v same later =
    let start : z.rounded a.starts_at ≡ row.starts_at =
      ap z.rounded same ∙ ap (λ (x : Auction). x.starts_at) held in
    let end : row.ends_at ≤ z.rounded a.ends_at =
      subst (λ x. x ≤ z.rounded a.ends_at) (ap (λ (x : Auction). x.ends_at) held)
        (z.rounded-mono row.ends_at a.ends_at later) in
    record {
      has_id = v.has_id;
      has_lot = v.has_lot;
      known = v.known;
      starts_set = rw start old.starts_set;
      ordered = rw start (omega (arith, old.ordered, end));
      start_nonneg = v.start_nonneg;
      step_pos = v.step_pos;
      floor = v.floor;
      window = v.window;
      duration = v.duration;
    }

-- What the columns hold is saved as it is.
pub columns_again :
    (z : Timestamptz) (a : Auction) → auction_columns z (auction_columns z a) ≡ auction_columns z a
columns_again z a = rw (z.rounded-idem a.starts_at, z.rounded-idem a.ends_at) refl

-- Events added in order, the last one first.
abbrev pub added :
    CommandMeta → List Event → List (CommandMeta × Event) → List (CommandMeta × Event)
added meta [] box = box
added meta (e ∷ es) box = added meta es ((meta, e) ∷ box)

-- The writes when every statement goes through.
module _ {W : Type 0} where
  pub save_auction_lem :
      (z : Timestamptz) (a : Auction) (db : Database W)
      → leb_ℤ a.start_price (pos 0) ≡ false
      → save_auction z a (record db { answers = [] })
        ≡ (record db { answers = []; auctions = upsert z a db.auctions }, ok tt)
  unfolding save_auction
  save_auction_lem z a db p = rw p refl

  pub add_events_lem :
      (meta : CommandMeta) (es : List Event) (db : Database W)
      → add_events meta es (record db { answers = [] })
        ≡ (record db { answers = []; outbox = added meta es db.outbox }, ok tt)
  unfolding add_events
  add_events_lem meta [] db = refl
  add_events_lem meta (x ∷ es) db =
      add_events_lem meta es (record db { outbox = (meta, x) ∷ db.outbox })

  pub anchor_lem :
      (z : Timestamptz) (id ref hash : String) (b : Bid) (db : Database W)
      → has_row id (bid_columns z b) db.bids ≡ true
      → enqueue_bid_anchor z id ref hash b (record db { answers = [] }) ≡ (
        record db {
          answers = [];
          bids = mark_anchored id (bid_columns z b) hash db.bids;
          operations =
              record {
                op_nonce = next_nonce id db.operations;
                auction_id = id;
                auction_ref_hash = ref;
                payload = bid_anchor hash (z.rounded b.placed_at);
                status = "CREATED";
              }
              ∷ db.operations;
        },
        ok tt,
      )
  unfolding enqueue_bid_anchor
  anchor_lem z id ref hash b db p = rw p refl

pub has_new_row :
    (id : String) (r : BidRow) (rows : List BidRow)
    → r.auction_id ≡ id
    → has_row id r.bid (r ∷ rows) ≡ true
unfolding has_row
has_new_row id r rows e =
    ground (arith, str_eq_iff r.auction_id id, str_eq_refl r.bid.bidder_company_id)
