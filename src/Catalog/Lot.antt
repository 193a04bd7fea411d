-- ===== src/Catalog/Lot.antt =====
-- internal/catalog/domain/lot.go.
use unbelievable_fish.Prelude.{
  Bool, true, false, ◌||◌, not, List, [], ◌∷◌, String, Option, none, some, Result, ok, err, Method,
  gets, modify, fail_if, check, ◌then_also◌, ◌>>=◌, ◌>>◌, if◌then◌else◌,
}
use unbelievable_fish.Prelude.Int.{ℤ, pos, leb_ℤ}
use unbelievable_fish.Prelude.Trim.{trim_space, is_blank_text}
use unbelievable_fish.Catalog.Types.{
  Error, Float64, is_not_positive, LotStatus, can_transition_lot, AuctionSchedule,
  is_valid_schedule, ends_at, ProductSnapshot, Event,
}

pub record Lot : Type 0 where
  pub lot_id : String
  pub product_id : String
  pub seller_company_id : String
  pub auction_id : String
  pub photo : String
  pub quantity : Float64
  pub status : LotStatus
  pub product : ProductSnapshot
  pub start_price : ℤ
  pub min_bid_step : ℤ
  pub final_price : ℤ
  pub cur_price : ℤ
  pub auction_schedule : AuctionSchedule

abbrev no_snapshot : ProductSnapshot
no_snapshot = record {
  product_id = "";
  name = "";
  weight = 0;
  unit = "";
  size = "";
  processing_type = "";
}

abbrev no_price : ℤ → Bool
no_price price = leb_ℤ price (pos 0)

abbrev scheduled : Option AuctionSchedule → Result Error AuctionSchedule
scheduled none = err Error.invalid_schedule
scheduled (some s) = if is_valid_schedule (some s) then ok s else err Error.invalid_schedule

abbrev made :
    Result Error AuctionSchedule → (AuctionSchedule → Lot) → Result Error (Lot × List Event)
made (err e) f = err e
made (ok s) f =
    let lot = f s in
    ok (
      lot,
      Event.lot_created lot.lot_id lot.product_id lot.seller_company_id lot.photo lot.quantity
            lot.status
          ∷ [],
    )

unfoldable pub new_lot :
    String
    → String
    → String
    → String
    → Float64
    → ℤ
    → ℤ
    → Option AuctionSchedule
    → Result Error (Lot × List Event)
unfolding is_not_positive is_valid_schedule
new_lot id product seller photo quantity start_price step schedule =
    check (is_blank_text id || is_blank_text product || is_blank_text seller)
      Error.invalid_identifier
    then_also check (is_not_positive quantity) Error.invalid_quantity
    then_also check (no_price start_price) Error.invalid_price
    then_also check (no_price step) Error.invalid_price
    then_also made (scheduled schedule) λ s. record {
      lot_id = id;
      product_id = product;
      seller_company_id = seller;
      auction_id = "";
      photo = trim_space photo;
      quantity = quantity;
      status = LotStatus.draft;
      product = no_snapshot;
      start_price = start_price;
      min_bid_step = step;
      final_price = start_price;
      cur_price = start_price;
      auction_schedule = s;
    }

unfoldable pub assign_auction_id : String → Method Error Lot (List Event)
assign_auction_id auction = do
  fail_if (is_blank_text auction) Error.invalid_identifier
  old ← gets λ (l : Lot). l.auction_id
  fail_if (not (is_blank_text old)) Error.already_assigned
  modify λ (l : Lot). record l { auction_id = auction }
  gets λ (l : Lot). Event.lot_auction_linked l.lot_id l.auction_id ∷ []

unfoldable pub publish : Bool → ProductSnapshot → Method Error Lot (List Event)
unfolding ends_at
publish product_is_published snapshot = do
  fail_if (not product_is_published) Error.publishing_rule_violation
  status ← gets λ (l : Lot). l.status
  fail_if (not (can_transition_lot status LotStatus.published)) Error.forbidden_state_transition
  modify λ (l : Lot). record l { status = LotStatus.published; product = snapshot }
  gets λ (l : Lot).
      Event.lot_published l.lot_id l.auction_id l.seller_company_id l.product_id l.product
        l.start_price l.min_bid_step l.auction_schedule.starts_at (ends_at l.auction_schedule)
        l.status
      ∷ []

unfoldable pub unpublish : Method Error Lot (List Event)
unpublish = do
  status ← gets λ (l : Lot). l.status
  fail_if (not (can_transition_lot status LotStatus.cancelled)) Error.forbidden_state_transition
  modify λ (l : Lot). record l { status = LotStatus.cancelled }
  gets λ (l : Lot). Event.lot_unpublished l.lot_id l.status ∷ []

unfoldable pub close : ℤ → Method Error Lot (List Event)
close final_price = do
  status ← gets λ (l : Lot). l.status
  fail_if (not (can_transition_lot status LotStatus.closed)) Error.forbidden_state_transition
  fail_if (no_price final_price) Error.invalid_price
  modify λ (l : Lot). record l { status = LotStatus.closed; final_price = final_price }
  gets λ (l : Lot). Event.lot_closed l.lot_id l.final_price l.status ∷ []

abbrev is_published : LotStatus → Bool
is_published LotStatus.published = true
is_published _ = false

unfoldable pub update_current_price : ℤ → Method Error Lot (List Event)
update_current_price current_price = do
  status ← gets λ (l : Lot). l.status
  fail_if (not (is_published status)) Error.forbidden_state_transition
  fail_if (no_price current_price) Error.invalid_price
  modify λ (l : Lot). record l { cur_price = current_price }
  gets λ (l : Lot). Event.lot_price_updated l.lot_id l.auction_id l.cur_price l.status ∷ []
