-- ===== src/Catalog/Lots.antt =====
-- The life of a lot under its operations (internal/catalog/domain/lot.go).
use unbelievable_fish.Prelude.{
  ◌≡◌, ◌⊎◌, Bool, true, false, ◌||◌, List, [], ◌∷◌, String, some, Method, arith,
}
use unbelievable_fish.Prelude.Int.{ℤ, pos, ◌<ℤ◌}
use unbelievable_fish.Prelude.Trim.{is_blank_text}
use unbelievable_fish.Catalog.Types.{
  Error, is_not_positive, LotStatus, can_transition_lot, is_valid_schedule, ProductSnapshot, Event,
}
use unbelievable_fish.Catalog.Lot.{
  Lot, assign_auction_id, publish, unpublish, close, update_current_price,
}

pub data Command : Type 0 where
  assign_it : String → Command
  publish_it : Bool → ProductSnapshot → Command
  unpublish_it : Command
  close_it update_it : ℤ → Command

unfoldable pub run_command : Command → Method Error Lot (List Event)
run_command (assign_it auction) = assign_auction_id auction
run_command (publish_it b snapshot) = publish b snapshot
run_command unpublish_it = unpublish
run_command (close_it price) = close price
run_command (update_it price) = update_current_price price

unfoldable pub run_commands : List Command → Lot → Lot
unfolding run_command
run_commands [] l = l
run_commands (c ∷ cs) l = run_commands cs (run_command c l).0

pub record IsValid (l : Lot) : Type 0 where
  pub ids_there :
      (is_blank_text l.lot_id || is_blank_text l.product_id || is_blank_text l.seller_company_id)
      ≡ false
  pub quantity_good : is_not_positive l.quantity ≡ false
  pub start_positive : pos 0 <ℤ l.start_price
  pub step_positive : pos 0 <ℤ l.min_bid_step
  pub final_positive : pos 0 <ℤ l.final_price
  pub cur_positive : pos 0 <ℤ l.cur_price
  pub schedule_good : is_valid_schedule (some l.auction_schedule) ≡ true

-- What no operation changes: the lot as it was offered.
abbrev pub IsSameOffer : Lot → Lot → Type 0
IsSameOffer l l' =
    (l'.lot_id ≡ l.lot_id)
    × (l'.product_id ≡ l.product_id)
    × (l'.seller_company_id ≡ l.seller_company_id)
    × (l'.photo ≡ l.photo)
    × (l'.quantity ≡ l.quantity)
    × (l'.start_price ≡ l.start_price)
    × (l'.min_bid_step ≡ l.min_bid_step)
    × (l'.auction_schedule ≡ l.auction_schedule)

pub command-IsSameOffer : (c : Command) (l : Lot) → IsSameOffer l (run_command c l).0
unfolding run_command assign_auction_id publish unpublish close update_current_price
command-IsSameOffer (assign_it a) l = ground arith
command-IsSameOffer (publish_it b p) l = ground arith
command-IsSameOffer unpublish_it l = ground arith
command-IsSameOffer (close_it p) l = ground arith
command-IsSameOffer (update_it p) l = ground arith

pub command_final_price :
    (c : Command) (l : Lot)
    → pos 0 <ℤ l.final_price
    → pos 0 <ℤ l.cur_price
    → (pos 0 <ℤ (run_command c l).0.final_price) × (pos 0 <ℤ (run_command c l).0.cur_price)
unfolding run_command assign_auction_id publish unpublish close update_current_price
command_final_price (assign_it a) l h k = ground arith
command_final_price (publish_it b p) l h k = ground arith
command_final_price unpublish_it l h k = ground arith
command_final_price (close_it p) l h k = ground arith
command_final_price (update_it p) l h k = ground arith

-- The lots that an operation may leave: the status stays or takes a step of `lotTransitions`.
abbrev pub Steps : LotStatus → LotStatus → Type 0
Steps s s' = (s' ≡ s) ⊎ (can_transition_lot s s' ≡ true)

pub command-Steps : (c : Command) (l : Lot) → Steps l.status (run_command c l).0.status
unfolding run_command assign_auction_id publish unpublish close update_current_price
command-Steps (assign_it a) l = ground arith
command-Steps (publish_it b p) l = ground arith
command-Steps unpublish_it l = ground arith
command-Steps (close_it p) l = ground arith
command-Steps (update_it p) l = ground arith

-- An auction id that is there stays.
pub command_auction :
    (c : Command) (l : Lot)
    → is_blank_text l.auction_id ≡ false
    → (run_command c l).0.auction_id ≡ l.auction_id
unfolding run_command assign_auction_id publish unpublish close update_current_price
command_auction (assign_it a) l h = ground arith
command_auction (publish_it b p) l h = ground arith
command_auction unpublish_it l h = ground arith
command_auction (close_it p) l h = ground arith
command_auction (update_it p) l h = ground arith
