-- ===== src/Trading/Types.antt =====
-- The data of internal/trading/auction: state.go, errors.go, events.go, bid.go and the struct of
-- auction.go.
use unbelievable_fish.Prelude.{ℕ, ◌*◌, List, String, Result, ok, err, if◌then◌else◌}
use unbelievable_fish.Prelude.Int.{ℤ, pos, leb_ℤ}
use unbelievable_fish.Prelude.Time.{Time, is_zero, minute}
use unbelievable_fish.Prelude.Text.{is_empty}

-- A State is a string; `other` is any string that is none of the five constants.
pub data State : Type 0 where
  draft published closed won cancelled : State
  other : String → State

pub data Error : Type 0 where
  auction_cannot_be_published auction_not_active cannot_close_auction : Error
  invalid_state_transition no_bids cannot_cancel_with_bids auction_not_started : Error
  auction_already_ended invalid_schedule bid_too_low bid_step_too_small : Error
  auction_id_empty lot_id_empty invalid_start_price invalid_min_bid_step : Error
  bidder_company_id_empty bid_amount_non_positive bid_placed_at_zero : Error

pub data Event : Type 0 where
  auction_published : String → Event
  -- auction, bidder company, amount, placed at, new end
  bid_placed : String → String → ℤ → Time → Time → Event
  auction_closed : String → Event
  -- auction, lot, winner candidates, final price
  auction_won : String → String → List String → ℤ → Event
  auction_cancelled : String → Event

pub record Bid : Type 0 where
  pub bidder_company_id : String
  pub amount : ℤ
  pub placed_at : Time

-- `Bid{}`
abbrev pub zero_bid : Bid
zero_bid = record { bidder_company_id = ""; amount = pos 0; placed_at = 0 }

unfoldable pub new_bid : String → ℤ → Time → Result Error Bid
unfolding is_empty
new_bid bidder amount placed =
    if is_empty bidder
    then err bidder_company_id_empty
    else if leb_ℤ amount (pos 0)
    then err bid_amount_non_positive
    else if is_zero placed
    then err bid_placed_at_zero
    else ok (record { bidder_company_id = bidder; amount = amount; placed_at = placed })

pub record Auction : Type 0 where
  pub id : String
  pub lot_id : String
  pub state : State
  pub starts_at : Time
  pub ends_at : Time
  pub start_price : ℤ
  pub current_price : ℤ
  pub min_bid_step : ℤ
  pub leader_company_id : String
  pub extension_window : ℕ
  pub extension_duration : ℕ

abbrev pub default_extension_window : ℕ
default_extension_window = 5 * minute

abbrev pub default_extension_duration : ℕ
default_extension_duration = 5 * minute

abbrev pub default_min_bid_step : ℤ
default_min_bid_step = pos 1
