-- ===== src/Trading/Tests.antt =====
-- Sample auctions and bids: runs of the operations, and the theorems at concrete inputs.
use unbelievable_fish.Prelude.{
  ℕ, ◌+◌, ◌*◌, ◌^◌, ◌-◌, ◌≤◌, ◌<◌, max, ◌≡◌, refl, false, List, [], ◌∷◌, String, Memᴰ, All, length,
  arith, ok, Succeeds,
}
use unbelievable_fish.Prelude.Int.{pos, ◌+ℤ◌}
use unbelievable_fish.Prelude.Time.{Time, minute, hour}
use unbelievable_fish.Prelude.Text.{is_empty}
use unbelievable_fish.Trading.Types.{
  draft, published, won, auction_closed, auction_won, Bid, Auction, default_extension_window,
  default_extension_duration,
}
use unbelievable_fish.Trading.Winner.{ranks_before}
use unbelievable_fish.Trading.Auction.{is_valid_state, place_bid, close}
use unbelievable_fish.Trading.Sort.{by_insertion, insertion_sort, insertion_sort-perm}
use unbelievable_fish.Trading.Ranking.{IsTop}
use unbelievable_fish.Trading.Bidding.{
  place_bid_extends, place_bid_wraps, bid_run, IsFair, Leads, bid_run-Leads,
}
use unbelievable_fish.Trading.Lifecycle.{
  publish_it, bid, close_with, run_command, Reaches, run_commands, run_commands-Reaches,
}
use unbelievable_fish.Trading.Closing.{close_picks_best, close_announces, close_confirms_leader}
use unbelievable_fish.Trading.Validity.{IsValid, run_command-IsValid}

abbrev noon : ℕ
noon = 12 * hour

abbrev opened : Auction
opened = record {
  id = "a1";
  lot_id = "l1";
  state = published;
  starts_at = noon;
  ends_at = noon + hour;
  start_price = pos 100;
  current_price = pos 100;
  min_bid_step = pos 10;
  leader_company_id = "";
  extension_window = default_extension_window;
  extension_duration = default_extension_duration;
}

abbrev bid_of : String → ℕ → Time → Bid
bid_of company n t = record { bidder_company_id = company; amount = pos n; placed_at = t }

-- The second bid is too low, the last comes two minutes before the end.
abbrev offers : List Bid
offers =
    bid_of "north" 100 (noon + minute)
    ∷ bid_of "south" 105 (noon + 2 * minute)
    ∷ bid_of "east" 110 (noon + 3 * minute)
    ∷ bid_of "south" 150 (noon + 58 * minute)
    ∷ []

offers_run :
    let (a, accepted) = bid_run offers [] opened in
    (a.leader_company_id ≡ "south")
    × (a.current_price ≡ pos 150)
    × (a.ends_at ≡ noon + 63 * minute)
    × (length accepted ≡ 3)
unfolding bid_run place_bid
offers_run = (refl, refl, refl, refl)

close_run :
    (close by_insertion (bid_run offers [] opened).1 opened).1
    ≡ ok (
        auction_closed "a1"
        ∷ auction_won "a1" "l1" ("south" ∷ "east" ∷ "north" ∷ []) (pos 150)
        ∷ [])
unfolding close bid_run place_bid insertion_sort ranks_before
close_run = refl

abbrev led : Auction
led = record opened { leader_company_id = "north" }

abbrev third : Bid
third = bid_of "east" 110 (noon + 3 * minute)

abbrev late : Bid
late = bid_of "south" 150 (noon + 58 * minute)

led-IsValid : IsValid led
unfolding is_valid_state is_empty
led-IsValid = record {
  has_id = refl;
  has_lot = refl;
  known = refl;
  starts_set = omega arith;
  ordered = omega arith;
  start_nonneg = omega arith;
  step_pos = omega arith;
  floor = omega arith;
  window = refl;
  duration = refl;
}

fair :
    (company : String) (n : ℕ) (t : Time)
    → is_empty company ≡ false
    → 1 ≤ n
    → n < 1000
    → IsFair (pos 10) (bid_of company n t)
unfolding ◌+ℤ◌
fair company n t h k l = record { named = h; positive = omega arith; fits = ground arith }

offers-IsFair : All (IsFair (pos 10)) offers
unfolding is_empty
offers-IsFair = (
  fair "north" 100 (noon + minute) refl (omega arith) (omega arith),
  (
    fair "south" 105 (noon + 2 * minute) refl (omega arith) (omega arith),
    (
      fair "east" 110 (noon + 3 * minute) refl (omega arith) (omega arith),
      (fair "south" 150 (noon + 58 * minute) refl (omega arith) (omega arith), tt),
    ),
  ),
)

place_bid_extends_example :
    (place_bid late led).0.ends_at ≡ max led.ends_at (noon + 58 * minute + 5 * minute)
unfolding place_bid
place_bid_extends_example = place_bid_extends late led refl refl refl

abbrev topped : Auction
topped = record led { current_price = pos (2 ^ 63 - 1) }

place_bid_wraps_example :
    Succeeds (place_bid (bid_of "east" 1 noon) topped).1
    × ((place_bid (bid_of "east" 1 noon) topped).0.current_price ≡ pos 1)
place_bid_wraps_example =
    place_bid_wraps (bid_of "east" 1 noon) topped refl (omega arith) (omega arith) (λ e. cc e) refl
      (omega arith) (omega arith) (omega arith)

bid_run-Leads_example : let (a', accepted) = bid_run offers [] opened in Leads accepted a'
bid_run-Leads_example = bid_run-Leads offers opened refl (omega arith) offers-IsFair

run_commands-Reaches_example :
    Reaches draft
      (run_commands by_insertion
        (publish_it ∷ bid third ∷ close_with (third ∷ []) ∷ [])
        (record opened { state = draft })).state
run_commands-Reaches_example =
    run_commands-Reaches by_insertion (publish_it ∷ bid third ∷ close_with (third ∷ []) ∷ [])
      (record opened { state = draft })

close_picks_best_example :
    let a' = (close by_insertion (third ∷ late ∷ []) opened).0 in
    (w : Bid) × Memᴰ w (third ∷ late ∷ [])
    × IsTop w (third ∷ late ∷ [])
    × (a'.state ≡ won)
    × (a'.leader_company_id ≡ w.bidder_company_id)
    × (a'.current_price ≡ w.amount)
close_picks_best_example = close_picks_best by_insertion third (late ∷ []) opened refl

close_announces_example :
    let (a', r) = close by_insertion (third ∷ late ∷ []) opened in
    (others : List String) × (r
      ≡ ok (
          auction_closed "a1"
          ∷ auction_won "a1" "l1" (a'.leader_company_id ∷ others) a'.current_price
          ∷ []))
unfolding is_empty
close_announces_example =
    close_announces by_insertion third (late ∷ []) opened refl (refl, (refl, tt))

close_confirms_leader_example :
    let (a', accepted) = bid_run offers [] opened in
    let c = (close by_insertion (insertion_sort accepted) a').0 in
    (c.state ≡ won)
    × (c.leader_company_id ≡ a'.leader_company_id)
    × (c.current_price ≡ a'.current_price)
unfolding bid_run place_bid insertion_sort ranks_before
close_confirms_leader_example =
    close_confirms_leader by_insertion offers (insertion_sort (bid_run offers [] opened).1) opened
      refl refl (omega arith) offers-IsFair (insertion_sort-perm (bid_run offers [] opened).1)
      (omega arith)

run_command-IsValid_example : IsValid (run_command by_insertion (bid third) led).0
unfolding ◌+ℤ◌
run_command-IsValid_example =
    run_command-IsValid by_insertion (bid third) led (omega arith) led-IsValid
