-- ===== src/Trading/Auction.antt =====
-- internal/trading/auction/auction.go and rehydrate.go: the operations of an auction.
use unbelievable_fish.Prelude.{
  Bool, true, false, ◌||◌, not, List, [], ◌∷◌, String, Result, ok, err, Method, gets, pure, modify,
  fail_if, ◌>>=◌, ◌>>◌, if◌then◌else◌,
}
use unbelievable_fish.Prelude.Int.{ℤ, pos, ltb_ℤ, leb_ℤ}
use unbelievable_fish.Prelude.Int64.{add64}
use unbelievable_fish.Prelude.Time.{Time, is_zero, before, after, add, sub}
use unbelievable_fish.Prelude.Text.{is_empty}
use unbelievable_fish.Trading.Types.{
  State, draft, published, closed, won, cancelled, other, Error, auction_cannot_be_published,
  auction_not_active, cannot_close_auction, invalid_state_transition, cannot_cancel_with_bids,
  auction_not_started, auction_already_ended, invalid_schedule, bid_step_too_small,
  auction_id_empty, lot_id_empty, invalid_start_price, invalid_min_bid_step, Event,
  auction_published, bid_placed, auction_closed, auction_won, auction_cancelled, Bid, Auction,
  default_extension_window, default_extension_duration, default_min_bid_step,
}
use unbelievable_fish.Trading.Transitions.{transition_to}
use unbelievable_fish.Trading.Winner.{RankingSort, determine_winner, collect_winner_company_ids}

abbrev pub is_draft : State → Bool
is_draft draft = true
is_draft _ = false

abbrev pub is_published : State → Bool
is_published published = true
is_published _ = false

abbrev pub has_invalid_schedule : Time → Time → Bool
has_invalid_schedule starts ends = is_zero starts || is_zero ends || not (before starts ends)

unfoldable pub new_auction_with_pricing :
    String → String → Time → Time → ℤ → ℤ → Result Error Auction
unfolding is_empty
new_auction_with_pricing id lot starts ends start_price step =
    if is_empty id
    then err auction_id_empty
    else if is_empty lot
    then err lot_id_empty
    else if has_invalid_schedule starts ends
    then err invalid_schedule
    else if ltb_ℤ start_price (pos 0)
    then err invalid_start_price
    else if leb_ℤ step (pos 0)
    then err invalid_min_bid_step
    else ok (record {
      id = id;
      lot_id = lot;
      state = draft;
      starts_at = starts;
      ends_at = ends;
      start_price = start_price;
      current_price = start_price;
      min_bid_step = step;
      leader_company_id = "";
      extension_window = default_extension_window;
      extension_duration = default_extension_duration;
    })

unfoldable pub new_auction : String → String → Time → Time → Result Error Auction
unfolding new_auction_with_pricing
new_auction id lot starts ends =
    new_auction_with_pricing id lot starts ends (pos 0) default_min_bid_step

unfoldable pub is_valid_state : State → Bool
is_valid_state (other _) = false
is_valid_state _ = true

unfoldable pub rehydrate_auction :
    String → String → State → Time → Time → ℤ → ℤ → ℤ → String → Result Error Auction
unfolding is_empty is_valid_state
rehydrate_auction id lot state starts ends start_price current_price step leader =
    if is_empty id
    then err auction_id_empty
    else if is_empty lot
    then err lot_id_empty
    else if has_invalid_schedule starts ends
    then err invalid_schedule
    else if not (is_valid_state state)
    then err invalid_state_transition
    else if leb_ℤ step (pos 0)
    then err invalid_min_bid_step
    else if ltb_ℤ start_price (pos 0)
    then err invalid_start_price
    else ok (record {
      id = id;
      lot_id = lot;
      state = state;
      starts_at = starts;
      ends_at = ends;
      start_price = start_price;
      current_price = current_price;
      min_bid_step = step;
      leader_company_id = leader;
      extension_window = default_extension_window;
      extension_duration = default_extension_duration;
    })

unfoldable pub publish : Method Error Auction (List Event)
unfolding transition_to
publish = do
  a ← gets (λ x. x)
  fail_if (not (is_draft a.state)) auction_cannot_be_published
  transition_to published
  pure (auction_published a.id ∷ [])

-- The least amount that a bid may have.
unfoldable pub min_allowed : Auction → ℤ
unfolding is_empty add64
min_allowed a =
    if is_empty a.leader_company_id then a.current_price else add64 a.current_price a.min_bid_step

-- The end of the auction once the bid is accepted.
unfoldable pub new_end_at : Bid → Auction → Time
unfolding sub
new_end_at b a =
    if leb_ℤ (sub a.ends_at b.placed_at) (pos a.extension_window)
    then add b.placed_at a.extension_duration
    else a.ends_at

unfoldable pub place_bid : Bid → Method Error Auction (List Event)
unfolding min_allowed new_end_at
place_bid b = do
  a ← gets (λ x. x)
  fail_if (not (is_published a.state)) auction_not_active
  fail_if (before b.placed_at a.starts_at) auction_not_started
  fail_if (after b.placed_at a.ends_at) auction_already_ended
  fail_if (ltb_ℤ b.amount (min_allowed a)) bid_step_too_small
  modify λ (x : Auction). record x {
    current_price = b.amount;
    leader_company_id = b.bidder_company_id;
    ends_at = new_end_at b a;
  }
  pure (bid_placed a.id b.bidder_company_id b.amount b.placed_at (new_end_at b a) ∷ [])

-- The part of `Close` for an auction that has bids.
unfoldable pub close_with_winner : Bid → List String → Method Error Auction (List Event)
unfolding transition_to
close_with_winner winner candidates = do
  transition_to closed
  modify λ (x : Auction). record x {
    current_price = winner.amount;
    leader_company_id = winner.bidder_company_id;
  }
  transition_to won
  a ← gets (λ x. x)
  pure (auction_closed a.id ∷ auction_won a.id a.lot_id candidates a.current_price ∷ [])

unfoldable pub cancel : Method Error Auction (List Event)
unfolding transition_to
cancel = do transition_to cancelled; a ← gets (λ x. x); pure (auction_cancelled a.id ∷ [])

module _ (s : RankingSort) where
  unfoldable pub close_bids : List Bid → Method Error Auction (List Event)
  unfolding cancel close_with_winner determine_winner collect_winner_company_ids
  close_bids [] = cancel
  close_bids (b ∷ bids) =
      let sorted = s.sort (b ∷ bids) in
      let (winner, _) = determine_winner sorted in
      close_with_winner winner (collect_winner_company_ids sorted)

  unfoldable pub close : List Bid → Method Error Auction (List Event)
  unfolding close_bids
  close bids = do
    a ← gets (λ x. x)
    fail_if (not (is_published a.state)) cannot_close_auction
    close_bids bids

unfoldable pub cancel_as_seller_or_draft : Method Error Auction (List Event)
unfolding cancel is_empty
cancel_as_seller_or_draft = do
  a ← gets (λ x. x)
  if is_draft a.state then cancel else do
    fail_if (not (is_published a.state)) invalid_state_transition
    fail_if (not (is_empty a.leader_company_id)) cannot_cancel_with_bids
    cancel

unfoldable pub cancel_as_admin : Method Error Auction (List Event)
unfolding cancel
cancel_as_admin = do
  a ← gets (λ x. x)
  if is_draft a.state
      then cancel
      else do fail_if (not (is_published a.state)) invalid_state_transition; cancel

unfoldable pub winner : Auction → String × ℤ × Bool
unfolding is_empty
winner a =
    if is_empty a.leader_company_id
    then ("", pos 0, false)
    else (a.leader_company_id, a.current_price, true)
