-- ===== src/Trading/Validity.antt =====
-- What holds of every auction between two calls (auction.go), and its storing and reloading
-- (rehydrate.go).
use unbelievable_fish.Prelude.{
  ◌<◌, ◌≡◌, sym, ◌⊎◌, inl, inr, ◌↔◌, ap, subst, true, false, List, [], ◌∷◌, String, All, All-mem,
  Bool-cases, arith, ok, is_ok, Succeeds,
}
use unbelievable_fish.Prelude.Int.{ℤ, pos, ◌+ℤ◌, ◌≤ℤ◌, int_laws}
use unbelievable_fish.Prelude.Int64.{IsInt64, add64_exact}
use unbelievable_fish.Prelude.Time.{Time}
use unbelievable_fish.Prelude.Text.{is_empty, is_empty_iff}
use unbelievable_fish.Trading.Types.{
  draft, published, Bid, Auction, default_extension_window, default_extension_duration,
}
use unbelievable_fish.Trading.Winner.{RankingSort}
use unbelievable_fish.Trading.Auction.{
  new_auction_with_pricing, is_valid_state, rehydrate_auction, publish, min_allowed, place_bid,
  close, cancel_as_seller_or_draft, cancel_as_admin,
}
use unbelievable_fish.Trading.Lifecycle.{
  Command, publish_it, bid, close_with, cancel_seller, cancel_admin, run_command, close_unchanged,
  close-ends,
}
use unbelievable_fish.Trading.Bidding.{place_bid_accepts_iff, place_bid_effect, place_bid_extends}
use unbelievable_fish.Trading.Closing.{winner_of, winner_of-best, close-won}

pub record IsValid (a : Auction) : Type 0 where
  pub has_id : is_empty a.id ≡ false
  pub has_lot : is_empty a.lot_id ≡ false
  pub known : is_valid_state a.state ≡ true
  pub starts_set : 0 < a.starts_at
  pub ordered : a.starts_at < a.ends_at
  pub start_nonneg : pos 0 ≤ℤ a.start_price
  pub step_pos : pos 1 ≤ℤ a.min_bid_step
  pub floor : a.start_price ≤ℤ a.current_price
  pub window : a.extension_window ≡ default_extension_window
  pub duration : a.extension_duration ≡ default_extension_duration

-- A new auction is valid: it is a draft without a leader, and its price is its start price.
pub new_auction-IsValid :
    (id lot : String) (starts ends : Time) (price step : ℤ) {a : Auction}
    → new_auction_with_pricing id lot starts ends price step ≡ ok a
    → IsValid a × (a.state ≡ draft) × (a.leader_company_id ≡ "") × (a.current_price ≡ price)
unfolding new_auction_with_pricing is_valid_state
new_auction-IsValid id lot starts ends price step h = ground arith

-- An auction that is stored field by field is reloaded as it was, if it is valid.
pub rehydrate_auction-roundtrip :
    (a : Auction)
    → IsValid a
    → rehydrate_auction a.id a.lot_id a.state a.starts_at a.ends_at a.start_price a.current_price
        a.min_bid_step a.leader_company_id
      ≡ ok a
unfolding rehydrate_auction
rehydrate_auction-roundtrip a v = ground arith

-- What the caller of a command sees to: a bid over a standing one does not pass the range of int64,
-- and the bids at closing were made from the start price on.
abbrev IsSafe : Command → Auction → Type 0
IsSafe (bid b) a = IsInt64 (a.current_price +ℤ a.min_bid_step)
IsSafe (close_with bids) a = All (λ b. a.start_price ≤ℤ b.amount) bids
IsSafe _ a = Unit {0}

place_bid_floor :
    (b : Bid) (a : Auction)
    → IsValid a
    → IsInt64 (a.current_price +ℤ a.min_bid_step)
    → Succeeds (place_bid b a).1
    → a.start_price ≤ℤ b.amount
unfolding min_allowed
place_bid_floor b a v fits h =
    let accepted = (place_bid_accepts_iff b a).0 h in
    let exact = add64_exact a.current_price a.min_bid_step fits in
    elim (Bool-cases (is_empty a.leader_company_id)) [
      | inl first ↦ omega (arith, v.floor, rw first at accepted.3)
      | inr led ↦ omega (int_laws, v.floor, v.step_pos, rw (led, exact) at accepted.3)
    ]

pub place_bid-IsValid :
    (b : Bid) (a : Auction)
    → IsValid a
    → IsInt64 (a.current_price +ℤ a.min_bid_step)
    → IsValid (place_bid b a).0
unfolding is_valid_state
place_bid-IsValid b a v fits = elim (Bool-cases (is_ok (place_bid b a).1)) [
  | inl taken ↦
      let set = (place_bid_effect b a).1 taken in
      let ends = place_bid_extends b a v.window v.duration taken in
      let price = place_bid_floor b a v fits taken in subst IsValid (sym set) (ground arith)
  | inr refused ↦ rw ((place_bid_effect b a).0 refused) v
]

publish-IsValid : (a : Auction) → IsValid a → IsValid (publish a).0
unfolding publish is_valid_state
publish-IsValid a v = ground arith

cancel_seller-IsValid : (a : Auction) → IsValid a → IsValid (cancel_as_seller_or_draft a).0
unfolding cancel_as_seller_or_draft is_valid_state
cancel_seller-IsValid a v = ground arith

cancel_admin-IsValid : (a : Auction) → IsValid a → IsValid (cancel_as_admin a).0
unfolding cancel_as_admin is_valid_state
cancel_admin-IsValid a v = ground arith

module _ (s : RankingSort) where
  close-empty-IsValid : (a : Auction) → IsValid a → IsValid (close s [] a).0
  unfolding close is_valid_state
  close-empty-IsValid a v = ground arith

  close-IsValid :
      (bids : List Bid) (a : Auction)
      → All (λ b. a.start_price ≤ℤ b.amount) bids
      → IsValid a
      → IsValid (close s bids a).0
  unfolding is_valid_state
  close-IsValid [] a f v = close-empty-IsValid a v
  close-IsValid (b ∷ bids) a f v = elim (Bool-cases (is_ok (close s (b ∷ bids) a).1)) [
    | inl closed' ↦
        let w = winner_of s (b ∷ bids) in
        let price =
          All-mem (λ x. a.start_price ≤ℤ x.amount) {x = w} f (winner_of-best s b bids).0 in
        let e = close-won s b bids a (close-ends s (b ∷ bids) a closed').0 in
        subst IsValid (sym (ap (λ r. r.0) e)) (ground arith)
    | inr refused ↦ rw (close_unchanged s (b ∷ bids) a refused) v
  ]

  -- Every command keeps an auction valid, whether it succeeds or not, provided that at a bid the
  -- current price and the step have a sum within int64, and that at a closing no bid is below the
  -- start price.
  pub run_command-IsValid :
      (c : Command) (a : Auction) → IsSafe c a → IsValid a → IsValid (run_command s c a).0
  unfolding run_command
  run_command-IsValid publish_it a f v = publish-IsValid a v
  run_command-IsValid (bid b) a f v = place_bid-IsValid b a v f
  run_command-IsValid (close_with bids) a f v = close-IsValid bids a f v
  run_command-IsValid cancel_seller a f v = cancel_seller-IsValid a v
  run_command-IsValid cancel_admin a f v = cancel_admin-IsValid a v

-- `CancelAsSellerOrDraft` succeeds exactly for a draft, and for a published auction that nobody
-- leads; `CancelAsAdmin` succeeds exactly for a draft and for a published auction.
pub cancel_iff :
    (a : Auction)
    → (Succeeds (cancel_as_seller_or_draft a).1
        ↔ ((a.state ≡ draft) ⊎ ((a.state ≡ published) × (a.leader_company_id ≡ ""))))
      × (Succeeds (cancel_as_admin a).1 ↔ ((a.state ≡ draft) ⊎ (a.state ≡ published)))
unfolding cancel_as_seller_or_draft cancel_as_admin
cancel_iff a = (
  (
    λ h. ground (arith, is_empty_iff a.leader_company_id),
    λ h. ground (arith, is_empty_iff a.leader_company_id),
  ),
  (λ h. ground arith, λ h. ground arith),
)
