-- ===== src/Trading/Bidding.antt =====
-- The rules of bidding: `PlaceBid` of auction.go.
use unbelievable_fish.Prelude.{
  ℕ, ◌+◌, ◌*◌, ◌^◌, ◌-◌, ◌≤◌, ◌<◌, max, ◌≡◌, refl, sym, ◌≢◌, inl, inr, ◌∙◌, ◌↔◌, ap, false, List,
  [], ◌∷◌, All, Bool-cases, arith, is_ok, Succeeds, if◌then◌else◌, leb,
}
use unbelievable_fish.Prelude.Int.{ℤ, pos, pos_part, neg_part, ◌+ℤ◌, ◌≤ℤ◌, ◌<ℤ◌, leb_ℤ, int_laws}
use unbelievable_fish.Prelude.Int64.{IsInt64, add64, add64_exact}
use unbelievable_fish.Prelude.Time.{sub, minute}
use unbelievable_fish.Prelude.Text.{is_empty, is_empty_iff}
use unbelievable_fish.Trading.Types.{
  published, Bid, Auction, default_extension_window, default_extension_duration,
}
use unbelievable_fish.Trading.Auction.{min_allowed, new_end_at, place_bid}

pub place_bid_accepts_iff :
    (b : Bid) (a : Auction)
    → Succeeds (place_bid b a).1 ↔ (
        (a.state ≡ published)
        × (a.starts_at ≤ b.placed_at)
        × (b.placed_at ≤ a.ends_at)
        × (min_allowed a ≤ℤ b.amount))
unfolding place_bid
place_bid_accepts_iff b a = (λ h. ground arith, λ h. ground arith)

-- A rejected bid leaves the auction as it was; an accepted one sets the price and the leader, and
-- leaves the state, the start, the start price, the step and the two durations alone.
pub place_bid_effect :
    (b : Bid) (a : Auction)
    → let (a', r) = place_bid b a in
      (is_ok r ≡ false → a' ≡ a)
      × (Succeeds r
          → a' ≡ record a {
            current_price = b.amount;
            leader_company_id = b.bidder_company_id;
            ends_at = a'.ends_at;
          })
unfolding place_bid
place_bid_effect b a = (λ h. ground arith, λ h. ground arith)

-- `a.endsAt.Sub(placedAt) <= window`, without the saturation.
sub_le_window : (t u w : ℕ) → u ≤ t → w < 2 ^ 63 - 1 → leb_ℤ (sub t u) (pos w) ≡ leb t (u + w)
unfolding sub
sub_le_window t u w h k = ground arith

-- With the default window and duration, an accepted bid moves the end of the auction to five minutes
-- after the bid if that is later than the end was, and otherwise leaves it: the end never moves back.
pub place_bid_extends :
    (b : Bid) (a : Auction)
    → a.extension_window ≡ default_extension_window
    → a.extension_duration ≡ default_extension_duration
    → Succeeds (place_bid b a).1
    → (place_bid b a).0.ends_at ≡ max a.ends_at (b.placed_at + 5 * minute)
unfolding place_bid new_end_at
place_bid_extends b a w d h =
    let accepted = (place_bid_accepts_iff b a).0 h in
    ground (arith, sub_le_window a.ends_at b.placed_at (5 * minute) accepted.2 (omega arith))

-- Over a standing bid, an accepted bid exceeds the current price by the minimum step at least, as
-- long as their sum is an int64.
pub place_bid_raises :
    (b : Bid) (a : Auction)
    → a.leader_company_id ≢ ""
    → IsInt64 (a.current_price +ℤ a.min_bid_step)
    → Succeeds (place_bid b a).1
    → a.current_price +ℤ a.min_bid_step ≤ℤ (place_bid b a).0.current_price
unfolding place_bid min_allowed
place_bid_raises b a led fits h =
    let accepted = (place_bid_accepts_iff b a).0 h in
    ground
      (arith, is_empty_iff a.leader_company_id, add64_exact a.current_price a.min_bid_step fits)

-- The first bid may equal the start price: only the later ones have to raise it.
pub first_bid_may_equal :
    (b : Bid) (a : Auction)
    → a.state ≡ published
    → a.starts_at ≤ b.placed_at
    → b.placed_at ≤ a.ends_at
    → a.leader_company_id ≡ ""
    → b.amount ≡ a.current_price
    → Succeeds (place_bid b a).1 × ((place_bid b a).0.current_price ≡ a.current_price)
unfolding place_bid min_allowed is_empty
first_bid_may_equal b a p s e l m = ground (arith, is_empty_iff a.leader_company_id)

wraps_negative : (step : ℤ) → pos 1 ≤ℤ step → IsInt64 step → add64 (pos (2 ^ 63 - 1)) step ≤ℤ pos 0
unfolding add64
wraps_negative step h k = ground arith

-- Once the highest int64 has been bid, the least allowed amount wraps around below zero: every bid
-- in time with a positive amount, however low, is accepted and becomes the price.
pub place_bid_wraps :
    (b : Bid) (a : Auction)
    → a.state ≡ published
    → a.starts_at ≤ b.placed_at
    → b.placed_at ≤ a.ends_at
    → a.leader_company_id ≢ ""
    → a.current_price ≡ pos (2 ^ 63 - 1)
    → pos 1 ≤ℤ a.min_bid_step
    → IsInt64 a.min_bid_step
    → pos 1 ≤ℤ b.amount
    → Succeeds (place_bid b a).1 × ((place_bid b a).0.current_price ≡ b.amount)
unfolding place_bid min_allowed
place_bid_wraps b a p s e l m h k n =
    ground (arith, is_empty_iff a.leader_company_id, wraps_negative a.min_bid_step h k)

-- The bids offered to an auction in order; with its last state, the accepted ones, newest first.
unfoldable pub bid_run : List Bid → List Bid → Auction → Auction × List Bid
bid_run [] accepted a = (a, accepted)
bid_run (b ∷ bids) accepted a =
    let (a', r) = place_bid b a in bid_run bids (if is_ok r then b ∷ accepted else accepted) a'

-- A bid that `NewBid` makes, small enough for the next step to be an int64.
pub record IsFair (step : ℤ) (b : Bid) : Type 0 where
  pub named : is_empty b.bidder_company_id ≡ false
  pub positive : pos 1 ≤ℤ b.amount
  pub fits : IsInt64 (b.amount +ℤ step)

-- The last accepted bid leads with its amount as the price, and every earlier one is lower.
abbrev pub Leads : List Bid → Auction → Type 0
Leads [] a = a.leader_company_id ≡ ""
Leads (b ∷ earlier) a =
    (a.current_price ≡ b.amount)
    × (a.leader_company_id ≡ b.bidder_company_id)
    × IsFair a.min_bid_step b
    × All (λ x. x.amount <ℤ b.amount) earlier

All-lower :
    (l u : ℤ) (bids : List Bid)
    → l ≤ℤ u
    → All (λ x. x.amount <ℤ l) bids
    → All (λ x. x.amount <ℤ u) bids
All-lower l u [] h k = tt
All-lower l u (b ∷ bids) h k = (omega arith, All-lower l u bids h k.1)

place_bid_sets :
    (b : Bid) (a : Auction)
    → Succeeds (place_bid b a).1
    → ((place_bid b a).0.current_price ≡ b.amount)
      × ((place_bid b a).0.leader_company_id ≡ b.bidder_company_id)
      × ((place_bid b a).0.min_bid_step ≡ a.min_bid_step)
unfolding place_bid
place_bid_sets b a h = ground arith

-- The accepted bid is higher than the one that led before.
overbids :
    (x b : Bid) (a : Auction)
    → a.current_price ≡ x.amount
    → a.leader_company_id ≡ x.bidder_company_id
    → IsFair a.min_bid_step x
    → pos 1 ≤ℤ a.min_bid_step
    → Succeeds (place_bid b a).1
    → x.amount <ℤ b.amount
overbids x b a m l f p h =
    let raised =
      place_bid_raises b a (λ e. cc (f.named, (is_empty_iff x.bidder_company_id).1 (sym l ∙ e)))
        (rw m f.fits) h in
    let new_price = (place_bid_sets b a h).0 in
    omega
      (int_laws, ap pos_part m, ap neg_part m, ap pos_part new_price, ap neg_part new_price, raised)

Leads-step :
    (b : Bid) (accepted : List Bid) (a : Auction)
    → IsFair a.min_bid_step b
    → pos 1 ≤ℤ a.min_bid_step
    → Leads accepted a
    → Succeeds (place_bid b a).1
    → Leads (b ∷ accepted) (place_bid b a).0
Leads-step b [] a f p l h = let set = place_bid_sets b a h in (set.0, set.1, rw set.2 f, tt)
Leads-step b (x ∷ earlier) a f p l h =
    let set = place_bid_sets b a h in
    let higher = overbids x b a l.0 l.1 l.2 p h in
    (set.0, set.1, rw set.2 f, (higher, All-lower x.amount b.amount earlier (omega arith) l.3))

-- What holds through a run of bids.
record IsRun (step : ℤ) (accepted : List Bid) (a : Auction) : Type 0 where
  step_kept : a.min_bid_step ≡ step
  leads : Leads accepted a

offer-IsRun :
    (step : ℤ) (b : Bid) (accepted : List Bid) (a : Auction)
    → pos 1 ≤ℤ step
    → IsFair step b
    → IsRun step accepted a
    → let (a', r) = place_bid b a in IsRun step (if is_ok r then b ∷ accepted else accepted) a'
offer-IsRun step b accepted a p f h = elim (Bool-cases (is_ok (place_bid b a).1)) [
  | inl yes' ↦ rw yes' (record {
    step_kept = (place_bid_sets b a yes').2 ∙ h.step_kept;
    leads = Leads-step b accepted a (rw h.step_kept f) (rw h.step_kept p) h.leads yes';
  })
  | inr no' ↦ rw (no', (place_bid_effect b a).0 no') h
]

bid_run-IsRun :
    (step : ℤ) (bids accepted : List Bid) (a : Auction)
    → pos 1 ≤ℤ step
    → All (IsFair step) bids
    → IsRun step accepted a
    → let (a', accepted') = bid_run bids accepted a in IsRun step accepted' a'
unfolding bid_run
bid_run-IsRun step [] accepted a p f h = h
bid_run-IsRun step (b ∷ bids) accepted a p f h =
    let (a', r) = place_bid b a in
    bid_run-IsRun step bids (if is_ok r then b ∷ accepted else accepted) a' p f.1
      (offer-IsRun step b accepted a p f.0 h)

-- Take an auction that nobody leads, with a step of at least 1, and bids with a company and a
-- positive amount to which the step can be added within int64. After any run of them the last
-- accepted one leads with its amount as the price, and every bid accepted before it was strictly
-- lower; with none accepted nobody leads.
pub bid_run-Leads :
    (bids : List Bid) (a : Auction)
    → a.leader_company_id ≡ ""
    → pos 1 ≤ℤ a.min_bid_step
    → All (IsFair a.min_bid_step) bids
    → let (a', accepted) = bid_run bids [] a in Leads accepted a'
bid_run-Leads bids a l p f =
    (bid_run-IsRun a.min_bid_step bids [] a p f (record { step_kept = refl; leads = l })).leads
