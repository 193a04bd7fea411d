-- ===== src/Trading/Winner.antt =====
-- How an auction's bids are ranked: winner.go, and the sort and the candidate list of auction.go.
use unbelievable_fish.Prelude.{
  ℕ, ◌≡◌, Bool, true, false, ◌&&◌, ◌||◌, List, [], ◌∷◌, Permᴰ, AllPairs, String, take,
  if◌then◌else◌,
}
use unbelievable_fish.Prelude.Int.{ltb_ℤ, eqb_ℤ}
use unbelievable_fish.Prelude.Time.{before}
use unbelievable_fish.Prelude.Text.{is_empty, str_eq}
use unbelievable_fish.Trading.Types.{Bid, zero_bid}

-- The comparison of `sortBidsForCloseRanking`: `a` comes before `b`.
unfoldable pub ranks_before : Bid → Bid → Bool
ranks_before a b =
    if eqb_ℤ a.amount b.amount then before a.placed_at b.placed_at else ltb_ℤ b.amount a.amount

-- `sort.Slice` on bids by that comparison. It is not stable: the order of bids that neither come
-- before one another is left open.
pub record RankingSort : Type 0 where
  pub sort : List Bid → List Bid
  pub sort-perm : (bids : List Bid) → Permᴰ (sort bids) bids
  pub sort-ranked : (bids : List Bid) → AllPairs (λ a b. ranks_before b a ≡ false) (sort bids)

-- The body of the loop of `determineWinner`.
unfoldable pub better : Bid → Bid → Bid
better winner bid =
    if ltb_ℤ winner.amount bid.amount
    then bid
    else if eqb_ℤ bid.amount winner.amount && before bid.placed_at winner.placed_at
    then bid
    else winner

unfoldable pub scan_winner : Bid → List Bid → Bid
unfolding better
scan_winner winner [] = winner
scan_winner winner (bid ∷ bids) = scan_winner (better winner bid) bids

unfoldable pub determine_winner : List Bid → Bid × Bool
unfolding scan_winner
determine_winner [] = (zero_bid, false)
determine_winner (bid ∷ bids) = (scan_winner bid bids, true)

abbrev pub max_winner_candidates : ℕ
max_winner_candidates = 3

-- `_, ok := seen[id]`
unfoldable pub is_seen : String → List String → Bool
unfolding str_eq
is_seen id [] = false
is_seen id (x ∷ seen) = str_eq id x || is_seen id seen

-- The loop of `collectWinnerCompanyIDs`, with the ids seen so far.
unfoldable pub collect_from : List String → List Bid → List String
unfolding is_seen is_empty
collect_from seen [] = []
collect_from seen (bid ∷ bids) =
    let id = bid.bidder_company_id in
    let skip = collect_from seen bids in
    let keep = id ∷ collect_from (id ∷ seen) bids in
    if is_empty id then skip else if is_seen id seen then skip else keep

unfoldable pub collect_winner_company_ids : List Bid → List String
unfolding collect_from
collect_winner_company_ids bids = collect_from [] (take max_winner_candidates bids)
