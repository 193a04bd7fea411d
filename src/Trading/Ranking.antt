-- ===== src/Trading/Ranking.antt =====
-- The winner of a list of bids, and the list of candidates (winner.go, and `sortBidsForCloseRanking`
-- and `collectWinnerCompanyIDs` of auction.go).
use unbelievable_fish.Prelude.{
  ◌≤◌, ◌≡◌, refl, inl, inr, Bool, true, false, ◌||◌, List, [], ◌∷◌, String, Memᴰ, All, AllPairs,
  length, length-take_le, take, Bool-cases, arith,
}
use unbelievable_fish.Prelude.Text.{is_empty, is_empty_iff, str_eq, str_eq_iff}
use unbelievable_fish.Trading.Types.{Bid}
use unbelievable_fish.Trading.Winner.{
  ranks_before, better, scan_winner, determine_winner, is_seen, collect_from,
  collect_winner_company_ids,
}

-- No bid of the list ranks before `w`.
abbrev pub IsTop : Bid → List Bid → Type 0
IsTop w bids = All (λ b. ranks_before b w ≡ false) bids

-- `better` keeps the old winner unless the new bid ranks before it.
pub better_keeps : (w b : Bid) → ranks_before b w ≡ false → better w b ≡ w
unfolding better ranks_before
better_keeps w b h = ground arith

better_takes : (w b : Bid) → ranks_before b w ≡ true → better w b ≡ b
unfolding better ranks_before
better_takes w b h = ground arith

-- What does not rank before a bid that ranks before `w` does not rank before `w` either.
not-before_trans :
    (x b w : Bid) → ranks_before x w ≡ false → ranks_before b w ≡ true → ranks_before x b ≡ false
unfolding ranks_before
not-before_trans x b w h k = ground arith

ranks_before_irrefl : (b : Bid) → ranks_before b b ≡ false
unfolding ranks_before
ranks_before_irrefl b = ground arith

better_top : (x w b : Bid) → ranks_before x w ≡ false → ranks_before x (better w b) ≡ false
better_top x w b h = elim (Bool-cases (ranks_before b w)) [
  | inl k ↦ rw (better_takes w b k) (not-before_trans x b w h k)
  | inr k ↦ rw (better_keeps w b k) h
]

better_beats : (w b : Bid) → ranks_before b (better w b) ≡ false
better_beats w b = elim (Bool-cases (ranks_before b w)) [
  | inl k ↦ rw (better_takes w b k) (ranks_before_irrefl b)
  | inr k ↦ rw (better_keeps w b k) k
]

-- What the scan starts from, or passed over before, does not rank before its result.
scan_winner_beats :
    (x w : Bid) (bids : List Bid)
    → ranks_before x w ≡ false
    → ranks_before x (scan_winner w bids) ≡ false
unfolding scan_winner
scan_winner_beats x w [] h = h
scan_winner_beats x w (b ∷ bids) h = scan_winner_beats x (better w b) bids (better_top x w b h)

scan_winner-IsTop : (w : Bid) (bids : List Bid) → IsTop (scan_winner w bids) bids
unfolding scan_winner
scan_winner-IsTop w [] = tt
scan_winner-IsTop w (b ∷ bids) =
    (scan_winner_beats b (better w b) bids (better_beats w b), scan_winner-IsTop (better w b) bids)

scan_winner-mem : (w : Bid) (bids : List Bid) → Memᴰ (scan_winner w bids) (w ∷ bids)
unfolding scan_winner
scan_winner-mem w [] = Memᴰ.head refl
scan_winner-mem w (b ∷ bids) = elim (Bool-cases (ranks_before b w)) [
  | inl k ↦ rw (better_takes w b k) (Memᴰ.tail (scan_winner-mem b bids))
  | inr k ↦ rw (better_keeps w b k) (skip (scan_winner-mem w bids))
]
  where
    skip : {x : Bid} → Memᴰ x (w ∷ bids) → Memᴰ x (w ∷ b ∷ bids)
    skip (Memᴰ.head e) = Memᴰ.head e
    skip (Memᴰ.tail m) = Memᴰ.tail (Memᴰ.tail m)

-- `determineWinner` of a list that is not empty returns one of its bids, and no bid of the list has
-- a higher amount, or the same amount and an earlier time.
pub determine_winner_best :
    (b : Bid) (bids : List Bid)
    → (Memᴰ (determine_winner (b ∷ bids)).0 (b ∷ bids))
      × (IsTop (determine_winner (b ∷ bids)).0 (b ∷ bids))
      × ((determine_winner (b ∷ bids)).1 ≡ true)
unfolding determine_winner
determine_winner_best b bids = (
  scan_winner-mem b bids,
  (scan_winner_beats b b bids (ranks_before_irrefl b), scan_winner-IsTop b bids),
  refl,
)

-- In a ranked list the winner is the first bid.
scan_winner_ranked : (w : Bid) (bids : List Bid) → IsTop w bids → scan_winner w bids ≡ w
unfolding scan_winner
scan_winner_ranked w [] h = refl
scan_winner_ranked w (b ∷ bids) h = rw (better_keeps w b h.0) (scan_winner_ranked w bids h.1)

pub determine_winner_ranked :
    (b : Bid) (bids : List Bid)
    → AllPairs (λ x y. ranks_before y x ≡ false) (b ∷ bids)
    → (determine_winner (b ∷ bids)).0 ≡ b
unfolding determine_winner
determine_winner_ranked b bids h = scan_winner_ranked b bids h.0

-- No company id of the list occurs later in it again.
abbrev pub IsDistinct : List String → Type 0
IsDistinct [] = Unit
IsDistinct (id ∷ ids) = (is_seen id ids ≡ false) × IsDistinct ids

-- Whether a company made one of the bids.
unfoldable pub is_bidder : String → List Bid → Bool
is_bidder id [] = false
is_bidder id (b ∷ bids) = str_eq id b.bidder_company_id || is_bidder id bids

collect_skips :
    (id : String) (seen : List String) (bids : List Bid)
    → is_seen id seen ≡ true
    → is_seen id (collect_from seen bids) ≡ false
unfolding collect_from is_seen
collect_skips id seen [] h = refl
collect_skips id seen (b ∷ bids) h =
    let c = b.bidder_company_id in
    ground (arith, collect_skips id seen bids h, collect_skips id (c ∷ seen) bids, str_eq_iff id c)

is_seen_head : (id : String) (seen : List String) → is_seen id (id ∷ seen) ≡ true
unfolding is_seen
is_seen_head id seen = ground (arith, str_eq_iff id id)

collect-IsDistinct : (seen : List String) (bids : List Bid) → IsDistinct (collect_from seen bids)
unfolding collect_from
collect-IsDistinct seen [] = tt
collect-IsDistinct seen (b ∷ bids) =
    let c = b.bidder_company_id in
    ground (
      arith,
      collect-IsDistinct seen bids,
      collect-IsDistinct (c ∷ seen) bids,
      collect_skips c (c ∷ seen) bids (is_seen_head c seen),
    )

-- Every id collected is a bidder of the list, is not empty and was not seen before; every such
-- bidder is collected.
collect_iff :
    (id : String) (seen : List String) (bids : List Bid)
    → is_empty id ≡ false
    → is_seen id seen ≡ false
    → is_seen id (collect_from seen bids) ≡ is_bidder id bids
unfolding collect_from is_seen is_bidder
collect_iff id seen [] h k = refl
collect_iff id seen (b ∷ bids) h k =
    let c = b.bidder_company_id in
    ground (arith, collect_iff id seen bids h k, collect_iff id (c ∷ seen) bids h, str_eq_iff id c)

collect_nonempty :
    (seen : List String) (bids : List Bid) → is_seen "" (collect_from seen bids) ≡ false
unfolding collect_from is_seen
collect_nonempty seen [] = refl
collect_nonempty seen (b ∷ bids) =
    let c = b.bidder_company_id in
    ground (
      arith,
      collect_nonempty seen bids,
      collect_nonempty (c ∷ seen) bids,
      str_eq_iff "" c,
      is_empty_iff c,
    )

collect-length :
    (seen : List String) (bids : List Bid) → length (collect_from seen bids) ≤ length bids
unfolding collect_from
collect-length seen [] = omega arith
collect-length seen (b ∷ bids) =
    let c = b.bidder_company_id in
    ground (arith, collect-length seen bids, collect-length (c ∷ seen) bids)

-- The candidates of an auction are at most three distinct company ids, never the empty one, and are
-- exactly the companies of the three bids ranked first.
pub candidates_lem :
    (bids : List Bid) (id : String)
    → is_empty id ≡ false
    → (length (collect_winner_company_ids bids) ≤ 3)
      × IsDistinct (collect_winner_company_ids bids)
      × (is_seen "" (collect_winner_company_ids bids) ≡ false)
      × (is_seen id (collect_winner_company_ids bids) ≡ is_bidder id (take 3 bids))
unfolding collect_winner_company_ids is_seen
candidates_lem bids id h = (
  omega (arith, collect-length [] (take 3 bids), length-take_le 3 bids),
  collect-IsDistinct [] (take 3 bids),
  collect_nonempty [] (take 3 bids),
  collect_iff id [] (take 3 bids) h refl,
)
