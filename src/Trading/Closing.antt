-- ===== src/Trading/Closing.antt =====
-- What `Close` of auction.go decides, against the bids and against the bidding before it.
use unbelievable_fish.Prelude.{
  ◌<◌, ◌≡◌, sym, ◌∙◌, ap, false, List, [], ◌∷◌, String, Memᴰ, Permᴰ, All, AllPairs, All-perm,
  All-mem, mem-perm, length, length-perm, take, arith, Result, ok, is_ok, if◌then◌else◌,
}
use unbelievable_fish.Prelude.Int.{pos, ◌≤ℤ◌, ◌<ℤ◌}
use unbelievable_fish.Prelude.Text.{is_empty}
use unbelievable_fish.Trading.Types.{
  published, won, Error, Event, auction_closed, auction_won, Bid, Auction,
}
use unbelievable_fish.Trading.Winner.{
  ranks_before, RankingSort, determine_winner, collect_winner_company_ids, is_seen, collect_from,
}
use unbelievable_fish.Trading.Auction.{place_bid, close}
use unbelievable_fish.Trading.Ranking.{IsTop, determine_winner_best, determine_winner_ranked}
use unbelievable_fish.Trading.Bidding.{IsFair, Leads, bid_run, bid_run-Leads}

-- The winner of any arrangement of bids is the best of them.
best_of_perm :
    (arranged bids : List Bid)
    → Permᴰ arranged bids
    → 0 < length bids
    → Memᴰ (determine_winner arranged).0 bids × IsTop (determine_winner arranged).0 bids
best_of_perm [] bids p h = absurd (omega (arith, length-perm p))
best_of_perm (x ∷ rest) bids p h =
    let (m, top, _) = determine_winner_best x rest in
    (mem-perm p m, All-perm (λ y. ranks_before y (determine_winner (x ∷ rest)).0 ≡ false) p top)

collect_head :
    (b : Bid) (bids : List Bid)
    → is_empty b.bidder_company_id ≡ false
    → collect_from [] (b ∷ bids)
      ≡ b.bidder_company_id ∷ collect_from (b.bidder_company_id ∷ []) bids
unfolding collect_from is_seen
collect_head b bids h = ground arith

-- The first of the candidates of a ranked list is its winner.
first_candidate :
    (arranged : List Bid)
    → AllPairs (λ x y. ranks_before y x ≡ false) arranged
    → 0 < length arranged
    → is_empty (determine_winner arranged).0.bidder_company_id ≡ false
    → (rest : List String) × (collect_winner_company_ids arranged
        ≡ (determine_winner arranged).0.bidder_company_id ∷ rest)
unfolding collect_winner_company_ids
first_candidate [] r h n = elim h [ ]
first_candidate (b ∷ bids) r h n =
    let e = determine_winner_ranked b bids r in
    (
      collect_from (b.bidder_company_id ∷ []) (take 2 bids),
      rw e (collect_head b (take 2 bids) (rw (← e) n)),
    )

-- The last accepted bid is the only one that no other accepted bid outranks.
last_wins :
    (w b : Bid) (earlier : List Bid)
    → Memᴰ w (b ∷ earlier)
    → IsTop w (b ∷ earlier)
    → All (λ x. x.amount <ℤ b.amount) earlier
    → w ≡ b
unfolding ranks_before
last_wins w b earlier (Memᴰ.head e) top low = e
last_wins w b earlier (Memᴰ.tail m) top low =
    let lower = All-mem (λ x. x.amount <ℤ b.amount) low m in absurd (ground (arith, lower, top.0))

place_bid-published :
    (b : Bid) (a : Auction) → a.state ≡ published → (place_bid b a).0.state ≡ published
unfolding place_bid
place_bid-published b a h = ground arith

bid_run-published :
    (bids accepted : List Bid) (a : Auction)
    → a.state ≡ published
    → (bid_run bids accepted a).0.state ≡ published
unfolding bid_run
bid_run-published [] accepted a h = h
bid_run-published (b ∷ bids) accepted a h =
    let (a', r) = place_bid b a in
    bid_run-published bids (if is_ok r then b ∷ accepted else accepted) a'
      (place_bid-published b a h)

-- The events of a closing, by the candidates.
abbrev announce : Auction → Bid → List String → Result Error (List Event)
announce a w ids = ok (auction_closed a.id ∷ auction_won a.id a.lot_id ids w.amount ∷ [])

module _ (s : RankingSort) where
  -- The bid that wins.
  unfoldable pub winner_of : List Bid → Bid
  unfolding determine_winner
  winner_of bids = (determine_winner (s.sort bids)).0

  pub winner_of-best :
      (b : Bid) (bids : List Bid)
      → Memᴰ (winner_of (b ∷ bids)) (b ∷ bids) × IsTop (winner_of (b ∷ bids)) (b ∷ bids)
  unfolding winner_of
  winner_of-best b bids =
      best_of_perm (s.sort (b ∷ bids)) (b ∷ bids) (s.sort-perm (b ∷ bids)) (omega arith)

  pub close-won :
      (b : Bid) (bids : List Bid) (a : Auction)
      → a.state ≡ published
      → let w = winner_of (b ∷ bids) in
        close s (b ∷ bids) a ≡ (
          record a {
            state = won;
            current_price = w.amount;
            leader_company_id = w.bidder_company_id;
          },
          ok (
              auction_closed a.id
              ∷ auction_won a.id a.lot_id (collect_winner_company_ids (s.sort (b ∷ bids))) w.amount
              ∷ []),
        )
  unfolding close winner_of
  close-won b bids a h = ground arith

  -- Closing a published auction that has bids makes it won by a company that made one of the highest
  -- bids, and the earliest of those; the price is that bid's amount.
  pub close_picks_best :
      (b : Bid) (bids : List Bid) (a : Auction)
      → a.state ≡ published
      → let a' = (close s (b ∷ bids) a).0 in
        (w : Bid) × Memᴰ w (b ∷ bids)
        × IsTop w (b ∷ bids)
        × (a'.state ≡ won)
        × (a'.leader_company_id ≡ w.bidder_company_id)
        × (a'.current_price ≡ w.amount)
  close_picks_best b bids a h =
      let (m, top) = winner_of-best b bids in
      let e = close-won b bids a h in
      (
        winner_of (b ∷ bids),
        m,
        top,
        ap (λ r. r.0.state) e,
        ap (λ r. r.0.leader_company_id) e,
        ap (λ r. r.0.current_price) e,
      )

  -- Closing a published auction that has bids, all from companies whose id is not empty, announces
  -- the closing and then a list of candidates that begins with the winner, with the lot and the
  -- price that the winner pays.
  pub close_announces :
      (b : Bid) (bids : List Bid) (a : Auction)
      → a.state ≡ published
      → All (λ x. is_empty x.bidder_company_id ≡ false) (b ∷ bids)
      → let (a', r) = close s (b ∷ bids) a in
        (others : List String) × (r
          ≡ ok (
              auction_closed a.id
              ∷ auction_won a.id a.lot_id (a'.leader_company_id ∷ others) a'.current_price
              ∷ []))
  unfolding winner_of
  close_announces b bids a h named =
      let sorted = s.sort (b ∷ bids) in
      let (m, _) = winner_of-best b bids in
      let (others, e) =
        first_candidate sorted (s.sort-ranked (b ∷ bids))
          (omega (arith, length-perm (s.sort-perm (b ∷ bids))))
          (All-mem (λ x. is_empty x.bidder_company_id ≡ false) named m) in
      (others, rw (close-won b bids a h) (ap (announce a (winner_of (b ∷ bids))) e))

  -- When the bids stored are those accepted since the opening, in any order, the company that leads
  -- wins, at the current price.
  leader_wins :
      (stored accepted : List Bid) (a : Auction)
      → Leads accepted a
      → Permᴰ stored accepted
      → 0 < length stored
      → a.state ≡ published
      → let a' = (close s stored a).0 in
        (a'.state ≡ won)
        × (a'.leader_company_id ≡ a.leader_company_id)
        × (a'.current_price ≡ a.current_price)
  leader_wins [] accepted a l p n h = elim n [ ]
  leader_wins (x ∷ stored) [] a l p n h = absurd (omega (arith, length-perm p))
  leader_wins (x ∷ stored) (b ∷ earlier) a l p n h =
      let (m, top) = winner_of-best x stored in
      let w = winner_of (x ∷ stored) in
      let same : w ≡ b =
        last_wins w b earlier (mem-perm p m) (All-perm (λ y. ranks_before y w ≡ false) p top) l.3 in
      let e = close-won x stored a h in
      (
        ap (λ r. r.0.state) e,
        ap (λ r. r.0.leader_company_id) e ∙ ap (λ y. y.bidder_company_id) same ∙ sym l.1,
        ap (λ r. r.0.current_price) e ∙ ap (λ y. y.amount) same ∙ sym l.0,
      )

  -- Take a published auction that nobody leads, with a step of at least 1, and bids with a company
  -- and a positive amount to which the step can be added within int64. Closing it with the bids
  -- that it accepted of these (there is one at least), stored in any order, confirms the leader of
  -- the bidding as the winner and the current price as the final one.
  pub close_confirms_leader :
      (bids stored : List Bid) (a : Auction)
      → a.state ≡ published
      → a.leader_company_id ≡ ""
      → pos 1 ≤ℤ a.min_bid_step
      → All (IsFair a.min_bid_step) bids
      → Permᴰ stored (bid_run bids [] a).1
      → 0 < length stored
      → let a' = (bid_run bids [] a).0 in
        let c = (close s stored a').0 in
        (c.state ≡ won)
        × (c.leader_company_id ≡ a'.leader_company_id)
        × (c.current_price ≡ a'.current_price)
  close_confirms_leader bids stored a h l p f q n =
      leader_wins stored (bid_run bids [] a).1 (bid_run bids [] a).0 (bid_run-Leads bids a l p f) q
        n (bid_run-published bids [] a h)
