-- ===== src/Trading/Lifecycle.antt =====
-- The states of an auction: transitions.go, and the operations of auction.go as moves between them.
use unbelievable_fish.Prelude.{
  ◌≡◌, refl, ◌⊎◌, inl, inr, true, false, List, [], ◌∷◌, arith, is_ok, Succeeds, Method,
}
use unbelievable_fish.Trading.Types.{
  State, draft, published, closed, won, cancelled, Error, Event, Bid, Auction,
}
use unbelievable_fish.Trading.Transitions.{can_transition}
use unbelievable_fish.Trading.Winner.{RankingSort}
use unbelievable_fish.Trading.Auction.{
  publish, place_bid, close_bids, close, cancel_as_seller_or_draft, cancel_as_admin,
}

-- The calls on an auction. A bid comes from `NewBid`, bids at closing from the repository.
pub data Command : Type 0 where
  publish_it cancel_seller cancel_admin : Command
  bid : Bid → Command
  close_with : List Bid → Command

module _ (s : RankingSort) where
  unfoldable pub run_command : Command → Method Error Auction (List Event)
  run_command publish_it = publish
  run_command (bid b) = place_bid b
  run_command (close_with bids) = close s bids
  run_command cancel_seller = cancel_as_seller_or_draft
  run_command cancel_admin = cancel_as_admin

  publish_unchanged : (a : Auction) → is_ok (publish a).1 ≡ false → (publish a).0 ≡ a
  unfolding publish
  publish_unchanged a h = ground arith

  place_bid_unchanged :
      (b : Bid) (a : Auction) → is_ok (place_bid b a).1 ≡ false → (place_bid b a).0 ≡ a
  unfolding place_bid
  place_bid_unchanged b a h = ground arith

  close_bids-Succeeds :
      (bids : List Bid) (a : Auction) → a.state ≡ published → Succeeds (close_bids s bids a).1
  unfolding close_bids
  close_bids-Succeeds [] a h = ground arith
  close_bids-Succeeds (b ∷ bids) a h = ground arith

  pub close_unchanged :
      (bids : List Bid) (a : Auction) → is_ok (close s bids a).1 ≡ false → (close s bids a).0 ≡ a
  unfolding close
  close_unchanged bids a h = ground (arith, close_bids-Succeeds bids a)

  cancel_seller_unchanged :
      (a : Auction)
      → is_ok (cancel_as_seller_or_draft a).1 ≡ false
      → (cancel_as_seller_or_draft a).0 ≡ a
  unfolding cancel_as_seller_or_draft
  cancel_seller_unchanged a h = ground arith

  cancel_admin_unchanged :
      (a : Auction) → is_ok (cancel_as_admin a).1 ≡ false → (cancel_as_admin a).0 ≡ a
  unfolding cancel_as_admin
  cancel_admin_unchanged a h = ground arith

  -- Every operation is atomic: one that returns an error leaves the auction as it was.
  pub auction_unchanged :
      (c : Command) (a : Auction) → is_ok (run_command c a).1 ≡ false → (run_command c a).0 ≡ a
  unfolding run_command
  auction_unchanged publish_it a h = publish_unchanged a h
  auction_unchanged (bid b) a h = place_bid_unchanged b a h
  auction_unchanged (close_with bids) a h = close_unchanged bids a h
  auction_unchanged cancel_seller a h = cancel_seller_unchanged a h
  auction_unchanged cancel_admin a h = cancel_admin_unchanged a h

-- A state that is reached from another through transitions that the table allows.
pub data Reaches (s : State) : State → Type 0 where
  here : Reaches s s
  next : {t : State} (u : State) → Reaches s t → can_transition t u ≡ true → Reaches s u

Reaches-trans : {s t u : State} → Reaches s t → Reaches t u → Reaches s u
Reaches-trans r here = r
Reaches-trans r (next u q e) = next u (Reaches-trans r q) e

-- The states that no transition leaves.
abbrev pub IsFinal : State → Type 0
IsFinal s = (s ≡ won) ⊎ (s ≡ cancelled)

-- How a closed auction came to its last state.
abbrev pub EndsClosing : State → Type 0
EndsClosing t = (t ≡ cancelled) ⊎ (t ≡ won)

-- What a command may do to the state.
abbrev Move : State → State → Type 0
Move t u =
    (t ≡ u)
    ⊎ ((t ≡ draft) × (u ≡ published))
    ⊎ ((t ≡ draft) × (u ≡ cancelled))
    ⊎ ((t ≡ published) × (u ≡ cancelled))
    ⊎ ((t ≡ published) × (u ≡ won))

Move-Reaches : {t u : State} → Move t u → Reaches t u
unfolding can_transition
Move-Reaches (inl e) = rw e here
Move-Reaches (inr (inl (e, f))) = rw (e, f) (next published here refl)
Move-Reaches (inr (inr (inl (e, f)))) = rw (e, f) (next cancelled here refl)
Move-Reaches (inr (inr (inr (inl (e, f))))) = rw (e, f) (next cancelled here refl)
Move-Reaches (inr (inr (inr (inr (e, f))))) = rw (e, f) (next won (next closed here refl) refl)

module _ (s : RankingSort) where
  close_bids-EndsClosing :
      (bids : List Bid) (a : Auction)
      → a.state ≡ published
      → EndsClosing (close_bids s bids a).0.state
  unfolding close_bids
  close_bids-EndsClosing [] a h = inl (ground arith)
  close_bids-EndsClosing (b ∷ bids) a h = inr (ground arith)

  pub close-ends :
      (bids : List Bid) (a : Auction)
      → Succeeds (close s bids a).1
      → (a.state ≡ published) × EndsClosing (close s bids a).0.state
  unfolding close
  close-ends bids a h = ground (arith, close_bids-EndsClosing bids a)

  run_command-Move : (c : Command) (a : Auction) → Move a.state (run_command s c a).0.state
  unfolding run_command
  run_command-Move publish_it a = unfold publish in ground arith
  run_command-Move (bid b) a = unfold place_bid in ground arith
  run_command-Move (close_with bids) a = ground (arith, close_unchanged s bids a, close-ends bids a)
  run_command-Move cancel_seller a = unfold cancel_as_seller_or_draft in ground arith
  run_command-Move cancel_admin a = unfold cancel_as_admin in ground arith

  -- A sequence of commands; the errors are for the callers.
  unfoldable pub run_commands : List Command → Auction → Auction
  run_commands [] a = a
  run_commands (c ∷ cs) a = run_commands cs (run_command s c a).0

  -- Whatever commands are run, in whatever order and with whatever outcome, the state only moves
  -- along the transitions that the table allows.
  pub run_commands-Reaches :
      (cs : List Command) (a : Auction) → Reaches a.state (run_commands cs a).state
  unfolding run_commands
  run_commands-Reaches [] a = here
  run_commands-Reaches (c ∷ cs) a =
      Reaches-trans (Move-Reaches (run_command-Move c a))
        (run_commands-Reaches cs (run_command s c a).0)

  -- In a state that no transition leaves, every command is refused.
  run_command-final :
      (c : Command) (a : Auction) → IsFinal a.state → is_ok (run_command s c a).1 ≡ false
  unfolding run_command
  run_command-final publish_it a h = unfold publish in ground arith
  run_command-final (bid b) a h = unfold place_bid in ground arith
  run_command-final (close_with bids) a h = unfold close in ground arith
  run_command-final cancel_seller a h = unfold cancel_as_seller_or_draft in ground arith
  run_command-final cancel_admin a h = unfold cancel_as_admin in ground arith

  run_commands-final : (cs : List Command) (a : Auction) → IsFinal a.state → run_commands cs a ≡ a
  unfolding run_commands
  run_commands-final [] a h = refl
  run_commands-final (c ∷ cs) a h =
      rw (auction_unchanged s c a (run_command-final c a h)) (run_commands-final cs a h)

  -- An auction is closed once: after a closing that succeeds, no command changes the auction any
  -- more, and closing it again is an error.
  pub close_once :
      (bids again : List Bid) (cs : List Command) (a : Auction)
      → Succeeds (close s bids a).1
      → let a' = (close s bids a).0 in
        (run_commands cs a' ≡ a') × (is_ok (close s again (run_commands cs a')).1 ≡ false)
  unfolding run_command
  close_once bids again cs a h =
      let a' = (close s bids a).0 in
      let final : IsFinal a'.state = swap (close-ends bids a h).1 in
      let still = run_commands-final cs a' final in
      (still, rw still (run_command-final (close_with again) a' final))
    where
      swap : {t : State} → EndsClosing t → IsFinal t
      swap (inl e) = inr e
      swap (inr e) = inl e
