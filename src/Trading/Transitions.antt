-- ===== src/Trading/Transitions.antt =====
-- internal/trading/auction/transitions.go: the table of allowed transitions.
use unbelievable_fish.Prelude.{Bool, true, false, Method, modify, fail_if, ◌>>◌, not}
use unbelievable_fish.Trading.Types.{
  State, draft, published, closed, won, cancelled, Error, invalid_state_transition, Auction,
}

unfoldable pub can_transition : State → State → Bool
can_transition draft published = true
can_transition draft cancelled = true
can_transition published closed = true
can_transition published cancelled = true
can_transition closed won = true
can_transition _ _ = false

unfoldable pub transition_to : State → Method Error Auction (Unit {0})
unfolding can_transition
transition_to next a =
    (fail_if (not (can_transition a.state next)) invalid_state_transition
        >> modify λ (b : Auction). record b { state = next })
      a
