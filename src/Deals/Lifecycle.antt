-- ===== src/Deals/Lifecycle.antt =====
-- The life of a deal (internal/deals/deal/deal.go) against the table of status.go.
use unbelievable_fish.Prelude.{
  ◌≡◌, refl, sym, ◌⊎◌, inl, inr, subst, Bool, true, false, List, [], ◌∷◌, String, arith, is_ok,
}
use unbelievable_fish.Prelude.Time.{Time}
use unbelievable_fish.Deals.Types.{
  DealStatus, pending, contract_prepared, completed, cancelled, other, Deal,
}
use unbelievable_fish.Deals.Status.{can_transition_to}
use unbelievable_fish.Deals.Deal.{
  confirm, prepare_contract, sign_contract, request_payment, mark_as_paid, request_shipment,
  mark_as_shipped, complete, is_auction, update_price,
}
use unbelievable_fish.Deals.Cancel.{cancel}
use unbelievable_fish.Deals.Cancelling.{cancel-Outcome}
use unbelievable_fish.Deals.Commands.{
  Command, run_command, run_commands, Effect, Everywhere, run_command-Effect,
}

abbrev Atomic : Effect
Atomic d (d', r) = is_ok r ≡ false → d' ≡ d

atomic : Everywhere Atomic
unfolding confirm prepare_contract sign_contract request_payment mark_as_paid request_shipment
    mark_as_shipped complete cancel update_price
atomic = record {
  of_error = λ e d h. refl;
  of_confirm = λ now d h. ground arith;
  of_prepare = λ n u now d h. ground arith;
  of_sign = λ b r now d h. ground arith;
  of_request = λ i due now d h. ground arith;
  of_pay = λ p k now d h. ground arith;
  of_ship_request = λ now d h. ground arith;
  of_ship = λ t c now d h. ground arith;
  of_complete = λ now d h. ground arith;
  of_cancel = λ r b now d h. ground arith;
  of_reprice = λ p b now d h. ground arith;
}

-- Every operation on a deal is atomic: one that returns an error leaves the deal as it was.
pub deal_unchanged :
    (c : Command) (d : Deal) → is_ok (run_command c d).1 ≡ false → (run_command c d).0 ≡ d
deal_unchanged c d = run_command-Effect Atomic atomic c d

-- Whether a status is one of the constants.
unfoldable pub is_known : DealStatus → Bool
is_known (other _) = false
is_known _ = true

-- What a call may do to the status of a deal whose status is one of the constants.
abbrev pub Move : DealStatus → DealStatus → Type 0
Move s t =
    (is_known t ≡ true)
    × ((s ≡ t) ⊎ (can_transition_to s t ≡ true) ⊎ ((s ≡ pending) × (t ≡ contract_prepared)))

abbrev Moves : Effect
Moves d (d', r) = is_known d.status ≡ true → Move d.status d'.status

moves : Everywhere Moves
unfolding confirm prepare_contract sign_contract request_payment mark_as_paid request_shipment
    mark_as_shipped complete cancel update_price can_transition_to is_known
moves = record {
  of_error = λ e d h. ground arith;
  of_confirm = λ now d h. ground arith;
  of_prepare = λ n u now d h. ground arith;
  of_sign = λ b r now d h. ground arith;
  of_request = λ i due now d h. ground arith;
  of_pay = λ p k now d h. ground arith;
  of_ship_request = λ now d h. ground arith;
  of_ship = λ t c now d h. ground arith;
  of_complete = λ now d h. ground arith;
  of_cancel = λ r b now d h. ground arith;
  of_reprice = λ p b now d h. ground arith;
}

-- A call on a deal whose status is one of the constants leaves the status alone or follows a
-- transition that `CanTransitionTo` allows, but for one: a contract can be prepared for a deal that
-- is still pending.
pub run_command-Move :
    (c : Command) (d : Deal) → is_known d.status ≡ true → Move d.status (run_command c d).0.status
run_command-Move c d = run_command-Effect Moves moves c d

abbrev pub IsFinal : DealStatus → Type 0
IsFinal s = (s ≡ completed) ⊎ (s ≡ cancelled)

abbrev Refuses : Effect
Refuses d (d', r) = IsFinal d.status → is_ok r ≡ false

refuses : Everywhere Refuses
unfolding confirm prepare_contract sign_contract request_payment mark_as_paid request_shipment
    mark_as_shipped complete cancel update_price
refuses = record {
  of_error = λ e d h. ground arith;
  of_confirm = λ now d h. ground arith;
  of_prepare = λ n u now d h. ground arith;
  of_sign = λ b r now d h. ground arith;
  of_request = λ i due now d h. ground arith;
  of_pay = λ p k now d h. ground arith;
  of_ship_request = λ now d h. ground arith;
  of_ship = λ t c now d h. ground arith;
  of_complete = λ now d h. ground arith;
  of_cancel = λ r b now d h. ground arith;
  of_reprice = λ p b now d h. ground arith;
}

-- A deal that is completed or cancelled stays as it is, whatever is called in whatever order.
pub run_commands_final : (cs : List Command) (d : Deal) → IsFinal d.status → run_commands cs d ≡ d
unfolding run_commands
run_commands_final [] d h = refl
run_commands_final (c ∷ cs) d h =
    rw (deal_unchanged c d (run_command-Effect Refuses refuses c d h)) (run_commands_final cs d h)

-- The fields that no operation writes.
abbrev pub SameTerms : Deal → Deal → Type 0
SameTerms d d' =
    (d'.id ≡ d.id)
    × (d'.customer_id ≡ d.customer_id)
    × (d'.supplier_id ≡ d.supplier_id)
    × (d'.auction_id ≡ d.auction_id)
    × (d'.quantity ≡ d.quantity)
    × (d'.type_name ≡ d.type_name)
    × (d'.created_at ≡ d.created_at)
    × (d'.product_snapshot ≡ d.product_snapshot)
    × ((is_auction d.type_name ≡ false) ⊎ (d'.unit_price ≡ d.unit_price))

abbrev Keeps : Effect
Keeps d (d', r) = SameTerms d d'

SameTerms-refl : (d : Deal) → SameTerms d d
SameTerms-refl d = (refl, refl, refl, refl, refl, refl, refl, refl, inr refl)

cancel-SameTerms : (r b : String) (now : Time) (d : Deal) → SameTerms d (cancel r b now d).0
cancel-SameTerms r b now d = elim (cancel-Outcome r b now d) [
  | inl same ↦ subst (SameTerms d) (sym same) (SameTerms-refl d)
  | inr gone ↦ subst (SameTerms d) (sym gone) (SameTerms-refl d)
]

keeps : Everywhere Keeps
unfolding confirm prepare_contract sign_contract request_payment mark_as_paid request_shipment
    mark_as_shipped complete cancel update_price
keeps = record {
  of_error = λ e d. ground arith;
  of_confirm = λ now d. ground arith;
  of_prepare = λ n u now d. ground arith;
  of_sign = λ b r now d. ground arith;
  of_request = λ i due now d. ground arith;
  of_pay = λ p k now d. ground arith;
  of_ship_request = λ now d. ground arith;
  of_ship = λ t c now d. ground arith;
  of_complete = λ now d. ground arith;
  of_cancel = cancel-SameTerms;
  of_reprice = λ p b now d. ground arith;
}

SameTerms-trans : (a b c : Deal) → SameTerms a b → SameTerms b c → SameTerms a c
SameTerms-trans a b c h k = ground arith

-- The parties, the auction, the quantity, the type, the time of creation and the product of a deal
-- never change, and neither does the price of a deal that comes from an auction.
pub run_commands-SameTerms : (cs : List Command) (d : Deal) → SameTerms d (run_commands cs d)
unfolding run_commands
run_commands-SameTerms [] d = SameTerms-refl d
run_commands-SameTerms (c ∷ cs) d =
    SameTerms-trans d (run_command c d).0 (run_commands cs (run_command c d).0)
      (run_command-Effect Keeps keeps c d) (run_commands-SameTerms cs (run_command c d).0)
