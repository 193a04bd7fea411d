-- ===== src/Deals/Completing.antt =====
-- No deal is stuck before its end (internal/deals/deal/deal.go).
use unbelievable_fish.Prelude.{◌≡◌, refl, true, false, Bool, List, [], ◌∷◌, String, arith, none}
use unbelievable_fish.Prelude.Time.{Time}
use unbelievable_fish.Prelude.Text.{is_empty}
use unbelievable_fish.Deals.Types.{
  pending, confirmed, contract_prepared, contract_signed, payment_requested, paid,
  shipment_requested, shipped, completed, cancelled, Deal, DealStatus,
}
use unbelievable_fish.Deals.Deal.{
  has_signed_contract, has_contract, confirm, prepare_contract, sign_contract, request_payment,
  mark_as_paid, request_shipment, mark_as_shipped, complete,
}
use unbelievable_fish.Deals.Commands.{
  Command, confirm_it, complete_it, ship_request, prepare, pay, sign_it, ship, request_pay,
  run_command, run_commands,
}
use unbelievable_fish.Deals.Contract.{IsSound, run_command-IsSound, run_commands-IsSound}

-- A status that has a way to the end: neither cancelled nor a string that is no constant.
abbrev pub is_open : DealStatus → Bool
is_open cancelled = false
is_open (DealStatus.other _) = false
is_open _ = true

module _ (number by ref : String) (now : Time) where
  -- The calls that are left from each status on, the last status first.
  abbrev from_shipped : List Command
  from_shipped = complete_it now ∷ []

  abbrev from_shipment_requested : List Command
  from_shipment_requested = ship "" "" now ∷ from_shipped

  abbrev from_paid : List Command
  from_paid = ship_request now ∷ from_shipment_requested

  abbrev from_payment_requested : List Command
  from_payment_requested = pay "" "" now ∷ from_paid

  abbrev from_contract_signed : List Command
  from_contract_signed = request_pay "" none now ∷ from_payment_requested

  abbrev from_contract_prepared : List Command
  from_contract_prepared = sign_it by ref now ∷ from_contract_signed

  abbrev from_confirmed : List Command
  from_confirmed = prepare number "" now ∷ from_contract_prepared

  abbrev from_pending : List Command
  from_pending = confirm_it now ∷ from_confirmed

  abbrev pub way_from : DealStatus → List Command
  way_from pending = from_pending
  way_from confirmed = from_confirmed
  way_from contract_prepared = from_contract_prepared
  way_from contract_signed = from_contract_signed
  way_from payment_requested = from_payment_requested
  way_from paid = from_paid
  way_from shipment_requested = from_shipment_requested
  way_from shipped = from_shipped
  way_from _ = []

  -- What the calls that are left make of a deal.
  abbrev Completes : List Command → Deal → Type 0
  Completes cs d = (run_commands cs d).status ≡ completed

  shipped_step :
      (d : Deal)
      → IsSound d
      → d.status ≡ shipped
      → (run_command (complete_it now) d).0.status ≡ completed
  unfolding run_command complete
  shipped_step d h s = ground arith

  shipment_requested_step :
      (d : Deal)
      → IsSound d
      → d.status ≡ shipment_requested
      → (run_command (ship "" "" now) d).0.status ≡ shipped
  unfolding run_command mark_as_shipped
  shipment_requested_step d h s = ground arith

  paid_step :
      (d : Deal)
      → IsSound d
      → d.status ≡ paid
      → (run_command (ship_request now) d).0.status ≡ shipment_requested
  unfolding run_command request_shipment
  paid_step d h s = ground arith

  payment_requested_step :
      (d : Deal)
      → IsSound d
      → d.status ≡ payment_requested
      → (run_command (pay "" "" now) d).0.status ≡ paid
  unfolding run_command mark_as_paid
  payment_requested_step d h s = ground arith

  contract_signed_step :
      (d : Deal)
      → IsSound d
      → d.status ≡ contract_signed
      → (run_command (request_pay "" none now) d).0.status ≡ payment_requested
  unfolding run_command request_payment
  contract_signed_step d h s = ground arith

  contract_prepared_step :
      (d : Deal)
      → IsSound d
      → d.status ≡ contract_prepared
      → (run_command (sign_it by ref now) d).0.status ≡ contract_signed
  unfolding run_command sign_contract
  contract_prepared_step d h s = ground arith

  confirmed_step :
      is_empty number ≡ false
      → (d : Deal) → IsSound d
      → d.status ≡ confirmed
      → (run_command (prepare number "" now) d).0.status ≡ contract_prepared
  unfolding run_command prepare_contract
  confirmed_step filled d h s = ground arith

  pending_step :
      (d : Deal)
      → IsSound d
      → d.status ≡ pending
      → (run_command (confirm_it now) d).0.status ≡ confirmed
  unfolding run_command confirm
  pending_step d h s = ground arith

  complete_shipped : (d : Deal) → IsSound d → d.status ≡ shipped → Completes from_shipped d
  unfolding run_commands
  complete_shipped d h s = shipped_step d h s

  complete_shipment_requested :
      (d : Deal) → IsSound d → d.status ≡ shipment_requested → Completes from_shipment_requested d
  unfolding run_commands
  complete_shipment_requested d h s =
      complete_shipped (run_command (ship "" "" now) d).0 (run_command-IsSound (ship "" "" now) d h)
        (shipment_requested_step d h s)

  complete_paid : (d : Deal) → IsSound d → d.status ≡ paid → Completes from_paid d
  unfolding run_commands
  complete_paid d h s =
      complete_shipment_requested (run_command (ship_request now) d).0
        (run_command-IsSound (ship_request now) d h) (paid_step d h s)

  complete_payment_requested :
      (d : Deal) → IsSound d → d.status ≡ payment_requested → Completes from_payment_requested d
  unfolding run_commands
  complete_payment_requested d h s =
      complete_paid (run_command (pay "" "" now) d).0 (run_command-IsSound (pay "" "" now) d h)
        (payment_requested_step d h s)

  complete_contract_signed :
      (d : Deal) → IsSound d → d.status ≡ contract_signed → Completes from_contract_signed d
  unfolding run_commands
  complete_contract_signed d h s =
      complete_payment_requested (run_command (request_pay "" none now) d).0
        (run_command-IsSound (request_pay "" none now) d h) (contract_signed_step d h s)

  complete_contract_prepared :
      (d : Deal) → IsSound d → d.status ≡ contract_prepared → Completes from_contract_prepared d
  unfolding run_commands
  complete_contract_prepared d h s =
      complete_contract_signed (run_command (sign_it by ref now) d).0
        (run_command-IsSound (sign_it by ref now) d h) (contract_prepared_step d h s)

  complete_confirmed :
      is_empty number ≡ false
      → (d : Deal) → IsSound d
      → d.status ≡ confirmed
      → Completes from_confirmed d
  unfolding run_commands
  complete_confirmed filled d h s =
      complete_contract_prepared (run_command (prepare number "" now) d).0
        (run_command-IsSound (prepare number "" now) d h) (confirmed_step filled d h s)

  complete_pending :
      is_empty number ≡ false
      → (d : Deal) → IsSound d
      → d.status ≡ pending
      → Completes from_pending d
  unfolding run_commands
  complete_pending filled d h s =
      complete_confirmed filled (run_command (confirm_it now) d).0
        (run_command-IsSound (confirm_it now) d h) (pending_step d h s)

  completes :
      (s : DealStatus) (d : Deal)
      → is_empty number ≡ false
      → IsSound d
      → d.status ≡ s
      → is_open s ≡ true
      → Completes (way_from s) d
  unfolding run_commands
  completes pending d filled h s k = complete_pending filled d h s
  completes confirmed d filled h s k = complete_confirmed filled d h s
  completes contract_prepared d filled h s k = complete_contract_prepared d h s
  completes contract_signed d filled h s k = complete_contract_signed d h s
  completes payment_requested d filled h s k = complete_payment_requested d h s
  completes paid d filled h s k = complete_paid d h s
  completes shipment_requested d filled h s k = complete_shipment_requested d h s
  completes shipped d filled h s k = complete_shipped d h s
  completes completed d filled h s k = s
  completes cancelled d filled h s k = cc
  completes (DealStatus.other _) d filled h s k = cc

new-IsSound : (d : Deal) → d.status ≡ pending → d.contract ≡ none → IsSound d
unfolding has_contract has_signed_contract
new-IsSound d s k = ground arith

-- Take a pending deal without a contract and run any sequence of calls on it, whether they succeed or
-- not. Unless the deal then has a status that is cancelled or no constant, the calls left from its
-- status on (confirm, prepare the contract, sign it, request the payment, pay, request the shipment,
-- ship, complete) complete it, under any contract number that is not empty.
pub open_deal_completes :
    (cs : List Command) (number by ref : String) (now : Time) (d : Deal)
    → d.status ≡ pending
    → d.contract ≡ none
    → is_empty number ≡ false
    → is_open (run_commands cs d).status ≡ true
    → let d' = run_commands cs d in
      (run_commands (way_from number by ref now d'.status) d').status ≡ completed
open_deal_completes cs number by ref now d s k filled still =
    let d' = run_commands cs d in
    completes number by ref now d'.status d' filled (run_commands-IsSound cs d (new-IsSound d s k))
      refl still
