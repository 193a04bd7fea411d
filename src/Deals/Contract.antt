-- ===== src/Deals/Contract.antt =====
-- The contract of a deal (internal/deals/deal/deal.go): what holds of it in each status.
use unbelievable_fish.Prelude.{
  ◌+◌, ◌*◌, ◌≡◌, sym, ◌⊎◌, inl, inr, subst, true, false, List, [], ◌∷◌, String, arith, Succeeds,
  some,
}
use unbelievable_fish.Prelude.Time.{Time, hour}
use unbelievable_fish.Deals.Types.{
  pending, confirmed, contract_prepared, contract_signed, payment_requested, Deal,
}
use unbelievable_fish.Deals.Deal.{
  is_set, has_signed_contract, has_contract, confirm, prepare_contract, sign_contract,
  request_payment, mark_as_paid, request_shipment, mark_as_shipped, complete, update_price,
  number_of,
}
use unbelievable_fish.Deals.Cancel.{cancel}
use unbelievable_fish.Deals.Commands.{
  Command, run_command, run_commands, Effect, Everywhere, run_command-Effect,
}
use unbelievable_fish.Deals.Cancelling.{cancel-Outcome}

-- Before the contract is prepared there is none; once prepared it is not signed yet; from the
-- signature to the payment it is signed and the payment has a deadline.
abbrev pub IsSound : Deal → Type 0
IsSound d =
    (d.status ≡ pending → (has_contract d ≡ false) × (has_signed_contract d ≡ false))
    × (d.status ≡ confirmed
        → (has_contract d ≡ false)
          × (has_signed_contract d ≡ false)
          × (is_set d.confirmed_at ≡ true))
    × (d.status ≡ contract_prepared → (has_contract d ≡ true) × (has_signed_contract d ≡ false))
    × ((d.status ≡ contract_signed) ⊎ (d.status ≡ payment_requested)
        → (has_contract d ≡ true)
          × (has_signed_contract d ≡ true)
          × (is_set d.payment_deadline ≡ true))

abbrev Sound : Effect
Sound d (d', r) = IsSound d → IsSound d'

cancel-Sound : (r b : String) (now : Time) (d : Deal) → IsSound d → IsSound (cancel r b now d).0
unfolding has_contract has_signed_contract
cancel-Sound r b now d h = elim (cancel-Outcome r b now d) [
  | inl same ↦ subst IsSound (sym same) h
  | inr gone ↦ subst IsSound (sym gone) (ground arith)
]

sound : Everywhere Sound
unfolding confirm prepare_contract sign_contract request_payment mark_as_paid request_shipment
    mark_as_shipped complete update_price has_contract has_signed_contract
sound = record {
  of_error = λ e d h. ground arith;
  of_confirm = λ now d h. ground arith;
  of_prepare = λ n u now d h. ground arith;
  of_sign = λ b r now d h. ground arith;
  of_request = λ i due now d h. ground arith;
  of_pay = λ p k now d h. ground arith;
  of_ship_request = λ now d h. ground arith;
  of_ship = λ t c now d h. ground arith;
  of_complete = λ now d h. ground arith;
  of_cancel = cancel-Sound;
  of_reprice = λ p b now d h. ground arith;
}

pub run_command-IsSound : (c : Command) (d : Deal) → IsSound d → IsSound (run_command c d).0
run_command-IsSound c d h = run_command-Effect Sound sound c d h

-- A deal whose contract is as its status says (none before it is prepared, then unsigned, then
-- signed with a payment deadline) is so after any sequence of calls.
pub run_commands-IsSound : (cs : List Command) (d : Deal) → IsSound d → IsSound (run_commands cs d)
unfolding run_commands
run_commands-IsSound [] d h = h
run_commands-IsSound (c ∷ cs) d h =
    run_commands-IsSound cs (run_command c d).0 (run_command-IsSound c d h)

-- Signing sets the deadline of the payment to a day later, and writes who signed into the contract
-- that was prepared, whose number stays.
pub sign_contract_effect :
    (by ref : String) (now : Time) (d : Deal)
    → Succeeds (sign_contract by ref now d).1
    → let d' = (sign_contract by ref now d).0 in
      (d'.payment_deadline ≡ some (now + 24 * hour))
      × (has_signed_contract d' ≡ true)
      × (number_of d'.contract ≡ number_of d.contract)
      × (d'.status ≡ contract_signed)
unfolding sign_contract
sign_contract_effect by ref now d h = ground arith
