-- ===== src/Deals/Tests.antt =====
-- Sample deals, confirmations and selections: runs of the operations, and the theorems at concrete
-- inputs.
use unbelievable_fish.Prelude.{
  ◌/◌, ◌+◌, ◌*◌, ◌≡◌, refl, ◌↔◌, true, false, List, [], ◌∷◌, String, arith, ok, is_ok, Succeeds,
  none, some,
}
use unbelievable_fish.Prelude.Int.{pos}
use unbelievable_fish.Prelude.Time.{Time, hour, Timestamptz}
use unbelievable_fish.Prelude.Text.{str_eq, is_empty}
use unbelievable_fish.Deals.Types.{
  pending, confirmed, contract_prepared, contract_signed, completed, Event, Deal, DealConfirmation,
  DealConfirmationStage, DealConfirmationStatus, VerificationMethod, ProductSnapshot,
  DealProjection, WinnerSelection, WinnerSelectionStatus,
}
use unbelievable_fish.Deals.Status.{can_transition_to}
use unbelievable_fish.Deals.Deal.{
  is_participant, has_signed_contract, has_contract, confirm, prepare_contract, sign_contract,
  request_payment, mark_as_paid, request_shipment, mark_as_shipped, complete,
}
use unbelievable_fish.Deals.Cancel.{cancel}
use unbelievable_fish.Deals.Confirmation.{new_deal_confirmation, is_past, approve, reject}
use unbelievable_fish.Deals.Approval.{
  can_request_confirmation_stage, counterparty_company_id, ConfirmationRequest,
  request_confirmation, apply_approved_confirmation, requested_event,
}
use unbelievable_fish.Deals.Selection.{
  new_winner_selection, current_candidate, mark_current_confirmed, reopen_after_payment_timeout,
  candidate_at,
}
use unbelievable_fish.Deals.Factory.{new_deal_projection, new_deal}
use unbelievable_fish.Deals.Commands.{Command, complete_it, prepare, run_command, run_commands}
use unbelievable_fish.Deals.Lifecycle.{deal_unchanged, is_known, Move, run_command-Move}
use unbelievable_fish.Deals.Payment.{
  is_paid_up, payment_announced, paid-announced, approval_never_pays,
}
use unbelievable_fish.Deals.Completing.{way_from, open_deal_completes}
use unbelievable_fish.Deals.Validity.{IsValid}
use unbelievable_fish.Deals.Storage.{save_deal, get_deal}
use unbelievable_fish.Deals.Kept.{kept_deal}
use unbelievable_fish.Deals.Storing.{run_commands-stored}
use unbelievable_fish.Deals.Answering.{MayAnswer, answer_iff}
use unbelievable_fish.Deals.Approving.{two_party_lem}
use unbelievable_fish.Deals.Fallback.{advance_times, candidates_in_turn, reopen_lem}

abbrev cod : ProductSnapshot
cod = record {
  product_id = "p1";
  name = "cod";
  description = "";
  category = "fish";
  weight = 0;
  unit = "kg";
  size = "";
  processing_type = "frozen";
  volume = 0;
  origin_country = "NO";
}

abbrev morning : Time
morning = 8 * hour

-- As the factory makes it, with the buyer "north" and the seller "south".
abbrev fresh : Deal
fresh = new_deal "d1" "a1" "south" "north" cod (pos 150) morning

abbrev whole_way : List Command
whole_way = way_from "c-7" "anna" "sig" morning pending

whole_way_run :
    ((run_commands whole_way fresh).status ≡ completed)
    × ((run_commands whole_way fresh).payment_deadline ≡ some (morning + 24 * hour))
unfolding run_commands run_command confirm prepare_contract sign_contract request_payment
    mark_as_paid request_shipment mark_as_shipped complete
whole_way_run = (refl, refl)

-- The buyer gives the deal up after the contract was signed, and loses the deposit.
buyer_cancels_run :
    (cancel "too late" "north" morning (record fresh { status = contract_signed })).1
    ≡ ok (
        Event.deal_cancelled "d1" "too late" "north" morning
        ∷ Event.winner_rejected "a1" "d1" "a1" "north" morning "BUYER_INITIATED_CANCEL"
        ∷ [])
unfolding cancel str_eq
buyer_cancels_run = refl

-- A contract can be prepared for a pending deal, which `CanTransitionTo` does not allow.
pending_to_prepared_run :
    ((run_command (prepare "c-7" "" morning) fresh).0.status ≡ contract_prepared)
    × (can_transition_to pending contract_prepared ≡ false)
unfolding run_command prepare_contract can_transition_to
pending_to_prepared_run = (refl, refl)

paid-announced_example : payment_announced whole_way fresh ≡ true
unfolding is_paid_up run_commands run_command confirm prepare_contract sign_contract request_payment
    mark_as_paid request_shipment mark_as_shipped complete
paid-announced_example = paid-announced whole_way fresh refl refl

abbrev approval : DealConfirmation
approval = record {
  id = "dcf_1";
  deal_id = "d1";
  stage = DealConfirmationStage.paid;
  requested_by_user_id = "u1";
  requested_by_company_id = "north";
  counterparty_company_id = "south";
  status = DealConfirmationStatus.approved;
  verification_method = VerificationMethod.manual;
  verification_token_hash = "";
  signature_ref = "";
  requested_at = morning;
  approved_at = some morning;
  rejected_at = none;
  expires_at = none;
  comment = "";
  reason = "";
}

approval_never_pays_example :
    is_paid_up (apply_approved_confirmation (some approval) morning fresh).0.status ≡ false
unfolding is_paid_up
approval_never_pays_example = approval_never_pays approval morning fresh refl

-- The contract is prepared, and a second call to prepare it fails.
abbrev prepared_twice : List Command
prepared_twice = prepare "c-7" "" morning ∷ prepare "c-8" "" morning ∷ []

open_deal_completes_example :
    let d' = run_commands prepared_twice fresh in
    (run_commands (way_from "c-9" "anna" "sig" morning d'.status) d').status ≡ completed
unfolding is_empty run_commands run_command prepare_contract has_contract
open_deal_completes_example =
    open_deal_completes prepared_twice "c-9" "anna" "sig" morning fresh refl refl refl refl

run_command-Move_example : Move pending (run_command (prepare "c-7" "" morning) fresh).0.status
unfolding is_known
run_command-Move_example = run_command-Move (prepare "c-7" "" morning) fresh refl

deal_unchanged_example : (run_command (complete_it morning) fresh).0 ≡ fresh
unfolding run_command complete
deal_unchanged_example = deal_unchanged (complete_it morning) fresh refl

fresh-IsValid : IsValid fresh
unfolding is_empty
fresh-IsValid = record {
  has_id = refl;
  has_customer = refl;
  has_supplier = refl;
  has_auction = λ h. refl;
  quantity_pos = omega arith;
  price_pos = omega arith;
  has_name = refl;
  has_time = omega arith;
}

-- Microseconds, the rest cut off.
abbrev micros : Timestamptz
micros = record {
  rounded = λ t. t / 1000 * 1000;
  rounded-mono = λ t u h. omega arith;
  rounded-idem = λ t. omega arith;
}

run_commands-stored_example :
    let d' = run_commands whole_way fresh in
    let read = kept_deal micros d' in
    IsValid read
    × (get_deal "d1" (save_deal micros d' []) ≡ ok read)
    × (has_contract read ≡ has_contract d')
    × (has_signed_contract read ≡ has_signed_contract d')
    × (get_deal "d1" (save_deal micros read (save_deal micros d' [])) ≡ ok read)
run_commands-stored_example =
    run_commands-stored micros whole_way [] (save_deal micros (run_commands whole_way fresh) [])
      fresh fresh-IsValid (omega arith)

abbrev asked : DealConfirmation
asked = record approval {
  status = DealConfirmationStatus.pending;
  expires_at = some (morning + hour);
}

answer_iff_example :
    (Succeeds (approve "south" "u2" morning asked).1 ↔ MayAnswer "south" "u2" morning asked)
    × (Succeeds (reject "south" "u2" "no" morning asked).1 ↔ MayAnswer "south" "u2" morning asked)
answer_iff_example = answer_iff "south" "u2" "no" morning asked

abbrev question : ConfirmationRequest
question = record {
  stage = DealConfirmationStage.confirmed;
  company_id = "north";
  user_id = "u1";
  method = VerificationMethod.email;
  token_hash = "";
  signature_ref = "";
  comment = "";
  expires_at = some (morning + hour);
}

two_party_lem_example :
    (c : DealConfirmation) × (request_confirmation question "dcf_2" morning fresh
      ≡ (fresh, ok (c, requested_event c ∷ [])))
    × (is_ok (approve "north" "u9" morning c).1 ≡ false)
    × Succeeds (approve c.counterparty_company_id "u2" morning c).1
    × (let c' = (approve c.counterparty_company_id "u2" morning c).0 in
        let (d', r) = apply_approved_confirmation (some c') morning fresh in
        Succeeds r × (d'.status ≡ confirmed))
unfolding request_confirmation is_participant counterparty_company_id can_request_confirmation_stage
    new_deal_confirmation is_empty is_past str_eq
two_party_lem_example =
    two_party_lem question "dcf_2" "u2" "u9" morning morning morning fresh refl (λ e. cc e) refl
      refl

abbrev three : List String
three = "north" ∷ "east" ∷ "west" ∷ []

abbrev chosen : WinnerSelection
chosen = record {
  auction_id = "a1";
  candidates = three;
  current_index = 1;
  status = WinnerSelectionStatus.active;
  final_price = pos 150;
  won_at = morning;
  supplier_id = "south";
  product_snapshot = cod;
  deal_id = "d2";
}

candidates_in_turn_example :
    let s = new_winner_selection "a1" three (pos 150) morning "south" cod in
    (current_candidate (advance_times 1 s) ≡ some "east")
    × ((advance_times 3 s).status ≡ WinnerSelectionStatus.exhausted)
    × (current_candidate (advance_times 3 s) ≡ none)
    × ((advance_times 3 s).deal_id ≡ "")
unfolding candidate_at is_empty
candidates_in_turn_example =
    candidates_in_turn "a1" "south" three (pos 150) morning cod 1 (omega arith)

reopen_lem_example :
    reopen_after_payment_timeout "d2" (mark_current_confirmed "d2" chosen).0
    ≡ (record chosen { deal_id = "" }, ok tt)
unfolding mark_current_confirmed is_empty
reopen_lem_example = reopen_lem "d2" chosen refl

abbrev listed : DealProjection
listed = new_deal_projection "a1" "south" cod (pos 100) morning
