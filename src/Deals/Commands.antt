-- ===== src/Deals/Commands.antt =====
-- The calls on a deal (internal/deals/deal/deal.go), one at a time and in sequence.
use unbelievable_fish.Prelude.{
  Bool, true, false, not, List, [], ◌∷◌, String, Result, err, fail_if, ◌>>◌, Method, Option, none,
  some,
}
use unbelievable_fish.Prelude.Int.{ℤ}
use unbelievable_fish.Prelude.Time.{Time}
use unbelievable_fish.Prelude.Text.{str_eq}
use unbelievable_fish.Deals.Types.{Error, Event, Deal, DealConfirmation, DealConfirmationStage}
use unbelievable_fish.Deals.Deal.{
  confirm, prepare_contract, sign_contract, request_payment, mark_as_paid, request_shipment,
  mark_as_shipped, complete, update_price,
}
use unbelievable_fish.Deals.Cancel.{cancel}
use unbelievable_fish.Deals.Confirmation.{is_approved}
use unbelievable_fish.Deals.Approval.{
  can_request_confirmation_stage, apply_stage, apply_approved_confirmation, cancel_comment,
}

pub data Command : Type 0 where
  confirm_it complete_it ship_request : Time → Command
  prepare sign_it pay ship cancel_it : String → String → Time → Command
  request_pay : String → Option Time → Time → Command
  reprice : ℤ → String → Time → Command
  approved : Option DealConfirmation → Time → Command

unfoldable pub run_command : Command → Method Error Deal (List Event)
run_command (confirm_it now) = confirm now
run_command (prepare number url now) = prepare_contract number url now
run_command (sign_it by ref now) = sign_contract by ref now
run_command (request_pay invoice due now) = request_payment invoice due now
run_command (pay payment kind now) = mark_as_paid payment kind now
run_command (ship_request now) = request_shipment now
run_command (ship tracking carrier now) = mark_as_shipped tracking carrier now
run_command (complete_it now) = complete now
run_command (cancel_it reason by now) = cancel reason by now
run_command (reprice price by now) = update_price price by now
run_command (approved c now) = apply_approved_confirmation c now

-- A sequence of calls; the errors are for the callers.
unfoldable pub run_commands : List Command → Deal → Deal
run_commands [] d = d
run_commands (c ∷ cs) d = run_commands cs (run_command c d).0

-- How one call relates the deal before it, its result and the deal after it.
abbrev pub Effect : Type 1
Effect = Deal → Deal × Result Error (List Event) → Type 0

-- An effect of the operations that an approved confirmation can call.
pub record Approvable (E : Effect) : Type 0 where
  pub of_error : (e : Error) (d : Deal) → E d (d, err e)
  pub of_confirm : (now : Time) (d : Deal) → E d (confirm now d)
  pub of_ship : (t c : String) (now : Time) (d : Deal) → E d (mark_as_shipped t c now d)
  pub of_complete : (now : Time) (d : Deal) → E d (complete now d)
  pub of_cancel : (r b : String) (now : Time) (d : Deal) → E d (cancel r b now d)

-- An effect of every operation.
pub record Everywhere (E : Effect) : Type 0 where
  pub of_error : (e : Error) (d : Deal) → E d (d, err e)
  pub of_confirm : (now : Time) (d : Deal) → E d (confirm now d)
  pub of_prepare : (n u : String) (now : Time) (d : Deal) → E d (prepare_contract n u now d)
  pub of_sign : (b r : String) (now : Time) (d : Deal) → E d (sign_contract b r now d)
  pub of_request :
      (i : String) (due : Option Time) (now : Time) (d : Deal) → E d (request_payment i due now d)
  pub of_pay : (p k : String) (now : Time) (d : Deal) → E d (mark_as_paid p k now d)
  pub of_ship_request : (now : Time) (d : Deal) → E d (request_shipment now d)
  pub of_ship : (t c : String) (now : Time) (d : Deal) → E d (mark_as_shipped t c now d)
  pub of_complete : (now : Time) (d : Deal) → E d (complete now d)
  pub of_cancel : (r b : String) (now : Time) (d : Deal) → E d (cancel r b now d)
  pub of_reprice : (p : ℤ) (b : String) (now : Time) (d : Deal) → E d (update_price p b now d)

module _ (E : Effect) (all : Approvable E) where
  apply_stage-Effect :
      (s : DealConfirmationStage) (c : DealConfirmation) (now : Time) (d : Deal)
      → E d (apply_stage s c now d)
  unfolding apply_stage
  apply_stage-Effect DealConfirmationStage.confirmed c now d = all.of_confirm now d
  apply_stage-Effect DealConfirmationStage.paid c now d = all.of_error _ d
  apply_stage-Effect DealConfirmationStage.shipped c now d = all.of_ship "" "" now d
  apply_stage-Effect DealConfirmationStage.completed c now d = all.of_complete now d
  apply_stage-Effect DealConfirmationStage.cancelled c now d =
      all.of_cancel (cancel_comment c) c.requested_by_company_id now d
  apply_stage-Effect (DealConfirmationStage.other _) c now d = all.of_error _ d

  guarded :
      (b : Bool) (e : Error) (m : Method Error Deal (List Event)) (d : Deal)
      → E d (m d)
      → E d ((fail_if b e >> m) d)
  guarded true e m d h = all.of_error e d
  guarded false e m d h = h

  pub apply-Effect :
      (c : Option DealConfirmation) (now : Time) (d : Deal)
      → E d (apply_approved_confirmation c now d)
  unfolding apply_approved_confirmation
  apply-Effect none now d = all.of_error Error.confirmation_required d
  apply-Effect (some c) now d =
      guarded (not (str_eq c.deal_id d.id)) Error.confirmation_deal_mismatch
        (fail_if (not (is_approved c.status)) Error.confirmation_not_approved
          >> (fail_if (not (can_request_confirmation_stage d c.stage))
                Error.invalid_stage_transition
              >> apply_stage c.stage c now))
        d
        (guarded (not (is_approved c.status)) Error.confirmation_not_approved
          (fail_if (not (can_request_confirmation_stage d c.stage)) Error.invalid_stage_transition
            >> apply_stage c.stage c now)
          d
          (guarded (not (can_request_confirmation_stage d c.stage)) Error.invalid_stage_transition
            (apply_stage c.stage c now) d (apply_stage-Effect c.stage c now d)))

-- An effect of every operation is an effect of every call.
module _ (E : Effect) (all : Everywhere E) where
  pub run_command-Effect : (c : Command) (d : Deal) → E d (run_command c d)
  unfolding run_command
  run_command-Effect (confirm_it now) d = all.of_confirm now d
  run_command-Effect (prepare number url now) d = all.of_prepare number url now d
  run_command-Effect (sign_it by ref now) d = all.of_sign by ref now d
  run_command-Effect (request_pay invoice due now) d = all.of_request invoice due now d
  run_command-Effect (pay payment kind now) d = all.of_pay payment kind now d
  run_command-Effect (ship_request now) d = all.of_ship_request now d
  run_command-Effect (ship tracking carrier now) d = all.of_ship tracking carrier now d
  run_command-Effect (complete_it now) d = all.of_complete now d
  run_command-Effect (cancel_it reason by now) d = all.of_cancel reason by now d
  run_command-Effect (reprice price by now) d = all.of_reprice price by now d
  run_command-Effect (approved c now) d = apply-Effect E approvable c now d
    where
      approvable : Approvable E
      approvable = record {
        of_error = all.of_error;
        of_confirm = all.of_confirm;
        of_ship = all.of_ship;
        of_complete = all.of_complete;
        of_cancel = all.of_cancel;
      }
