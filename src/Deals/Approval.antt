-- ===== src/Deals/Approval.antt =====
-- `RequestConfirmation` and `ApplyApprovedConfirmation` of internal/deals/deal/deal.go.
use unbelievable_fish.Prelude.{
  Bool, false, not, ◌&&◌, List, [], ◌∷◌, String, Result, ok, err, pure, raise, fail_if, lift, ◌>>=◌,
  ◌>>◌, Method, Option, none, some, if◌then◌else◌,
}
use unbelievable_fish.Prelude.Time.{Time}
use unbelievable_fish.Prelude.Text.{str_eq, is_empty}
use unbelievable_fish.Deals.Types.{
  pending, shipment_requested, shipped, completed, cancelled, Error, Event, Deal, DealConfirmation,
  DealConfirmationStage, DealConfirmationStatus, VerificationMethod,
}
use unbelievable_fish.Deals.Status.{status_eq}
use unbelievable_fish.Deals.Deal.{is_participant, this, confirm, mark_as_shipped, complete}
use unbelievable_fish.Deals.Cancel.{cancel}
use unbelievable_fish.Deals.Confirmation.{new_deal_confirmation, is_approved}

unfoldable pub can_request_confirmation_stage : Deal → DealConfirmationStage → Bool
unfolding status_eq
can_request_confirmation_stage d DealConfirmationStage.confirmed = status_eq d.status pending
can_request_confirmation_stage d DealConfirmationStage.paid = false
can_request_confirmation_stage d DealConfirmationStage.shipped =
    status_eq d.status shipment_requested
can_request_confirmation_stage d DealConfirmationStage.completed = status_eq d.status shipped
can_request_confirmation_stage d DealConfirmationStage.cancelled =
    not (status_eq d.status completed) && not (status_eq d.status cancelled)
can_request_confirmation_stage d (DealConfirmationStage.other _) = false

unfoldable pub counterparty_company_id : Deal → String → Result Error String
unfolding str_eq
counterparty_company_id d company =
    if str_eq company d.customer_id
    then ok d.supplier_id
    else if str_eq company d.supplier_id
    then ok d.customer_id
    else err Error.not_deal_participant

-- What a caller asks for: the arguments of `RequestConfirmation`.
pub record ConfirmationRequest : Type 0 where
  pub stage : DealConfirmationStage
  pub company_id : String
  pub user_id : String
  pub method : VerificationMethod
  pub token_hash : String
  pub signature_ref : String
  pub comment : String
  pub expires_at : Option Time

abbrev pub confirmation_params : Deal → ConfirmationRequest → String → Time → DealConfirmation
confirmation_params d q counterparty now = record {
  id = "";
  deal_id = d.id;
  stage = q.stage;
  requested_by_user_id = q.user_id;
  requested_by_company_id = q.company_id;
  counterparty_company_id = counterparty;
  status = DealConfirmationStatus.other "";
  verification_method = q.method;
  verification_token_hash = q.token_hash;
  signature_ref = q.signature_ref;
  requested_at = now;
  approved_at = none;
  rejected_at = none;
  expires_at = q.expires_at;
  comment = q.comment;
  reason = "";
}

abbrev pub requested_event : DealConfirmation → Event
requested_event c =
    Event.deal_confirmation_requested c.id c.deal_id c.stage c.requested_by_user_id
      c.requested_by_company_id c.counterparty_company_id c.verification_method c.requested_at
      c.expires_at c.comment

unfoldable pub request_confirmation :
    ConfirmationRequest → String → Time → Method Error Deal (DealConfirmation × List Event)
unfolding is_participant counterparty_company_id can_request_confirmation_stage
request_confirmation q generated now = do
  d ← this
  fail_if (not (is_participant d q.company_id)) Error.not_deal_participant
  counterparty ← lift (counterparty_company_id d q.company_id)
  fail_if (not (can_request_confirmation_stage d q.stage)) Error.invalid_stage_transition
  c ← lift (new_deal_confirmation generated now (confirmation_params d q counterparty now))
  pure (c, requested_event c ∷ [])

abbrev pub cancel_comment : DealConfirmation → String
cancel_comment c = if is_empty c.comment then "cancelled by approved confirmation" else c.comment

-- The switch over the stage.
unfoldable pub apply_stage :
    DealConfirmationStage → DealConfirmation → Time → Method Error Deal (List Event)
unfolding confirm mark_as_shipped complete cancel is_empty
apply_stage DealConfirmationStage.confirmed c now = confirm now
apply_stage DealConfirmationStage.paid c now = raise Error.paid_only_through_billing
apply_stage DealConfirmationStage.shipped c now = mark_as_shipped "" "" now
apply_stage DealConfirmationStage.completed c now = complete now
apply_stage DealConfirmationStage.cancelled c now =
    cancel (cancel_comment c) c.requested_by_company_id now
apply_stage (DealConfirmationStage.other _) c now = raise Error.invalid_stage_transition

abbrev pub apply_confirmation : DealConfirmation → Time → Method Error Deal (List Event)
apply_confirmation c now = do
  d ← this
  fail_if (not (str_eq c.deal_id d.id)) Error.confirmation_deal_mismatch
  fail_if (not (is_approved c.status)) Error.confirmation_not_approved
  fail_if (not (can_request_confirmation_stage d c.stage)) Error.invalid_stage_transition
  apply_stage c.stage c now

unfoldable pub apply_approved_confirmation :
    Option DealConfirmation → Time → Method Error Deal (List Event)
unfolding str_eq can_request_confirmation_stage apply_stage
apply_approved_confirmation none now = raise Error.confirmation_required
apply_approved_confirmation (some c) now = apply_confirmation c now
