-- ===== src/Deals/Confirmation.antt =====
-- internal/deals/deal/confirmation.go: a request of one party that the other has to approve.
use unbelievable_fish.Prelude.{
  Bool, true, false, not, ◌||◌, List, [], ◌∷◌, String, Result, ok, pure, raise, gets, modify,
  fail_if, check, ◌then_also◌, ◌>>=◌, ◌>>◌, Method, Option, none, some, if◌then◌else◌,
}
use unbelievable_fish.Prelude.Time.{Time, is_zero, after}
use unbelievable_fish.Prelude.Text.{str_eq, is_empty}
use unbelievable_fish.Deals.Types.{
  Error, Event, DealConfirmation, DealConfirmationStage, DealConfirmationStatus, VerificationMethod,
}

unfoldable pub is_valid_stage : DealConfirmationStage → Bool
is_valid_stage (DealConfirmationStage.other _) = false
is_valid_stage _ = true

unfoldable pub is_valid_status : DealConfirmationStatus → Bool
is_valid_status (DealConfirmationStatus.other _) = false
is_valid_status _ = true

unfoldable pub is_valid_method : VerificationMethod → Bool
is_valid_method (VerificationMethod.other _) = false
is_valid_method _ = true

abbrev pub is_pending : DealConfirmationStatus → Bool
is_pending DealConfirmationStatus.pending = true
is_pending _ = false

abbrev pub is_approved : DealConfirmationStatus → Bool
is_approved DealConfirmationStatus.approved = true
is_approved _ = false

-- `s == ""`
unfoldable pub is_unset : DealConfirmationStatus → Bool
unfolding is_empty
is_unset (DealConfirmationStatus.other s) = is_empty s
is_unset _ = false

unfoldable pub validate_confirmation : DealConfirmation → Result Error (Unit {0})
unfolding is_empty is_valid_stage is_valid_status is_valid_method str_eq
validate_confirmation c =
    check (is_empty c.id) Error.confirmation_id_required
    then_also check (is_empty c.deal_id) Error.confirmation_deal_id_required
    then_also check (not (is_valid_stage c.stage)) Error.confirmation_stage_required
    then_also check (is_empty c.requested_by_user_id) Error.requested_by_user_required
    then_also check (is_empty c.requested_by_company_id) Error.requested_by_company_required
    then_also check (is_empty c.counterparty_company_id) Error.counterparty_company_required
    then_also check (str_eq c.requested_by_company_id c.counterparty_company_id)
        Error.counterparty_required
    then_also check (not (is_valid_status c.status)) Error.confirmation_status_required
    then_also check (not (is_valid_method c.verification_method)) Error.verification_method_required
    then_also check (is_zero c.requested_at) Error.requested_at_required

-- The parameters of `NewDealConfirmation` are the fields of a confirmation; `generated` is what
-- `generateConfirmationID` returns and `now` what `time.Now` does.
unfoldable pub new_deal_confirmation :
    String → Time → DealConfirmation → Result Error DealConfirmation
unfolding is_empty is_unset validate_confirmation
new_deal_confirmation generated now params =
    let item = record params {
      id = if is_empty params.id then generated else params.id;
      status = if is_unset params.status then DealConfirmationStatus.pending else params.status;
      requested_at = if is_zero params.requested_at then now else params.requested_at;
    } in
    validate_confirmation item then_also ok item

-- `expires != nil && at.After(*expires)`
unfoldable pub is_past : Option Time → Time → Bool
is_past none at = false
is_past (some expires) at = after at expires

abbrev pub set_confirmation_status :
    DealConfirmationStatus → Method Error DealConfirmation (Unit {0})
set_confirmation_status s = modify λ (c : DealConfirmation). record c { status = s }

-- The guards that `Approve` and `Reject` share.
unfoldable pub check_counterparty :
    String → String → Time → Method Error DealConfirmation (Unit {0})
unfolding is_empty str_eq is_past
check_counterparty company user at = do
  c ← gets (λ (x : DealConfirmation). x)
  fail_if (not (is_pending c.status)) Error.confirmation_not_pending
  fail_if (is_empty company || is_empty user) Error.counterparty_required
  fail_if (str_eq company c.requested_by_company_id) Error.counterparty_required
  fail_if (not (str_eq company c.counterparty_company_id)) Error.not_deal_participant
  if is_past c.expires_at at
      then (do
        set_confirmation_status DealConfirmationStatus.expired
        raise Error.confirmation_expired)
      else pure tt

unfoldable pub approve : String → String → Time → Method Error DealConfirmation (List Event)
unfolding check_counterparty
approve company user at = do
  check_counterparty company user at
  modify λ (c : DealConfirmation). record c {
    status = DealConfirmationStatus.approved;
    approved_at = some at;
  }
  c ← gets (λ (x : DealConfirmation). x)
  pure (Event.deal_confirmation_approved c.id c.deal_id c.stage user company at ∷ [])

unfoldable pub reject : String → String → String → Time → Method Error DealConfirmation (List Event)
unfolding check_counterparty
reject company user reason at = do
  check_counterparty company user at
  modify λ (c : DealConfirmation). record c {
    status = DealConfirmationStatus.rejected;
    rejected_at = some at;
    reason = reason;
  }
  c ← gets (λ (x : DealConfirmation). x)
  pure (Event.deal_confirmation_rejected c.id c.deal_id c.stage user company at reason ∷ [])
