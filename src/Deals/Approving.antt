-- ===== src/Deals/Approving.antt =====
-- Confirmations of a deal by both parties: confirmation.go, and `RequestConfirmation` and
-- `ApplyApprovedConfirmation` of deal.go in internal/deals/deal.
use unbelievable_fish.Prelude.{
  ◌≡◌, refl, sym, ◌≢◌, ◌⊎◌, inl, inr, ◌∙◌, Bool, true, false, not, [], ◌∷◌, String, Bool-cases,
  arith, Result, ok, err, is_ok, pure, fail_if, lift, ◌then_also◌, fail_if_passed, lift_passed,
  if_same, ◌>>=◌, ◌>>◌, Succeeds, some,
}
use unbelievable_fish.Prelude.Time.{Time, is_zero}
use unbelievable_fish.Prelude.Text.{is_empty, str_eq_iff}
use unbelievable_fish.Deals.Types.{
  DealStatus, confirmed, paid, shipped, completed, cancelled, other, Error, Deal, DealConfirmation,
  DealConfirmationStage, DealConfirmationStatus,
}
use unbelievable_fish.Deals.Deal.{is_participant}
use unbelievable_fish.Deals.Confirmation.{
  validate_confirmation, new_deal_confirmation, is_past, approve,
}
use unbelievable_fish.Deals.Approval.{
  can_request_confirmation_stage, counterparty_company_id, ConfirmationRequest,
  request_confirmation, apply_approved_confirmation, confirmation_params, requested_event,
}
use unbelievable_fish.Deals.Answering.{answer_iff, approve_effect}

-- The confirmation that a request makes.
unfoldable pub requested : ConfirmationRequest → String → Time → Deal → String → DealConfirmation
requested q generated now d counterparty = record (confirmation_params d q counterparty now) {
  id = generated;
  status = DealConfirmationStatus.pending;
}

new_confirmation_lem :
    (q : ConfirmationRequest) (generated counterparty : String) (now : Time) (d : Deal)
    → new_deal_confirmation generated now (confirmation_params d q counterparty now) ≡ (
        validate_confirmation (requested q generated now d counterparty)
        then_also ok (requested q generated now d counterparty))
unfolding new_deal_confirmation requested
new_confirmation_lem q generated counterparty now d = rw (if_same (is_zero now) now) refl

-- The company that asks and the one that is asked are the two parties of the deal.
abbrev pub AreParties : Deal → String → String → Type 0
AreParties d asking asked =
    ((asking ≡ d.customer_id) × (asked ≡ d.supplier_id))
    ⊎ ((asking ≡ d.supplier_id) × (asked ≡ d.customer_id))

counterparty_parties :
    (d : Deal) (company : String) {cp : String}
    → counterparty_company_id d company ≡ ok cp
    → AreParties d company cp
unfolding counterparty_company_id
counterparty_parties d company h =
    ground (arith, str_eq_iff company d.customer_id, str_eq_iff company d.supplier_id)

-- What a request comes to behind its guards.
request_result :
    (q : ConfirmationRequest) (generated : String) (now : Time) (d : Deal)
    → Succeeds (request_confirmation q generated now d).1
    → (cp : String) × (c : DealConfirmation) × (counterparty_company_id d q.company_id ≡ ok cp)
      × (can_request_confirmation_stage d q.stage ≡ true)
      × (new_deal_confirmation generated now (confirmation_params d q cp now) ≡ ok c)
      × (request_confirmation q generated now d ≡ (d, ok (c, requested_event c ∷ [])))
unfolding request_confirmation
request_result q generated now d h =
    let finish =
      λ (c : DealConfirmation). pure {E = Error} {S = Deal} (c, requested_event c ∷ []) in
    let create = λ (cp : String).
      lift (new_deal_confirmation generated now (confirmation_params d q cp now)) >>= finish in
    let go_on = λ (cp : String).
      fail_if (not (can_request_confirmation_stage d q.stage)) Error.invalid_stage_transition
      >> create cp in
    let (_, e1, h1) =
      fail_if_passed (not (is_participant d q.company_id)) Error.not_deal_participant
        (lift (counterparty_company_id d q.company_id) >>= go_on) d h in
    let (cp, e2, e3, h2) = lift_passed (counterparty_company_id d q.company_id) go_on d h1 in
    let (stage, e4, h3) =
      fail_if_passed (not (can_request_confirmation_stage d q.stage)) Error.invalid_stage_transition
        (create cp) d h2 in
    let (c, e5, e6, _) =
      lift_passed (new_deal_confirmation generated now (confirmation_params d q cp now)) finish d
        h3 in
    (cp, c, e2, not_false stage, e5, e1 ∙ (e3 ∙ (e4 ∙ e6)))
  where
    not_false : {b : Bool} → not b ≡ false → b ≡ true
    not_false {b = true} k = refl
    not_false {b = false} k = cc

validated :
    (c : DealConfirmation)
    → Succeeds (validate_confirmation c)
    → (is_empty c.counterparty_company_id ≡ false)
      × (c.requested_by_company_id ≢ c.counterparty_company_id)
unfolding validate_confirmation
validated c h = (
  ground arith,
  λ e. ground (arith, str_eq_iff c.requested_by_company_id c.counterparty_company_id),
)

then_also_ok :
    {A : Type 0} (r : Result Error (Unit {0})) (x : A) {y : A}
    → (r then_also ok x) ≡ ok y
    → Succeeds r × (x ≡ y)
then_also_ok (ok _) x h = (refl, cc)
then_also_ok (err _) x h = cc

validated_request :
    (q : ConfirmationRequest) (generated cp : String) (now : Time) (d : Deal)
    → Succeeds (validate_confirmation (requested q generated now d cp))
    → (is_empty cp ≡ false) × (q.company_id ≢ cp)
unfolding requested
validated_request q generated cp now d h = validated (requested q generated now d cp) h

-- A request that succeeds leaves the deal alone, is for a stage that the deal can move to, and makes
-- a pending confirmation between the two parties of the deal, one of which asks and the other, a
-- different company, is asked; it is announced.
pub request_lem :
    (q : ConfirmationRequest) (generated : String) (now : Time) (d : Deal)
    → Succeeds (request_confirmation q generated now d).1
    → (cp : String) × (let c = requested q generated now d cp in
        request_confirmation q generated now d ≡ (d, ok (c, requested_event c ∷ [])))
      × AreParties d q.company_id cp
      × (is_empty cp ≡ false)
      × (q.company_id ≢ cp)
      × (can_request_confirmation_stage d q.stage ≡ true)
request_lem q generated now d h =
    let (cp, c, parties, stage, made, run) = request_result q generated now d h in
    let (valid, same) =
      then_also_ok (validate_confirmation (requested q generated now d cp))
        (requested q generated now d cp) (sym (new_confirmation_lem q generated cp now d) ∙ made) in
    let (named, differ) = validated_request q generated cp now d valid in
    (cp, rw same run, counterparty_parties d q.company_id parties, named, differ, stage)

-- The status that a stage stands for.
abbrev pub target : DealConfirmationStage → DealStatus
target DealConfirmationStage.confirmed = confirmed
target DealConfirmationStage.paid = paid
target DealConfirmationStage.shipped = shipped
target DealConfirmationStage.completed = completed
target DealConfirmationStage.cancelled = cancelled
target (DealConfirmationStage.other s) = other s

-- An approved confirmation for a step of the delivery takes the deal to the status of its stage.
pub apply_reaches :
    (c : DealConfirmation) (now : Time) (d : Deal)
    → c.deal_id ≡ d.id
    → c.status ≡ DealConfirmationStatus.approved
    → can_request_confirmation_stage d c.stage ≡ true
    → c.stage ≢ DealConfirmationStage.cancelled
    → let (d', r) = apply_approved_confirmation (some c) now d in
      Succeeds r × (d'.status ≡ target c.stage)
unfolding apply_approved_confirmation
apply_reaches c now d i a s n = ground (arith, str_eq_iff c.deal_id d.id)

not_by_requester :
    (user : String) (at : Time) (c : DealConfirmation)
    → is_ok (approve c.requested_by_company_id user at c).1 ≡ false
not_by_requester user at c =
    elim (Bool-cases (is_ok (approve c.requested_by_company_id user at c).1)) [
      | inl taken ↦ absurd (((answer_iff c.requested_by_company_id user "" at c).0.0 taken).3 refl)
      | inr refused ↦ refused
    ]

-- The whole way: a request that succeeds, of one party of the deal, for a stage other than the
-- cancellation, leaves the deal alone and makes a confirmation that this party cannot approve; a
-- user of the other party, with an id that is not empty and before the expiry, can approve it, and
-- the approved confirmation takes the deal to the status of the stage.
pub two_party_lem :
    (q : ConfirmationRequest) (generated user other_user : String) (now at later : Time) (d : Deal)
    → Succeeds (request_confirmation q generated now d).1
    → q.stage ≢ DealConfirmationStage.cancelled
    → is_empty user ≡ false
    → is_past q.expires_at at ≡ false
    → (c : DealConfirmation) × (request_confirmation q generated now d
        ≡ (d, ok (c, requested_event c ∷ [])))
      × (is_ok (approve q.company_id other_user at c).1 ≡ false)
      × Succeeds (approve c.counterparty_company_id user at c).1
      × (let c' = (approve c.counterparty_company_id user at c).0 in
          let (d', r) = apply_approved_confirmation (some c') later d in
          Succeeds r × (d'.status ≡ target q.stage))
unfolding requested
two_party_lem q generated user other_user now at later d h n u p =
    let (cp, run, parties, named, differ, stage) = request_lem q generated now d h in
    let c = requested q generated now d cp in
    let may : Succeeds (approve cp user at c).1 =
      (answer_iff cp user "" at c).0.1 (refl, named, u, (λ e. differ (sym e)), refl, p) in
    let done = (approve_effect cp user at c).0 may in
    let signed = record c { status = DealConfirmationStatus.approved; approved_at = some at } in
    (
      c,
      run,
      not_by_requester other_user at c,
      may,
      rw done (apply_reaches signed later d refl refl stage n),
    )
