-- ===== src/Deals/Types.antt =====
-- The data of internal/deals/deal: statuses, errors, events, and the structs of deal.go,
-- confirmation.go, projection.go and selection.go.
use unbelievable_fish.Prelude.{ℕ, List, String, Option}
use unbelievable_fish.Prelude.Int.{ℤ}
use unbelievable_fish.Prelude.Time.{Time}

-- A status is a string; `other` is any string that is none of the constants. So below.
pub data DealStatus : Type 0 where
  pending confirmed contract_prepared contract_signed payment_requested : DealStatus
  paid shipment_requested shipped completed cancelled : DealStatus
  other : String → DealStatus

pub data DealType : Type 0 where
  direct auction : DealType
  other : String → DealType

pub data DealConfirmationStage : Type 0 where
  confirmed paid shipped completed cancelled : DealConfirmationStage
  other : String → DealConfirmationStage

pub data DealConfirmationStatus : Type 0 where
  pending approved rejected expired : DealConfirmationStatus
  other : String → DealConfirmationStatus

pub data VerificationMethod : Type 0 where
  manual email signature : VerificationMethod
  other : String → VerificationMethod

pub data ProjectionStatus : Type 0 where
  active converted cancelled : ProjectionStatus
  other : String → ProjectionStatus

pub data WinnerSelectionStatus : Type 0 where
  active confirmed_pending_payment finalized exhausted : WinnerSelectionStatus
  other : String → WinnerSelectionStatus

pub data Error : Type 0 where
  deal_id_required customer_id_required supplier_id_required seller_company_required : Error
  winner_company_required auction_id_required quantity_positive unit_price_positive : Error
  price_must_be_positive final_price_positive product_name_required created_at_required : Error
  snapshot_missing_fields : Error
  cannot_confirm_deal cannot_prepare_contract contract_already_prepared : Error
  cannot_sign_contract contract_already_signed contract_number_required : Error
  cannot_request_payment payment_already_requested cannot_mark_as_paid : Error
  cannot_request_shipment shipment_already_requested cannot_mark_as_shipped : Error
  cannot_complete_deal cannot_cancel_deal cannot_decline_winner_after_confirm : Error
  cannot_cancel_for_payment_timeout winner_forfeit_only_auction : Error
  deal_not_cancelled_for_fallback wrong_selected_candidate stale_winner_selection : Error
  winner_selection_not_active no_available_winner_candidate : Error
  winner_fallback_only_while_active winner_selection_missing_for_auction_deal : Error
  winner_selection_not_awaiting_payment winner_selection_deal_mismatch : Error
  deal_invoice_paid_invariant deal_cancelled_payment cannot_update_price : Error
  auction_deal_price_immutable invalid_stage_transition paid_only_through_billing : Error
  contract_not_prepared contract_not_signed : Error
  projection_required projection_not_active projection_not_found selection_not_found : Error
  confirmation_required confirmation_id_required confirmation_deal_id_required : Error
  confirmation_stage_required confirmation_status_required verification_method_required : Error
  requested_at_required requested_by_user_required requested_by_company_required : Error
  counterparty_company_required confirmation_not_found confirmation_already_pending : Error
  confirmation_not_pending confirmation_expired confirmation_not_approved : Error
  confirmation_deal_mismatch counterparty_required not_deal_participant : Error

-- Weight and volume are floats that the code only carries: their bits.
pub record ProductSnapshot : Type 0 where
  pub product_id : String
  pub name : String
  pub description : String
  pub category : String
  pub weight : ℕ
  pub unit : String
  pub size : String
  pub processing_type : String
  pub volume : ℕ
  pub origin_country : String

pub record ContractInfo : Type 0 where
  pub number : String
  pub prepared_at : Option Time
  pub signed_at : Option Time
  pub signed_by : String
  pub signature_ref : String
  pub document_url : String

pub record Deal : Type 0 where
  pub id : String
  pub customer_id : String
  pub supplier_id : String
  pub auction_id : String
  pub quantity : ℤ
  pub unit_price : ℤ
  pub status : DealStatus
  pub type_name : DealType
  pub created_at : Time
  pub confirmed_at : Option Time
  pub contract_sign_deadline : Option Time
  pub payment_deadline : Option Time
  pub contract : Option ContractInfo
  pub product_snapshot : ProductSnapshot

-- The fields of an event stand in the order of its struct.
pub data Event : Type 0 where
  deal_created : String → String → String → String → ProductSnapshot → ℤ → Time → Event
  deal_confirmation_requested :
      String
      → String
      → DealConfirmationStage
      → String
      → String
      → String
      → VerificationMethod
      → Time
      → Option Time
      → String
      → Event
  deal_confirmation_approved :
      String → String → DealConfirmationStage → String → String → Time → Event
  deal_confirmation_rejected :
      String → String → DealConfirmationStage → String → String → Time → String → Event
  deal_confirmed : String → Time → Event
  contract_prepared : String → String → Time → String → Event
  contract_signed : String → String → Time → String → String → Event
  payment_requested :
      String → String → String → String → String → ℤ → String → Option Time → Time → Event
  deal_paid : String → String → String → Time → Event
  shipment_requested : String → Time → Event
  deal_shipped : String → String → String → Time → Event
  deal_completed : String → Time → Event
  deal_cancelled : String → String → String → Time → Event
  winner_rejected : String → String → String → String → Time → String → Event
  winner_confirmed : String → String → String → String → ℤ → Time → Event
  next_winner_selected : String → String → String → ℕ → String → Time → Event
  winner_selection_failed : String → String → Time → String → Event
  winner_selection_finalized : String → String → String → String → ℤ → ℤ → ℤ → Time → Event
  price_updated : String → ℤ → ℤ → String → Time → Event

pub record DealConfirmation : Type 0 where
  pub id : String
  pub deal_id : String
  pub stage : DealConfirmationStage
  pub requested_by_user_id : String
  pub requested_by_company_id : String
  pub counterparty_company_id : String
  pub status : DealConfirmationStatus
  pub verification_method : VerificationMethod
  pub verification_token_hash : String
  pub signature_ref : String
  pub requested_at : Time
  pub approved_at : Option Time
  pub rejected_at : Option Time
  pub expires_at : Option Time
  pub comment : String
  pub reason : String

pub record DealProjection : Type 0 where
  pub auction_id : String
  pub supplier_id : String
  pub product_snapshot : ProductSnapshot
  pub start_price : ℤ
  pub published_at : Time
  pub status : ProjectionStatus

pub record WinnerSelection : Type 0 where
  pub auction_id : String
  pub candidates : List String
  pub current_index : ℕ
  pub status : WinnerSelectionStatus
  pub final_price : ℤ
  pub won_at : Time
  pub supplier_id : String
  pub product_snapshot : ProductSnapshot
  pub deal_id : String
