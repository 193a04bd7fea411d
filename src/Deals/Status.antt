-- ===== src/Deals/Status.antt =====
-- internal/deals/deal/status.go and cancel_reasons.go.
use unbelievable_fish.Prelude.{Bool, true, false, ◌||◌, List, [], ◌∷◌, String, if◌then◌else◌}
use unbelievable_fish.Prelude.Text.{str_eq}
use unbelievable_fish.Deals.Types.{
  DealStatus, pending, confirmed, contract_prepared, contract_signed, payment_requested, paid,
  shipment_requested, shipped, completed, cancelled, other,
}

-- `s == t` on statuses.
unfoldable pub status_eq : DealStatus → DealStatus → Bool
unfolding str_eq
status_eq pending pending = true
status_eq confirmed confirmed = true
status_eq contract_prepared contract_prepared = true
status_eq contract_signed contract_signed = true
status_eq payment_requested payment_requested = true
status_eq paid paid = true
status_eq shipment_requested shipment_requested = true
status_eq shipped shipped = true
status_eq completed completed = true
status_eq cancelled cancelled = true
status_eq (other s) (other t) = str_eq s t
status_eq _ _ = false

-- The loop of the three tests below.
unfoldable pub is_among : DealStatus → List DealStatus → Bool
unfolding status_eq
is_among s [] = false
is_among s (t ∷ ts) = status_eq s t || is_among s ts

abbrev pub active_statuses : List DealStatus
active_statuses =
    pending ∷ confirmed ∷ contract_prepared ∷ contract_signed ∷ payment_requested ∷ paid
    ∷ shipment_requested ∷ shipped ∷ []

abbrev pub modifiable_statuses : List DealStatus
modifiable_statuses = pending ∷ []

abbrev pub confirmable_statuses : List DealStatus
confirmable_statuses = pending ∷ []

unfoldable pub is_active : DealStatus → Bool
unfolding is_among
is_active s = is_among s active_statuses

unfoldable pub is_modifiable : DealStatus → Bool
unfolding is_among
is_modifiable s = is_among s modifiable_statuses

unfoldable pub is_confirmable : DealStatus → Bool
unfolding is_among
is_confirmable s = is_among s confirmable_statuses

unfoldable pub can_transition_to : DealStatus → DealStatus → Bool
unfolding status_eq
can_transition_to completed t = false
can_transition_to cancelled t = false
can_transition_to pending t = status_eq t confirmed || status_eq t cancelled
can_transition_to confirmed t = status_eq t contract_prepared || status_eq t cancelled
can_transition_to contract_prepared t = status_eq t contract_signed || status_eq t cancelled
can_transition_to contract_signed t = status_eq t payment_requested || status_eq t cancelled
can_transition_to payment_requested t = status_eq t paid || status_eq t cancelled
can_transition_to paid t = status_eq t shipment_requested || status_eq t cancelled
can_transition_to shipment_requested t = status_eq t shipped || status_eq t cancelled
can_transition_to shipped t = status_eq t completed || status_eq t cancelled
can_transition_to (other _) t = false

abbrev pub reason_winner_rejected : String
reason_winner_rejected = "WINNER_REJECTED"

abbrev pub reason_confirmation_timeout : String
reason_confirmation_timeout = "CONFIRMATION_TIMEOUT"

abbrev pub reason_legacy_deadline_exceeded : String
reason_legacy_deadline_exceeded = "deadline exceeded"

abbrev pub reason_payment_timeout : String
reason_payment_timeout = "PAYMENT_TIMEOUT"

abbrev pub reason_buyer_initiated_cancel : String
reason_buyer_initiated_cancel = "BUYER_INITIATED_CANCEL"

unfoldable pub reason_forfeits_winner_deposit : String → Bool
reason_forfeits_winner_deposit reason =
    str_eq reason reason_winner_rejected
    || str_eq reason reason_confirmation_timeout
    || str_eq reason reason_legacy_deadline_exceeded

unfoldable pub normalize_winner_forfeit_reason : String → String
normalize_winner_forfeit_reason reason =
    if str_eq reason reason_legacy_deadline_exceeded then reason_confirmation_timeout else reason
