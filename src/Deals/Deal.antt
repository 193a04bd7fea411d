-- ===== src/Deals/Deal.antt =====
-- internal/deals/deal/deal.go: the operations of a deal, and rehydrate.go. `now` is what `time.Now()`
-- returns in the call.
use unbelievable_fish.Prelude.{
  ◌*◌, Bool, true, false, ◌&&◌, ◌||◌, not, List, [], ◌∷◌, String, Option, none, some, Result, ok,
  Method, gets, pure, modify, fail_if, check, ◌then_also◌, ◌>>=◌, ◌>>◌,
}
use unbelievable_fish.Prelude.Int.{ℤ, pos, leb_ℤ}
use unbelievable_fish.Prelude.Int64.{mul64}
use unbelievable_fish.Prelude.Time.{Time, is_zero, add, hour}
use unbelievable_fish.Prelude.Text.{is_empty, str_eq}
use unbelievable_fish.Deals.Types.{
  DealStatus, pending, confirmed, contract_prepared, contract_signed, payment_requested, paid,
  shipment_requested, shipped, completed, DealType, Error, Event, ContractInfo, Deal,
}
use unbelievable_fish.Deals.Status.{status_eq, is_modifiable}

unfoldable pub is_participant : Deal → String → Bool
unfolding is_empty str_eq
is_participant d company =
    not (is_empty company) && (str_eq company d.customer_id || str_eq company d.supplier_id)

unfoldable pub calculate_total : Deal → ℤ
unfolding mul64
calculate_total d = mul64 d.quantity d.unit_price

abbrev pub is_set : Option Time → Bool
is_set none = false
is_set (some _) = true

-- `d.contract != nil && d.contract.SignedAt != nil`
unfoldable pub has_signed_contract : Deal → Bool
has_signed_contract d = elim d.contract [ none ↦ false | some c ↦ is_set c.signed_at ]

-- `d.contract != nil && d.contract.PreparedAt != nil`
unfoldable pub has_contract : Deal → Bool
has_contract d = elim d.contract [ none ↦ false | some c ↦ is_set c.prepared_at ]

unfoldable pub can_be_modified : Deal → Bool
unfolding is_modifiable
can_be_modified d = is_modifiable d.status

abbrev pub set_status : DealStatus → Method Error Deal (Unit {0})
set_status s = modify λ (d : Deal). record d { status = s }

abbrev pub this : Method Error Deal Deal
this = gets λ d. d

unfoldable pub confirm : Time → Method Error Deal (List Event)
unfolding status_eq
confirm now = do
  d ← this
  fail_if (not (status_eq d.status pending)) Error.cannot_confirm_deal
  modify λ (x : Deal). record x { status = confirmed; confirmed_at = some now }
  pure (Event.deal_confirmed d.id now ∷ [])

-- `&ContractInfo{}`
abbrev pub empty_contract : ContractInfo
empty_contract = record {
  number = "";
  prepared_at = none;
  signed_at = none;
  signed_by = "";
  signature_ref = "";
  document_url = "";
}

abbrev pub contract_or_empty : Option ContractInfo → ContractInfo
contract_or_empty none = empty_contract
contract_or_empty (some c) = c

unfoldable pub prepare_contract : String → String → Time → Method Error Deal (List Event)
unfolding status_eq has_contract is_empty
prepare_contract number url now = do
  d ← this
  fail_if (not (status_eq d.status confirmed) && not (status_eq d.status pending))
      Error.cannot_prepare_contract
  fail_if (has_contract d) Error.contract_already_prepared
  fail_if (is_empty number) Error.contract_number_required
  modify λ (x : Deal). record x {
    contract = some (record (contract_or_empty x.contract) {
      number = number;
      prepared_at = some now;
      document_url = url;
    });
    status = contract_prepared;
  }
  pure (Event.contract_prepared d.id number now url ∷ [])

-- The contract that `SignContract` writes, and the number in its event.
abbrev pub sign : String → String → Time → Option ContractInfo → Option ContractInfo
sign by ref now none = none
sign by ref now (some c) =
    some (record c { signed_at = some now; signed_by = by; signature_ref = ref })

abbrev pub number_of : Option ContractInfo → String
number_of none = ""
number_of (some c) = c.number

unfoldable pub sign_contract : String → String → Time → Method Error Deal (List Event)
unfolding status_eq has_contract has_signed_contract
sign_contract by ref now = do
  d ← this
  fail_if (not (status_eq d.status contract_prepared)) Error.cannot_sign_contract
  fail_if (not (has_contract d)) Error.contract_not_prepared
  fail_if (has_signed_contract d) Error.contract_already_signed
  modify λ (x : Deal). record x {
    contract = sign by ref now x.contract;
    payment_deadline = some (add now (24 * hour));
    status = contract_signed;
  }
  pure (Event.contract_signed d.id (number_of d.contract) now by ref ∷ [])

unfoldable pub request_payment : String → Option Time → Time → Method Error Deal (List Event)
unfolding status_eq has_signed_contract calculate_total
request_payment invoice due now = do
  d ← this
  fail_if (status_eq d.status payment_requested) Error.payment_already_requested
  fail_if (not (status_eq d.status contract_signed)) Error.cannot_request_payment
  fail_if (not (has_signed_contract d)) Error.contract_not_signed
  set_status payment_requested
  pure (
      Event.payment_requested d.id d.auction_id d.customer_id d.supplier_id "RUB"
        (calculate_total d) invoice due now
      ∷ [])

unfoldable pub mark_as_paid : String → String → Time → Method Error Deal (List Event)
unfolding status_eq
mark_as_paid payment kind now = do
  d ← this
  fail_if (not (status_eq d.status payment_requested)) Error.cannot_mark_as_paid
  set_status paid
  pure (Event.deal_paid d.id payment kind now ∷ [])

unfoldable pub request_shipment : Time → Method Error Deal (List Event)
unfolding status_eq
request_shipment now = do
  d ← this
  fail_if (not (status_eq d.status paid)) Error.cannot_request_shipment
  fail_if (status_eq d.status shipment_requested) Error.shipment_already_requested
  set_status shipment_requested
  pure (Event.shipment_requested d.id now ∷ [])

unfoldable pub mark_as_shipped : String → String → Time → Method Error Deal (List Event)
unfolding status_eq
mark_as_shipped tracking carrier now = do
  d ← this
  fail_if (not (status_eq d.status shipment_requested)) Error.cannot_mark_as_shipped
  set_status shipped
  pure (Event.deal_shipped d.id tracking carrier now ∷ [])

unfoldable pub complete : Time → Method Error Deal (List Event)
unfolding status_eq
complete now = do
  d ← this
  fail_if (not (status_eq d.status shipped)) Error.cannot_complete_deal
  set_status completed
  pure (Event.deal_completed d.id now ∷ [])

abbrev pub is_auction : DealType → Bool
is_auction DealType.auction = true
is_auction _ = false

unfoldable pub update_price : ℤ → String → Time → Method Error Deal (List Event)
unfolding can_be_modified
update_price new_price by now = do
  d ← this
  fail_if (is_auction d.type_name) Error.auction_deal_price_immutable
  fail_if (not (can_be_modified d)) Error.cannot_update_price
  fail_if (leb_ℤ new_price (pos 0)) Error.price_must_be_positive
  modify λ (x : Deal). record x { unit_price = new_price }
  pure (Event.price_updated d.id d.unit_price new_price by now ∷ [])

unfoldable pub validate : Deal → Result Error (Unit {0})
unfolding is_empty
validate d =
    check (is_empty d.id) Error.deal_id_required
    then_also check (is_empty d.customer_id) Error.customer_id_required
    then_also check (is_empty d.supplier_id) Error.supplier_id_required
    then_also check (is_empty d.auction_id && is_auction d.type_name) Error.auction_id_required
    then_also check (leb_ℤ d.quantity (pos 0)) Error.quantity_positive
    then_also check (leb_ℤ d.unit_price (pos 0)) Error.unit_price_positive
    then_also check (is_empty d.product_snapshot.name) Error.product_name_required
    then_also check (is_zero d.created_at) Error.created_at_required

-- The parameters of `Rehydrate` are the fields of a deal.
unfoldable pub rehydrate : Deal → Result Error Deal
unfolding validate
rehydrate params = validate params then_also ok params
