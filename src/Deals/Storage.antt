-- ===== src/Deals/Storage.antt =====
-- The table of the deals: deal_repository.go of internal/deals/postgres, with the statements going
-- through.
use unbelievable_fish.Prelude.{
  Bool, true, false, ◌||◌, List, [], ◌∷◌, String, Option, none, some, Result, ok, err,
  if◌then◌else◌,
}
use unbelievable_fish.Prelude.Int.{ℤ}
use unbelievable_fish.Prelude.Time.{Time, Timestamptz}
use unbelievable_fish.Prelude.Text.{is_empty, str_eq}
use unbelievable_fish.Deals.Types
use unbelievable_fish.Deals.Types.{Deal, DealStatus, DealType, ContractInfo, ProductSnapshot}
use unbelievable_fish.Deals.Deal.{rehydrate, is_set}

pub data Error : Type 0 where
  deal_not_found : Error
  of_deal : Types.Error → Error

-- The columns of the contract, each of which may be NULL.
pub record ContractColumns : Type 0 where
  pub number : Option String
  pub prepared_at : Option Time
  pub signed_at : Option Time
  pub signed_by : Option String
  pub signature_ref : Option String
  pub document_url : Option String

pub record DealRow : Type 0 where
  pub deal_id : String
  pub customer_id : String
  pub supplier_id : String
  pub auction_id : String
  pub quantity : ℤ
  pub unit_price : ℤ
  pub status : DealStatus
  pub type_name : DealType
  pub created_at : Time
  pub confirmed_at : Option Time
  pub contract_sign_deadline : Option Time
  pub payment_deadline : Option Time
  pub contract : ContractColumns
  pub product : ProductSnapshot

-- `sql.NullString{String: s, Valid: s != ""}`, and the string of one that is read.
unfoldable pub null_string : String → Option String
unfolding is_empty
null_string s = if is_empty s then none else some s

abbrev pub text_of : Option String → String
text_of none = ""
text_of (some s) = s

abbrev pub is_text : Option String → Bool
is_text none = false
is_text (some _) = true

abbrev pub rounded_time : Timestamptz → Option Time → Option Time
rounded_time z none = none
rounded_time z (some t) = some (z.rounded t)

abbrev pub no_columns : ContractColumns
no_columns = record {
  number = none;
  prepared_at = none;
  signed_at = none;
  signed_by = none;
  signature_ref = none;
  document_url = none;
}

-- The part of `Save` on the contract.
unfoldable pub contract_to_columns : Timestamptz → Option ContractInfo → ContractColumns
unfolding null_string
contract_to_columns z none = no_columns
contract_to_columns z (some c) = record {
  number = null_string c.number;
  prepared_at = rounded_time z c.prepared_at;
  signed_at = rounded_time z c.signed_at;
  signed_by = null_string c.signed_by;
  signature_ref = null_string c.signature_ref;
  document_url = null_string c.document_url;
}

-- The part of `getOne` on the contract.
unfoldable pub contract_of_columns : ContractColumns → Option ContractInfo
contract_of_columns c =
    if is_text c.number
      || is_set c.prepared_at
      || is_set c.signed_at
      || is_text c.signed_by
      || is_text c.signature_ref
      || is_text c.document_url
    then some (record {
      number = text_of c.number;
      prepared_at = c.prepared_at;
      signed_at = c.signed_at;
      signed_by = text_of c.signed_by;
      signature_ref = text_of c.signature_ref;
      document_url = text_of c.document_url;
    })
    else none

unfoldable pub deal_to_row : Timestamptz → Deal → DealRow
unfolding contract_to_columns
deal_to_row z d = record {
  deal_id = d.id;
  customer_id = d.customer_id;
  supplier_id = d.supplier_id;
  auction_id = d.auction_id;
  quantity = d.quantity;
  unit_price = d.unit_price;
  status = d.status;
  type_name = d.type_name;
  created_at = z.rounded d.created_at;
  confirmed_at = rounded_time z d.confirmed_at;
  contract_sign_deadline = rounded_time z d.contract_sign_deadline;
  payment_deadline = rounded_time z d.payment_deadline;
  contract = contract_to_columns z d.contract;
  product = d.product_snapshot;
}

-- `INSERT ... ON CONFLICT (deal_id) DO UPDATE` of every column.
unfoldable pub upsert_row : DealRow → List DealRow → List DealRow
unfolding str_eq
upsert_row new [] = new ∷ []
upsert_row new (r ∷ rows) =
    let rest = upsert_row new rows in if str_eq r.deal_id new.deal_id then new ∷ rows else r ∷ rest

-- `Save`
unfoldable pub save_deal : Timestamptz → Deal → List DealRow → List DealRow
unfolding upsert_row deal_to_row
save_deal z d rows = upsert_row (deal_to_row z d) rows

unfoldable pub find_row : String → List DealRow → Option DealRow
unfolding str_eq
find_row id [] = none
find_row id (r ∷ rows) = if str_eq r.deal_id id then some r else find_row id rows

-- The parameters that `getOne` gives to `Rehydrate`.
unfoldable pub row_params : DealRow → Deal
unfolding contract_of_columns
row_params r = record {
  id = r.deal_id;
  customer_id = r.customer_id;
  supplier_id = r.supplier_id;
  auction_id = r.auction_id;
  quantity = r.quantity;
  unit_price = r.unit_price;
  status = r.status;
  type_name = r.type_name;
  created_at = r.created_at;
  confirmed_at = r.confirmed_at;
  contract_sign_deadline = r.contract_sign_deadline;
  payment_deadline = r.payment_deadline;
  contract = contract_of_columns r.contract;
  product_snapshot = r.product;
}

abbrev of_rehydrate : Result Types.Error Deal → Result Error Deal
of_rehydrate (ok d) = ok d
of_rehydrate (err e) = err (of_deal e)

-- `getOne`
unfoldable pub scan_deal : Option DealRow → Result Error Deal
unfolding row_params rehydrate
scan_deal none = err deal_not_found
scan_deal (some r) = of_rehydrate (rehydrate (row_params r))

-- `GetByID` and `GetByIDForUpdate`
unfoldable pub get_deal : String → List DealRow → Result Error Deal
unfolding find_row scan_deal
get_deal id rows = scan_deal (find_row id rows)
