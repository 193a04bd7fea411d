-- ===== src/Deals/Kept.antt =====
-- What is kept of a deal that is saved and loaded: deal_repository.go of internal/deals/postgres.
use unbelievable_fish.Prelude.{
  ◌<◌, ◌≡◌, refl, sym, ◌∙◌, ap, true, false, not, ◌&&◌, ◌||◌, Bool, Bool-cases, inl, inr, List, [],
  ◌∷◌, String, Option, none, some, ok, arith, if◌then◌else◌,
}
use unbelievable_fish.Prelude.Time.{Time, Timestamptz}
use unbelievable_fish.Prelude.Text.{is_empty, is_empty_iff, str_eq, str_eq_refl}
use unbelievable_fish.Deals.Types.{Deal, ContractInfo}
use unbelievable_fish.Deals.Deal.{is_set, has_contract, has_signed_contract}
use unbelievable_fish.Deals.Validity.{IsValid, rehydrate_roundtrip}
use unbelievable_fish.Deals.Storage.{
  DealRow, null_string, text_of, is_text, rounded_time, contract_to_columns, contract_of_columns,
  deal_to_row, upsert_row, save_deal, find_row, row_params, scan_deal, get_deal,
}

-- A contract in which nothing is written.
abbrev pub is_void : ContractInfo → Bool
is_void c =
    is_empty c.number
    && not (is_set c.prepared_at)
    && not (is_set c.signed_at)
    && is_empty c.signed_by
    && is_empty c.signature_ref
    && is_empty c.document_url

-- What is left of a deal that was stored: its times as the columns have them, and no contract in
-- which nothing is written.
abbrev pub kept_contract : Timestamptz → Option ContractInfo → Option ContractInfo
kept_contract z none = none
kept_contract z (some c) =
    if is_void c
    then none
    else some (record c {
      prepared_at = rounded_time z c.prepared_at;
      signed_at = rounded_time z c.signed_at;
    })

abbrev pub kept_deal : Timestamptz → Deal → Deal
kept_deal z d = record d {
  created_at = z.rounded d.created_at;
  confirmed_at = rounded_time z d.confirmed_at;
  contract_sign_deadline = rounded_time z d.contract_sign_deadline;
  payment_deadline = rounded_time z d.payment_deadline;
  contract = kept_contract z d.contract;
}

text_of-null : (s : String) → text_of (null_string s) ≡ s
unfolding null_string
text_of-null s = ground (arith, is_empty_iff s)

is_text-null : (s : String) → is_text (null_string s) ≡ not (is_empty s)
unfolding null_string
is_text-null s = ground arith

is_set-rounded : (z : Timestamptz) (t : Option Time) → is_set (rounded_time z t) ≡ is_set t
is_set-rounded z none = refl
is_set-rounded z (some _) = refl

-- Something is written in a contract that is not void.
turned :
    {A : Type 0} (a b c d e f : Bool) (x y : A)
    → (if not a || b || c || not d || not e || not f then x else y)
      ≡ (if a && not b && not c && d && e && f then y else x)
turned a b c d e f x y = ground arith

contract_roundtrip :
    (z : Timestamptz) (c : Option ContractInfo)
    → contract_of_columns (contract_to_columns z c) ≡ kept_contract z c
unfolding contract_of_columns contract_to_columns
contract_roundtrip z none = refl
contract_roundtrip z (some c) =
    rw
      (
        is_text-null c.number,
        is_text-null c.signed_by,
        is_text-null c.signature_ref,
        is_text-null c.document_url,
        text_of-null c.number,
        text_of-null c.signed_by,
        text_of-null c.signature_ref,
        text_of-null c.document_url,
        is_set-rounded z c.prepared_at,
        is_set-rounded z c.signed_at,
      )
      (turned (is_empty c.number) (is_set c.prepared_at) (is_set c.signed_at) (is_empty c.signed_by)
        (is_empty c.signature_ref) (is_empty c.document_url) _ _)

row_params-to_row : (z : Timestamptz) (d : Deal) → row_params (deal_to_row z d) ≡ kept_deal z d
unfolding row_params deal_to_row
row_params-to_row z d = rw (contract_roundtrip z d.contract) refl

find-upsert_row :
    (new : DealRow) (rows : List DealRow) → find_row new.deal_id (upsert_row new rows) ≡ some new
unfolding find_row upsert_row
find-upsert_row new [] = rw (str_eq_refl new.deal_id) refl
find-upsert_row new (r ∷ rows) = elim (Bool-cases (str_eq r.deal_id new.deal_id)) [
  | inl same ↦ rw (same, str_eq_refl new.deal_id) refl
  | inr other' ↦ rw (other', other') (find-upsert_row new rows)
]

pub kept-IsValid :
    (z : Timestamptz) (d : Deal) → IsValid d → 0 < z.rounded d.created_at → IsValid (kept_deal z d)
kept-IsValid z d v h = ground arith

pub get-save :
    (z : Timestamptz) (d : Deal) (rows : List DealRow)
    → IsValid d
    → 0 < z.rounded d.created_at
    → get_deal d.id (save_deal z d rows) ≡ ok (kept_deal z d)
unfolding get_deal save_deal scan_deal
get-save z d rows v h =
    let found = find-upsert_row (deal_to_row z d) rows in
    let reloaded = (rehydrate_roundtrip (kept_deal z d)).0 (kept-IsValid z d v h) in
    ap scan_deal found ∙ rw (row_params-to_row z d, reloaded) refl

-- What `has_contract` and `has_signed_contract` ask of a contract.
abbrev is_prepared : Option ContractInfo → Bool
is_prepared none = false
is_prepared (some c) = is_set c.prepared_at

abbrev is_signed : Option ContractInfo → Bool
is_signed none = false
is_signed (some c) = is_set c.signed_at

void_unset :
    (c : ContractInfo)
    → is_void c ≡ true
    → (is_set c.prepared_at ≡ false) × (is_set c.signed_at ≡ false)
void_unset c h = ground arith

kept_marks :
    (z : Timestamptz) (c : Option ContractInfo)
    → (is_prepared (kept_contract z c) ≡ is_prepared c)
      × (is_signed (kept_contract z c) ≡ is_signed c)
kept_marks z none = (refl, refl)
kept_marks z (some c) = elim (Bool-cases (is_void c)) [
  | inl void ↦ let (p, q) = void_unset c void in rw void (sym p, sym q)
  | inr full ↦ rw full (is_set-rounded z c.prepared_at, is_set-rounded z c.signed_at)
]

pub kept_guards :
    (z : Timestamptz) (d : Deal)
    → (has_contract (kept_deal z d) ≡ has_contract d)
      × (has_signed_contract (kept_deal z d) ≡ has_signed_contract d)
unfolding has_contract has_signed_contract
kept_guards z d = kept_marks z d.contract

kept_time :
    (z : Timestamptz) (t : Option Time) → rounded_time z (rounded_time z t) ≡ rounded_time z t
kept_time z none = refl
kept_time z (some t) = ap some (z.rounded-idem t)

kept_again_contract :
    (z : Timestamptz) (c : Option ContractInfo)
    → kept_contract z (kept_contract z c) ≡ kept_contract z c
kept_again_contract z none = refl
kept_again_contract z (some c) = elim (Bool-cases (is_void c)) [
  | inl void ↦ rw void refl
  | inr full ↦
      let rounded : ContractInfo = record c {
        prepared_at = rounded_time z c.prepared_at;
        signed_at = rounded_time z c.signed_at;
      } in
      let full' : is_void rounded ≡ false =
        rw (is_set-rounded z c.prepared_at, is_set-rounded z c.signed_at) full in
      rw (full, full', kept_time z c.prepared_at, kept_time z c.signed_at) refl
]

pub kept_again : (z : Timestamptz) (d : Deal) → kept_deal z (kept_deal z d) ≡ kept_deal z d
kept_again z d =
    rw
      (
        z.rounded-idem d.created_at,
        kept_time z d.confirmed_at,
        kept_time z d.contract_sign_deadline,
        kept_time z d.payment_deadline,
        kept_again_contract z d.contract,
      )
      refl
