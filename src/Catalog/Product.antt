-- ===== src/Catalog/Product.antt =====
-- internal/catalog/domain/product.go.
use unbelievable_fish.Prelude.{
  Bool, true, false, ◌||◌, not, List, [], ◌∷◌, String, Result, ok, err, Method, gets, modify,
  fail_if, check, ◌then_also◌, ◌>>=◌, ◌>>◌,
}
use unbelievable_fish.Prelude.Trim.{trim_space, is_blank_text}
use unbelievable_fish.Catalog.Types.{Error, Float64, is_not_positive, ProductStatus, Event}

pub record Product : Type 0 where
  pub product_id : String
  pub fish_id : String
  pub seller_company_id : String
  pub weight : Float64
  pub size : String
  pub unit : String
  pub processing_type : String
  pub status : ProductStatus

unfoldable pub restore_product :
    String
    → String
    → String
    → Float64
    → String
    → String
    → String
    → ProductStatus
    → Result Error Product
unfolding is_not_positive
restore_product id fish seller weight unit size processing status =
    check (is_blank_text id || is_blank_text fish) Error.invalid_identifier
    then_also check (is_blank_text unit) Error.invalid_unit
    then_also check (is_blank_text processing) Error.invalid_enum
    then_also check (is_not_positive weight) Error.invalid_weight
    then_also ok (record {
      product_id = id;
      fish_id = fish;
      seller_company_id = trim_space seller;
      weight = weight;
      size = size;
      unit = trim_space unit;
      processing_type = trim_space processing;
      status = status;
    })

abbrev with_created : Result Error Product → Result Error (Product × List Event)
with_created (err e) = err e
with_created (ok p) = ok (
  p,
  Event.product_created p.product_id p.seller_company_id p.fish_id p.weight p.unit p.size
        p.processing_type p.status
      ∷ [],
)

unfoldable pub new_product :
    String
    → String
    → String
    → Float64
    → String
    → String
    → String
    → Result Error (Product × List Event)
unfolding restore_product
new_product id fish seller weight unit size processing =
    check (is_blank_text seller) Error.invalid_identifier
    then_also with_created
        (restore_product id fish seller weight unit size processing ProductStatus.draft)

abbrev pub is_draft : ProductStatus → Bool
is_draft ProductStatus.draft = true
is_draft _ = false

abbrev pub is_published : ProductStatus → Bool
is_published ProductStatus.published = true
is_published _ = false

unfoldable pub update :
    String → Float64 → String → String → String → Method Error Product (List Event)
unfolding is_not_positive
update fish weight unit size processing = do
  status ← gets λ (p : Product). p.status
  fail_if (not (is_draft status)) Error.modification_not_allowed
  fail_if (is_blank_text fish) Error.invalid_identifier
  fail_if (is_blank_text unit) Error.invalid_unit
  fail_if (is_blank_text processing) Error.invalid_enum
  fail_if (is_not_positive weight) Error.invalid_weight
  modify λ (p : Product). record p {
    fish_id = fish;
    weight = weight;
    unit = trim_space unit;
    size = size;
    processing_type = trim_space processing;
  }
  gets λ (p : Product).
      Event.product_updated p.product_id p.fish_id p.weight p.unit p.size p.processing_type p.status
      ∷ []

unfoldable pub publish : Method Error Product (List Event)
publish = do
  status ← gets λ (p : Product). p.status
  fail_if (not (is_draft status)) Error.forbidden_state_transition
  modify λ (p : Product). record p { status = ProductStatus.published }
  gets λ (p : Product). Event.product_published p.product_id p.status ∷ []

unfoldable pub unpublish : Method Error Product (List Event)
unpublish = do
  status ← gets λ (p : Product). p.status
  fail_if (not (is_published status)) Error.forbidden_state_transition
  modify λ (p : Product). record p { status = ProductStatus.draft }
  gets λ (p : Product). Event.product_unpublished p.product_id p.status ∷ []
