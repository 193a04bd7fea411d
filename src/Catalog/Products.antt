-- ===== src/Catalog/Products.antt =====
-- The life of a product (internal/catalog/domain/product.go).
use unbelievable_fish.Prelude.{
  ◌≡◌, refl, ◌∙◌, true, false, ◌||◌, List, [], ◌∷◌, String, ok, Method, arith,
}
use unbelievable_fish.Prelude.Trim.{is_blank_text}
use unbelievable_fish.Catalog.Types.{Error, Float64, is_not_positive, Event}
use unbelievable_fish.Catalog.Product.{
  Product, restore_product, new_product, update, publish, unpublish, is_draft, is_published,
}

pub data Command : Type 0 where
  update_it : String → Float64 → String → String → String → Command
  publish_it unpublish_it : Command

unfoldable pub run_command : Command → Method Error Product (List Event)
run_command (update_it fish weight unit size processing) = update fish weight unit size processing
run_command publish_it = publish
run_command unpublish_it = unpublish

unfoldable pub run_commands : List Command → Product → Product
unfolding run_command
run_commands [] p = p
run_commands (c ∷ cs) p = run_commands cs (run_command c p).0

-- A product under its operations.
pub record IsValid (p : Product) : Type 0 where
  pub fish_there : is_blank_text p.fish_id ≡ false
  pub weight_good : is_not_positive p.weight ≡ false
  pub in_use : (is_draft p.status || is_published p.status) ≡ true

command-IsValid : (c : Command) (p : Product) → IsValid p → IsValid (run_command c p).0
unfolding run_command update publish unpublish
command-IsValid (update_it f w u s r) p v =
    let a = v.fish_there in let b = v.weight_good in let k = v.in_use in ground arith
command-IsValid publish_it p v =
    let a = v.fish_there in let b = v.weight_good in let k = v.in_use in ground arith
command-IsValid unpublish_it p v =
    let a = v.fish_there in let b = v.weight_good in let k = v.in_use in ground arith

-- The product's own id and its seller, which no operation changes.
abbrev pub IsSameOwner : Product → Product → Type 0
IsSameOwner p p' = (p'.product_id ≡ p.product_id) × (p'.seller_company_id ≡ p.seller_company_id)

command-IsSameOwner : (c : Command) (p : Product) → IsSameOwner p (run_command c p).0
unfolding run_command update publish unpublish
command-IsSameOwner (update_it f w u s r) p = ground arith
command-IsSameOwner publish_it p = ground arith
command-IsSameOwner unpublish_it p = ground arith

run-IsValid : (cs : List Command) (p : Product) → IsValid p → IsValid (run_commands cs p)
unfolding run_commands
run-IsValid [] p v = v
run-IsValid (c ∷ cs) p v = run-IsValid cs (run_command c p).0 (command-IsValid c p v)

run-IsSameOwner : (cs : List Command) (p : Product) → IsSameOwner p (run_commands cs p)
unfolding run_commands
run-IsSameOwner [] p = (refl, refl)
run-IsSameOwner (c ∷ cs) p =
    let (i, s) = command-IsSameOwner c p in
    let (i', s') = run-IsSameOwner cs (run_command c p).0 in (i' ∙ i, s' ∙ s)

new_product-IsValid :
    (id fish seller : String) (weight : Float64) (unit size processing : String) (p : Product)
    (es : List Event)
    → new_product id fish seller weight unit size processing ≡ ok (p, es)
    → IsValid p
unfolding new_product restore_product
new_product-IsValid id fish seller weight unit size processing p es h = ground arith

-- A product that is made keeps its id and its seller under any operations, has a fish and a weight
-- that is not zero or below, and is a draft or published: no operation leaves the status UNPUBLISHED.
pub product_kept :
    (id fish seller : String) (weight : Float64) (unit size processing : String) (p : Product)
    (es : List Event) (cs : List Command)
    → new_product id fish seller weight unit size processing ≡ ok (p, es)
    → IsValid (run_commands cs p) × IsSameOwner p (run_commands cs p)
product_kept id fish seller weight unit size processing p es cs h = (
  run-IsValid cs p (new_product-IsValid id fish seller weight unit size processing p es h),
  run-IsSameOwner cs p,
)

-- A draft that is published and taken back is the product that it was, and so is a published product
-- that is taken back and published.
pub publish-unpublish :
    (p : Product)
    → (is_draft p.status ≡ true → (unpublish (publish p).0).0 ≡ p)
      × (is_published p.status ≡ true → (publish (unpublish p).0).0 ≡ p)
unfolding publish unpublish
publish-unpublish p = (λ h. ground arith, λ h. ground arith)
