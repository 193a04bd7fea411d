-- ===== src/Deals/Creation.antt =====
-- How an auction that is won becomes a deal (factory.go and projection.go in internal/deals/deal).
use unbelievable_fish.Prelude.{◌<◌, ◌≡◌, ◌↔◌, false, [], ◌∷◌, String, arith, ok, err, Succeeds}
use unbelievable_fish.Prelude.Int.{ℤ, pos, ◌≤ℤ◌}
use unbelievable_fish.Prelude.Time.{Time}
use unbelievable_fish.Prelude.Text.{is_empty}
use unbelievable_fish.Deals.Types.{Error, ProductSnapshot, DealProjection}
use unbelievable_fish.Deals.Deal.{has_signed_contract, has_contract}
use unbelievable_fish.Deals.Factory.{
  mark_as_converted, new_deal, created_event, convert, create_from_selection,
}
use unbelievable_fish.Deals.Validity.{IsValid}
use unbelievable_fish.Deals.Contract.{IsSound}

convert_result :
    (id winner : String) (price : ℤ) (won_at : Time) (p : DealProjection)
    → Succeeds (convert id winner price won_at p).1
    → let d = new_deal id p.auction_id p.supplier_id winner p.product_snapshot price won_at in
      (convert id winner price won_at p ≡ (mark_as_converted p, ok (d, created_event d ∷ [])))
      × (is_empty winner ≡ false)
      × (pos 1 ≤ℤ price)
unfolding convert
convert_result id winner price won_at p h = (ground arith, ground arith, ground arith)

-- A conversion that succeeds makes a deal of the projection's auction, supplier and product with the
-- winning company and price, pending and without a contract, and announces it. The deal is valid if
-- the projection has its fields and the deal an id and a time, and its contract is sound.
pub convert_lem :
    (id winner : String) (price : ℤ) (won_at : Time) (p : DealProjection)
    → is_empty id ≡ false
    → is_empty p.auction_id ≡ false
    → is_empty p.supplier_id ≡ false
    → is_empty p.product_snapshot.name ≡ false
    → 0 < won_at
    → Succeeds (convert id winner price won_at p).1
    → let d = new_deal id p.auction_id p.supplier_id winner p.product_snapshot price won_at in
      (convert id winner price won_at p ≡ (mark_as_converted p, ok (d, created_event d ∷ [])))
      × IsValid d
      × IsSound d
unfolding has_contract has_signed_contract
convert_lem id winner price won_at p i a s n w h =
    let (e, named, positive) = convert_result id winner price won_at p h in
    (
      e,
      record {
        has_id = i;
        has_customer = named;
        has_supplier = s;
        has_auction = λ k. a;
        quantity_pos = omega arith;
        price_pos = positive;
        has_name = n;
        has_time = w;
      },
      ground arith,
    )

-- A deal made from a winner selection is valid exactly when it was given an id and the product has a
-- name: the constructor checks all the rest itself.
pub create_from_selection-IsValid :
    (id auction supplier winner : String) (snapshot : ProductSnapshot) (price : ℤ) (won_at : Time)
    → Succeeds (create_from_selection id auction supplier snapshot winner price won_at)
    → let d = new_deal id auction supplier winner snapshot price won_at in
      (create_from_selection id auction supplier snapshot winner price won_at
        ≡ ok (d, created_event d ∷ []))
      × (IsValid d ↔ ((is_empty id ≡ false) × (is_empty snapshot.name ≡ false)))
unfolding create_from_selection
create_from_selection-IsValid id auction supplier winner snapshot price won_at h =
    (ground arith, (λ v. (v.has_id, v.has_name), λ k. ground arith))

-- A projection becomes a deal once: after a conversion that succeeds, every other is refused as not
-- active and leaves it as it is.
pub convert_once :
    (id id' winner winner' : String) (price price' : ℤ) (won_at won_at' : Time) (p : DealProjection)
    → Succeeds (convert id winner price won_at p).1
    → let p' = (convert id winner price won_at p).0 in
      convert id' winner' price' won_at' p' ≡ (p', err Error.projection_not_active)
unfolding convert
convert_once id id' winner winner' price price' won_at won_at' p h = ground arith
