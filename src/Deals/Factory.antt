-- ===== src/Deals/Factory.antt =====
-- internal/deals/deal/projection.go and factory.go: how an auction becomes a deal. `id` is what
-- `generateID` returns.
use unbelievable_fish.Prelude.{
  ◌*◌, Bool, true, false, not, List, [], ◌∷◌, String, Result, ok, pure, gets, modify, fail_if,
  check, ◌then_also◌, unless_nil, ◌>>=◌, ◌>>◌, Method, Option, none, some,
}
use unbelievable_fish.Prelude.Int.{ℤ, pos, leb_ℤ}
use unbelievable_fish.Prelude.Time.{Time, is_zero, add, hour}
use unbelievable_fish.Prelude.Text.{is_empty}
use unbelievable_fish.Deals.Types.{
  pending, DealType, Error, Event, Deal, ProductSnapshot, DealProjection, ProjectionStatus,
}

unfoldable pub new_deal_projection : String → String → ProductSnapshot → ℤ → Time → DealProjection
new_deal_projection auction supplier snapshot price published = record {
  auction_id = auction;
  supplier_id = supplier;
  product_snapshot = snapshot;
  start_price = price;
  published_at = published;
  status = ProjectionStatus.active;
}

unfoldable pub can_be_converted : DealProjection → Bool
can_be_converted p = elim p.status [ ProjectionStatus.active ↦ true | _ ↦ false ]

unfoldable pub mark_as_converted : DealProjection → DealProjection
mark_as_converted p = record p { status = ProjectionStatus.converted }

unfoldable pub mark_as_cancelled : DealProjection → DealProjection
mark_as_cancelled p = record p { status = ProjectionStatus.cancelled }

-- The `&Deal{…}` of both constructors.
abbrev pub new_deal : String → String → String → String → ProductSnapshot → ℤ → Time → Deal
new_deal id auction supplier customer snapshot price won_at = record {
  id = id;
  customer_id = customer;
  supplier_id = supplier;
  auction_id = auction;
  quantity = pos 1;
  unit_price = price;
  status = pending;
  type_name = DealType.auction;
  created_at = won_at;
  confirmed_at = none;
  contract_sign_deadline = some (add won_at (24 * hour));
  payment_deadline = none;
  contract = none;
  product_snapshot = snapshot;
}

abbrev pub created_event : Deal → Event
created_event d =
    Event.deal_created d.id d.auction_id d.customer_id d.supplier_id d.product_snapshot d.unit_price
      d.created_at

unfoldable pub convert :
    String → String → ℤ → Time → Method Error DealProjection (Deal × List Event)
unfolding can_be_converted is_empty mark_as_converted
convert id winner price won_at = do
  p ← gets (λ (x : DealProjection). x)
  fail_if (not (can_be_converted p)) Error.projection_not_active
  fail_if (is_empty winner) Error.winner_company_required
  fail_if (leb_ℤ price (pos 0)) Error.price_must_be_positive
  modify mark_as_converted
  let d = new_deal id p.auction_id p.supplier_id winner p.product_snapshot price won_at
  pure (d, created_event d ∷ [])

unfoldable pub create_from_projection :
    String → String → ℤ → Time → Method Error (Option DealProjection) (Deal × List Event)
unfolding convert
create_from_projection id winner price won_at =
    unless_nil Error.projection_required (convert id winner price won_at)

unfoldable pub create_from_selection :
    String
    → String
    → String
    → ProductSnapshot
    → String
    → ℤ
    → Time
    → Result Error (Deal × List Event)
unfolding is_empty
create_from_selection id auction supplier snapshot winner price won_at =
    let d = new_deal id auction supplier winner snapshot price won_at in
    check (is_empty auction) Error.auction_id_required
    then_also check (is_empty supplier) Error.supplier_id_required
    then_also check (is_empty winner) Error.winner_company_required
    then_also check (leb_ℤ price (pos 0)) Error.price_must_be_positive
    then_also check (is_zero won_at) Error.created_at_required
    then_also ok (d, created_event d ∷ [])
