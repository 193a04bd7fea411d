-- ===== src/Catalog/Tests.antt =====
-- The theorems on lots and products (internal/catalog/domain) at concrete inputs.
use unbelievable_fish.Prelude.{◌*◌, ◌^◌, ◌+◌, ◌≤◌, ◌≡◌, refl, true, List, [], ◌∷◌, String, some, ok}
use unbelievable_fish.Prelude.Int.{pos}
use unbelievable_fish.Prelude.Text.{is_empty, str_eq}
use unbelievable_fish.Prelude.Time.{hour}
use unbelievable_fish.Prelude.Trim.{trim_space, trim_left, trim_right, is_blank_text}
use unbelievable_fish.Catalog.Types.{
  Float64, is_not_positive, is_valid_schedule, ProductStatus, LotStatus, AuctionSchedule,
  ProductSnapshot, Event,
}
use unbelievable_fish.Catalog.Product.{Product, new_product, restore_product}
use unbelievable_fish.Catalog.Lot.{Lot, new_lot}
use unbelievable_fish.Catalog.Lots
use unbelievable_fish.Catalog.Lots.{
  assign_it, publish_it, unpublish_it, close_it, update_it, run_commands, IsValid, IsSameOffer,
}
use unbelievable_fish.Catalog.Life.{
  lot_kept, events_once, run_events, publishes, publishes_left, ends, ends_left,
}
use unbelievable_fish.Catalog.Products
use unbelievable_fish.Catalog.Products.{IsSameOwner, product_kept, publish-unpublish}

-- 10 as a float64.
abbrev ten : Float64
ten = 1026 * 2 ^ 52 + 2 ^ 50

abbrev tomorrow : AuctionSchedule
tomorrow = record { starts_at = 24 * hour; duration = pos hour }

abbrev cod : ProductSnapshot
cod = record {
  product_id = "p1";
  name = "Cod";
  weight = ten;
  unit = "kg";
  size = "M";
  processing_type = "frozen";
}

abbrev sample_lot : LotStatus → String → Lot
sample_lot status auction = record {
  lot_id = "l1";
  product_id = "p1";
  seller_company_id = "acme";
  auction_id = auction;
  photo = "cod.png";
  quantity = ten;
  status = status;
  product = record {
    product_id = "";
    name = "";
    weight = 0;
    unit = "";
    size = "";
    processing_type = "";
  };
  start_price = pos 100;
  min_bid_step = pos 10;
  final_price = pos 100;
  cur_price = pos 100;
  auction_schedule = tomorrow;
}

abbrev sample_events : List Event
sample_events = Event.lot_created "l1" "p1" "acme" "cod.png" ten LotStatus.draft ∷ []

lot_made :
    new_lot "l1" "p1" "acme" " cod.png" ten (pos 100) (pos 10) (some tomorrow)
    ≡ ok (sample_lot LotStatus.draft "", sample_events)
unfolding new_lot is_blank_text trim_space trim_left trim_right is_empty str_eq is_not_positive
    is_valid_schedule
lot_made = refl

abbrev sample_run : List Lots.Command
sample_run = publish_it true cod ∷ update_it (pos 120) ∷ close_it (pos 150) ∷ unpublish_it ∷ []

lot_kept_example :
    IsValid (run_commands sample_run (sample_lot LotStatus.draft ""))
    × IsSameOffer
        (sample_lot LotStatus.draft "")
        (run_commands sample_run (sample_lot LotStatus.draft ""))
lot_kept_example =
    lot_kept "l1" "p1" "acme" " cod.png" ten (pos 100) (pos 10) (some tomorrow)
      (sample_lot LotStatus.draft "") sample_events sample_run lot_made

events_once_example :
    (publishes (run_events sample_run (sample_lot LotStatus.draft "a1"))
      ≤ publishes_left LotStatus.draft)
    × (ends (run_events sample_run (sample_lot LotStatus.draft "a1")) ≤ ends_left LotStatus.draft)
events_once_example = events_once sample_run (sample_lot LotStatus.draft "a1")

abbrev sample_product : ProductStatus → Product
sample_product status = record {
  product_id = "p1";
  fish_id = "f1";
  seller_company_id = "acme";
  weight = ten;
  size = "M";
  unit = "kg";
  processing_type = "frozen";
  status = status;
}

abbrev product_events : List Event
product_events =
    Event.product_created "p1" "acme" "f1" ten "kg" "M" "frozen" ProductStatus.draft ∷ []

product_made :
    new_product "p1" "f1" "acme" ten "kg " "M" "frozen"
    ≡ ok (sample_product ProductStatus.draft, product_events)
unfolding new_product restore_product is_blank_text trim_space trim_left trim_right is_empty str_eq
    is_not_positive
product_made = refl

abbrev product_run : List Products.Command
product_run =
    Products.publish_it ∷ Products.update_it "f2" ten "kg" "L" "fresh" ∷ Products.unpublish_it ∷ []
