-- ===== src/Catalog/Types.antt =====
-- The data of internal/catalog/domain: errors, statuses, the schedule, the snapshot and the events.
use unbelievable_fish.Prelude.{
  ℕ, ◌+◌, ◌*◌, ◌%◌, ◌^◌, Bool, true, false, ◌&&◌, ◌||◌, not, String, Option, none, some, leb, ◌==◌,
}
use unbelievable_fish.Prelude.Int.{ℤ, pos, pos_part, ltb_ℤ}
use unbelievable_fish.Prelude.Time.{Time, is_zero}

pub data Error : Type 0 where
  invalid_identifier invalid_enum invalid_quantity forbidden_state_transition : Error
  publishing_rule_violation modification_not_allowed invalid_price invalid_schedule : Error
  already_assigned auction_id_required invalid_weight invalid_unit : Error

-- A float64 is its 64 bits.
abbrev pub Float64 : Type 0
Float64 = ℕ

-- `x <= 0` on a float64: not for a NaN, which is what has a magnitude above that of infinity.
unfoldable pub is_not_positive : Float64 → Bool
is_not_positive bits =
    leb (bits % 2 ^ 63) (2047 * 2 ^ 52) && (leb (2 ^ 63) bits || bits % 2 ^ 63 == 0)

-- A status is a string; `other` is any string that is none of the constants.
pub data ProductStatus : Type 0 where
  draft published unpublished : ProductStatus
  other : String → ProductStatus

pub data LotStatus : Type 0 where
  draft published closed cancelled : LotStatus
  other : String → LotStatus

-- `lotTransitions` and `canTransitionLot`
abbrev pub can_transition_lot : LotStatus → LotStatus → Bool
can_transition_lot LotStatus.draft LotStatus.published = true
can_transition_lot LotStatus.published LotStatus.closed = true
can_transition_lot LotStatus.published LotStatus.cancelled = true
can_transition_lot _ _ = false

-- The duration is an int64 of nanoseconds.
pub record AuctionSchedule : Type 0 where
  pub starts_at : Time
  pub duration : ℤ

-- `IsValid` of a schedule, which may be nil.
unfoldable pub is_valid_schedule : Option AuctionSchedule → Bool
is_valid_schedule none = false
is_valid_schedule (some s) = not (is_zero s.starts_at) && ltb_ℤ (pos 0) s.duration

-- `EndsAt`, of a duration that is not negative.
unfoldable pub ends_at : AuctionSchedule → Time
ends_at s = s.starts_at + pos_part s.duration

pub record ProductSnapshot : Type 0 where
  pub product_id : String
  pub name : String
  pub weight : Float64
  pub unit : String
  pub size : String
  pub processing_type : String

-- The events, their fields in the order of events.go.
pub data Event : Type 0 where
  lot_auction_linked : String → String → Event
  product_created :
      String → String → String → Float64 → String → String → String → ProductStatus → Event
  product_updated : String → String → Float64 → String → String → String → ProductStatus → Event
  product_published product_unpublished : String → ProductStatus → Event
  lot_created : String → String → String → String → Float64 → LotStatus → Event
  lot_published :
      String → String → String → String → ProductSnapshot → ℤ → ℤ → Time → Time → LotStatus → Event
  lot_unpublished : String → LotStatus → Event
  lot_closed : String → ℤ → LotStatus → Event
  lot_price_updated : String → String → ℤ → LotStatus → Event
