-- ===== src/Catalog/Life.antt =====
-- Runs of operations on a lot (internal/catalog/domain/lot.go).
use unbelievable_fish.Prelude.{
  ◌≡◌, refl, ◌∙◌, ap, ◌≤◌, ◌+◌, ℕ, Bool, true, false, List, [], ◌∷◌, ◌++◌, String, Option, none,
  some, Result, ok, err, Succeeds, arith,
}
use unbelievable_fish.Prelude.Int.{ℤ, pos, ◌<ℤ◌}
use unbelievable_fish.Prelude.Trim.{is_blank_text}
use unbelievable_fish.Catalog.Types.{Error, Float64, LotStatus, AuctionSchedule, Event}
use unbelievable_fish.Catalog.Lot.{
  Lot, new_lot, assign_auction_id, publish, unpublish, close, update_current_price,
}
use unbelievable_fish.Catalog.Lots.{
  Command, assign_it, publish_it, unpublish_it, close_it, update_it, run_command, run_commands,
  IsValid, IsSameOffer, command-IsSameOffer, command_final_price, command_auction,
}

IsSameOffer-refl : (l : Lot) → IsSameOffer l l
IsSameOffer-refl l = (refl, refl, refl, refl, refl, refl, refl, refl)

IsSameOffer-trans : (a b c : Lot) → IsSameOffer a b → IsSameOffer b c → IsSameOffer a c
IsSameOffer-trans a b c (p1, p2, p3, p4, p5, p6, p7, p8) (q1, q2, q3, q4, q5, q6, q7, q8) =
    (q1 ∙ p1, q2 ∙ p2, q3 ∙ p3, q4 ∙ p4, q5 ∙ p5, q6 ∙ p6, q7 ∙ p7, q8 ∙ p8)

run-IsSameOffer : (cs : List Command) (l : Lot) → IsSameOffer l (run_commands cs l)
unfolding run_commands
run-IsSameOffer [] l = IsSameOffer-refl l
run-IsSameOffer (c ∷ cs) l =
    IsSameOffer-trans l (run_command c l).0 (run_commands cs (run_command c l).0)
      (command-IsSameOffer c l) (run-IsSameOffer cs (run_command c l).0)

run_prices :
    (cs : List Command) (l : Lot)
    → pos 0 <ℤ l.final_price
    → pos 0 <ℤ l.cur_price
    → (pos 0 <ℤ (run_commands cs l).final_price) × (pos 0 <ℤ (run_commands cs l).cur_price)
unfolding run_commands
run_prices [] l h k = (h, k)
run_prices (c ∷ cs) l h k =
    let (h', k') = command_final_price c l h k in run_prices cs (run_command c l).0 h' k'

offer-IsValid :
    (l l' : Lot)
    → IsValid l
    → IsSameOffer l l'
    → pos 0 <ℤ l'.final_price
    → pos 0 <ℤ l'.cur_price
    → IsValid l'
offer-IsValid l l' v (e1, e2, e3, e4, e5, e6, e7, e8) f c = record {
  ids_there = rw (e1, e2, e3) v.ids_there;
  quantity_good = rw e5 v.quantity_good;
  start_positive = rw e6 v.start_positive;
  step_positive = rw e7 v.step_positive;
  final_positive = f;
  cur_positive = c;
  schedule_good = rw e8 v.schedule_good;
}

new_lot-IsValid :
    (id product seller photo : String) (quantity : Float64) (start step : ℤ)
    (schedule : Option AuctionSchedule) (l : Lot) (es : List Event)
    → new_lot id product seller photo quantity start step schedule ≡ ok (l, es)
    → IsValid l
unfolding new_lot
new_lot-IsValid id product seller photo quantity start step none l es h = ground arith
new_lot-IsValid id product seller photo quantity start step (some s) l es h = ground arith

-- A lot that is made is valid, and stays so under any operations on it, whether they succeed or not,
-- and none of them changes the offer: the ids, the photo, the quantity, the start price, the step
-- and the schedule.
pub lot_kept :
    (id product seller photo : String) (quantity : Float64) (start step : ℤ)
    (schedule : Option AuctionSchedule) (l : Lot) (es : List Event) (cs : List Command)
    → new_lot id product seller photo quantity start step schedule ≡ ok (l, es)
    → IsValid (run_commands cs l) × IsSameOffer l (run_commands cs l)
lot_kept id product seller photo quantity start step schedule l es cs h =
    let v = new_lot-IsValid id product seller photo quantity start step schedule l es h in
    let same = run-IsSameOffer cs l in
    let (f, c) = run_prices cs l v.final_positive v.cur_positive in
    (offer-IsValid l (run_commands cs l) v same f c, same)

abbrev pub is_over : LotStatus → Bool
is_over LotStatus.closed = true
is_over LotStatus.cancelled = true
is_over _ = false

-- What counts of a lot that is closed or cancelled.
abbrev pub IsSameEnd : Lot → Lot → Type 0
IsSameEnd l l' =
    (l'.status ≡ l.status)
    × (l'.final_price ≡ l.final_price)
    × (l'.cur_price ≡ l.cur_price)
    × (l'.product ≡ l.product)

command_over : (c : Command) (l : Lot) → is_over l.status ≡ true → IsSameEnd l (run_command c l).0
unfolding run_command assign_auction_id publish unpublish close update_current_price
command_over (assign_it a) l h = ground arith
command_over (publish_it b p) l h = ground arith
command_over unpublish_it l h = ground arith
command_over (close_it p) l h = ground arith
command_over (update_it p) l h = ground arith

-- A lot that is closed or cancelled keeps its status, its prices and its product whatever is done to
-- it.
pub lot_final :
    (cs : List Command) (l : Lot) → is_over l.status ≡ true → IsSameEnd l (run_commands cs l)
unfolding run_commands
lot_final [] l h = (refl, refl, refl, refl)
lot_final (c ∷ cs) l h =
    let (s, f, p, r) = command_over c l h in
    let (s', f', p', r') = lot_final cs (run_command c l).0 (ap is_over s ∙ h) in
    (s' ∙ s, f' ∙ f, p' ∙ p, r' ∙ r)

auction_stays :
    (cs : List Command) (l : Lot)
    → is_blank_text l.auction_id ≡ false
    → (run_commands cs l).auction_id ≡ l.auction_id
unfolding run_commands
auction_stays [] l h = refl
auction_stays (c ∷ cs) l h =
    let e = command_auction c l h in
    auction_stays cs (run_command c l).0 (ap is_blank_text e ∙ h) ∙ e

assigned :
    (auction : String) (l : Lot)
    → Succeeds (assign_auction_id auction l).1
    → (is_blank_text auction ≡ false) × ((assign_auction_id auction l).0.auction_id ≡ auction)
unfolding assign_auction_id
assigned auction l h = ground arith

-- A lot is linked to one auction: after a link that succeeds, the lot has that auction whatever is
-- done to it.
pub auction_assigned_once :
    (auction : String) (cs : List Command) (l : Lot)
    → Succeeds (assign_auction_id auction l).1
    → (run_commands cs (assign_auction_id auction l).0).auction_id ≡ auction
auction_assigned_once auction cs l h =
    let (there, e) = assigned auction l h in
    auction_stays cs (assign_auction_id auction l).0 (ap is_blank_text e ∙ there) ∙ e

-- The events of a run, in order.
abbrev pub events_of : Result Error (List Event) → List Event
events_of (ok es) = es
events_of (err _) = []

unfoldable pub run_events : List Command → Lot → List Event
unfolding run_command
run_events [] l = []
run_events (c ∷ cs) l = events_of (run_command c l).1 ++ run_events cs (run_command c l).0

-- The number of events that publish the lot, and of those that end it.
abbrev pub publishes : List Event → ℕ
publishes [] = 0
publishes (Event.lot_published _ _ _ _ _ _ _ _ _ _ ∷ es) = 1 + publishes es
publishes (_ ∷ es) = publishes es

abbrev pub ends : List Event → ℕ
ends [] = 0
ends (Event.lot_closed _ _ _ ∷ es) = 1 + ends es
ends (Event.lot_unpublished _ _ ∷ es) = 1 + ends es
ends (_ ∷ es) = ends es

publishes-append : (es fs : List Event) → publishes (es ++ fs) ≡ publishes es + publishes fs
publishes-append [] fs = omega arith
publishes-append (e ∷ es) fs = let rest = publishes-append es fs in ground arith

ends-append : (es fs : List Event) → ends (es ++ fs) ≡ ends es + ends fs
ends-append [] fs = omega arith
ends-append (e ∷ es) fs = let rest = ends-append es fs in ground arith

-- How often a lot can still be published, and be ended.
abbrev pub publishes_left : LotStatus → ℕ
publishes_left LotStatus.draft = 1
publishes_left _ = 0

abbrev pub ends_left : LotStatus → ℕ
ends_left LotStatus.draft = 1
ends_left LotStatus.published = 1
ends_left _ = 0

command_counts :
    (c : Command) (l : Lot)
    → (publishes (events_of (run_command c l).1) + publishes_left (run_command c l).0.status
        ≤ publishes_left l.status)
      × (ends (events_of (run_command c l).1) + ends_left (run_command c l).0.status
          ≤ ends_left l.status)
unfolding run_command assign_auction_id publish unpublish close update_current_price
command_counts (assign_it a) l = ground arith
command_counts (publish_it b p) l = ground arith
command_counts unpublish_it l = ground arith
command_counts (close_it p) l = ground arith
command_counts (update_it p) l = ground arith

-- In any run of operations a lot is published once at most and ended, by closing or by unpublishing,
-- once at most, as the events tell: a lot that is no draft is not published again, and one that is
-- closed or cancelled is not ended again.
pub events_once :
    (cs : List Command) (l : Lot)
    → (publishes (run_events cs l) ≤ publishes_left l.status)
      × (ends (run_events cs l) ≤ ends_left l.status)
unfolding run_events
events_once [] l = (omega arith, omega arith)
events_once (c ∷ cs) l =
    let (p, e) = command_counts c l in
    let (p', e') = events_once cs (run_command c l).0 in
    let first = events_of (run_command c l).1 in
    let rest = run_events cs (run_command c l).0 in
    (
      omega (arith, publishes-append first rest, p, p'),
      omega (arith, ends-append first rest, e, e'),
    )
