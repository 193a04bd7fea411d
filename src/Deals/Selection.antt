-- ===== src/Deals/Selection.antt =====
-- internal/deals/deal/selection.go: the candidates of an auction, tried one after the other. A method
-- without suffix is what runs on a receiver that is not nil.
use unbelievable_fish.Prelude.{
  ◌+◌, Bool, true, false, not, List, String, length, ok, gets, modify, fail_if, unless_nil, ◌>>=◌,
  ◌>>◌, get_elem?, Method, Option, none, some, if◌then◌else◌, leb,
}
use unbelievable_fish.Prelude.Int.{ℤ}
use unbelievable_fish.Prelude.Time.{Time}
use unbelievable_fish.Prelude.Text.{str_eq, is_empty}
use unbelievable_fish.Deals.Types.{Error, ProductSnapshot, WinnerSelection, WinnerSelectionStatus}

unfoldable pub new_winner_selection :
    String → List String → ℤ → Time → String → ProductSnapshot → WinnerSelection
new_winner_selection auction candidates price won_at supplier snapshot = record {
  auction_id = auction;
  candidates = candidates;
  current_index = 0;
  status = WinnerSelectionStatus.active;
  final_price = price;
  won_at = won_at;
  supplier_id = supplier;
  product_snapshot = snapshot;
  deal_id = "";
}

abbrev pub is_active_selection : WinnerSelectionStatus → Bool
is_active_selection WinnerSelectionStatus.active = true
is_active_selection _ = false

abbrev pub is_awaiting_payment : WinnerSelectionStatus → Bool
is_awaiting_payment WinnerSelectionStatus.confirmed_pending_payment = true
is_awaiting_payment _ = false

abbrev pub is_finalized : WinnerSelectionStatus → Bool
is_finalized WinnerSelectionStatus.finalized = true
is_finalized _ = false

abbrev pub is_exhausted : WinnerSelectionStatus → Bool
is_exhausted WinnerSelectionStatus.exhausted = true
is_exhausted _ = false

-- The candidate at an index, unless it is out of range or empty.
unfoldable pub candidate_at : Option String → Option String
candidate_at none = none
candidate_at (some c) = if is_empty c then none else some c

-- `none` is the result `"", false`.
unfoldable pub current_candidate : WinnerSelection → Option String
unfolding candidate_at
current_candidate s =
    if is_exhausted s.status then none else candidate_at (get_elem? s.candidates s.current_index)

abbrev pub has_candidate : WinnerSelection → Bool
has_candidate s = elim (current_candidate s) [ none ↦ false | some _ ↦ true ]

unfoldable pub advance : WinnerSelection → WinnerSelection × Bool
advance s =
    if not (is_active_selection s.status)
    then (s, false)
    else if leb (length s.candidates) (s.current_index + 1)
    then (record s { status = WinnerSelectionStatus.exhausted; deal_id = "" }, false)
    else (record s { current_index = s.current_index + 1; deal_id = "" }, true)

abbrev this_selection : Method Error WinnerSelection WinnerSelection
this_selection = gets λ s. s

abbrev set_selection_status : WinnerSelectionStatus → Method Error WinnerSelection (Unit {0})
set_selection_status t = modify λ (s : WinnerSelection). record s { status = t }

-- A selection that points to no deal is pointed to this one; another is refused.
abbrev pub point_to : String → Method Error WinnerSelection (Unit {0})
point_to deal s =
    if is_empty s.deal_id
    then (record s { deal_id = deal }, ok tt)
    else fail_if (not (str_eq s.deal_id deal)) Error.stale_winner_selection s

unfoldable pub mark_current_confirmed : String → Method Error WinnerSelection (Unit {0})
unfolding current_candidate
mark_current_confirmed deal = do
  fail_if (is_empty deal) Error.deal_id_required
  s ← this_selection
  fail_if (not (is_active_selection s.status)) Error.winner_selection_not_active
  point_to deal
  t ← this_selection
  fail_if (not (has_candidate t)) Error.no_available_winner_candidate
  set_selection_status WinnerSelectionStatus.confirmed_pending_payment

unfoldable pub reopen_after_payment_timeout : String → Method Error WinnerSelection (Unit {0})
reopen_after_payment_timeout deal = do
  fail_if (is_empty deal) Error.deal_id_required
  s ← this_selection
  fail_if (not (is_awaiting_payment s.status)) Error.winner_selection_not_awaiting_payment
  fail_if (not (str_eq s.deal_id deal)) Error.winner_selection_deal_mismatch
  modify λ (x : WinnerSelection). record x { status = WinnerSelectionStatus.active; deal_id = "" }

unfoldable pub mark_finalized : String → Method Error WinnerSelection (Unit {0})
unfolding current_candidate
mark_finalized deal = do
  fail_if (is_empty deal) Error.deal_id_required
  s ← this_selection
  if is_finalized s.status
      then fail_if (not (str_eq s.deal_id deal)) Error.winner_selection_deal_mismatch
      else do
        fail_if (not (is_awaiting_payment s.status)) Error.winner_selection_not_awaiting_payment
        fail_if (not (str_eq s.deal_id deal)) Error.winner_selection_deal_mismatch
        fail_if (not (has_candidate s)) Error.no_available_winner_candidate
        set_selection_status WinnerSelectionStatus.finalized

unfoldable pub mark_exhausted : WinnerSelection → WinnerSelection
mark_exhausted s = record s { status = WinnerSelectionStatus.exhausted; deal_id = "" }

-- The methods on a pointer, which may be nil.
unfoldable pub current_candidate_ptr : Option WinnerSelection → Option String
unfolding current_candidate
current_candidate_ptr none = none
current_candidate_ptr (some s) = current_candidate s

unfoldable pub advance_ptr : Option WinnerSelection → Option WinnerSelection × Bool
unfolding advance
advance_ptr none = (none, false)
advance_ptr (some s) = let (s', more) = advance s in (some s', more)

unfoldable pub mark_current_confirmed_ptr :
    String → Method Error (Option WinnerSelection) (Unit {0})
unfolding mark_current_confirmed
mark_current_confirmed_ptr deal = unless_nil Error.selection_not_found (mark_current_confirmed deal)

unfoldable pub reopen_after_payment_timeout_ptr :
    String → Method Error (Option WinnerSelection) (Unit {0})
unfolding reopen_after_payment_timeout
reopen_after_payment_timeout_ptr deal =
    unless_nil Error.selection_not_found (reopen_after_payment_timeout deal)

unfoldable pub mark_finalized_ptr : String → Method Error (Option WinnerSelection) (Unit {0})
unfolding mark_finalized
mark_finalized_ptr deal = unless_nil Error.selection_not_found (mark_finalized deal)

unfoldable pub mark_exhausted_ptr : Option WinnerSelection → Option WinnerSelection
unfolding mark_exhausted
mark_exhausted_ptr none = none
mark_exhausted_ptr (some s) = some (mark_exhausted s)
