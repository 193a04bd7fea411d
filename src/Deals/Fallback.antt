-- ===== src/Deals/Fallback.antt =====
-- The candidates of an auction, tried in turn (internal/deals/deal/selection.go).
use unbelievable_fish.Prelude.{
  ℕ, zero, suc, ◌+◌, ◌≤◌, ◌<◌, ◌≡◌, refl, ◌≢◌, ◌⊎◌, ◌∙◌, true, false, List, String, length, arith,
  ok, err, is_ok, get_elem?, Succeeds, none,
}
use unbelievable_fish.Prelude.Int.{ℤ}
use unbelievable_fish.Prelude.Time.{Time}
use unbelievable_fish.Prelude.Text.{is_empty, str_eq_iff, str_eq_refl}
use native.Mathlib.Nat.{zero-add}
use unbelievable_fish.Deals.Types.{Error, ProductSnapshot, WinnerSelection, WinnerSelectionStatus}
use unbelievable_fish.Deals.Selection.{
  new_winner_selection, current_candidate, advance, mark_current_confirmed,
  reopen_after_payment_timeout, mark_finalized, candidate_at, has_candidate,
}

unfoldable pub advance_times : ℕ → WinnerSelection → WinnerSelection
unfolding advance
advance_times zero s = s
advance_times (suc n) s = advance_times n (advance s).0

advance-step :
    (s : WinnerSelection)
    → s.status ≡ WinnerSelectionStatus.active
    → s.current_index + 1 < length s.candidates
    → let (s', more) = advance s in
      (more ≡ true)
      × (s'.status ≡ WinnerSelectionStatus.active)
      × (s'.current_index ≡ s.current_index + 1)
      × (s'.candidates ≡ s.candidates)
unfolding advance
advance-step s h k = ground arith

advance_last :
    (s : WinnerSelection)
    → s.status ≡ WinnerSelectionStatus.active
    → length s.candidates ≤ s.current_index + 1
    → let (s', more) = advance s in
      (more ≡ false) × (s'.status ≡ WinnerSelectionStatus.exhausted) × (s'.deal_id ≡ "")
unfolding advance
advance_last s h k = ground arith

-- While there are candidates left, each call of `Advance` goes on to the next.
advance_times-active :
    (n : ℕ) (s : WinnerSelection)
    → s.status ≡ WinnerSelectionStatus.active
    → s.current_index + n < length s.candidates
    → let s' = advance_times n s in
      (s'.status ≡ WinnerSelectionStatus.active)
      × (s'.current_index ≡ s.current_index + n)
      × (s'.candidates ≡ s.candidates)
unfolding advance_times
advance_times-active zero s h k = (h, omega arith, refl)
advance_times-active (suc n) s h k =
    let step = advance-step s h (omega arith) in
    let rest = advance_times-active n (advance s).0 step.1 (rw (step.2, step.3) (omega arith)) in
    (rest.0, omega (arith, rest.1, step.2), rest.2 ∙ step.3)

advance_times-suc :
    (n : ℕ) (s : WinnerSelection) → advance_times (suc n) s ≡ (advance (advance_times n s)).0
unfolding advance_times
advance_times-suc zero s = refl
advance_times-suc (suc n) s = advance_times-suc n (advance s).0

in_turn :
    (n : ℕ) (s : WinnerSelection)
    → s.status ≡ WinnerSelectionStatus.active
    → s.current_index + n < length s.candidates
    → current_candidate (advance_times n s)
      ≡ candidate_at (get_elem? s.candidates (s.current_index + n))
unfolding current_candidate
in_turn n s h k =
    let (live, index, same) = advance_times-active n s h k in rw (live, index, same) refl

at_the_end :
    (n : ℕ) (s : WinnerSelection)
    → s.status ≡ WinnerSelectionStatus.active
    → s.current_index + n ≡ length s.candidates
    → 0 < n
    → ((advance_times n s).status ≡ WinnerSelectionStatus.exhausted)
      × (current_candidate (advance_times n s) ≡ none)
      × ((advance_times n s).deal_id ≡ "")
unfolding current_candidate
at_the_end zero s h k p = elim p [ ]
at_the_end (suc n) s h k p =
    let (live, index, same) = advance_times-active n s h (omega arith) in
    let last = advance_last (advance_times n s) live (rw (index, same) (omega arith)) in
    rw (advance_times-suc n s) (last.1, rw last.1 refl, last.2)

-- A new selection offers the auction to its candidates in their order, one for each `Advance`; after
-- the last of them it is exhausted and points to no deal.
pub candidates_in_turn :
    (auction supplier : String) (candidates : List String) (price : ℤ) (won_at : Time)
    (snapshot : ProductSnapshot) (n : ℕ)
    → n < length candidates
    → let s = new_winner_selection auction candidates price won_at supplier snapshot in
      (current_candidate (advance_times n s) ≡ candidate_at (get_elem? candidates n))
      × ((advance_times (length candidates) s).status ≡ WinnerSelectionStatus.exhausted)
      × (current_candidate (advance_times (length candidates) s) ≡ none)
      × ((advance_times (length candidates) s).deal_id ≡ "")
unfolding new_winner_selection
candidates_in_turn auction supplier candidates price won_at snapshot n h =
    let s = new_winner_selection auction candidates price won_at supplier snapshot in
    let offered = in_turn n s refl (omega arith) in
    let (over, nobody, no_deal) =
      at_the_end (length candidates) s refl (omega arith) (omega arith) in
    (rw zero-add at offered, over, nobody, no_deal)

confirm_success :
    (deal : String) (s : WinnerSelection)
    → Succeeds (mark_current_confirmed deal s).1
    → ((mark_current_confirmed deal s).0
        ≡ record s { status = WinnerSelectionStatus.confirmed_pending_payment; deal_id = deal })
      × (s.status ≡ WinnerSelectionStatus.active)
      × (is_empty deal ≡ false)
      × (has_candidate s ≡ true)
unfolding mark_current_confirmed
confirm_success deal s h = ground (arith, str_eq_iff s.deal_id deal)

-- A selection that waits for the payment of a deal.
abbrev Waiting : String → WinnerSelection → WinnerSelection
Waiting deal s = record s {
  status = WinnerSelectionStatus.confirmed_pending_payment;
  deal_id = deal;
}

finalize_waiting :
    (deal : String) (s : WinnerSelection)
    → s.status ≡ WinnerSelectionStatus.active
    → is_empty deal ≡ false
    → has_candidate s ≡ true
    → mark_finalized deal (Waiting deal s)
      ≡ (record (Waiting deal s) { status = WinnerSelectionStatus.finalized }, ok tt)
unfolding mark_finalized
finalize_waiting deal s a n c = ground (arith, str_eq_refl deal)

-- A confirmation that fails for want of a candidate has written the deal id all the same; any other
-- failure leaves the selection as it was.
pub confirm_failure :
    (deal : String) (s : WinnerSelection)
    → is_ok (mark_current_confirmed deal s).1 ≡ false
    → ((mark_current_confirmed deal s).0 ≡ s)
      ⊎ (((mark_current_confirmed deal s).0 ≡ record s { deal_id = deal })
          × ((mark_current_confirmed deal s).1 ≡ err Error.no_available_winner_candidate)
          × (current_candidate s ≡ none))
unfolding mark_current_confirmed
confirm_failure deal s h = ground (arith, str_eq_iff s.deal_id deal)

finalize_again :
    (deal : String) (s : WinnerSelection)
    → s.deal_id ≡ deal
    → s.status ≡ WinnerSelectionStatus.finalized
    → is_empty deal ≡ false
    → mark_finalized deal s ≡ (s, ok tt)
unfolding mark_finalized
finalize_again deal s e f n = ground (arith, str_eq_iff s.deal_id deal)

finalize_stale :
    (deal : String) (s : WinnerSelection)
    → s.deal_id ≢ deal
    → is_ok (mark_finalized deal s).1 ≡ false
unfolding mark_finalized
finalize_stale deal s e = ground (arith, str_eq_iff s.deal_id deal)

-- Payment closes the selection: once the current candidate has confirmed a deal, finalizing that
-- deal succeeds and can be repeated without effect, and finalizing any other deal is an error.
pub finalize_lem :
    (deal deal' : String) (s : WinnerSelection)
    → deal ≢ deal'
    → Succeeds (mark_current_confirmed deal s).1
    → let s' = (mark_current_confirmed deal s).0 in
      let f = record s' { status = WinnerSelectionStatus.finalized } in
      (mark_finalized deal s' ≡ (f, ok tt))
      × (mark_finalized deal f ≡ (f, ok tt))
      × (is_ok (mark_finalized deal' s').1 ≡ false)
finalize_lem deal deal' s other h =
    let (e, a, n, c) = confirm_success deal s h in
    let t = Waiting deal s in
    rw e (
      finalize_waiting deal s a n c,
      finalize_again deal (record t { status = WinnerSelectionStatus.finalized }) refl refl n,
      finalize_stale deal' t other,
    )

reopen_waiting :
    (deal : String) (s : WinnerSelection)
    → s.status ≡ WinnerSelectionStatus.active
    → is_empty deal ≡ false
    → reopen_after_payment_timeout deal (Waiting deal s) ≡ (record s { deal_id = "" }, ok tt)
unfolding reopen_after_payment_timeout
reopen_waiting deal s a n = ground (arith, str_eq_refl deal)

-- A payment that times out undoes the confirmation: the selection is active again at the same
-- candidate and points to no deal, so that `Advance` can go on.
pub reopen_lem :
    (deal : String) (s : WinnerSelection)
    → Succeeds (mark_current_confirmed deal s).1
    → reopen_after_payment_timeout deal (mark_current_confirmed deal s).0
      ≡ (record s { deal_id = "" }, ok tt)
reopen_lem deal s h =
    let (e, a, n, c) = confirm_success deal s h in rw e (reopen_waiting deal s a n)
