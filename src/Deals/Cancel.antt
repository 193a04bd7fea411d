-- ===== src/Deals/Cancel.antt =====
-- `Cancel` of internal/deals/deal/deal.go.
use unbelievable_fish.Prelude.{
  Bool, true, false, ◌&&◌, not, List, [], ◌∷◌, String, Method, pure, fail_if, ◌>>=◌, ◌>>◌, ◌||◌,
  if◌then◌else◌,
}
use unbelievable_fish.Prelude.Time.{Time}
use unbelievable_fish.Prelude.Text.{is_empty, str_eq}
use unbelievable_fish.Deals.Types.{
  DealStatus, pending, confirmed, contract_prepared, contract_signed, payment_requested, completed,
  cancelled, Error, Event, Deal,
}
use unbelievable_fish.Deals.Status.{
  status_eq, reason_forfeits_winner_deposit, normalize_winner_forfeit_reason,
  reason_payment_timeout, reason_buyer_initiated_cancel,
}
use unbelievable_fish.Deals.Deal.{is_auction, set_status, this}

unfoldable pub status_eligible_for_buyer_initiated_deposit_forfeit : DealStatus → Bool
status_eligible_for_buyer_initiated_deposit_forfeit pending = true
status_eligible_for_buyer_initiated_deposit_forfeit confirmed = true
status_eligible_for_buyer_initiated_deposit_forfeit contract_prepared = true
status_eligible_for_buyer_initiated_deposit_forfeit contract_signed = true
status_eligible_for_buyer_initiated_deposit_forfeit payment_requested = true
status_eligible_for_buyer_initiated_deposit_forfeit _ = false

-- The statuses that the switch of the payment timeout lets pass.
unfoldable pub awaits_payment : DealStatus → Bool
awaits_payment confirmed = true
awaits_payment contract_prepared = true
awaits_payment contract_signed = true
awaits_payment payment_requested = true
awaits_payment _ = false

-- `cancelEv`
abbrev pub cancel_event : Deal → String → String → Time → Event
cancel_event d reason by now = Event.deal_cancelled d.id reason by now

-- `WinnerRejected` for the buyer of the deal.
abbrev pub rejected_event : Deal → Time → String → Event
rejected_event d now reason =
    Event.winner_rejected d.auction_id d.id d.auction_id d.customer_id now reason

-- The end of each branch: the deal is cancelled, and the buyer's deposit is forfeited.
abbrev pub cancel_and_forfeit :
    Deal → String → String → Time → String → Method Error Deal (List Event)
cancel_and_forfeit d reason by now forfeit = do
  set_status cancelled
  pure (cancel_event d reason by now ∷ rejected_event d now forfeit ∷ [])

unfoldable pub cancel_forfeiting : Deal → String → String → Time → Method Error Deal (List Event)
unfolding status_eq is_empty normalize_winner_forfeit_reason
cancel_forfeiting d reason by now = do
  fail_if (not (is_auction d.type_name)) Error.winner_forfeit_only_auction
  fail_if (not (status_eq d.status pending)) Error.cannot_decline_winner_after_confirm
  fail_if (is_empty d.auction_id) Error.auction_id_required
  cancel_and_forfeit d reason by now (normalize_winner_forfeit_reason reason)

unfoldable pub cancel_for_payment_timeout :
    Deal → String → String → Time → Method Error Deal (List Event)
unfolding is_empty awaits_payment
cancel_for_payment_timeout d reason by now = do
  fail_if (not (is_auction d.type_name)) Error.winner_forfeit_only_auction
  fail_if (is_empty d.auction_id) Error.auction_id_required
  fail_if (not (awaits_payment d.status)) Error.cannot_cancel_for_payment_timeout
  cancel_and_forfeit d reason by now reason_payment_timeout

-- The buyer of an auction deal gives it up before it is paid.
unfoldable pub is_buyer_initiated : Deal → String → Bool
unfolding is_empty str_eq status_eligible_for_buyer_initiated_deposit_forfeit
is_buyer_initiated d by =
    is_auction d.type_name
    && not (is_empty d.auction_id)
    && str_eq by d.customer_id
    && status_eligible_for_buyer_initiated_deposit_forfeit d.status

abbrev pub cancel_plainly : Deal → String → String → Time → Method Error Deal (List Event)
cancel_plainly d reason by now = do set_status cancelled; pure (cancel_event d reason by now ∷ [])

unfoldable pub cancel : String → String → Time → Method Error Deal (List Event)
unfolding status_eq reason_forfeits_winner_deposit cancel_forfeiting cancel_for_payment_timeout
    is_buyer_initiated
cancel reason by now = do
  d ← this
  fail_if (status_eq d.status completed || status_eq d.status cancelled) Error.cannot_cancel_deal
  if reason_forfeits_winner_deposit reason
      then cancel_forfeiting d reason by now
      else if str_eq reason reason_payment_timeout
      then cancel_for_payment_timeout d reason by now
      else if is_buyer_initiated d by
      then cancel_and_forfeit d reason by now reason_buyer_initiated_cancel
      else cancel_plainly d reason by now
