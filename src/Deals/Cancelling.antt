-- ===== src/Deals/Cancelling.antt =====
-- What `Cancel` of internal/deals/deal/deal.go does to a deal and to the buyer's deposit.
use unbelievable_fish.Prelude.{
  ◌≡◌, refl, ◌⊎◌, inl, inr, Bool, true, false, ◌||◌, List, [], ◌∷◌, String, arith, Result, ok, err,
  fail_if, ◌>>◌, Succeeds, Method, if◌then◌else◌,
}
use unbelievable_fish.Prelude.Time.{Time}
use unbelievable_fish.Prelude.Text.{str_eq, is_empty}
use unbelievable_fish.Deals.Types.{DealStatus, completed, cancelled, Error, Event, Deal}
use unbelievable_fish.Deals.Status.{
  status_eq, reason_payment_timeout, reason_buyer_initiated_cancel, reason_forfeits_winner_deposit,
  normalize_winner_forfeit_reason,
}
use unbelievable_fish.Deals.Deal.{is_auction}
use unbelievable_fish.Deals.Cancel.{
  cancel, cancel_forfeiting, cancel_for_payment_timeout, is_buyer_initiated, rejected_event,
  cancel_event, status_eligible_for_buyer_initiated_deposit_forfeit,
}
use unbelievable_fish.Deals.Cancel.{cancel_and_forfeit, cancel_plainly}

module _ (E : Deal → Deal × Result Error (List Event) → Type 0)
    (of_error : (e : Error) (d : Deal) → E d (d, err e)) where
  branch :
      (c : Bool) (m n : Method Error Deal (List Event)) (d : Deal)
      → (c ≡ true → E d (m d))
      → (c ≡ false → E d (n d))
      → E d ((if c then m else n) d)
  branch true m n d h k = h refl
  branch false m n d h k = k refl

  guarded :
      (c : Bool) (e : Error) (m : Method Error Deal (List Event)) (d : Deal)
      → E d (m d)
      → E d ((fail_if c e >> m) d)
  guarded true e m d h = of_error e d
  guarded false e m d h = h

  -- The branches of `Cancel`, behind its first guard.
  cancel_branches :
      (r b : String) (now : Time) (d : Deal)
      → (reason_forfeits_winner_deposit r ≡ true → E d (cancel_forfeiting d r b now d))
      → (reason_forfeits_winner_deposit r ≡ false
          → str_eq r reason_payment_timeout ≡ true
          → E d (cancel_for_payment_timeout d r b now d))
      → (reason_forfeits_winner_deposit r ≡ false
          → str_eq r reason_payment_timeout ≡ false
          → is_buyer_initiated d b ≡ true
          → E d (cancel_and_forfeit d r b now reason_buyer_initiated_cancel d))
      → (reason_forfeits_winner_deposit r ≡ false
          → str_eq r reason_payment_timeout ≡ false
          → is_buyer_initiated d b ≡ false
          → E d (cancel_plainly d r b now d))
      → E d (cancel r b now d)
  unfolding cancel
  cancel_branches r b now d forfeiting timeout buyer plain =
      let last =
        if is_buyer_initiated d b
        then cancel_and_forfeit d r b now reason_buyer_initiated_cancel
        else cancel_plainly d r b now in
      let later =
        if str_eq r reason_payment_timeout then cancel_for_payment_timeout d r b now else last in
      guarded (status_eq d.status completed || status_eq d.status cancelled)
        Error.cannot_cancel_deal
        (if reason_forfeits_winner_deposit r then cancel_forfeiting d r b now else later) d
        (branch (reason_forfeits_winner_deposit r) (cancel_forfeiting d r b now) later d forfeiting
          (λ f.
            branch (str_eq r reason_payment_timeout) (cancel_for_payment_timeout d r b now) last d
              (timeout f)
              (λ t.
                branch (is_buyer_initiated d b)
                  (cancel_and_forfeit d r b now reason_buyer_initiated_cancel)
                  (cancel_plainly d r b now) d (buyer f t) (plain f t))))

-- A cancellation that is refused leaves the deal alone; any other changes its status only.
abbrev Outcome : Deal → Deal × Result Error (List Event) → Type 0
Outcome d (d', r) = (d' ≡ d) ⊎ (d' ≡ record d { status = cancelled })

forfeiting-Outcome :
    (r b : String) (now : Time) (d : Deal) → Outcome d (cancel_forfeiting d r b now d)
unfolding cancel_forfeiting
forfeiting-Outcome r b now d = ground arith

timeout-Outcome :
    (r b : String) (now : Time) (d : Deal) → Outcome d (cancel_for_payment_timeout d r b now d)
unfolding cancel_for_payment_timeout
timeout-Outcome r b now d = ground arith

pub cancel-Outcome : (r b : String) (now : Time) (d : Deal) → Outcome d (cancel r b now d)
cancel-Outcome r b now d =
    cancel_branches Outcome (λ e x. inl refl) r b now d (λ f. forfeiting-Outcome r b now d)
      (λ f t. timeout-Outcome r b now d) (λ f t y. inr refl) (λ f t y. inr refl)

-- Whether a cancellation takes the buyer's deposit, by its reason or by who cancels.
unfoldable pub forfeits : String → String → Deal → Bool
forfeits r b d =
    reason_forfeits_winner_deposit r || str_eq r reason_payment_timeout || is_buyer_initiated d b

-- The reason that is given for it.
unfoldable pub forfeit_reason : String → String
forfeit_reason r =
    if reason_forfeits_winner_deposit r
    then normalize_winner_forfeit_reason r
    else if str_eq r reason_payment_timeout
    then reason_payment_timeout
    else reason_buyer_initiated_cancel

abbrev pub deposit_events : Deal → String → String → Time → List Event
deposit_events d r b now =
    if forfeits r b d then rejected_event d now (forfeit_reason r) ∷ [] else []

-- The status is before the payment.
abbrev pub IsUnpaid : DealStatus → Type 0
IsUnpaid s = status_eligible_for_buyer_initiated_deposit_forfeit s ≡ true

abbrev TakesDeposit : String → String → Time → Deal → Deal × Result Error (List Event) → Type 0
TakesDeposit r b now d (d', res) =
    Succeeds res
    → (res ≡ ok (cancel_event d r b now ∷ deposit_events d r b now))
      × (d' ≡ record d { status = cancelled })
      × (forfeits r b d ≡ true
          → (is_auction d.type_name ≡ true) × (is_empty d.auction_id ≡ false) × IsUnpaid d.status)
