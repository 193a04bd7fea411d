-- ===== src/Wallet/Paying.antt =====
-- The lives of a payout (internal/billing/wallet/seller_payout.go) and of a top-up (top_up.go).
use unbelievable_fish.Prelude.{
  Bool, true, ◌≡◌, refl, ◌≢◌, ◌⊎◌, ◌↔◌, false, List, [], ◌∷◌, String, arith, Succeeds, Method,
}
use unbelievable_fish.Prelude.Time.{Time}
use unbelievable_fish.Wallet.Types.{
  is_blank, Error, SellerPayoutStatus, SellerPayout, TopUpStatus, TopUp,
}
use unbelievable_fish.Wallet.Payout.{
  mark_ready, ready_from, mark_failed, fail_from, mark_paid, pay_from,
}
use unbelievable_fish.Wallet.TopUp

pub data PayoutCommand : Type 0 where
  make_ready fail pay : Time → PayoutCommand

unfoldable pub run_payout : PayoutCommand → Method Error SellerPayout (Unit {0})
run_payout (make_ready now) = mark_ready now
run_payout (fail now) = mark_failed now
run_payout (pay now) = mark_paid now

-- A sequence of calls, each on what the one before left.
unfoldable pub run_payouts : List PayoutCommand → SellerPayout → SellerPayout
unfolding run_payout
run_payouts [] p = p
run_payouts (c ∷ cs) p = run_payouts cs (run_payout c p).0

abbrev pub PayoutMoves : SellerPayoutStatus → SellerPayoutStatus → Type 0
PayoutMoves s t =
    (s ≡ t)
    ⊎ ((s ≡ SellerPayoutStatus.pending) × (t ≡ SellerPayoutStatus.ready))
    ⊎ ((s ≡ SellerPayoutStatus.ready) × (t ≡ SellerPayoutStatus.paid))
    ⊎ (((s ≡ SellerPayoutStatus.pending) ⊎ (s ≡ SellerPayoutStatus.ready))
        × (t ≡ SellerPayoutStatus.failed))

-- A call leaves the status of a payout alone or moves it from pending to ready, from ready to paid,
-- or from one of these two to failed; if it does not succeed it leaves the whole payout alone.
pub payout_moves :
    (c : PayoutCommand) (p : SellerPayout)
    → PayoutMoves p.status (run_payout c p).0.status
      × (Succeeds (run_payout c p).1 ⊎ ((run_payout c p).0 ≡ p))
unfolding run_payout mark_ready mark_failed mark_paid ready_from fail_from pay_from
payout_moves (make_ready now) p = ground arith
payout_moves (fail now) p = ground arith
payout_moves (pay now) p = ground arith

abbrev pub IsOver : SellerPayoutStatus → Type 0
IsOver s =
    (s ≡ SellerPayoutStatus.paid)
    ⊎ (s ≡ SellerPayoutStatus.failed)
    ⊎ (s ≡ SellerPayoutStatus.cancelled)

over_unchanged : (c : PayoutCommand) (p : SellerPayout) → IsOver p.status → (run_payout c p).0 ≡ p
unfolding run_payout mark_ready mark_failed mark_paid ready_from fail_from pay_from
over_unchanged (make_ready now) p h = ground arith
over_unchanged (fail now) p h = ground arith
over_unchanged (pay now) p h = ground arith

-- A payout that is paid, failed or cancelled stays as it is, whatever is called in whatever order: it
-- is paid at most once and never both paid and failed.
pub run_payouts_over :
    (cs : List PayoutCommand) (p : SellerPayout) → IsOver p.status → run_payouts cs p ≡ p
unfolding run_payouts
run_payouts_over [] p h = refl
run_payouts_over (c ∷ cs) p h = rw (over_unchanged c p h) (run_payouts_over cs p h)

-- What the payment provider reports of a top-up.
pub data Report : Type 0 where
  attached : String → String → Report
  succeeded_at failed_at : Time → Report

unfoldable pub report : Report → Method Error TopUp (Unit {0})
report (attached payment url) = TopUp.attach_provider_payment payment url
report (succeeded_at now) = TopUp.mark_succeeded now
report (failed_at now) = TopUp.mark_failed now

abbrev pub IsTaken : Report → TopUp → Type 0
IsTaken (attached payment url) t = (t.status ≡ TopUpStatus.pending) × (is_blank payment ≡ false)
IsTaken (succeeded_at now) t =
    (t.status ≡ TopUpStatus.pending) × (is_blank t.provider_payment_id ≡ false)
IsTaken (failed_at now) t = t.status ≡ TopUpStatus.pending

-- A report is taken exactly when the top-up is pending and, for an attached payment, its id is not
-- blank, or for a success, the id attached before is not blank.
pub report_iff : (r : Report) (t : TopUp) → Succeeds (report r t).1 ↔ IsTaken r t
unfolding report TopUp.attach_provider_payment TopUp.mark_succeeded TopUp.mark_failed
report_iff (attached payment url) t = ground arith
report_iff (succeeded_at now) t = ground arith
report_iff (failed_at now) t = ground arith

unfoldable pub reports : List Report → TopUp → TopUp
unfolding report
reports [] t = t
reports (r ∷ rs) t = reports rs (report r t).0

settled_unchanged : (r : Report) (t : TopUp) → t.status ≢ TopUpStatus.pending → (report r t).0 ≡ t
unfolding report TopUp.attach_provider_payment TopUp.mark_succeeded TopUp.mark_failed
settled_unchanged (attached payment url) t h = ground arith
settled_unchanged (succeeded_at now) t h = ground arith
settled_unchanged (failed_at now) t h = ground arith

reports_keep : (rs : List Report) (t : TopUp) → t.status ≢ TopUpStatus.pending → reports rs t ≡ t
unfolding reports
reports_keep [] t h = refl
reports_keep (r ∷ rs) t h = rw (settled_unchanged r t h) (reports_keep rs t h)

-- What ends a top-up.
abbrev pub is_last : Report → Bool
is_last (attached payment url) = false
is_last _ = true

last_settles :
    (r : Report) (t : TopUp)
    → is_last r ≡ true
    → Succeeds (report r t).1
    → (report r t).0.status ≢ TopUpStatus.pending
unfolding report TopUp.mark_succeeded TopUp.mark_failed
last_settles (attached payment url) t l h = cc
last_settles (succeeded_at now) t l h = ground arith
last_settles (failed_at now) t l h = ground arith

-- Once the report of a success or of a failure has been taken, no further reports, in whatever order,
-- change the top-up: it is credited at most once.
pub reports_once :
    (r : Report) (t : TopUp) (rs : List Report)
    → is_last r ≡ true
    → Succeeds (report r t).1
    → reports rs (report r t).0 ≡ (report r t).0
reports_once r t rs l h = reports_keep rs _ (last_settles r t l h)
