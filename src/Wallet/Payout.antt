-- ===== src/Wallet/Payout.antt =====
-- internal/billing/wallet/seller_payout.go. A method without suffix is what runs on a receiver that
-- is not nil.
use unbelievable_fish.Prelude.{
  Bool, true, false, not, ◌||◌, String, Result, ok, pure, raise, modify, check, ◌then_also◌,
  unless_nil, Method, Option, none, some,
}
use unbelievable_fish.Prelude.Int.{ℤ, pos, leb_ℤ}
use unbelievable_fish.Prelude.Time.{Time, is_zero}
use unbelievable_fish.Prelude.Text.{str_eq, is_empty}
use unbelievable_fish.Wallet.Types.{Error, Currency, is_rub, SellerPayoutStatus, SellerPayout}

unfoldable pub is_known_payout : SellerPayoutStatus → Bool
is_known_payout (SellerPayoutStatus.other _) = false
is_known_payout _ = true

unfoldable pub new_seller_payout :
    String
    → String
    → String
    → String
    → String
    → String
    → ℤ
    → Currency
    → SellerPayoutStatus
    → Time
    → Result Error SellerPayout
unfolding is_empty str_eq is_rub is_known_payout
new_seller_payout id deal invoice auction seller buyer amount currency status created =
    check
      (is_empty id
        || is_empty deal
        || is_empty invoice
        || is_empty auction
        || is_empty seller
        || is_empty buyer)
      Error.invalid_identifier
    then_also check (str_eq seller buyer) Error.invalid_seller_payout
    then_also check (leb_ℤ amount (pos 0)) Error.invalid_amount
    then_also check (not (is_rub currency)) Error.unsupported_currency
    then_also check (is_zero created) Error.invalid_seller_payout
    then_also check (not (is_known_payout status)) Error.invalid_seller_payout
    then_also ok (record {
      id = id;
      deal_id = deal;
      invoice_id = invoice;
      auction_id = auction;
      seller_company_id = seller;
      buyer_company_id = buyer;
      amount = amount;
      currency = currency;
      status = status;
      created_at = created;
      ready_at = none;
      paid_at = none;
      cancelled_at = none;
      failed_at = none;
    })

-- The methods by the status that they find.
unfoldable pub ready_from : SellerPayoutStatus → Time → Method Error SellerPayout (Unit {0})
ready_from SellerPayoutStatus.ready now = pure tt
ready_from SellerPayoutStatus.paid now = pure tt
ready_from SellerPayoutStatus.pending now =
    modify λ (p : SellerPayout). record p { status = SellerPayoutStatus.ready; ready_at = some now }
ready_from _ now = raise Error.seller_payout_wrong_status

unfoldable pub mark_ready : Time → Method Error SellerPayout (Unit {0})
unfolding ready_from
mark_ready now p = ready_from p.status now p

abbrev fail_payout : Time → Method Error SellerPayout (Unit {0})
fail_payout now =
    modify
      λ (p : SellerPayout). record p { status = SellerPayoutStatus.failed; failed_at = some now }

unfoldable pub fail_from : SellerPayoutStatus → Time → Method Error SellerPayout (Unit {0})
fail_from SellerPayoutStatus.failed now = pure tt
fail_from SellerPayoutStatus.pending now = fail_payout now
fail_from SellerPayoutStatus.ready now = fail_payout now
fail_from _ now = raise Error.seller_payout_wrong_status

unfoldable pub mark_failed : Time → Method Error SellerPayout (Unit {0})
unfolding fail_from
mark_failed now p = fail_from p.status now p

unfoldable pub pay_from : SellerPayoutStatus → Time → Method Error SellerPayout (Unit {0})
pay_from SellerPayoutStatus.paid now = pure tt
pay_from SellerPayoutStatus.ready now =
    modify λ (p : SellerPayout). record p { status = SellerPayoutStatus.paid; paid_at = some now }
pay_from _ now = raise Error.seller_payout_wrong_status

unfoldable pub mark_paid : Time → Method Error SellerPayout (Unit {0})
unfolding pay_from
mark_paid now p = pay_from p.status now p

-- The methods on a pointer, which may be nil.
unfoldable pub mark_ready_ptr : Time → Method Error (Option SellerPayout) (Unit {0})
unfolding mark_ready
mark_ready_ptr now = unless_nil Error.invalid_seller_payout (mark_ready now)

unfoldable pub mark_failed_ptr : Time → Method Error (Option SellerPayout) (Unit {0})
unfolding mark_failed
mark_failed_ptr now = unless_nil Error.invalid_seller_payout (mark_failed now)

unfoldable pub mark_paid_ptr : Time → Method Error (Option SellerPayout) (Unit {0})
unfolding mark_paid
mark_paid_ptr now = unless_nil Error.invalid_seller_payout (mark_paid now)
