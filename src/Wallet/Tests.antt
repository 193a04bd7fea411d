-- ===== src/Wallet/Tests.antt =====
-- Sample accounts, invoices, payouts and top-ups, and the theorems at concrete inputs.
use unbelievable_fish.Prelude.{◌*◌, ◌≡◌, refl, ◌↔◌, List, [], ◌∷◌, arith, ok, Succeeds, none}
use unbelievable_fish.Prelude.Int.{pos, ◌+ℤ◌, ◌-ℤ◌}
use unbelievable_fish.Prelude.Int64.{add64, sub64}
use unbelievable_fish.Prelude.Time.{hour}
use unbelievable_fish.Prelude.Text.{str_eq, is_empty}
use unbelievable_fish.Wallet.Types.{
  currency_rub, Account, InvoiceStatus, DealInvoice, SellerPayoutStatus, SellerPayout, TopUpStatus,
  TopUp,
}
use unbelievable_fish.Wallet.Account.{release, reserve, capture}
use unbelievable_fish.Wallet.Movement.{reserve_it, capture_it, move, IsSolvent, Accounted}
use unbelievable_fish.Wallet.Balance.{reserve-release, move-IsSolvent}
use unbelievable_fish.Wallet.Invoice.{
  new_deal_invoice, mark_paid, mark_paid_idempotent, attach_provider, mark_expired,
}
use unbelievable_fish.Wallet.Invoicing

abbrev purse : Account
purse = record {
  id = "acc";
  company_id = "north";
  currency = currency_rub;
  available = pos 70;
  held = pos 30;
}

purse-IsSolvent : IsSolvent purse
unfolding ◌+ℤ◌
purse-IsSolvent = record {
  available_nonneg = omega arith;
  held_nonneg = omega arith;
  fits = (omega arith, omega arith);
}

reserve_run :
    move (reserve_it (pos 20)) purse ≡ (record purse { available = pos 50; held = pos 50 }, ok tt)
unfolding move reserve add64 sub64
reserve_run = refl

reserve-release_example : release (pos 70) (reserve (pos 70) purse).0 ≡ (purse, ok tt)
unfolding reserve
reserve-release_example = reserve-release (pos 70) purse purse-IsSolvent refl

move-IsSolvent_example : Accounted (pos 0 -ℤ pos 20) purse (move (capture_it (pos 20)) purse).0
unfolding move capture
move-IsSolvent_example = move-IsSolvent (capture_it (pos 20)) purse purse-IsSolvent tt refl

abbrev bill : InvoiceStatus → DealInvoice
bill status = record {
  id = "inv";
  deal_id = "deal";
  auction_id = "auction";
  buyer_company_id = "north";
  seller_company_id = "south";
  goods_amount = pos 100;
  platform_fee_due_amount = pos 5;
  total_amount = pos 105;
  currency = currency_rub;
  status = status;
  provider = "yookassa";
  provider_invoice_id = "";
  payment_url = "";
  due_at = 2 * hour;
  created_at = hour;
  paid_at = none;
  expired_at = none;
  cancelled_at = none;
  failed_at = none;
}

bill_run :
    new_deal_invoice "inv" "deal" "auction" "north" "south"
      (pos 100)
      (pos 5)
      currency_rub
      "yookassa"
      (2 * hour)
      hour
    ≡ ok (bill InvoiceStatus.pending)
unfolding new_deal_invoice
bill_run = refl

abbrev calls : List Invoicing.Command
calls =
    Invoicing.attach "p1" "https://pay"
    ∷ Invoicing.pay (pos 104) currency_rub hour
    ∷ Invoicing.pay (pos 105) currency_rub hour
    ∷ Invoicing.expire (3 * hour)
    ∷ []

calls_run : (Invoicing.run_commands calls (bill InvoiceStatus.pending)).status ≡ InvoiceStatus.paid
unfolding Invoicing.run_commands mark_expired mark_paid attach_provider is_empty
calls_run = refl

paid_again_lem_example :
    let paid = (mark_paid (pos 105) currency_rub hour (bill InvoiceStatus.payment_pending)).0 in
    ((mark_paid_idempotent (pos 105) currency_rub (2 * hour) paid).0 ≡ paid)
    × (Succeeds (mark_paid_idempotent (pos 105) currency_rub (2 * hour) paid).1
        ↔ ((pos 105 ≡ pos 105) × (currency_rub ≡ currency_rub)))
unfolding mark_paid str_eq
paid_again_lem_example =
    Invoicing.paid_again_lem (pos 105) (pos 105) currency_rub currency_rub hour (2 * hour)
      (bill InvoiceStatus.payment_pending) refl

abbrev payout : SellerPayoutStatus → SellerPayout
payout status = record {
  id = "out";
  deal_id = "deal";
  invoice_id = "inv";
  auction_id = "auction";
  seller_company_id = "south";
  buyer_company_id = "north";
  amount = pos 100;
  currency = currency_rub;
  status = status;
  created_at = hour;
  ready_at = none;
  paid_at = none;
  cancelled_at = none;
  failed_at = none;
}

abbrev top_up : TopUp
top_up = record {
  id = "t";
  company_id = "north";
  account_id = "acc";
  amount = pos 50;
  currency = currency_rub;
  status = TopUpStatus.pending;
  provider = "yookassa";
  provider_payment_id = "p1";
  confirmation_url = "";
  created_at = hour;
  confirmed_at = none;
  failed_at = none;
}
