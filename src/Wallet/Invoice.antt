-- ===== src/Wallet/Invoice.antt =====
-- internal/billing/wallet/deal_invoice.go. A method without suffix is what runs on a receiver that
-- is not nil.
use unbelievable_fish.Prelude.{
  Bool, true, false, not, ◌||◌, String, Result, ok, pure, raise, gets, modify, fail_if, check,
  ◌then_also◌, unless_nil, ◌>>=◌, ◌>>◌, Method, Option, none, some, if◌then◌else◌,
}
use unbelievable_fish.Prelude.Int.{ℤ, pos, ltb_ℤ, leb_ℤ, eqb_ℤ}
use unbelievable_fish.Prelude.Int64.{add64}
use unbelievable_fish.Prelude.Time.{Time, before}
use unbelievable_fish.Prelude.Text.{str_eq, is_empty}
use unbelievable_fish.Wallet.Types.{Error, Currency, is_rub, InvoiceStatus, DealInvoice}

unfoldable pub new_deal_invoice :
    String
    → String
    → String
    → String
    → String
    → ℤ
    → ℤ
    → Currency
    → String
    → Time
    → Time
    → Result Error DealInvoice
unfolding is_empty str_eq is_rub add64
new_deal_invoice id deal auction buyer seller goods fee currency provider due created =
    check (is_empty id || is_empty deal || is_empty buyer || is_empty seller || is_empty provider)
      Error.invalid_identifier
    then_also check (str_eq buyer seller) Error.invalid_deal_invoice
    then_also check (leb_ℤ goods (pos 0) || ltb_ℤ fee (pos 0)) Error.invalid_amount
    then_also check (not (is_rub currency)) Error.unsupported_currency
    then_also check (before due created) Error.invalid_deal_invoice
    then_also ok (record {
      id = id;
      deal_id = deal;
      auction_id = auction;
      buyer_company_id = buyer;
      seller_company_id = seller;
      goods_amount = goods;
      platform_fee_due_amount = fee;
      total_amount = add64 goods fee;
      currency = currency;
      status = InvoiceStatus.pending;
      provider = provider;
      provider_invoice_id = "";
      payment_url = "";
      due_at = due;
      created_at = created;
      paid_at = none;
      expired_at = none;
      cancelled_at = none;
      failed_at = none;
    })

abbrev this_invoice : Method Error DealInvoice DealInvoice
this_invoice = gets λ inv. inv

abbrev pub is_pending : InvoiceStatus → Bool
is_pending InvoiceStatus.pending = true
is_pending _ = false

abbrev pub is_payment_pending : InvoiceStatus → Bool
is_payment_pending InvoiceStatus.payment_pending = true
is_payment_pending _ = false

abbrev pub is_paid : InvoiceStatus → Bool
is_paid InvoiceStatus.paid = true
is_paid _ = false

unfoldable pub attach_provider : String → String → Method Error DealInvoice (Unit {0})
attach_provider invoice url = do
  inv ← this_invoice
  fail_if (not (is_pending inv.status)) Error.invalid_deal_invoice
  fail_if (is_empty invoice || is_empty url) Error.invalid_deal_invoice
  modify λ (x : DealInvoice). record x {
    provider_invoice_id = invoice;
    payment_url = url;
    status = InvoiceStatus.payment_pending;
  }

unfoldable pub mark_paid : ℤ → Currency → Time → Method Error DealInvoice (Unit {0})
mark_paid amount currency paid_at = do
  inv ← this_invoice
  fail_if (not (is_payment_pending inv.status)) Error.invoice_not_payable
  fail_if (not (eqb_ℤ amount inv.total_amount) || not (str_eq currency inv.currency)) (
      if not (str_eq currency inv.currency)
      then Error.invoice_currency_mismatch
      else Error.invoice_amount_mismatch)
  modify λ (x : DealInvoice). record x { status = InvoiceStatus.paid; paid_at = some paid_at }

-- The switch over the status.
unfoldable pub expire_from : InvoiceStatus → Time → Method Error DealInvoice (Unit {0})
expire_from InvoiceStatus.paid now = pure tt
expire_from InvoiceStatus.expired now = pure tt
expire_from InvoiceStatus.payment_pending now =
    modify λ (x : DealInvoice). record x { status = InvoiceStatus.expired; expired_at = some now }
expire_from _ now = raise Error.invoice_not_expirable

unfoldable pub mark_expired : Time → Method Error DealInvoice (Unit {0})
unfolding expire_from
mark_expired now inv = expire_from inv.status now inv

-- The test of a second payment.
abbrev pub paid_already : ℤ → Currency → Method Error DealInvoice (Unit {0})
paid_already amount currency = do
  inv ← this_invoice
  fail_if (not (eqb_ℤ amount inv.total_amount)) Error.invoice_amount_mismatch
  fail_if (not (str_eq currency inv.currency)) Error.invoice_currency_mismatch

unfoldable pub mark_paid_idempotent : ℤ → Currency → Time → Method Error DealInvoice (Unit {0})
unfolding mark_paid
mark_paid_idempotent amount currency paid_at inv =
    if is_paid inv.status
    then paid_already amount currency inv
    else mark_paid amount currency paid_at inv

-- The methods on a pointer, which may be nil.
unfoldable pub attach_provider_ptr : String → String → Method Error (Option DealInvoice) (Unit {0})
unfolding attach_provider
attach_provider_ptr invoice url =
    unless_nil Error.invalid_deal_invoice (attach_provider invoice url)

unfoldable pub mark_paid_ptr : ℤ → Currency → Time → Method Error (Option DealInvoice) (Unit {0})
unfolding mark_paid
mark_paid_ptr amount currency at =
    unless_nil Error.invalid_deal_invoice (mark_paid amount currency at)

unfoldable pub mark_expired_ptr : Time → Method Error (Option DealInvoice) (Unit {0})
unfolding mark_expired
mark_expired_ptr now = unless_nil Error.invalid_deal_invoice (mark_expired now)

unfoldable pub mark_paid_idempotent_ptr :
    ℤ → Currency → Time → Method Error (Option DealInvoice) (Unit {0})
unfolding mark_paid_idempotent
mark_paid_idempotent_ptr amount currency at =
    unless_nil Error.invalid_deal_invoice (mark_paid_idempotent amount currency at)
