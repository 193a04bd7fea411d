-- ===== src/Wallet/Invoicing.antt =====
-- The life of an invoice (internal/billing/wallet/deal_invoice.go).
use unbelievable_fish.Prelude.{
  ◌≡◌, refl, ◌≢◌, ◌⊎◌, ◌∙◌, ◌↔◌, subst, List, [], ◌∷◌, String, arith, ok, check_passed,
  result_reached, Succeeds, Method,
}
use unbelievable_fish.Prelude.Int.{ℤ, pos, ◌+ℤ◌, ◌≤ℤ◌, ◌<ℤ◌, eq_of_parts}
use unbelievable_fish.Prelude.Int64.{IsInt64, add64_exact}
use unbelievable_fish.Prelude.Time.{Time}
use unbelievable_fish.Prelude.Text.{str_eq_iff}
use unbelievable_fish.Wallet.Types.{
  Error, Currency, currency_rub, is_rub, InvoiceStatus, DealInvoice,
}
use unbelievable_fish.Wallet.Invoice.{
  new_deal_invoice, attach_provider, mark_paid, expire_from, mark_expired, mark_paid_idempotent,
}

-- What the service asks of an invoice.
pub data Command : Type 0 where
  attach : String → String → Command
  pay pay_again : ℤ → Currency → Time → Command
  expire : Time → Command

unfoldable pub run_command : Command → Method Error DealInvoice (Unit {0})
run_command (attach invoice url) = attach_provider invoice url
run_command (pay amount currency at) = mark_paid amount currency at
run_command (pay_again amount currency at) = mark_paid_idempotent amount currency at
run_command (expire now) = mark_expired now

-- A sequence of calls, each on what the one before left.
unfoldable pub run_commands : List Command → DealInvoice → DealInvoice
unfolding run_command
run_commands [] inv = inv
run_commands (c ∷ cs) inv = run_commands cs (run_command c inv).0

-- The status of an invoice moves from pending to payment_pending, and from there to paid or expired.
abbrev pub Moves : InvoiceStatus → InvoiceStatus → Type 0
Moves s t =
    (s ≡ t)
    ⊎ ((s ≡ InvoiceStatus.pending) × (t ≡ InvoiceStatus.payment_pending))
    ⊎ ((s ≡ InvoiceStatus.payment_pending)
        × ((t ≡ InvoiceStatus.paid) ⊎ (t ≡ InvoiceStatus.expired)))

-- A call leaves the status of an invoice alone or makes one of the moves: offered to the buyer, then
-- paid or expired.
pub invoice_moves :
    (c : Command) (inv : DealInvoice) → Moves inv.status (run_command c inv).0.status
unfolding run_command attach_provider mark_paid mark_expired mark_paid_idempotent expire_from
invoice_moves (attach x y) inv = ground arith
invoice_moves (pay x y t) inv = ground arith
invoice_moves (pay_again x y t) inv = ground arith
invoice_moves (expire t) inv = ground arith

-- Whom an invoice bills, for what, and how much.
pub record SameBill (a b : DealInvoice) : Type 0 where
  pub same_deal : b.deal_id ≡ a.deal_id
  pub same_buyer : b.buyer_company_id ≡ a.buyer_company_id
  pub same_seller : b.seller_company_id ≡ a.seller_company_id
  pub same_goods : b.goods_amount ≡ a.goods_amount
  pub same_fee : b.platform_fee_due_amount ≡ a.platform_fee_due_amount
  pub same_total : b.total_amount ≡ a.total_amount
  pub same_currency : b.currency ≡ a.currency

run_command-SameBill : (c : Command) (inv : DealInvoice) → SameBill inv (run_command c inv).0
unfolding run_command attach_provider mark_paid mark_expired mark_paid_idempotent expire_from
run_command-SameBill (attach x y) inv = ground arith
run_command-SameBill (pay x y t) inv = ground arith
run_command-SameBill (pay_again x y t) inv = ground arith
run_command-SameBill (expire t) inv = ground arith

-- A payment goes through exactly when the invoice awaits one and the amount and the currency are
-- those of the invoice.
pub mark_paid_iff :
    (amount : ℤ) (currency : Currency) (at : Time) (inv : DealInvoice)
    → Succeeds (mark_paid amount currency at inv).1 ↔ (
        (inv.status ≡ InvoiceStatus.payment_pending)
        × (amount ≡ inv.total_amount)
        × (currency ≡ inv.currency))
unfolding mark_paid
mark_paid_iff amount currency at inv =
    ground (arith, str_eq_iff currency inv.currency, eq_of_parts amount inv.total_amount)

abbrev pub IsSettled : InvoiceStatus → Type 0
IsSettled s = (s ≡ InvoiceStatus.paid) ⊎ (s ≡ InvoiceStatus.expired)

settled_unchanged :
    (c : Command) (inv : DealInvoice) → IsSettled inv.status → (run_command c inv).0 ≡ inv
unfolding run_command attach_provider mark_paid mark_expired mark_paid_idempotent expire_from
settled_unchanged (attach x y) inv h = ground arith
settled_unchanged (pay x y t) inv h = ground arith
settled_unchanged (pay_again x y t) inv h = ground arith
settled_unchanged (expire t) inv h = ground arith

-- An invoice that is paid or has expired stays as it is, whatever is called in whatever order.
pub run_commands_settled :
    (cs : List Command) (inv : DealInvoice) → IsSettled inv.status → run_commands cs inv ≡ inv
unfolding run_commands
run_commands_settled [] inv h = refl
run_commands_settled (c ∷ cs) inv h = rw (settled_unchanged c inv h) (run_commands_settled cs inv h)

-- After a payment went through, a second report of the same amount and currency succeeds, one of
-- another amount or currency is an error, and neither changes the invoice.
pub paid_again_lem :
    (amount again : ℤ) (currency other : Currency) (at later : Time) (inv : DealInvoice)
    → Succeeds (mark_paid amount currency at inv).1
    → ((mark_paid_idempotent again other later (mark_paid amount currency at inv).0).0
        ≡ (mark_paid amount currency at inv).0)
      × (Succeeds (mark_paid_idempotent again other later (mark_paid amount currency at inv).0).1
          ↔ ((again ≡ amount) × (other ≡ currency)))
unfolding mark_paid mark_paid_idempotent
paid_again_lem amount again currency other at later inv h = ground (
  arith,
  str_eq_iff currency inv.currency,
  str_eq_iff other inv.currency,
  eq_of_parts amount inv.total_amount,
  eq_of_parts again inv.total_amount,
)

-- What the constructor promises: something to pay for, a fee that is not negative, a total that is
-- their sum, a buyer who is not the seller, roubles, and no due date before the creation.
pub record IsBill (inv : DealInvoice) : Type 0 where
  pub goods_positive : pos 0 <ℤ inv.goods_amount
  pub fee_nonneg : pos 0 ≤ℤ inv.platform_fee_due_amount
  pub total_is_sum : inv.total_amount ≡ inv.goods_amount +ℤ inv.platform_fee_due_amount
  pub parties_differ : inv.buyer_company_id ≢ inv.seller_company_id
  pub in_roubles : inv.currency ≡ currency_rub

made-IsBill :
    (id deal auction buyer seller : String) (goods fee : ℤ) (currency : Currency)
    (provider : String) (due created : Time) (inv : DealInvoice)
    → new_deal_invoice id deal auction buyer seller goods fee currency provider due created ≡ ok inv
    → IsInt64 (goods +ℤ fee)
    → IsBill inv
unfolding new_deal_invoice is_rub
made-IsBill id deal auction buyer seller goods fee currency provider due created inv h f =
    let (passed, e) = result_reached _ _ _ h in
    let (before_due, _) = check_passed _ _ _ passed in
    let (before_currency, rouble) = check_passed _ _ _ before_due in
    let (before_amounts, amounts) = check_passed _ _ _ before_currency in
    let (_, parties) = check_passed _ _ _ before_amounts in
    let same = add64_exact goods fee f in
    subst IsBill e (record {
      goods_positive = ground arith;
      fee_nonneg = ground arith;
      total_is_sum = same;
      parties_differ = ground (arith, str_eq_iff buyer seller);
      in_roubles = ground (arith, str_eq_iff currency currency_rub);
    })

same-IsBill : (a b : DealInvoice) → SameBill a b → IsBill a → IsBill b
same-IsBill a b s h = record {
  goods_positive = rw s.same_goods h.goods_positive;
  fee_nonneg = rw s.same_fee h.fee_nonneg;
  total_is_sum = rw (s.same_total, s.same_goods, s.same_fee) h.total_is_sum;
  parties_differ = rw (s.same_buyer, s.same_seller) h.parties_differ;
  in_roubles = s.same_currency ∙ h.in_roubles;
}

kept-IsBill : (cs : List Command) (inv : DealInvoice) → IsBill inv → IsBill (run_commands cs inv)
unfolding run_commands
kept-IsBill [] inv h = h
kept-IsBill (c ∷ cs) inv h = kept-IsBill cs _ (same-IsBill inv _ (run_command-SameBill c inv) h)

-- An invoice that is made, from goods and a fee whose sum an int64 holds, has these properties after
-- whatever sequence of calls: the goods cost something, the fee is not negative, the total is exactly
-- their sum, the buyer is not the seller, and the currency is the rouble.
pub run_commands-IsBill :
    (id deal auction buyer seller : String) (goods fee : ℤ) (currency : Currency)
    (provider : String) (due created : Time) (inv : DealInvoice) (cs : List Command)
    → new_deal_invoice id deal auction buyer seller goods fee currency provider due created ≡ ok inv
    → IsInt64 (goods +ℤ fee)
    → IsBill (run_commands cs inv)
run_commands-IsBill id deal auction buyer seller goods fee currency provider due created inv cs h
      f =
    kept-IsBill cs inv
      (made-IsBill id deal auction buyer seller goods fee currency provider due created inv h f)
