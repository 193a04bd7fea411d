-- ===== src/Wallet/Types.antt =====
-- The data of internal/billing/wallet: errors, currency, statuses and structs. `IsBlank` of account.go
-- is here too.
use Prim.Native.Char.{code}
use unbelievable_fish.Prelude.{ℕ, Bool, true, ◌&&◌, ◌||◌, String, Option, ◌==◌}
use unbelievable_fish.Prelude.Int.{ℤ}
use unbelievable_fish.Prelude.Time.{Time}
use unbelievable_fish.Prelude.Text.{str_eq}

-- A space, a tab, a line feed or a carriage return.
abbrev pub is_space : ℕ → Bool
is_space c = c == 32 || c == 9 || c == 10 || c == 13

unfoldable pub is_blank : String → Bool
is_blank String.[] = true
is_blank (String.◌∷◌ c s) = is_space (code c) && is_blank s

pub data Error : Type 0 where
  invalid_identifier unsupported_currency invalid_amount insufficient_funds : Error
  insufficient_held invalid_deposit_state invalid_top_up_status : Error
  invalid_deal_invoice invoice_not_payable invoice_not_expirable : Error
  invoice_amount_mismatch invoice_currency_mismatch : Error
  invalid_seller_payout seller_payout_wrong_status : Error

-- A Currency is a string.
abbrev pub Currency : Type 0
Currency = String

abbrev pub currency_rub : Currency
currency_rub = "RUB"

-- `currency != CurrencyRUB`
unfoldable pub is_rub : Currency → Bool
unfolding str_eq
is_rub c = str_eq c currency_rub

pub record Account : Type 0 where
  pub id : String
  pub company_id : String
  pub currency : Currency
  pub available : ℤ
  pub held : ℤ

-- A status is a string; `other` is any string that is none of the constants. So below.
pub data InvoiceStatus : Type 0 where
  pending payment_pending paid expired cancelled failed : InvoiceStatus
  other : String → InvoiceStatus

pub record DealInvoice : Type 0 where
  pub id : String
  pub deal_id : String
  pub auction_id : String
  pub buyer_company_id : String
  pub seller_company_id : String
  pub goods_amount : ℤ
  pub platform_fee_due_amount : ℤ
  pub total_amount : ℤ
  pub currency : Currency
  pub status : InvoiceStatus
  pub provider : String
  pub provider_invoice_id : String
  pub payment_url : String
  pub due_at : Time
  pub created_at : Time
  pub paid_at : Option Time
  pub expired_at : Option Time
  pub cancelled_at : Option Time
  pub failed_at : Option Time

pub data SellerPayoutStatus : Type 0 where
  pending ready paid cancelled failed : SellerPayoutStatus
  other : String → SellerPayoutStatus

pub record SellerPayout : Type 0 where
  pub id : String
  pub deal_id : String
  pub invoice_id : String
  pub auction_id : String
  pub seller_company_id : String
  pub buyer_company_id : String
  pub amount : ℤ
  pub currency : Currency
  pub status : SellerPayoutStatus
  pub created_at : Time
  pub ready_at : Option Time
  pub paid_at : Option Time
  pub cancelled_at : Option Time
  pub failed_at : Option Time

pub data TopUpStatus : Type 0 where
  pending succeeded failed cancelled : TopUpStatus
  other : String → TopUpStatus

pub record TopUp : Type 0 where
  pub id : String
  pub company_id : String
  pub account_id : String
  pub amount : ℤ
  pub currency : Currency
  pub status : TopUpStatus
  pub provider : String
  pub provider_payment_id : String
  pub confirmation_url : String
  pub created_at : Time
  pub confirmed_at : Option Time
  pub failed_at : Option Time

pub data DepositStatus : Type 0 where
  held released captured settled : DepositStatus
  other : String → DepositStatus

pub record AuctionDeposit : Type 0 where
  pub auction_id : String
  pub company_id : String
  pub account_id : String
  pub amount : ℤ
  pub currency : Currency
  pub status : DepositStatus
  pub created_at : Time
  pub released_at : Option Time
  pub captured_at : Option Time
