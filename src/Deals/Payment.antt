-- ===== src/Deals/Payment.antt =====
-- Payment in the life of a deal (internal/deals/deal/deal.go).
use unbelievable_fish.Prelude.Int.{ℤ}
use unbelievable_fish.Prelude.{
  sym, subst, Option, String, ◌≡◌, refl, inl, inr, Bool, true, false, ◌||◌, List, [], ◌∷◌,
  Bool-cases, arith, Result, ok, err, some,
}
use unbelievable_fish.Prelude.Time.{Time}
use unbelievable_fish.Deals.Types.{
  DealStatus, payment_requested, paid, shipment_requested, shipped, completed, Error, Event, Deal,
  DealConfirmation,
}
use unbelievable_fish.Deals.Deal.{
  confirm, prepare_contract, sign_contract, request_payment, mark_as_paid, request_shipment,
  mark_as_shipped, complete, update_price,
}
use unbelievable_fish.Deals.Cancel.{cancel}
use unbelievable_fish.Deals.Cancelling.{cancel-Outcome}
use unbelievable_fish.Deals.Approval.{apply_approved_confirmation}
use unbelievable_fish.Deals.Commands.{
  Command, run_command, run_commands, Effect, Everywhere, Approvable, run_command-Effect,
  apply-Effect,
}

-- The statuses from the payment on.
unfoldable pub is_paid_up : DealStatus → Bool
is_paid_up paid = true
is_paid_up shipment_requested = true
is_paid_up shipped = true
is_paid_up completed = true
is_paid_up _ = false

abbrev is_deal_paid : Event → Bool
is_deal_paid (Event.deal_paid _ _ _ _) = true
is_deal_paid _ = false

abbrev any_paid : List Event → Bool
any_paid [] = false
any_paid (e ∷ es) = is_deal_paid e || any_paid es

-- Whether a result announces a payment.
abbrev pub announces_payment : Result Error (List Event) → Bool
announces_payment (ok es) = any_paid es
announces_payment (err _) = false

abbrev Pays : Effect
Pays d (d', r) =
    is_paid_up d.status ≡ false
    → is_paid_up d'.status ≡ true
    → (d.status ≡ payment_requested) × (d'.status ≡ paid) × (announces_payment r ≡ true)

cancel_unpaid :
    (r b : String) (now : Time) (d : Deal)
    → is_paid_up d.status ≡ false
    → is_paid_up (cancel r b now d).0.status ≡ false
unfolding is_paid_up
cancel_unpaid r b now d h = elim (cancel-Outcome r b now d) [
  | inl same ↦ subst (λ x. is_paid_up x.status ≡ false) (sym same) h
  | inr gone ↦ subst (λ x. is_paid_up x.status ≡ false) (sym gone) refl
]

sign_unpaid :
    (by ref : String) (now : Time) (d : Deal)
    → is_paid_up d.status ≡ false
    → is_paid_up (sign_contract by ref now d).0.status ≡ false
unfolding is_paid_up sign_contract
sign_unpaid by ref now d h = ground arith

request_unpaid :
    (invoice : String) (due : Option Time) (now : Time) (d : Deal)
    → is_paid_up d.status ≡ false
    → is_paid_up (request_payment invoice due now d).0.status ≡ false
unfolding is_paid_up request_payment
request_unpaid invoice due now d h = ground arith

prepare_unpaid :
    (number url : String) (now : Time) (d : Deal)
    → is_paid_up d.status ≡ false
    → is_paid_up (prepare_contract number url now d).0.status ≡ false
unfolding is_paid_up prepare_contract
prepare_unpaid number url now d h = ground arith

reprice_unpaid :
    (price : ℤ) (by : String) (now : Time) (d : Deal)
    → is_paid_up d.status ≡ false
    → is_paid_up (update_price price by now d).0.status ≡ false
unfolding is_paid_up update_price
reprice_unpaid price by now d h = ground arith

-- What leaves the deal unpaid pays nothing.
no_pay : {b : Bool} {P : Type 0} → b ≡ false → b ≡ true → P
no_pay h j = cc

pays : Everywhere Pays
unfolding confirm mark_as_paid request_shipment mark_as_shipped complete is_paid_up
pays = record {
  of_error = λ e d h j. ground arith;
  of_confirm = λ now d h j. ground arith;
  of_prepare = λ n u now d h j. no_pay (prepare_unpaid n u now d h) j;
  of_sign = λ b r now d h j. no_pay (sign_unpaid b r now d h) j;
  of_request = λ i due now d h j. no_pay (request_unpaid i due now d h) j;
  of_pay = λ p k now d h j. ground arith;
  of_ship_request = λ now d h j. ground arith;
  of_ship = λ t c now d h j. ground arith;
  of_complete = λ now d h j. ground arith;
  of_cancel = λ r b now d h j. no_pay (cancel_unpaid r b now d h) j;
  of_reprice = λ p b now d h j. no_pay (reprice_unpaid p b now d h) j;
}

-- A call brings a deal past its payment only from `payment_requested` to `paid`, and announces it.
pub run_command-Pays :
    (c : Command) (d : Deal)
    → is_paid_up d.status ≡ false
    → is_paid_up (run_command c d).0.status ≡ true
    → (d.status ≡ payment_requested)
      × ((run_command c d).0.status ≡ paid)
      × (announces_payment (run_command c d).1 ≡ true)
run_command-Pays c d = run_command-Effect Pays pays c d

-- Whether some call of a sequence announces a payment.
unfoldable pub payment_announced : List Command → Deal → Bool
payment_announced [] d = false
payment_announced (c ∷ cs) d =
    announces_payment (run_command c d).1 || payment_announced cs (run_command c d).0

-- A deal that was not paid, and that after a sequence of calls is paid, on its way, delivered or
-- completed, has announced a payment on the way.
pub paid-announced :
    (cs : List Command) (d : Deal)
    → is_paid_up d.status ≡ false
    → is_paid_up (run_commands cs d).status ≡ true
    → payment_announced cs d ≡ true
unfolding run_commands payment_announced
paid-announced [] d h k = cc
paid-announced (c ∷ cs) d h k = elim (Bool-cases (is_paid_up (run_command c d).0.status)) [
  | inl now_paid ↦ rw (run_command-Pays c d h now_paid).2
  | inr not_yet ↦ rw (paid-announced cs (run_command c d).0 not_yet k) (or_true _)
]
  where
    or_true : (b : Bool) → (b || true) ≡ true
    or_true true = refl
    or_true false = refl

abbrev StaysUnpaid : Effect
StaysUnpaid d (d', r) = is_paid_up d.status ≡ false → is_paid_up d'.status ≡ false

stays_unpaid : Approvable StaysUnpaid
unfolding confirm mark_as_shipped complete is_paid_up
stays_unpaid = record {
  of_error = λ e d h. h;
  of_confirm = λ now d h. ground arith;
  of_ship = λ t c now d h. ground arith;
  of_complete = λ now d h. ground arith;
  of_cancel = cancel_unpaid;
}

-- The approval of a confirmation never pays a deal, whatever the stage that it is for.
pub approval_never_pays :
    (c : DealConfirmation) (now : Time) (d : Deal)
    → is_paid_up d.status ≡ false
    → is_paid_up (apply_approved_confirmation (some c) now d).0.status ≡ false
approval_never_pays c now d h = apply-Effect StaysUnpaid stays_unpaid (some c) now d h
