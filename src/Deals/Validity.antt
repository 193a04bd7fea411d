-- ===== src/Deals/Validity.antt =====
-- `Validate` of internal/deals/deal/deal.go, and rehydrate.go.
use unbelievable_fish.Prelude.{
  ◌<◌, ◌≡◌, refl, sym, inl, inr, ◌↔◌, subst, true, false, List, [], ◌∷◌, String, arith, Result, ok,
  err, is_ok, ◌then_also◌, Succeeds,
}
use unbelievable_fish.Prelude.Int.{pos, ◌≤ℤ◌}
use unbelievable_fish.Prelude.Time.{Time}
use unbelievable_fish.Prelude.Text.{is_empty}
use unbelievable_fish.Deals.Types.{Error, Deal}
use unbelievable_fish.Deals.Deal.{
  confirm, prepare_contract, sign_contract, request_payment, mark_as_paid, request_shipment,
  mark_as_shipped, complete, is_auction, update_price, validate, rehydrate,
}
use unbelievable_fish.Deals.Cancel.{cancel}
use unbelievable_fish.Deals.Commands.{
  Command, run_command, run_commands, Effect, Everywhere, run_command-Effect,
}
use unbelievable_fish.Deals.Cancelling.{cancel-Outcome}

-- What `Validate` asks for.
pub record IsValid (d : Deal) : Type 0 where
  pub has_id : is_empty d.id ≡ false
  pub has_customer : is_empty d.customer_id ≡ false
  pub has_supplier : is_empty d.supplier_id ≡ false
  pub has_auction : is_auction d.type_name ≡ true → is_empty d.auction_id ≡ false
  pub quantity_pos : pos 1 ≤ℤ d.quantity
  pub price_pos : pos 1 ≤ℤ d.unit_price
  pub has_name : is_empty d.product_snapshot.name ≡ false
  pub has_time : 0 < d.created_at

-- `Validate` finds no error exactly in the deals with all of that.
pub validate_iff : (d : Deal) → Succeeds (validate d) ↔ IsValid d
unfolding validate
validate_iff d = (λ h. ground arith, λ h. ground arith)

-- `Rehydrate` returns its parameters exactly when they are valid.
pub rehydrate_roundtrip :
    (d : Deal) → (IsValid d → rehydrate d ≡ ok d) × (¬ (IsValid d) → is_ok (rehydrate d) ≡ false)
unfolding rehydrate
rehydrate_roundtrip d = (
  λ v. ok_through (validate d) ((validate_iff d).1 v),
  λ n. err_through (validate d) (λ s. n ((validate_iff d).0 s)),
)
  where
    ok_through : (r : Result Error (Unit {0})) → Succeeds r → (r then_also ok d) ≡ ok d
    ok_through (ok _) h = refl
    ok_through (err _) h = cc

    err_through : (r : Result Error (Unit {0})) → ¬ (Succeeds r) → is_ok (r then_also ok d) ≡ false
    err_through (ok _) h = absurd (h refl)
    err_through (err _) h = refl

abbrev Valid : Effect
Valid d (d', r) = IsValid d → IsValid d'

cancel-Valid : (r b : String) (now : Time) (d : Deal) → IsValid d → IsValid (cancel r b now d).0
cancel-Valid r b now d h = elim (cancel-Outcome r b now d) [
  | inl same ↦ subst IsValid (sym same) h
  | inr gone ↦ subst IsValid (sym gone) (ground arith)
]

valid : Everywhere Valid
unfolding confirm prepare_contract sign_contract request_payment mark_as_paid request_shipment
    mark_as_shipped complete update_price
valid = record {
  of_error = λ e d h. ground arith;
  of_confirm = λ now d h. ground arith;
  of_prepare = λ n u now d h. ground arith;
  of_sign = λ b r now d h. ground arith;
  of_request = λ i due now d h. ground arith;
  of_pay = λ p k now d h. ground arith;
  of_ship_request = λ now d h. ground arith;
  of_ship = λ t c now d h. ground arith;
  of_complete = λ now d h. ground arith;
  of_cancel = cancel-Valid;
  of_reprice = λ p b now d h. ground arith;
}

-- A valid deal stays valid under any sequence of calls.
pub run_commands-Valid : (cs : List Command) (d : Deal) → IsValid d → IsValid (run_commands cs d)
unfolding run_commands
run_commands-Valid [] d h = h
run_commands-Valid (c ∷ cs) d h =
    run_commands-Valid cs (run_command c d).0 (run_command-Effect Valid valid c d h)
