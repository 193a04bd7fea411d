-- ===== src/Deals/Storing.antt =====
-- A deal is saved and loaded (internal/deals/postgres), whatever was called on it before.
use unbelievable_fish.Prelude.{
  ◌<◌, ◌≡◌, refl, ◌∙◌, ap, subst, inl, inr, List, [], ◌∷◌, String, ok, arith,
}
use unbelievable_fish.Prelude.Time.{Time, Timestamptz}
use unbelievable_fish.Deals.Types.{Deal}
use unbelievable_fish.Deals.Deal.{
  has_contract, has_signed_contract, confirm, prepare_contract, sign_contract, request_payment,
  mark_as_paid, request_shipment, mark_as_shipped, complete, update_price,
}
use unbelievable_fish.Deals.Cancel.{cancel}
use unbelievable_fish.Deals.Cancelling.{cancel-Outcome}
use unbelievable_fish.Deals.Commands.{
  Command, run_command, run_commands, Effect, Everywhere, run_command-Effect,
}
use unbelievable_fish.Deals.Validity.{IsValid, run_commands-Valid}
use unbelievable_fish.Deals.Storage.{DealRow, save_deal, get_deal}
use unbelievable_fish.Deals.Kept.{kept_deal, kept-IsValid, get-save, kept_guards, kept_again}

-- No call changes the id of a deal or the time of its creation.
abbrev Keeps : Effect
Keeps d (d', r) = (d'.id ≡ d.id) × (d'.created_at ≡ d.created_at)

cancel-Keeps : (r b : String) (now : Time) (d : Deal) → Keeps d (cancel r b now d)
cancel-Keeps r b now d = elim (cancel-Outcome r b now d) [
  | inl same ↦ (ap (λ (x : Deal). x.id) same, ap (λ (x : Deal). x.created_at) same)
  | inr gone ↦ (ap (λ (x : Deal). x.id) gone, ap (λ (x : Deal). x.created_at) gone)
]

keeps : Everywhere Keeps
unfolding confirm prepare_contract sign_contract request_payment mark_as_paid request_shipment
    mark_as_shipped complete update_price
keeps = record {
  of_error = λ e d. (refl, refl);
  of_confirm = λ now d. ground arith;
  of_prepare = λ n u now d. ground arith;
  of_sign = λ b r now d. ground arith;
  of_request = λ i due now d. ground arith;
  of_pay = λ p k now d. ground arith;
  of_ship_request = λ now d. ground arith;
  of_ship = λ t c now d. ground arith;
  of_complete = λ now d. ground arith;
  of_cancel = cancel-Keeps;
  of_reprice = λ p b now d. ground arith;
}

run_commands-Keeps :
    (cs : List Command) (d : Deal)
    → ((run_commands cs d).id ≡ d.id) × ((run_commands cs d).created_at ≡ d.created_at)
unfolding run_commands
run_commands-Keeps [] d = (refl, refl)
run_commands-Keeps (c ∷ cs) d =
    let first = run_command-Effect Keeps keeps c d in
    let later = run_commands-Keeps cs (run_command c d).0 in (later.0 ∙ first.0, later.1 ∙ first.1)

-- Take a valid deal whose time of creation the column does not round to the zero time, and run any
-- sequence of calls on it, whether they succeed or not. Saved over any table and read back by the id
-- that it had, the deal is valid and is what the calls made of it, but for its times, which are as
-- the columns have them, and a contract in which nothing is written, which is gone; whether the
-- contract is prepared and whether it is signed are the same; and to save what was read and read it
-- again changes nothing more.
pub run_commands-stored :
    (z : Timestamptz) (cs : List Command) (rows rows' : List DealRow) (d : Deal)
    → IsValid d
    → 0 < z.rounded d.created_at
    → let d' = run_commands cs d in
      let read = kept_deal z d' in
      IsValid read
      × (get_deal d.id (save_deal z d' rows) ≡ ok read)
      × (has_contract read ≡ has_contract d')
      × (has_signed_contract read ≡ has_signed_contract d')
      × (get_deal d.id (save_deal z read rows') ≡ ok read)
run_commands-stored z cs rows rows' d v h =
    let d' = run_commands cs d in
    let valid = run_commands-Valid cs d v in
    let (same_id, same_time) = run_commands-Keeps cs d in
    let up : 0 < z.rounded d'.created_at = rw same_time h in
    let up' : 0 < z.rounded (z.rounded d'.created_at) = rw (z.rounded-idem d'.created_at) up in
    let kept = kept-IsValid z d' valid up in
    let guards = kept_guards z d' in
    (
      kept,
      subst (λ i. get_deal i (save_deal z d' rows) ≡ ok (kept_deal z d')) same_id
          (get-save z d' rows valid up),
      guards.0,
      guards.1,
      subst (λ i. get_deal i (save_deal z (kept_deal z d') rows') ≡ ok (kept_deal z d')) same_id
          (get-save z (kept_deal z d') rows' kept up' ∙ ap ok (kept_again z d')),
    )
