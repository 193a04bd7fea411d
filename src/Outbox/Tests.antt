-- ===== src/Outbox/Tests.antt =====
-- The theorems on the outbox (internal/infra/outbox) at concrete tables and passes.
use unbelievable_fish.Prelude.{
  ℕ, ◌*◌, ◌≡◌, ◌≢◌, true, List, [], ◌∷◌, String, none, some, ok, All, perm_refl, arith,
}
use unbelievable_fish.Prelude.Time.{minute}
use unbelievable_fish.Prelude.Text.{str_eq, str_eq_iff}
use unbelievable_fish.Outbox.Table.{Message, Row, Returning}
use unbelievable_fish.Outbox.Relay.{Surroundings, run_once}
use unbelievable_fish.Outbox.Writes.{IsKeyed}
use unbelievable_fish.Outbox.Settling.{settle_due, run_once_settles}
use unbelievable_fish.Outbox.Delivery.{Pass, is_over, run_passes, run_passes_over}

abbrev sample_message : String → String → Message
sample_message id type = record {
  id = id;
  event_type = type;
  source_context = "trading";
  payload = 1 ∷ 2 ∷ [];
  occurred_at = 5;
  attempts = 0;
  correlation_id = "";
  causation_id = "";
  company_id = "acme";
  user_id = "";
}

abbrev sample_row : Message → Row
sample_row m = record {
  message = m;
  last_error = none;
  published_at = none;
  failed_at = none;
  locked_at = none;
}

abbrev sample_rows : List Row
sample_rows =
    sample_row (sample_message "one" "auction_published")
    ∷ sample_row (sample_message "two" "auction_won")
    ∷ []

abbrev as_selected : Returning
as_selected = record { arrange = λ ms. ms; arrange-perm = perm_refl }

-- A decoder for every type, and a bus that takes nothing.
abbrev deaf : Surroundings ℕ
deaf = record { decoder = λ _. some (λ _. ok 7); bus = λ _ _. some "no handler" }

one_not_two : (sample_message "one" "auction_published").id ≢ "two"
unfolding str_eq
one_not_two = ground (arith, str_eq_iff "one" "two")

sample_rows-IsKeyed : IsKeyed sample_rows
sample_rows-IsKeyed = ((one_not_two, tt), (tt, tt))

run_once_settles_example :
    (run_once deaf as_selected 1 100 sample_rows).0 ≡ settle_due deaf 1 100 sample_rows
run_once_settles_example = run_once_settles deaf as_selected 1 100 sample_rows sample_rows-IsKeyed

abbrev pass_at : ℕ → Pass ℕ
pass_at t = record { now = t; around = deaf; order = as_selected }

abbrev five_passes : List (Pass ℕ)
five_passes =
    pass_at (2 * minute)
    ∷ pass_at (4 * minute)
    ∷ pass_at (6 * minute)
    ∷ pass_at (8 * minute)
    ∷ pass_at (10 * minute)
    ∷ []

run_passes_over_example : All (λ r. is_over r ≡ true) (run_passes 2 five_passes sample_rows)
run_passes_over_example =
    run_passes_over 2 0 five_passes sample_rows sample_rows-IsKeyed (omega arith) (tt, (tt, tt))
      (omega arith, (omega arith, (omega arith, (omega arith, (omega arith, tt))))) (omega arith)
