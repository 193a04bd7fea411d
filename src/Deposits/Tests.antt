-- ===== src/Deposits/Tests.antt =====
-- A sample store, and the theorems at concrete inputs.
use unbelievable_fish.Prelude.{
  ok, ◌≢◌, if◌then◌else◌, perm_refl, ◌≡◌, refl, ◌*◌, [], ◌∷◌, some, none, arith, String,
}
use unbelievable_fish.Prelude.Int.{ℤ, pos, ◌*ℤ◌, ◌+ℤ◌, ◌-ℤ◌}
use unbelievable_fish.Prelude.Int64.{wrap64, mul64, add64, sub64}
use unbelievable_fish.Prelude.Text.{str_eq}
use unbelievable_fish.Prelude.Time.{hour}
use unbelievable_fish.Wallet.Types.{
  currency_rub, is_blank, is_rub, Account, AuctionDeposit, DepositStatus,
}
use unbelievable_fish.Wallet.Account.{new_account, rehydrate_account, reserve, capture, release}
use unbelievable_fish.Wallet.Deposit.{new_auction_deposit, mark_released}
use unbelievable_fish.Deposits.Store.{
  Store, loaded, find_account, load_account, find_deposit, save_account, has_account,
  update_accounts, save_deposit, create_deposit, is_recorded, append, publish, on_account,
  deposit_reference,
}
use unbelievable_fish.Deposits.Finish.{capture_deposit, capture_found, capture_now, release_now}
use unbelievable_fish.Deposits.Reserve.{
  deposit_from_start_price, hundredth, reserved, record_reservation, reserve_new, reserve_found,
  reserve_deposit,
}
use unbelievable_fish.Wallet.Movement.{IsSolvent}
use unbelievable_fish.Deposits.Settle.{
  Settling, settle_deposit, settle_found, settle_now, split_deposit, append_fee, append_release,
  publish_captured, platform_fee, expected_due, settlement_reason, is_settlement_recorded,
}
use unbelievable_fish.Deposits.Settled.{Spent}
use unbelievable_fish.Deposits.Settlement.{kept, settled_of, settle_divides}
use unbelievable_fish.Deposits.Fee.{
  Capturing, capture_fee, capture_fee_found, capture_fee_now, take_all_with_due, enter, publish_fee,
  is_fee_recorded,
}
use unbelievable_fish.Deposits.Fees.{fee_taken_once}
use unbelievable_fish.Deposits.Rest.{
  Listing, Releasing, release_rest, release_each, release_one, is_candidate, of_auction,
}
use unbelievable_fish.Deposits.Released.{is_chosen}
use unbelievable_fish.Deposits.Releases.{release_rest_lem}
use unbelievable_fish.Deposits.Once.{
  release_call, capture_call, run_call, run_calls, is_entered, finished, deposit_once,
}
use unbelievable_fish.Deposits.Reserving.{reserve_once}

abbrev stake : AuctionDeposit
stake = record {
  auction_id = "a1";
  company_id = "north";
  account_id = "acc";
  amount = pos 5;
  currency = currency_rub;
  status = DepositStatus.held;
  created_at = hour;
  released_at = none;
  captured_at = none;
}

abbrev purse : ℤ → ℤ → Account
purse available held = record {
  id = "acc";
  company_id = "north";
  currency = currency_rub;
  available = available;
  held = held;
}

abbrev bare : Store
bare = record {
  accounts = purse (pos 20) (pos 0) ∷ [];
  deposits = [];
  ledger = [];
  events = some [];
}

abbrev staked : Store
staked = record {
  accounts = purse (pos 15) (pos 5) ∷ [];
  deposits = stake ∷ [];
  ledger = [];
  events = some [];
}

reserve_run :
    (reserve_deposit "north" "a1" (pos 100) currency_rub "l1" hour bare).0.accounts
    ≡ purse (pos 15) (pos 5) ∷ []
unfolding reserve_deposit reserve_found reserve_new is_blank is_rub load_account rehydrate_account
    find_deposit deposit_from_start_price hundredth mul64 reserved reserve new_auction_deposit
    create_deposit save_account record_reservation is_recorded append publish deposit_reference
    find_account has_account update_accounts ◌*ℤ◌ ◌+ℤ◌ ◌-ℤ◌ add64 sub64 wrap64 str_eq new_account
reserve_run = refl

deposit_once_example :
    let s' = (run_call "north" "a1" (capture_call "LOST" "l2" hour) staked).0 in
    (find_deposit "a1" "north" s'.deposits ≡ some (finished (capture_call "LOST" "l2" hour) stake))
    × (run_calls "north" "a1" (release_call "LATE" "l3" hour ∷ []) s' ≡ s')
unfolding find_deposit is_entered run_call str_eq is_recorded capture_deposit is_blank load_account
    rehydrate_account capture_found capture_now on_account capture save_deposit save_account append
    publish
deposit_once_example =
    deposit_once "north" "a1" (capture_call "LOST" "l2" hour) (release_call "LATE" "l3" hour ∷ [])
      staked stake refl refl refl refl

reserve_once_example :
    let s' = (reserve_deposit "north" "a1" (pos 100) currency_rub "l1" hour bare).0 in
    (dep : AuctionDeposit) × (find_deposit "a1" "north" s'.deposits ≡ some dep)
    × (dep.status ≡ DepositStatus.held)
    × (dep.amount ≡ deposit_from_start_price (pos 100))
    × ((reserve_deposit "north" "a1" (pos 300) currency_rub "l2" (2 * hour) s').0 ≡ s')
unfolding reserve_deposit reserve_found reserve_new is_blank is_rub load_account rehydrate_account
    find_deposit deposit_from_start_price hundredth mul64 reserved reserve new_auction_deposit
    create_deposit save_account record_reservation is_recorded append publish deposit_reference
    find_account has_account update_accounts ◌*ℤ◌ ◌+ℤ◌ ◌-ℤ◌ add64 sub64 wrap64 str_eq new_account
reserve_once_example =
    reserve_once "north" "a1" (pos 100) (pos 300) currency_rub currency_rub "l1" "l2" hour
      (2 * hour) bare refl refl

-- The price whose fee is a part of the deposit.
abbrev settling : String → Settling
settling reason = record {
  company = "north";
  auction = "a1";
  reason = reason;
  fee_id = "l4";
  release_id = "l5";
  now = hour;
}

staked-IsSolvent : IsSolvent (purse (pos 15) (pos 5))
unfolding ◌+ℤ◌
staked-IsSolvent = record {
  available_nonneg = omega arith;
  held_nonneg = omega arith;
  fits = (omega arith, omega arith);
}

settle_divides_example :
    let x = settling "WON" in
    let s' = (settle_deposit x (pos 100) (pos 0) staked).0 in
    (acc' : Account) × (loaded (find_account "north" s'.accounts) ≡ ok acc')
    × (s'.accounts ≡ update_accounts acc' staked.accounts)
    × Spent (kept (platform_fee (pos 100)) (pos 5)) (pos 5) (purse (pos 15) (pos 5)) acc'
    × (find_deposit "a1" "north" s'.deposits
        ≡ some (settled_of hour (platform_fee (pos 100)) stake))
    × ((settle_deposit (settling "AGAIN") (pos 70) (pos 1) s').0 ≡ s')
unfolding settle_deposit settle_found settle_now split_deposit append_fee append_release
    publish_captured is_blank load_account rehydrate_account find_deposit platform_fee hundredth
    mul64 expected_due settlement_reason is_settlement_recorded is_recorded deposit_reference
    on_account capture release save_deposit save_account append publish find_account has_account
    update_accounts ◌*ℤ◌ ◌+ℤ◌ ◌-ℤ◌ add64 sub64 wrap64 str_eq new_account is_rub
settle_divides_example =
    settle_divides (settling "WON") (settling "AGAIN") (pos 100) (pos 0) (pos 70) (pos 1) stake
      (purse (pos 15) (pos 5)) staked refl refl refl refl refl refl (omega arith, omega arith)
      staked-IsSolvent refl

abbrev taking : Capturing
taking = record { company = "north"; auction = "a1"; first_id = "l6"; second_id = "l7"; now = hour }

fee_taken_once_example :
    let s' = (capture_fee taking (pos 300) staked).0 in
    (acc' : Account) × (loaded (find_account "north" s'.accounts) ≡ ok acc')
    × (s'.accounts ≡ update_accounts acc' staked.accounts)
    × Spent (kept (platform_fee (pos 300)) (pos 5)) (pos 5) (purse (pos 15) (pos 5)) acc'
    × (find_deposit "a1" "north" s'.deposits
        ≡ some (settled_of hour (platform_fee (pos 300)) stake))
    × ((capture_fee taking (pos 70) s').0 ≡ s')
    × ((settle_deposit (settling "LATE") (pos 70) (pos 1) s').0 ≡ s')
    × (run_calls "north" "a1" (release_call "LATE" "l3" hour ∷ []) s' ≡ s')
unfolding capture_fee capture_fee_found capture_fee_now take_all_with_due enter publish_fee is_blank
    load_account rehydrate_account find_deposit platform_fee hundredth mul64 is_fee_recorded
    is_recorded deposit_reference on_account capture save_deposit save_account append publish
    find_account has_account update_accounts ◌*ℤ◌ ◌+ℤ◌ ◌-ℤ◌ add64 sub64 wrap64 str_eq new_account
    is_rub
fee_taken_once_example =
    fee_taken_once taking taking (settling "LATE") (pos 300) (pos 70) (pos 70) (pos 1)
      (release_call "LATE" "l3" hour ∷ []) stake (purse (pos 15) (pos 5)) staked refl refl refl refl
      refl refl refl refl (omega arith, omega arith) staked-IsSolvent refl

abbrev releasing : Releasing
releasing = record {
  auction = "a1";
  candidates = "south" ∷ [];
  reason = "LOST";
  generated = λ company. company;
  now = hour;
}

abbrev as_listed : Listing
as_listed = record { arrange = λ ds. ds; arrange-perm = perm_refl }

release_rest_lem_example :
    let s' = (release_rest releasing as_listed staked).0 in
    (find_deposit "a1" "north" s'.deposits
      ≡ some (if is_chosen releasing stake staked then mark_released hour stake else stake))
    × ((other : String)
        → other ≢ "a1"
        → find_deposit other "north" s'.deposits ≡ find_deposit other "north" staked.deposits)
unfolding release_rest release_each release_one is_candidate of_auction release_now is_blank
    load_account rehydrate_account find_deposit is_recorded deposit_reference on_account release
    save_deposit save_account append publish find_account has_account update_accounts ◌+ℤ◌ ◌-ℤ◌
    add64 sub64 wrap64 str_eq new_account is_rub
release_rest_lem_example =
    release_rest_lem releasing as_listed "north" stake staked (tt, tt) refl refl
