-- ===== src/Deposits/Once.antt =====
-- A deposit is given back or taken once (internal/billing/app).
use unbelievable_fish.Prelude.{
  ◌≡◌, refl, ◌∙◌, ap, subst, Bool, true, false, ◌||◌, List, [], ◌∷◌, String, arith, some, Succeeds,
  Method, fail_if_passed, lift_passed, ◌>>=◌,
}
use unbelievable_fish.Prelude.Time.{Time}
use unbelievable_fish.Prelude.Text.{str_eq_iff}
use unbelievable_fish.Wallet.Types.{Error, is_blank, Account, AuctionDeposit}
use unbelievable_fish.Wallet.Deposit.{mark_released, mark_captured}
use unbelievable_fish.Deposits.Store
use unbelievable_fish.Deposits.Store.{
  Store, load_account, save_account, find_deposit, save_deposit, update_deposits, is_recorded,
  append, publish, on_account, deposit_reference, bid_deposit_released, bid_deposit_captured,
  find_account, loaded,
}
use unbelievable_fish.Deposits.Finish.{
  is_held, release_now, release_found, release_deposit, capture_now, capture_found, capture_deposit,
}

-- The deposit that is found is one of the company for the auction.
pub found_key :
    (auction company : String) (ds : List AuctionDeposit) (dep : AuctionDeposit)
    → find_deposit auction company ds ≡ some dep
    → (dep.auction_id ≡ auction) × (dep.company_id ≡ company)
unfolding find_deposit
found_key auction company [] dep h = cc
found_key auction company (d ∷ ds) dep h = ground (
  arith,
  str_eq_iff d.auction_id auction,
  str_eq_iff d.company_id company,
  found_key auction company ds dep,
)

-- The deposit with what an update writes into it.
abbrev pub written : AuctionDeposit → AuctionDeposit → AuctionDeposit
written new d = record d {
  status = new.status;
  released_at = new.released_at;
  captured_at = new.captured_at;
}

pub find-update :
    (auction company : String) (new : AuctionDeposit) (ds : List AuctionDeposit)
    (dep : AuctionDeposit)
    → new.auction_id ≡ auction
    → new.company_id ≡ company
    → find_deposit auction company ds ≡ some dep
    → find_deposit auction company (update_deposits new ds) ≡ some (written new dep)
unfolding find_deposit update_deposits
find-update auction company new [] dep a c h = cc
find-update auction company new (d ∷ ds) dep a c h =
    ground (arith, find-update auction company new ds dep a c)

release_settled :
    (company auction reason generated : String) (now : Time) (s : Store) (dep : AuctionDeposit)
    → find_deposit auction company s.deposits ≡ some dep
    → is_held dep.status ≡ false
    → (release_deposit company auction reason generated now s).0 ≡ s
unfolding release_deposit release_found load_account
release_settled company auction reason generated now s dep h k = ground arith

capture_settled :
    (company auction reason generated : String) (now : Time) (s : Store) (dep : AuctionDeposit)
    → find_deposit auction company s.deposits ≡ some dep
    → is_held dep.status ≡ false
    → (capture_deposit company auction reason generated now s).0 ≡ s
unfolding capture_deposit capture_found load_account
capture_settled company auction reason generated now s dep h k = ground arith

-- A use case that gets as far as moving the money.
abbrev Reaches :
    Method Store.Error Store (Unit {0})
    → (Account → Method Store.Error Store (Unit {0}))
    → Store
    → Type 0
Reaches whole last s = (acc : Account) × (whole s ≡ last acc s) × Succeeds (last acc s).1

release_enters :
    (company auction reason generated : String) (now : Time) (s : Store) (dep : AuctionDeposit)
    (acc : Account)
    → is_held dep.status ≡ true
    → is_recorded company "auction_deposit_release"
        (deposit_reference auction company)
        bid_deposit_released
        s.ledger
      ≡ false
    → release_found (some dep) acc company auction reason generated now s
      ≡ release_now dep acc company auction reason generated now s
unfolding release_found
release_enters company auction reason generated now s dep acc k n = ground arith

release-Reaches :
    (company auction reason generated : String) (now : Time) (s : Store) (dep : AuctionDeposit)
    → find_deposit auction company s.deposits ≡ some dep
    → is_held dep.status ≡ true
    → is_recorded company "auction_deposit_release"
        (deposit_reference auction company)
        bid_deposit_released
        s.ledger
      ≡ false
    → Succeeds (release_deposit company auction reason generated now s).1
    → Reaches
        (release_deposit company auction reason generated now)
        (λ acc. release_now dep acc company auction reason generated now)
        s
unfolding release_deposit load_account
release-Reaches company auction reason generated now s dep h k n done =
    let go_on : Account → Method Store.Error Store (Unit {0}) = λ acc x.
      release_found (find_deposit auction company x.deposits) acc company auction reason generated
        now x in
    let (_, e1, h1) =
      fail_if_passed (is_blank company || is_blank auction)
        (Store.of_wallet Error.invalid_identifier) (load_account company >>= go_on) s done in
    let (acc, _, e2, h2) = lift_passed (loaded (find_account company s.accounts)) go_on s h1 in
    let e3 =
      ap (λ f. release_found f acc company auction reason generated now s) h
      ∙ release_enters company auction reason generated now s dep acc k n in
    (acc, e1 ∙ (e2 ∙ e3), subst (λ r. Succeeds r.1) e3 h2)

pub release_writes :
    (company auction reason generated : String) (now : Time) (s : Store) (dep : AuctionDeposit)
    (acc : Account)
    → Succeeds (release_now dep acc company auction reason generated now s).1
    → (release_now dep acc company auction reason generated now s).0.deposits
      ≡ update_deposits (mark_released now dep) s.deposits
unfolding release_now save_deposit save_account append publish
release_writes company auction reason generated now s dep acc h = ground arith

capture_enters :
    (company auction reason generated : String) (now : Time) (s : Store) (dep : AuctionDeposit)
    (acc : Account)
    → is_held dep.status ≡ true
    → is_recorded company "auction_deposit_capture"
        (deposit_reference auction company)
        bid_deposit_captured
        s.ledger
      ≡ false
    → capture_found (some dep) acc company auction reason generated now s
      ≡ capture_now dep acc company auction reason generated now s
unfolding capture_found
capture_enters company auction reason generated now s dep acc k n = ground arith

capture-Reaches :
    (company auction reason generated : String) (now : Time) (s : Store) (dep : AuctionDeposit)
    → find_deposit auction company s.deposits ≡ some dep
    → is_held dep.status ≡ true
    → is_recorded company "auction_deposit_capture"
        (deposit_reference auction company)
        bid_deposit_captured
        s.ledger
      ≡ false
    → Succeeds (capture_deposit company auction reason generated now s).1
    → Reaches
        (capture_deposit company auction reason generated now)
        (λ acc. capture_now dep acc company auction reason generated now)
        s
unfolding capture_deposit load_account
capture-Reaches company auction reason generated now s dep h k n done =
    let go_on : Account → Method Store.Error Store (Unit {0}) = λ acc x.
      capture_found (find_deposit auction company x.deposits) acc company auction reason generated
        now x in
    let (_, e1, h1) =
      fail_if_passed (is_blank company || is_blank auction)
        (Store.of_wallet Error.invalid_identifier) (load_account company >>= go_on) s done in
    let (acc, _, e2, h2) = lift_passed (loaded (find_account company s.accounts)) go_on s h1 in
    let e3 =
      ap (λ f. capture_found f acc company auction reason generated now s) h
      ∙ capture_enters company auction reason generated now s dep acc k n in
    (acc, e1 ∙ (e2 ∙ e3), subst (λ r. Succeeds r.1) e3 h2)

capture_writes :
    (company auction reason generated : String) (now : Time) (s : Store) (dep : AuctionDeposit)
    (acc : Account)
    → Succeeds (capture_now dep acc company auction reason generated now s).1
    → (capture_now dep acc company auction reason generated now s).0.deposits
      ≡ update_deposits (mark_captured now dep) s.deposits
unfolding capture_now save_deposit save_account append publish
capture_writes company auction reason generated now s dep acc h = ground arith

-- A call of one of the two use cases: the reason, the generated id and the time.
pub data Call : Type 0 where
  release_call capture_call : String → String → Time → Call

unfoldable pub run_call : String → String → Call → Method Store.Error Store (Unit {0})
run_call company auction (release_call reason generated now) =
    release_deposit company auction reason generated now
run_call company auction (capture_call reason generated now) =
    capture_deposit company auction reason generated now

-- Calls for one deposit, one after the other.
unfoldable pub run_calls : String → String → List Call → Store → Store
unfolding run_call
run_calls company auction [] s = s
run_calls company auction (c ∷ cs) s = run_calls company auction cs (run_call company auction c s).0

-- Whether the ledger has the entry of such a call.
unfoldable pub is_entered : String → String → Call → Store → Bool
is_entered company auction (release_call _ _ _) s =
    is_recorded company "auction_deposit_release" (deposit_reference auction company)
      bid_deposit_released s.ledger
is_entered company auction (capture_call _ _ _) s =
    is_recorded company "auction_deposit_capture" (deposit_reference auction company)
      bid_deposit_captured s.ledger

-- The deposit as such a call leaves it.
unfoldable pub finished : Call → AuctionDeposit → AuctionDeposit
unfolding mark_released mark_captured
finished (release_call _ _ now) dep = mark_released now dep
finished (capture_call _ _ now) dep = mark_captured now dep

pub calls_settled :
    (company auction : String) (cs : List Call) (s : Store) (dep : AuctionDeposit)
    → find_deposit auction company s.deposits ≡ some dep
    → is_held dep.status ≡ false
    → run_calls company auction cs s ≡ s
unfolding run_calls run_call
calls_settled company auction [] s dep h k = refl
calls_settled company auction (release_call r g t ∷ cs) s dep h k =
    rw (release_settled company auction r g t s dep h k)
      (calls_settled company auction cs s dep h k)
calls_settled company auction (capture_call r g t ∷ cs) s dep h k =
    rw (capture_settled company auction r g t s dep h k)
      (calls_settled company auction cs s dep h k)

written_found :
    (company auction : String) (c : Call) (ds : List AuctionDeposit) (dep : AuctionDeposit)
    → find_deposit auction company ds ≡ some dep
    → find_deposit auction company (update_deposits (finished c dep) ds) ≡ some (finished c dep)
unfolding finished
written_found company auction (release_call r g t) ds dep h =
    let (a, c) = found_key auction company ds dep h in
    find-update auction company (mark_released t dep) ds dep a c h
written_found company auction (capture_call r g t) ds dep h =
    let (a, c) = found_key auction company ds dep h in
    find-update auction company (mark_captured t dep) ds dep a c h

call_writes :
    (company auction : String) (c : Call) (s : Store) (dep : AuctionDeposit)
    → find_deposit auction company s.deposits ≡ some dep
    → is_held dep.status ≡ true
    → is_entered company auction c s ≡ false
    → Succeeds (run_call company auction c s).1
    → (run_call company auction c s).0.deposits ≡ update_deposits (finished c dep) s.deposits
unfolding run_call is_entered finished
call_writes company auction (release_call r g t) s dep h k n done =
    let (acc, e, ok_now) = release-Reaches company auction r g t s dep h k n done in
    ap (λ x. x.0.deposits) e ∙ release_writes company auction r g t s dep acc ok_now
call_writes company auction (capture_call r g t) s dep h k n done =
    let (acc, e, ok_now) = capture-Reaches company auction r g t s dep h k n done in
    ap (λ x. x.0.deposits) e ∙ capture_writes company auction r g t s dep acc ok_now

finished_over : (c : Call) (dep : AuctionDeposit) → is_held (finished c dep).status ≡ false
unfolding finished
finished_over (release_call r g t) dep = refl
finished_over (capture_call r g t) dep = refl

-- A held deposit is given back or taken once: after a release or a capture that succeeds, where the
-- ledger did not have its entry, the deposit has the status and the time of that call, and no further
-- release or capture of it, in whatever order, changes anything in the store.
pub deposit_once :
    (company auction : String) (c : Call) (cs : List Call) (s : Store) (dep : AuctionDeposit)
    → find_deposit auction company s.deposits ≡ some dep
    → is_held dep.status ≡ true
    → is_entered company auction c s ≡ false
    → Succeeds (run_call company auction c s).1
    → let s' = (run_call company auction c s).0 in
      (find_deposit auction company s'.deposits ≡ some (finished c dep))
      × (run_calls company auction cs s' ≡ s')
deposit_once company auction c cs s dep h k n done =
    let written_down =
      ap (find_deposit auction company) (call_writes company auction c s dep h k n done)
      ∙ written_found company auction c s.deposits dep h in
    (
      written_down,
      calls_settled company auction cs _ (finished c dep) written_down (finished_over c dep),
    )
