-- ===== src/Deposits/Settlement.antt =====
-- The settlement of the winner's deposit as a whole (internal/billing/app).
use unbelievable_fish.Prelude.{
  String, List, ◌≡◌, refl, ◌∙◌, ap, subst, ◌⊎◌, inl, inr, true, false, ◌||◌, arith, some, Succeeds,
  ok, Bool-cases, Method, fail_if_passed, ◌>>◌, fail_if, if◌then◌else◌,
}
use unbelievable_fish.Prelude.Int.{
  ℤ, pos, ◌+ℤ◌, ◌-ℤ◌, ◌≤ℤ◌, ◌<ℤ◌, int_laws, eq_of_parts, leb_ℤ, ltb_ℤ,
}
use unbelievable_fish.Prelude.Int64.{IsInt64, sub64_exact, IsInt64-by_parts}
use unbelievable_fish.Prelude.Time.{Time}
use unbelievable_fish.Wallet.Types.{Error, is_blank, Account, AuctionDeposit}
use unbelievable_fish.Wallet.Account
use unbelievable_fish.Wallet.Movement.{IsSolvent, release_effect}
use unbelievable_fish.Wallet.Deposit.{mark_released, mark_captured, mark_settled}
use unbelievable_fish.Deposits.Store
use unbelievable_fish.Deposits.Store.{
  Store, update_accounts, load_account, save_account, find_deposit, update_deposits, on_account,
  find_account, loaded,
}
use unbelievable_fish.Deposits.Finish.{is_held}
use unbelievable_fish.Deposits.Once.{found_key, find-update, written}
use unbelievable_fish.Deposits.Settle.{
  Settling, platform_fee, settle_now, settle_found, settle_deposit, release_all, capture_all,
  split_deposit, settlement_ref, is_settlement_recorded,
}
use unbelievable_fish.Deposits.Settled.{
  Spent, Writes, on_account_ok, release-Spent, capture-Spent, both-Spent, release_all-Writes,
  capture_all-Writes, split_deposit-Writes, saved_account,
}

-- What is kept of a deposit for a fee: the smaller of the two, and nothing for no fee.
abbrev pub kept : ℤ → ℤ → ℤ
kept fee amount = if leb_ℤ fee (pos 0) then pos 0 else if ltb_ℤ fee amount then fee else amount

-- The deposit as one of the ends writes it.
abbrev pub settled_of : Time → ℤ → AuctionDeposit → AuctionDeposit
settled_of now fee dep =
    if leb_ℤ fee (pos 0)
    then mark_released now dep
    else if ltb_ℤ fee dep.amount
    then mark_settled now dep
    else mark_captured now dep

pub settled_of_over :
    (now : Time) (fee : ℤ) (dep : AuctionDeposit) → is_held (settled_of now fee dep).status ≡ false
unfolding mark_released mark_settled mark_captured
settled_of_over now fee dep = ground arith

settled_of_keys :
    (now : Time) (fee : ℤ) (dep : AuctionDeposit)
    → ((settled_of now fee dep).auction_id ≡ dep.auction_id)
      × ((settled_of now fee dep).company_id ≡ dep.company_id)
      × (written (settled_of now fee dep) dep ≡ settled_of now fee dep)
unfolding mark_released mark_settled mark_captured
settled_of_keys now fee dep = ground arith

pub settled_found :
    (auction company : String) (now : Time) (fee : ℤ) (dep : AuctionDeposit)
    (ds : List AuctionDeposit)
    → find_deposit auction company ds ≡ some dep
    → find_deposit auction company (update_deposits (settled_of now fee dep) ds)
      ≡ some (settled_of now fee dep)
settled_found auction company now fee dep ds h =
    let (a, c) = found_key auction company ds dep h in
    let (ka, kc, same) = settled_of_keys now fee dep in
    find-update auction company (settled_of now fee dep) ds dep (ka ∙ a) (kc ∙ c) h ∙ ap some same

module _ (x : Settling) where
  abbrev Branches : ℤ → AuctionDeposit → Account → Store → Type 0
  Branches fee dep acc s =
      ((fee ≤ℤ pos 0)
        × (settle_now x fee dep acc s ≡ release_all x ":fee_zero" dep.amount dep acc s))
      ⊎ ((pos 0 <ℤ fee)
          × (fee <ℤ dep.amount)
          × (settle_now x fee dep acc s ≡ split_deposit x fee (dep.amount -ℤ fee) dep acc s))
      ⊎ ((pos 0 <ℤ fee)
          × (dep.amount ≤ℤ fee)
          × (settle_now x fee dep acc s ≡ capture_all x dep.amount dep acc s))
      ⊎ ((dep.amount ≤ℤ pos 0)
          × (settle_now x fee dep acc s ≡ release_all x ":full_release" (pos 0) dep acc s))

  settle_less :
      (fee : ℤ) (dep : AuctionDeposit) (acc : Account) (s : Store)
      → IsInt64 dep.amount
      → leb_ℤ fee (pos 0) ≡ false
      → ltb_ℤ fee dep.amount ≡ true
      → settle_now x fee dep acc s ≡ split_deposit x fee (dep.amount -ℤ fee) dep acc s
  unfolding settle_now
  settle_less fee dep acc s f some_fee less =
      let up : pos 0 <ℤ fee = ground arith in
      let below : fee <ℤ dep.amount = ground arith in
      let exact =
        sub64_exact dep.amount fee (IsInt64-by_parts _ omega (int_laws) omega (int_laws)) in
      let taken : ltb_ℤ (pos 0) fee ≡ true = ground arith in
      let rest : pos 0 <ℤ dep.amount -ℤ fee = omega (int_laws) in
      let given : ltb_ℤ (pos 0) (dep.amount -ℤ fee) ≡ true = ground arith in
      rw (some_fee, less, exact, taken, given) refl

  settle_more :
      (fee : ℤ) (dep : AuctionDeposit) (acc : Account) (s : Store)
      → IsInt64 dep.amount
      → leb_ℤ fee (pos 0) ≡ false
      → ltb_ℤ fee dep.amount ≡ false
      → Branches fee dep acc s
  unfolding settle_now
  settle_more fee dep acc s f some_fee more =
      let none_left : dep.amount -ℤ dep.amount ≡ pos 0 = eq_of_parts _ _ omega (int_laws) in
      let exact =
        sub64_exact dep.amount dep.amount (IsInt64-by_parts _ omega (int_laws) omega (int_laws))
        ∙ none_left in
      elim (Bool-cases (ltb_ℤ (pos 0) dep.amount)) [
        | inl some_money ↦
            inr
              (inr (inl (ground arith, ground arith, rw (some_fee, more, exact, some_money) refl)))
        | inr no_money ↦ inr (inr (inr (ground arith, rw (some_fee, more, exact, no_money) refl)))
      ]

  settle_now-Branches :
      (fee : ℤ) (dep : AuctionDeposit) (acc : Account) (s : Store)
      → IsInt64 dep.amount
      → Branches fee dep acc s
  unfolding settle_now
  settle_now-Branches fee dep acc s f = elim (Bool-cases (leb_ℤ fee (pos 0))) [
    | inl zero_fee ↦ inl (ground arith, rw zero_fee refl)
    | inr some_fee ↦ elim (Bool-cases (ltb_ℤ fee dep.amount)) [
      | inl less ↦ inr (inl (ground arith, ground arith, settle_less fee dep acc s f some_fee less))
      | inr more ↦ settle_more fee dep acc s f some_fee more
    ]
  ]

  abbrev Effect : ℤ → AuctionDeposit → Account → Store → Store → Type 0
  Effect fee dep acc s s' =
      (acc' : Account) × Writes (settled_of x.now fee dep) acc' s s'
      × Spent (kept fee dep.amount) dep.amount acc acc'

  settle_now_effect :
      (fee : ℤ) (dep : AuctionDeposit) (acc : Account) (s : Store)
      → IsInt64 dep.amount
      → IsSolvent acc
      → Succeeds (settle_now x fee dep acc s).1
      → Branches fee dep acc s
      → Effect fee dep acc s (settle_now x fee dep acc s).0
  settle_now_effect fee dep acc s f solvent done (inl (none_due, e)) =
      let t : leb_ℤ fee (pos 0) ≡ true = ground arith in
      let (acc', went, w) =
        release_all-Writes x ":fee_zero" dep.amount dep acc s (subst (λ r. Succeeds r.1) e done) in
      (acc', rw (t, e) w, rw t (release-Spent dep.amount acc acc' solvent went))
  settle_now_effect fee dep acc s f solvent done (inr (inl (up, below, e))) =
      let t : leb_ℤ fee (pos 0) ≡ false = ground arith in
      let u : ltb_ℤ fee dep.amount ≡ true = ground arith in
      let (b, acc', went, back, w) =
        split_deposit-Writes x fee (dep.amount -ℤ fee) dep acc s
          (subst (λ r. Succeeds r.1) e done) in
      let first = capture-Spent fee acc b solvent went in
      let second = release-Spent (dep.amount -ℤ fee) b acc' first.0 back in
      let whole : fee +ℤ (dep.amount -ℤ fee) ≡ dep.amount = eq_of_parts _ _ omega (int_laws) in
      (
        acc',
        rw (t, u, e) w,
        rw (t, u)
            (subst (λ z. Spent fee z acc acc') whole
              (both-Spent fee (dep.amount -ℤ fee) acc b acc' first second)),
      )
  settle_now_effect fee dep acc s f solvent done (inr (inr (inl (up, enough, e)))) =
      let t : leb_ℤ fee (pos 0) ≡ false = ground arith in
      let u : ltb_ℤ fee dep.amount ≡ false = ground arith in
      let (acc', went, w) =
        capture_all-Writes x dep.amount dep acc s (subst (λ r. Succeeds r.1) e done) in
      (acc', rw (t, u, e) w, rw (t, u) (capture-Spent dep.amount acc acc' solvent went))
  settle_now_effect fee dep acc s f solvent done (inr (inr (inr (_, e)))) =
      let (acc', went, w) =
        release_all-Writes x ":full_release" (pos 0) dep acc s (subst (λ r. Succeeds r.1) e done) in
      let (up, _, _) =
        release_effect (pos 0) acc (on_account_ok (Account.release (pos 0)) acc acc' went).0 in
      ground arith

  settle_enters :
      (goods paid : ℤ) (dep : AuctionDeposit) (acc : Account) (s : Store)
      → is_held dep.status ≡ true
      → is_settlement_recorded x.company (settlement_ref x) s.ledger ≡ false
      → loaded (find_account x.company s.accounts) ≡ ok acc
      → Succeeds (settle_found x (some dep) goods paid s).1
      → settle_found x (some dep) goods paid s ≡ settle_now x (platform_fee goods) dep acc s
  unfolding settle_found load_account
  settle_enters goods paid dep acc s k n there done = ground arith

  settle_reaches :
      (goods paid : ℤ) (dep : AuctionDeposit) (acc : Account) (s : Store)
      → find_deposit x.auction x.company s.deposits ≡ some dep
      → is_held dep.status ≡ true
      → is_settlement_recorded x.company (settlement_ref x) s.ledger ≡ false
      → loaded (find_account x.company s.accounts) ≡ ok acc
      → Succeeds (settle_deposit x goods paid s).1
      → settle_deposit x goods paid s ≡ settle_now x (platform_fee goods) dep acc s
  unfolding settle_deposit
  settle_reaches goods paid dep acc s h k n there done =
      let go_on : Method Store.Error Store (Unit {0}) =
        λ y. settle_found x (find_deposit x.auction x.company y.deposits) goods paid y in
      let (_, e1, h1) =
        fail_if_passed (is_blank x.auction || is_blank x.company)
          (Store.of_wallet Error.invalid_identifier)
          (fail_if (leb_ℤ goods (pos 0)) (Store.of_wallet Error.invalid_amount) >> go_on) s done in
      let (_, e2, h2) =
        fail_if_passed (leb_ℤ goods (pos 0)) (Store.of_wallet Error.invalid_amount) go_on s h1 in
      let e3 = ap (λ d. settle_found x d goods paid s) h in
      e1
      ∙ (e2 ∙ (e3 ∙ settle_enters goods paid dep acc s k n there (subst (λ r. Succeeds r.1) e3 h2)))

  pub settle_again :
      (goods paid : ℤ) (dep : AuctionDeposit) (s : Store)
      → find_deposit x.auction x.company s.deposits ≡ some dep
      → is_held dep.status ≡ false
      → (settle_deposit x goods paid s).0 ≡ s
  unfolding settle_deposit settle_found
  settle_again goods paid dep s h k = ground arith

-- The settlement of a winner's deposit that succeeds, where the deposit is held with an amount within
-- int64 and the ledger has no entry of a settlement, on an account that loads and is solvent: the
-- deposit leaves the held money whole, and of all the money of the account exactly the fee is gone,
-- or the deposit where the fee is larger; the company's account in the store is that account with
-- these balances, solvent, and the table of the accounts has no other change than those balances
-- under its id; the deposit has the status of its end, and to settle it once more, for any price,
-- payment, reason and time, changes nothing in the store.
pub settle_divides :
    (x y : Settling) (goods paid again repaid : ℤ) (dep : AuctionDeposit) (acc : Account)
    (s : Store)
    → y.auction ≡ x.auction
    → y.company ≡ x.company
    → find_deposit x.auction x.company s.deposits ≡ some dep
    → is_held dep.status ≡ true
    → is_settlement_recorded x.company (settlement_ref x) s.ledger ≡ false
    → loaded (find_account x.company s.accounts) ≡ ok acc
    → IsInt64 dep.amount
    → IsSolvent acc
    → Succeeds (settle_deposit x goods paid s).1
    → let s' = (settle_deposit x goods paid s).0 in
      (acc' : Account) × (loaded (find_account x.company s'.accounts) ≡ ok acc')
      × (s'.accounts ≡ update_accounts acc' s.accounts)
      × Spent (kept (platform_fee goods) dep.amount) dep.amount acc acc'
      × (find_deposit x.auction x.company s'.deposits
          ≡ some (settled_of x.now (platform_fee goods) dep))
      × ((settle_deposit y again repaid s').0 ≡ s')
settle_divides x y goods paid again repaid dep acc s ya yc h k n there f solvent done =
    let fee = platform_fee goods in
    let e = settle_reaches x goods paid dep acc s h k n there done in
    let (acc', (table, accounts), spent) =
      settle_now_effect x fee dep acc s f solvent (subst (λ r. Succeeds r.1) e done)
        (settle_now-Branches x fee dep acc s f) in
    let whole = ap (λ r. r.0.accounts) e ∙ accounts in
    let found =
      ap (λ r. find_deposit x.auction x.company r.0.deposits) e
      ∙ (ap (find_deposit x.auction x.company) table
          ∙ settled_found x.auction x.company x.now fee dep s.deposits h) in
    (
      acc',
      saved_account x.company (kept fee dep.amount) dep.amount acc acc' s
          (settle_deposit x goods paid s).0 there spent whole,
      whole,
      spent,
      found,
      settle_again y again repaid (settled_of x.now fee dep) _ (rw (ya, yc) found)
          (settled_of_over x.now fee dep),
    )
