-- ===== src/Deposits/Settled.antt =====
-- The winner's deposit is settled once, and divided into the fee and the rest (internal/billing/app).
use Prim.Native.String.{◌++◌}
use unbelievable_fish.Prelude.{
  ◌≡◌, sym, ◌∙◌, ap, subst, String, arith, Succeeds, ok, Method, lift_passed, ◌>>=◌, ◌>>◌, lift,
}
use unbelievable_fish.Prelude.Int.{ℤ, pos, ◌+ℤ◌, ◌-ℤ◌, ◌≤ℤ◌, ◌<ℤ◌, int_laws, eq_of_parts}
use unbelievable_fish.Prelude.Int64.{sub64, sub64_exact, IsInt64-by_parts}
use unbelievable_fish.Wallet.Types.{Error, Account, AuctionDeposit}
use unbelievable_fish.Wallet.Account
use unbelievable_fish.Wallet.Movement.{
  IsSolvent, balance, release-Accounted, capture-Accounted, release_effect, capture_effect,
}
use unbelievable_fish.Wallet.Deposit.{mark_released, mark_captured, mark_settled}
use unbelievable_fish.Deposits.Store
use unbelievable_fish.Deposits.Store.{
  Store, load_account, save_account, find_deposit, save_deposit, update_deposits, update_accounts,
  is_recorded, append, publish, on_account, deposit_reference, find_account, loaded,
}
use unbelievable_fish.Deposits.Saved.{with_balances, loaded_saved}
use unbelievable_fish.Deposits.Settle.{
  Settling, release_all, capture_all, split_deposit, append_fee, append_release, publish_captured,
  settlement_ref,
}

-- The account after `freed` of its held money has gone, `taken` of it out of the account; all else
-- of it is as it was.
abbrev pub Spent : ℤ → ℤ → Account → Account → Type 0
Spent taken freed a a' =
    IsSolvent a'
    × (balance a' ≡ balance a -ℤ taken)
    × (a'.held ≡ a.held -ℤ freed)
    × (a' ≡ with_balances a' a)

pub on_account_ok :
    (m : Method Error Account (Unit {0})) (a a' : Account)
    → on_account m a ≡ ok a'
    → Succeeds (m a).1 × ((m a).0 ≡ a')
unfolding on_account
on_account_ok m a a' h = ground arith

held_exact :
    (amount : ℤ) (a : Account)
    → IsSolvent a
    → pos 0 <ℤ amount
    → amount ≤ℤ a.held
    → sub64 a.held amount ≡ a.held -ℤ amount
held_exact amount a s up enough =
    let nv = s.available_nonneg in
    let nh = s.held_nonneg in
    let f = s.fits in
    sub64_exact a.held amount (IsInt64-by_parts _ omega (int_laws) omega (int_laws))

pub release-Spent :
    (amount : ℤ) (a a' : Account)
    → IsSolvent a
    → on_account (Account.release amount) a ≡ ok a'
    → Spent (pos 0) amount a a'
release-Spent amount a a' s h =
    let (done, same) = on_account_ok (Account.release amount) a a' h in
    let (up, enough, e) = release_effect amount a done in
    let (solvent, sum) = release-Accounted amount a s done in
    subst (λ y. Spent (pos 0) amount a y) same
      (
        solvent,
        sum ∙ eq_of_parts _ _ omega (int_laws),
        ap (λ y. y.held) e ∙ held_exact amount a s up enough,
        e ∙ ap (λ z. with_balances z a) (sym e),
      )

pub capture-Spent :
    (amount : ℤ) (a a' : Account)
    → IsSolvent a
    → on_account (Account.capture amount) a ≡ ok a'
    → Spent amount amount a a'
capture-Spent amount a a' s h =
    let (done, same) = on_account_ok (Account.capture amount) a a' h in
    let (up, enough, e) = capture_effect amount a done in
    let (solvent, sum) = capture-Accounted amount a s done in
    subst (λ y. Spent amount amount a y) same
      (
        solvent,
        sum ∙ eq_of_parts _ _ omega (int_laws),
        ap (λ y. y.held) e ∙ held_exact amount a s up enough,
        e ∙ ap (λ z. with_balances z a) (sym e),
      )

pub both-Spent :
    (taken freed : ℤ) (a b c : Account)
    → Spent taken taken a b
    → Spent (pos 0) freed b c
    → Spent taken (taken +ℤ freed) a c
both-Spent taken freed a b c (_, sum, held, same) (solvent, sum', held', same') = (
  solvent,
  sum' ∙ (ap (λ z. z -ℤ pos 0) sum ∙ eq_of_parts _ _ omega (int_laws)),
  held' ∙ (ap (λ z. z -ℤ freed) held ∙ eq_of_parts _ _ omega (int_laws)),
  same' ∙ ap (with_balances c) same,
)

-- A store with a deposit rewritten and an account saved.
abbrev pub Writes : AuctionDeposit → Account → Store → Store → Type 0
Writes dep acc s s' =
    (s'.deposits ≡ update_deposits dep s.deposits) × (s'.accounts ≡ update_accounts acc s.accounts)

-- After those writes the company's account is the one that was saved.
pub saved_account :
    (company : String) (taken freed : ℤ) (acc acc' : Account) (s s' : Store)
    → loaded (find_account company s.accounts) ≡ ok acc
    → Spent taken freed acc acc'
    → s'.accounts ≡ update_accounts acc' s.accounts
    → loaded (find_account company s'.accounts) ≡ ok acc'
saved_account company taken freed acc acc' s s' there (solvent, _, _, same) table =
    ap (λ rows. loaded (find_account company rows)) table
    ∙ loaded_saved company s.accounts acc acc' there same solvent.available_nonneg
        solvent.held_nonneg

module _ (x : Settling) where
  release_rest : String → ℤ → AuctionDeposit → Account → Method Store.Error Store (Unit {0})
  release_rest suffix amount dep acc =
      save_deposit (mark_released x.now dep)
      >> (save_account acc >> append_release x acc dep amount (settlement_ref x ++ suffix))

  release_rest-Writes :
      (suffix : String) (amount : ℤ) (dep : AuctionDeposit) (acc : Account) (s : Store)
      → Succeeds (release_rest suffix amount dep acc s).1
      → Writes (mark_released x.now dep) acc s (release_rest suffix amount dep acc s).0
  unfolding release_rest save_deposit save_account append_release append
  release_rest-Writes suffix amount dep acc s h = ground arith

  pub release_all-Writes :
      (suffix : String) (amount : ℤ) (dep : AuctionDeposit) (acc : Account) (s : Store)
      → Succeeds (release_all x suffix amount dep acc s).1
      → (acc' : Account) × (on_account (Account.release amount) acc ≡ ok acc')
        × Writes (mark_released x.now dep) acc' s (release_all x suffix amount dep acc s).0
  unfolding release_all release_rest
  release_all-Writes suffix amount dep acc s h =
      let (acc', went, e, done) =
        lift_passed (on_account (Account.release amount) acc) (release_rest suffix amount dep) s
          h in
      (
        acc',
        went,
        subst (λ r. Writes (mark_released x.now dep) acc' s r.0) (sym e)
            (release_rest-Writes suffix amount dep acc' s done),
      )

  capture_rest : ℤ → AuctionDeposit → Account → Method Store.Error Store (Unit {0})
  capture_rest amount dep acc =
      save_deposit (mark_captured x.now dep)
      >> (save_account acc >> (append_fee x acc dep amount >> publish_captured x dep amount))

  capture_rest-Writes :
      (amount : ℤ) (dep : AuctionDeposit) (acc : Account) (s : Store)
      → Succeeds (capture_rest amount dep acc s).1
      → Writes (mark_captured x.now dep) acc s (capture_rest amount dep acc s).0
  unfolding capture_rest save_deposit save_account append_fee append publish_captured publish
  capture_rest-Writes amount dep acc s h = ground arith

  pub capture_all-Writes :
      (amount : ℤ) (dep : AuctionDeposit) (acc : Account) (s : Store)
      → Succeeds (capture_all x amount dep acc s).1
      → (acc' : Account) × (on_account (Account.capture amount) acc ≡ ok acc')
        × Writes (mark_captured x.now dep) acc' s (capture_all x amount dep acc s).0
  unfolding capture_all capture_rest
  capture_all-Writes amount dep acc s h =
      let (acc', went, e, done) =
        lift_passed (on_account (Account.capture amount) acc) (capture_rest amount dep) s h in
      (
        acc',
        went,
        subst (λ r. Writes (mark_captured x.now dep) acc' s r.0) (sym e)
            (capture_rest-Writes amount dep acc' s done),
      )

  split_rest : ℤ → ℤ → AuctionDeposit → Account → Method Store.Error Store (Unit {0})
  split_rest taken given dep acc =
      save_deposit (mark_settled x.now dep)
      >> (save_account acc
          >> (append_fee x acc dep taken
              >> (append_release x acc dep given (settlement_ref x ++ ":remainder")
                  >> publish_captured x dep taken)))

  split_rest-Writes :
      (taken given : ℤ) (dep : AuctionDeposit) (acc : Account) (s : Store)
      → Succeeds (split_rest taken given dep acc s).1
      → Writes (mark_settled x.now dep) acc s (split_rest taken given dep acc s).0
  unfolding split_rest save_deposit save_account append_fee append_release append publish_captured
      publish
  split_rest-Writes taken given dep acc s h = ground arith

  pub split_deposit-Writes :
      (taken given : ℤ) (dep : AuctionDeposit) (acc : Account) (s : Store)
      → Succeeds (split_deposit x taken given dep acc s).1
      → (acc' : Account) × (acc'' : Account) × (on_account (Account.capture taken) acc ≡ ok acc')
        × (on_account (Account.release given) acc' ≡ ok acc'')
        × Writes (mark_settled x.now dep) acc'' s (split_deposit x taken given dep acc s).0
  unfolding split_deposit split_rest
  split_deposit-Writes taken given dep acc s h =
      let last : Account → Method Store.Error Store (Unit {0}) =
        λ a. lift (on_account (Account.release given) a) >>= split_rest taken given dep in
      let (acc', went, e, done) = lift_passed (on_account (Account.capture taken) acc) last s h in
      let (acc'', went', e', done') =
        lift_passed (on_account (Account.release given) acc') (split_rest taken given dep) s done in
      (
        acc',
        acc'',
        went,
        went',
        subst (λ r. Writes (mark_settled x.now dep) acc'' s r.0) (sym (e ∙ e'))
            (split_rest-Writes taken given dep acc'' s done'),
      )
