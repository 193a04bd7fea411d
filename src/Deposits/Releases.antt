-- ===== src/Deposits/Releases.antt =====
-- The release of the deposits of an auction as a whole (internal/billing/app).
use unbelievable_fish.Prelude.{
  AllPairs-perm, ◌≡◌, ◌≢◌, refl, sym, ◌∙◌, ap, subst, ◌⊎◌, inl, inr, true, ◌&&◌, not, List, [], ◌∷◌,
  String, arith, some, Succeeds, Bool-cases, All, AllPairs, All-perm, All-mem, mem-perm, perm_symm,
  Memᴰ, Method, fail_if_passed, ◌>>◌, fail_if, if◌then◌else◌, if_both,
}
use unbelievable_fish.Prelude.Text.{str_eq, str_eq_iff}
use unbelievable_fish.Wallet.Types.{Error, is_blank, AuctionDeposit}
use unbelievable_fish.Wallet.Deposit.{mark_released}
use unbelievable_fish.Deposits.Store
use unbelievable_fish.Deposits.Store.{
  Store, bid_deposit_released, LedgerEntryType, load_account, save_account, save_deposit, append,
  publish, is_recorded, deposit_reference, find_deposit, update_deposits, on_account, find_account,
  loaded,
}
use unbelievable_fish.Deposits.Finish.{is_held}
use unbelievable_fish.Deposits.Once.{found_key, find-update, release_writes}
use unbelievable_fish.Deposits.Rest.{
  Listing, of_auction, is_candidate, any_blank, Releasing, release_one, release_each, release_rest,
}
use unbelievable_fish.Deposits.Released.{
  is_chosen, one_skips, one_releases, one_other, one_other_ledger,
}

-- A call of two steps that succeeds.
both_steps :
    (m k : Method Store.Error Store (Unit {0})) (s : Store)
    → Succeeds ((m >> k) s).1
    → Succeeds (m s).1 × ((m >> k) s ≡ k (m s).0) × Succeeds (k (m s).0).1
both_steps m k s h = ground arith

abbrev pub IsOtherCompany : AuctionDeposit → AuctionDeposit → Type 0
IsOtherCompany a b = a.company_id ≢ b.company_id

module _ (x : Releasing) where
  each_other :
      (ds : List AuctionDeposit) (auction company : String) (s : Store)
      → All (λ d. (d.auction_id ≢ auction) ⊎ (d.company_id ≢ company)) ds
      → Succeeds (release_each x ds s).1
      → find_deposit auction company (release_each x ds s).0.deposits
        ≡ find_deposit auction company s.deposits
  unfolding release_each
  each_other [] auction company s k done = refl
  each_other (d ∷ ds) auction company s k done =
      let (one, e, rest) = both_steps (release_one x d) (release_each x ds) s done in
      ap (λ r. find_deposit auction company r.0.deposits) e
      ∙ (each_other ds auction company (release_one x d s).0 k.1 rest
          ∙ one_other x d auction company s k.0 one)

  -- A deposit of the list at its own step.
  one_own :
      (dep : AuctionDeposit) (s : Store)
      → find_deposit x.auction dep.company_id s.deposits ≡ some dep
      → Succeeds (release_one x dep s).1
      → find_deposit x.auction dep.company_id (release_one x dep s).0.deposits
        ≡ some (if is_chosen x dep s then mark_released x.now dep else dep)
  unfolding mark_released
  one_own dep s h done = elim (Bool-cases (is_chosen x dep s)) [
    | inl chosen ↦
        let (acc, e, went) = one_releases x dep s chosen done in
        let (a, c) = found_key x.auction dep.company_id s.deposits dep h in
        ap (λ r. find_deposit x.auction dep.company_id r.0.deposits) e
        ∙ (ap (find_deposit x.auction dep.company_id) (
              release_writes dep.company_id x.auction x.reason (x.generated dep.company_id) x.now s
                dep acc went)
            ∙ (find-update x.auction dep.company_id (mark_released x.now dep) s.deposits dep a c h
                ∙ ap (λ b. some (if b then mark_released x.now dep else dep)) (sym chosen)))
    | inr left ↦
        ap (λ y. find_deposit x.auction dep.company_id y.deposits) (one_skips x dep s left)
        ∙ (h ∙ ap (λ b. some (if b then mark_released x.now dep else dep)) (sym left))
  ]

  others :
      (d : AuctionDeposit) (ds : List AuctionDeposit)
      → All (IsOtherCompany d) ds
      → All (λ e. (e.auction_id ≢ x.auction) ⊎ (e.company_id ≢ d.company_id)) ds
  others d [] h = tt
  others d (e ∷ ds) h = (inr (λ q. h.0 (sym q)), others d ds h.1)

  each_own :
      (ds : List AuctionDeposit) (dep : AuctionDeposit) (s : Store)
      → AllPairs IsOtherCompany ds
      → Memᴰ dep ds
      → find_deposit x.auction dep.company_id s.deposits ≡ some dep
      → Succeeds (release_each x ds s).1
      → find_deposit x.auction dep.company_id (release_each x ds s).0.deposits
        ≡ some (if is_chosen x dep s then mark_released x.now dep else dep)
  unfolding release_each
  each_own [] dep s u m h done = elim m [ ]
  each_own (d ∷ ds) dep s u (Memᴰ.head e) h done =
      let (one, both, rest) = both_steps (release_one x d) (release_each x ds) s done in
      let k = others dep ds (subst (λ y. All (IsOtherCompany y) ds) (sym e) u.0) in
      let own = one_own dep s h (subst (λ y. Succeeds (release_one x y s).1) (sym e) one) in
      ap (λ r. find_deposit x.auction dep.company_id r.0.deposits) both
      ∙ (each_other ds x.auction dep.company_id (release_one x d s).0 k rest
          ∙ (ap (λ y. find_deposit x.auction dep.company_id (release_one x y s).0.deposits) (sym e)
              ∙ own))
  each_own (d ∷ ds) dep s u (Memᴰ.tail m) h done =
      let (one, both, rest) = both_steps (release_one x d) (release_each x ds) s done in
      let k = All-mem (IsOtherCompany d) u.0 m in
      let same = one_other x d x.auction dep.company_id s (inr k) one in
      let ledger = one_other_ledger x d dep.company_id s k one in
      ap (λ r. find_deposit x.auction dep.company_id r.0.deposits) both
      ∙ (each_own ds dep (release_one x d s).0 u.1 m (same ∙ h) rest
          ∙ ap
              (λ b. some (
                if not (is_candidate dep.company_id x.candidates) && is_held dep.status && not b
                then mark_released x.now dep
                else dep))
              ledger)

of_auction_keys :
    (auction : String) (ds : List AuctionDeposit)
    → All (λ d. d.auction_id ≡ auction) (of_auction auction ds)
unfolding of_auction
of_auction_keys auction [] = tt
of_auction_keys auction (d ∷ ds) =
    let rest = of_auction_keys auction ds in
    if_both (All (λ e. e.auction_id ≡ auction)) (str_eq d.auction_id auction) _ _
      (λ h. ((str_eq_iff d.auction_id auction).0 h, rest)) (λ _. rest)

keys_other :
    (other auction : String) (ds : List AuctionDeposit) (company : String)
    → other ≢ auction
    → All (λ d. d.auction_id ≡ auction) ds
    → All (λ d. (d.auction_id ≢ other) ⊎ (d.company_id ≢ company)) ds
keys_other other auction [] company k h = tt
keys_other other auction (d ∷ ds) company k h =
    (inl (λ e. k (sym e ∙ h.0)), keys_other other auction ds company k h.1)

found_cases :
    (auction company : String) (d : AuctionDeposit) (ds : List AuctionDeposit)
    (dep : AuctionDeposit)
    → find_deposit auction company (d ∷ ds) ≡ some dep
    → ((str_eq d.auction_id auction ≡ true) × (d ≡ dep))
      ⊎ (find_deposit auction company ds ≡ some dep)
unfolding find_deposit
found_cases auction company d ds dep h = ground arith

find-mem :
    (auction company : String) (ds : List AuctionDeposit) (dep : AuctionDeposit)
    → find_deposit auction company ds ≡ some dep
    → Memᴰ dep (of_auction auction ds)
unfolding find_deposit of_auction
find-mem auction company [] dep h = cc
find-mem auction company (d ∷ ds) dep h =
    let rest = find-mem auction company ds dep in
    elim (found_cases auction company d ds dep h) [
      | inl (e, same) ↦
          subst (λ b. Memᴰ dep (if b then d ∷ of_auction auction ds else of_auction auction ds))
            (sym e) (Memᴰ.head (sym same))
      | inr k ↦
          if_both (λ l. Memᴰ dep l) (str_eq d.auction_id auction) _ _ (λ _. Memᴰ.tail (rest k))
            (λ _. rest k)
    ]

-- The release of the deposits of an auction, where it succeeds and no company has two deposits for
-- the auction, does to every deposit of the auction what it should: one that is held, of a company
-- that is no candidate, whose release the ledger does not have yet, is released, and every other stays
-- as it is, the candidates' among them; in whatever order the deposits are listed. No deposit of
-- another auction changes.
pub release_rest_lem :
    (x : Releasing) (listing : Listing) (company : String) (dep : AuctionDeposit) (s : Store)
    → AllPairs IsOtherCompany (of_auction x.auction s.deposits)
    → find_deposit x.auction company s.deposits ≡ some dep
    → Succeeds (release_rest x listing s).1
    → let s' = (release_rest x listing s).0 in
      (find_deposit x.auction company s'.deposits
        ≡ some (if is_chosen x dep s then mark_released x.now dep else dep))
      × ((other : String)
          → other ≢ x.auction
          → find_deposit other company s'.deposits ≡ find_deposit other company s.deposits)
unfolding release_rest
release_rest_lem x listing company dep s u h done =
    let ds = of_auction x.auction s.deposits in
    let p = perm_symm (listing.arrange-perm ds) in
    let loop : Method Store.Error Store (Unit {0}) =
      λ y. release_each x (listing.arrange (of_auction x.auction y.deposits)) y in
    let (_, e1, h1) =
      fail_if_passed (is_blank x.auction) (Store.of_wallet Error.invalid_identifier)
        (fail_if (any_blank x.candidates) (Store.of_wallet Error.invalid_identifier) >> loop) s
        done in
    let (_, e2, h2) =
      fail_if_passed (any_blank x.candidates) (Store.of_wallet Error.invalid_identifier) loop s
        h1 in
    let (a, c) = found_key x.auction company s.deposits dep h in
    let own =
      each_own x (listing.arrange ds) dep s
        (AllPairs-perm IsOtherCompany (λ _ _ k e. k (sym e)) p u)
        (mem-perm p (find-mem x.auction company s.deposits dep h))
        (ap (λ y. find_deposit x.auction y s.deposits) c ∙ h) h2 in
    (
      ap (λ r. find_deposit x.auction company r.0.deposits) (e1 ∙ e2)
          ∙ (ap (λ y. find_deposit x.auction y (loop s).0.deposits) (sym c) ∙ own),
      λ other k.
          ap (λ r. find_deposit other company r.0.deposits) (e1 ∙ e2)
          ∙ each_other x (listing.arrange ds) other company s
              (All-perm (λ d. (d.auction_id ≢ other) ⊎ (d.company_id ≢ company)) p
                (keys_other other x.auction ds company k (of_auction_keys x.auction s.deposits)))
              h2,
    )
