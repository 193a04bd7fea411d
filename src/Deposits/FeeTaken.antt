-- ===== src/Deposits/FeeTaken.antt =====
-- The platform fee is taken from a deposit once (internal/billing/app).
use Prim.Native.String.{◌++◌}
use unbelievable_fish.Prelude.{
  ◌≡◌, ◌∙◌, ap, subst, true, false, arith, Succeeds, Method, lift_passed, ◌>>=◌, ◌>>◌, lift,
  if_both,
}
use unbelievable_fish.Prelude.Int.{ℤ, pos, ◌+ℤ◌, ◌<ℤ◌, int_laws, eq_of_parts, leb_ℤ, ltb_ℤ, eqb_ℤ}
use unbelievable_fish.Prelude.Int64.{IsInt64, sub64, sub64_exact, IsInt64-by_parts}
use unbelievable_fish.Wallet.Types.{Account, AuctionDeposit}
use unbelievable_fish.Wallet.Account
use unbelievable_fish.Wallet.Movement.{IsSolvent}
use unbelievable_fish.Wallet.Deposit.{mark_released, mark_captured, mark_settled}
use unbelievable_fish.Deposits.Store
use unbelievable_fish.Deposits.Store.{
  Store, LedgerEntryType, load_account, save_account, save_deposit, append, publish, find_deposit,
  update_deposits, update_accounts, on_account, find_account, loaded,
}
use unbelievable_fish.Deposits.Settled.{Spent, Writes, release-Spent, capture-Spent, both-Spent}
use unbelievable_fish.Deposits.Settlement.{kept, settled_of}
use unbelievable_fish.Deposits.Fee.{
  Capturing, fee_ref, enter, publish_fee, give_back, take_part, take_all, take_all_with_due,
  capture_fee_now,
}

module _ (x : Capturing) where
  zero_rest : AuctionDeposit → Account → Method Store.Error Store (Unit {0})
  zero_rest dep acc =
      save_deposit (mark_released x.now dep)
      >> (save_account acc
          >> enter x x.first_id acc dep dep.amount LedgerEntryType.bid_deposit_released
              "platform_fee_from_deposit_zero" (fee_ref x) "PLATFORM_FEE_ZERO")

  zero_rest-Writes :
      (dep : AuctionDeposit) (acc : Account) (s : Store)
      → Succeeds (zero_rest dep acc s).1
      → Writes (mark_released x.now dep) acc s (zero_rest dep acc s).0
  unfolding zero_rest save_deposit save_account enter append
  zero_rest-Writes dep acc s h = ground arith

  part_rest : ℤ → AuctionDeposit → Account → Method Store.Error Store (Unit {0})
  part_rest fee dep acc =
      save_deposit (mark_settled x.now dep)
      >> (save_account acc
          >> (enter x x.first_id acc dep fee LedgerEntryType.platform_fee_captured
                "platform_fee_from_deposit" (fee_ref x) "PLATFORM_FEE"
              >> (enter x x.second_id acc dep (sub64 dep.amount fee)
                    LedgerEntryType.bid_deposit_released "platform_fee_deposit_remainder"
                    (fee_ref x ++ ":remainder") "PLATFORM_FEE_REMAINDER"
                  >> publish_fee x dep fee)))

  part_rest-Writes :
      (fee : ℤ) (dep : AuctionDeposit) (acc : Account) (s : Store)
      → Succeeds (part_rest fee dep acc s).1
      → Writes (mark_settled x.now dep) acc s (part_rest fee dep acc s).0
  unfolding part_rest save_deposit save_account enter append publish_fee publish
  part_rest-Writes fee dep acc s h = ground arith

  all_rest : AuctionDeposit → Account → Method Store.Error Store (Unit {0})
  all_rest dep acc =
      save_deposit (mark_captured x.now dep)
      >> (save_account acc
          >> (enter x x.first_id acc dep dep.amount LedgerEntryType.platform_fee_captured
                "platform_fee_from_deposit" (fee_ref x) "PLATFORM_FEE"
              >> publish_fee x dep dep.amount))

  all_rest-Writes :
      (dep : AuctionDeposit) (acc : Account) (s : Store)
      → Succeeds (all_rest dep acc s).1
      → Writes (mark_captured x.now dep) acc s (all_rest dep acc s).0
  unfolding all_rest save_deposit save_account enter append publish_fee publish
  all_rest-Writes dep acc s h = ground arith

  due_rest : ℤ → AuctionDeposit → Account → Method Store.Error Store (Unit {0})
  due_rest fee dep acc =
      save_deposit (mark_captured x.now dep)
      >> (save_account acc
          >> (enter x x.first_id acc dep dep.amount LedgerEntryType.platform_fee_captured
                "platform_fee_from_deposit" (fee_ref x) "PLATFORM_FEE"
              >> (enter x x.second_id acc dep (sub64 fee dep.amount)
                    LedgerEntryType.platform_fee_due "platform_fee_due" (fee_ref x ++ ":due")
                    "PLATFORM_FEE_DUE"
                  >> (publish_fee x dep dep.amount
                      >> publish (
                          Store.platform_fee_payment_required dep.auction_id x.company
                            (sub64 fee dep.amount) dep.currency)))))

  due_rest-Writes :
      (fee : ℤ) (dep : AuctionDeposit) (acc : Account) (s : Store)
      → Succeeds (due_rest fee dep acc s).1
      → Writes (mark_captured x.now dep) acc s (due_rest fee dep acc s).0
  unfolding due_rest save_deposit save_account enter append publish_fee publish
  due_rest-Writes fee dep acc s h = ground arith

  abbrev pub Effect : ℤ → AuctionDeposit → Account → Store → Store → Type 0
  Effect fee dep acc s s' =
      (acc' : Account) × Writes (settled_of x.now fee dep) acc' s s'
      × Spent (kept fee dep.amount) dep.amount acc acc'

  give_back-Effect :
      (fee : ℤ) (dep : AuctionDeposit) (acc : Account) (s : Store)
      → leb_ℤ fee (pos 0) ≡ true
      → IsSolvent acc
      → Succeeds (give_back x dep acc s).1
      → Effect fee dep acc s (give_back x dep acc s).0
  unfolding give_back zero_rest
  give_back-Effect fee dep acc s t solvent done =
      let (acc', went, e, ended) =
        lift_passed (on_account (Account.release dep.amount) acc) (zero_rest dep) s done in
      (
        acc',
        rw (t, e) (zero_rest-Writes dep acc' s ended),
        rw t (release-Spent dep.amount acc acc' solvent went),
      )

  take_part-Effect :
      (fee : ℤ) (dep : AuctionDeposit) (acc : Account) (s : Store)
      → IsInt64 dep.amount
      → leb_ℤ fee (pos 0) ≡ false
      → ltb_ℤ fee dep.amount ≡ true
      → IsSolvent acc
      → Succeeds (take_part x fee dep acc s).1
      → Effect fee dep acc s (take_part x fee dep acc s).0
  unfolding take_part part_rest
  take_part-Effect fee dep acc s f t u solvent done =
      let up : pos 0 <ℤ fee = ground arith in
      let below : fee <ℤ dep.amount = ground arith in
      let exact =
        sub64_exact dep.amount fee (IsInt64-by_parts _ omega (int_laws) omega (int_laws)) in
      let last : Account → Method Store.Error Store (Unit {0}) =
        λ a. lift (on_account (Account.release (sub64 dep.amount fee)) a) >>= part_rest fee dep in
      let (b, went, e, more) = lift_passed (on_account (Account.capture fee) acc) last s done in
      let (acc', back, e', ended) =
        lift_passed (on_account (Account.release (sub64 dep.amount fee)) b) (part_rest fee dep) s
          more in
      let first = capture-Spent fee acc b solvent went in
      let second = release-Spent (sub64 dep.amount fee) b acc' first.0 back in
      let whole : fee +ℤ sub64 dep.amount fee ≡ dep.amount =
        ap (λ z. fee +ℤ z) exact ∙ eq_of_parts _ _ omega (int_laws) in
      (
        acc',
        rw (t, u, e ∙ e') (part_rest-Writes fee dep acc' s ended),
        rw (t, u)
            (subst (λ z. Spent fee z acc acc') whole
              (both-Spent fee (sub64 dep.amount fee) acc b acc' first second)),
      )

  take_all-Effect :
      (fee : ℤ) (dep : AuctionDeposit) (acc : Account) (s : Store)
      → leb_ℤ fee (pos 0) ≡ false
      → ltb_ℤ fee dep.amount ≡ false
      → IsSolvent acc
      → Succeeds (take_all x dep acc s).1
      → Effect fee dep acc s (take_all x dep acc s).0
  unfolding take_all all_rest
  take_all-Effect fee dep acc s t u solvent done =
      let (acc', went, e, ended) =
        lift_passed (on_account (Account.capture dep.amount) acc) (all_rest dep) s done in
      (
        acc',
        rw (t, u, e) (all_rest-Writes dep acc' s ended),
        rw (t, u) (capture-Spent dep.amount acc acc' solvent went),
      )

  take_all_with_due-Effect :
      (fee : ℤ) (dep : AuctionDeposit) (acc : Account) (s : Store)
      → leb_ℤ fee (pos 0) ≡ false
      → ltb_ℤ fee dep.amount ≡ false
      → IsSolvent acc
      → Succeeds (take_all_with_due x fee dep acc s).1
      → Effect fee dep acc s (take_all_with_due x fee dep acc s).0
  unfolding take_all_with_due due_rest
  take_all_with_due-Effect fee dep acc s t u solvent done =
      let (acc', went, e, ended) =
        lift_passed (on_account (Account.capture dep.amount) acc) (due_rest fee dep) s done in
      (
        acc',
        rw (t, u, e) (due_rest-Writes fee dep acc' s ended),
        rw (t, u) (capture-Spent dep.amount acc acc' solvent went),
      )

  pub capture_fee_now-Effect :
      (fee : ℤ) (dep : AuctionDeposit) (acc : Account) (s : Store)
      → IsInt64 dep.amount
      → IsSolvent acc
      → Succeeds (capture_fee_now x fee dep acc s).1
      → Effect fee dep acc s (capture_fee_now x fee dep acc s).0
  unfolding capture_fee_now
  capture_fee_now-Effect fee dep acc s f solvent =
      let good : Method Store.Error Store (Unit {0}) → Type 0 =
        λ m. Succeeds (m s).1 → Effect fee dep acc s (m s).0 in
      if_both good (leb_ℤ fee (pos 0)) _ _ (λ t. give_back-Effect fee dep acc s t solvent)
        (λ t.
          if_both good (ltb_ℤ fee dep.amount) _ _
            (λ u. take_part-Effect fee dep acc s f t u solvent)
            (λ u.
              if_both good (eqb_ℤ dep.amount fee) _ _
                (λ _. take_all-Effect fee dep acc s t u solvent)
                (λ _. take_all_with_due-Effect fee dep acc s t u solvent)))
