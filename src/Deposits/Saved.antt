-- ===== src/Deposits/Saved.antt =====
-- The account that a use case saves is the one that the company has afterwards:
-- internal/billing/postgres/account_repository.go.
use unbelievable_fish.Prelude.{
  ◌≡◌, sym, ◌∙◌, ap, Bool-cases, inl, inr, List, [], ◌∷◌, String, arith, some, ok,
}
use unbelievable_fish.Prelude.Int.{pos, ◌≤ℤ◌}
use unbelievable_fish.Prelude.Text.{str_eq, str_eq_iff}
use unbelievable_fish.Wallet.Types.{Account}
use unbelievable_fish.Wallet.Account.{rehydrate_account}
use unbelievable_fish.Deposits.Store.{find_account, loaded, update_accounts}

-- The account with other balances.
abbrev pub with_balances : Account → Account → Account
with_balances new a = record a { available = new.available; held = new.held }

loaded_row : (a acc : Account) → loaded (some a) ≡ ok acc → acc ≡ a
unfolding rehydrate_account
loaded_row a acc h = ground arith

loaded_rewritten :
    (new a acc : Account)
    → loaded (some a) ≡ ok acc
    → pos 0 ≤ℤ new.available
    → pos 0 ≤ℤ new.held
    → loaded (some (with_balances new a)) ≡ ok (with_balances new a)
unfolding rehydrate_account
loaded_rewritten new a acc h v k = ground arith

pub loaded_saved :
    (company : String) (rows : List Account) (acc new : Account)
    → loaded (find_account company rows) ≡ ok acc
    → new ≡ with_balances new acc
    → pos 0 ≤ℤ new.available
    → pos 0 ≤ℤ new.held
    → loaded (find_account company (update_accounts new rows)) ≡ ok new
unfolding find_account update_accounts
loaded_saved company [] acc new h e v k = cc
loaded_saved company (a ∷ rows) acc new h e v k = elim (Bool-cases (str_eq a.company_id company)) [
  | inl own ↦
      let there : loaded (some a) ≡ ok acc = rw own at h in
      let row = loaded_row a acc there in
      let same = ap (λ (y : Account). y.id) (e ∙ ap (with_balances new) row) in
      let hit = (str_eq_iff a.id new.id).1 (sym same) in
      rw (hit, own)
        (loaded_rewritten new a acc there v k ∙ ap ok (sym (e ∙ ap (with_balances new) row)))
  | inr other' ↦
      let rest = loaded_saved company rows acc new (rw other' at h) e v k in
      elim (Bool-cases (str_eq a.id new.id)) [
        | inl hit ↦ rw (hit, other') rest
        | inr miss ↦ rw (miss, other') rest
      ]
]
