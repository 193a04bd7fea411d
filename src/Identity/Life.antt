-- ===== src/Identity/Life.antt =====
-- The life of companies and users (internal/identity/domain).
use unbelievable_fish.Prelude.{
  ◌≡◌, refl, ◌∙◌, ap, true, false, ◌||◌, List, [], ◌∷◌, String, ok, Method, is_ok, arith,
}
use unbelievable_fish.Prelude.Time.{Time}
use unbelievable_fish.Prelude.Trim.{is_blank_text}
use unbelievable_fish.Identity.Validation.{is_valid_inn, is_valid_ogrn}
use unbelievable_fish.Identity.Types.{Error, Company}
use unbelievable_fish.Identity.Company.{
  is_too_long, new_company, is_active, is_blocked, is_archived, rename, block, activate, archive,
}

pub data CompanyCommand : Type 0 where
  rename_it : String → CompanyCommand
  block_it activate_it archive_it : CompanyCommand

unfoldable pub run_command : CompanyCommand → Method Error Company (Unit {0})
run_command (rename_it name) = rename name
run_command block_it = block
run_command activate_it = activate
run_command archive_it = archive

unfoldable pub run_commands : List CompanyCommand → Company → Company
unfolding run_command
run_commands [] c = c
run_commands (x ∷ xs) c = run_commands xs (run_command x c).0

pub record IsValidCompany (c : Company) : Type 0 where
  pub id_there : is_blank_text c.id ≡ false
  pub name_there : is_blank_text c.name ≡ false
  pub name_short : is_too_long c.name ≡ false
  pub inn_good : is_valid_inn c.inn ≡ true
  pub ogrn_good : is_valid_ogrn c.ogrn ≡ true
  pub known : (is_active c.status || is_blocked c.status || is_archived c.status) ≡ true

-- What identifies a company.
abbrev pub IsSameCompany : Company → Company → Type 0
IsSameCompany c c' =
    (c'.id ≡ c.id) × (c'.inn ≡ c.inn) × (c'.ogrn ≡ c.ogrn) × (c'.created_at ≡ c.created_at)

command-IsSameCompany : (x : CompanyCommand) (c : Company) → IsSameCompany c (run_command x c).0
unfolding run_command rename block activate archive
command-IsSameCompany (rename_it n) c = ground arith
command-IsSameCompany block_it c = ground arith
command-IsSameCompany activate_it c = ground arith
command-IsSameCompany archive_it c = ground arith

command_names :
    (x : CompanyCommand) (c : Company)
    → is_blank_text c.name ≡ false
    → is_too_long c.name ≡ false
    → (is_blank_text (run_command x c).0.name ≡ false)
      × (is_too_long (run_command x c).0.name ≡ false)
unfolding run_command rename block activate archive
command_names (rename_it n) c h k = ground arith
command_names block_it c h k = ground arith
command_names activate_it c h k = ground arith
command_names archive_it c h k = ground arith

command_known :
    (x : CompanyCommand) (c : Company)
    → (is_active c.status || is_blocked c.status || is_archived c.status) ≡ true
    → (is_active (run_command x c).0.status
        || is_blocked (run_command x c).0.status
        || is_archived (run_command x c).0.status)
      ≡ true
unfolding run_command rename block activate archive
command_known (rename_it n) c h = ground arith
command_known block_it c h = ground arith
command_known activate_it c h = ground arith
command_known archive_it c h = ground arith

command-IsValid :
    (x : CompanyCommand) (c : Company) → IsValidCompany c → IsValidCompany (run_command x c).0
command-IsValid x c v =
    let (i, n, o, _) = command-IsSameCompany x c in
    let (there, short) = command_names x c v.name_there v.name_short in
    record {
      id_there = ap is_blank_text i ∙ v.id_there;
      name_there = there;
      name_short = short;
      inn_good = ap is_valid_inn n ∙ v.inn_good;
      ogrn_good = ap is_valid_ogrn o ∙ v.ogrn_good;
      known = command_known x c v.known;
    }

run-IsValid :
    (xs : List CompanyCommand) (c : Company) → IsValidCompany c → IsValidCompany (run_commands xs c)
unfolding run_commands
run-IsValid [] c v = v
run-IsValid (x ∷ xs) c v = run-IsValid xs (run_command x c).0 (command-IsValid x c v)

run-IsSameCompany : (xs : List CompanyCommand) (c : Company) → IsSameCompany c (run_commands xs c)
unfolding run_commands
run-IsSameCompany [] c = (refl, refl, refl, refl)
run-IsSameCompany (x ∷ xs) c =
    let (i, n, o, t) = command-IsSameCompany x c in
    let (i', n', o', t') = run-IsSameCompany xs (run_command x c).0 in
    (i' ∙ i, n' ∙ n, o' ∙ o, t' ∙ t)

new_company-IsValid :
    (id name inn ogrn : String) (at : Time) (c : Company)
    → new_company id name inn ogrn at ≡ ok c
    → IsValidCompany c
unfolding new_company
new_company-IsValid id name inn ogrn at c h = ground arith

-- A company that is registered stays valid under any of its operations: its id and name are there,
-- the name has 255 characters at most, both numbers pass their checks, and the status is one of the
-- three; the id, the numbers and the time never change.
pub company_kept :
    (id name inn ogrn : String) (at : Time) (c : Company) (xs : List CompanyCommand)
    → new_company id name inn ogrn at ≡ ok c
    → IsValidCompany (run_commands xs c) × IsSameCompany c (run_commands xs c)
company_kept id name inn ogrn at c xs h =
    (run-IsValid xs c (new_company-IsValid id name inn ogrn at c h), run-IsSameCompany xs c)

command_archived :
    (x : CompanyCommand) (c : Company)
    → is_archived c.status ≡ true
    → ((run_command x c).0 ≡ c) × (is_ok (run_command x c).1 ≡ false)
unfolding run_command rename block activate archive
command_archived (rename_it n) c h = ground arith
command_archived block_it c h = ground arith
command_archived activate_it c h = ground arith
command_archived archive_it c h = ground arith

archived_stays :
    (xs : List CompanyCommand) (c : Company) → is_archived c.status ≡ true → run_commands xs c ≡ c
unfolding run_commands
archived_stays [] c h = refl
archived_stays (x ∷ xs) c h =
    ap (run_commands xs) (command_archived x c h).0 ∙ archived_stays xs c h

-- An archived company is closed for good: every operation on it returns an error, and no run of
-- operations changes it.
pub archived_final :
    (x : CompanyCommand) (xs : List CompanyCommand) (c : Company)
    → is_archived c.status ≡ true
    → (is_ok (run_command x c).1 ≡ false) × (run_commands xs c ≡ c)
archived_final x xs c h = ((command_archived x c h).1, archived_stays xs c h)
