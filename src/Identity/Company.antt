-- ===== src/Identity/Company.antt =====
-- internal/identity/domain/company.go.
use unbelievable_fish.Prelude.{
  ℕ, Bool, true, false, not, ltb, length, String, Result, ok, Method, gets, modify, fail_if, check,
  ◌then_also◌, ◌>>=◌, ◌>>◌,
}
use unbelievable_fish.Prelude.Time.{Time, is_zero}
use unbelievable_fish.Prelude.Trim.{trim_space, is_blank_text}
use unbelievable_fish.Identity.Validation.{codes, is_valid_inn, is_valid_ogrn}
use unbelievable_fish.Identity.Types.{Error, CompanyStatus, Company}

abbrev pub company_name_max_length : ℕ
company_name_max_length = 255

-- `len([]rune(name)) > companyNameMaxLength`
unfoldable pub is_too_long : String → Bool
unfolding codes
is_too_long name = ltb company_name_max_length (length (codes name))

unfoldable pub new_company : String → String → String → String → Time → Result Error Company
unfolding trim_space is_too_long
new_company company_id company_name company_inn company_ogrn created_at =
    let id = trim_space company_id in
    let name = trim_space company_name in
    let inn = trim_space company_inn in
    let ogrn = trim_space company_ogrn in
    check (is_blank_text id) Error.empty_company_id
    then_also check (is_blank_text name) Error.empty_company_name
    then_also check (is_too_long name) Error.company_name_too_long
    then_also check (not (is_valid_inn inn)) Error.invalid_inn
    then_also check (not (is_valid_ogrn ogrn)) Error.invalid_ogrn
    then_also check (is_zero created_at) Error.empty_company_created
    then_also ok (record {
      id = id;
      name = name;
      inn = inn;
      ogrn = ogrn;
      status = CompanyStatus.active;
      created_at = created_at;
    })

abbrev pub is_active : CompanyStatus → Bool
is_active CompanyStatus.active = true
is_active _ = false

abbrev pub is_blocked : CompanyStatus → Bool
is_blocked CompanyStatus.blocked = true
is_blocked _ = false

abbrev pub is_archived : CompanyStatus → Bool
is_archived CompanyStatus.archived = true
is_archived _ = false

unfoldable pub rename : String → Method Error Company (Unit {0})
unfolding trim_space is_too_long
rename company_name = do
  status ← gets λ (c : Company). c.status
  fail_if (is_archived status) Error.company_rename_denied
  fail_if (is_blank_text (trim_space company_name)) Error.empty_company_name
  fail_if (is_too_long (trim_space company_name)) Error.company_name_too_long
  modify λ (c : Company). record c { name = trim_space company_name }

unfoldable pub block : Method Error Company (Unit {0})
block = do
  status ← gets λ (c : Company). c.status
  fail_if (not (is_active status)) Error.invalid_company_state
  modify λ (c : Company). record c { status = CompanyStatus.blocked }

unfoldable pub activate : Method Error Company (Unit {0})
activate = do
  status ← gets λ (c : Company). c.status
  fail_if (not (is_blocked status)) Error.invalid_company_state
  modify λ (c : Company). record c { status = CompanyStatus.active }

unfoldable pub archive : Method Error Company (Unit {0})
archive = do
  status ← gets λ (c : Company). c.status
  fail_if (is_archived status) Error.invalid_company_state
  modify λ (c : Company). record c { status = CompanyStatus.archived }
