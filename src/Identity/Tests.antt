-- ===== src/Identity/Tests.antt =====
-- The theorems on companies, users and roles (internal/identity/domain) at concrete inputs.
use unbelievable_fish.Prelude.{ℕ, ◌≡◌, refl, ◌↔◌, inl, true, false, List, [], ◌∷◌, ok, length}
use unbelievable_fish.Prelude.Text.{is_empty, str_eq}
use unbelievable_fish.Prelude.Time.{hour}
use unbelievable_fish.Prelude.Trim.{trim_space, trim_left, trim_right, is_blank_text}
use unbelievable_fish.Identity.Validation.{
  codes, lower_codes, normalize_login, is_email, local_rest, is_domain_text, domain_rest, is_digits,
  is_inn, is_valid_inn, is_ogrn, is_valid_ogrn, digit_checksum,
}
use unbelievable_fish.Identity.Checksum.{IsAddress, is_email_iff}
use unbelievable_fish.Identity.Numbers.{last_digit_unique}
use unbelievable_fish.Identity.Role.{normalize_role, is_role}
use unbelievable_fish.Identity.Types.{User, Company, CompanyStatus}
use unbelievable_fish.Identity.User.{new_user}
use unbelievable_fish.Identity.Company.{new_company, is_too_long}
use unbelievable_fish.Identity.Life.{
  rename_it, block_it, archive_it, CompanyCommand, run_commands, IsValidCompany, IsSameCompany,
  company_kept,
}
use unbelievable_fish.Identity.Users.{
  accept_it, promote_it, verify_it, UserCommand, run_user, IsSameUser, IsValidUser, user_kept,
}

abbrev sample_login : List ℕ
sample_login = codes "a.b@fish.ru"

is_email_iff_example : is_email (codes "a.b@fish.ru") ≡ true ↔ IsAddress (codes "a.b@fish.ru")
is_email_iff_example = is_email_iff (codes "a.b@fish.ru")

sample_digits : is_digits (codes "1027700132195") ≡ true
unfolding is_digits codes
sample_digits = refl

sample_inn : is_inn (codes "7707083893") ≡ true
unfolding is_inn is_digits digit_checksum codes
sample_inn = refl

ten_long : length (codes "7707083893") ≡ 10
unfolding codes
ten_long = refl

last_digit_unique_example : codes "7707083893" ≡ codes "7707083893"
last_digit_unique_example =
    last_digit_unique 9 (codes "7707083893") (codes "7707083893") ten_long ten_long
      (inl (sample_inn, sample_inn)) refl

abbrev sample_company : CompanyStatus → Company
sample_company status = record {
  id = "c1";
  name = "Fish";
  inn = "7707083893";
  ogrn = "1027700132195";
  status = status;
  created_at = hour;
}

company_made :
    new_company "c1" " Fish" "7707083893" "1027700132195" hour
    ≡ ok (sample_company CompanyStatus.active)
unfolding new_company is_too_long is_valid_inn is_valid_ogrn is_inn is_ogrn is_digits digit_checksum
    codes is_blank_text trim_space trim_left trim_right is_empty str_eq
company_made = refl

abbrev company_run : List CompanyCommand
company_run = block_it ∷ rename_it "Cod" ∷ archive_it ∷ block_it ∷ []

company_kept_example :
    IsValidCompany (run_commands company_run (sample_company CompanyStatus.active))
    × IsSameCompany
        (sample_company CompanyStatus.active)
        (run_commands company_run (sample_company CompanyStatus.active))
company_kept_example =
    company_kept "c1" " Fish" "7707083893" "1027700132195" hour
      (sample_company CompanyStatus.active) company_run company_made

abbrev sample_user : User
sample_user = record {
  id = "u1";
  company_id = "c1";
  name = "Ann";
  role = codes "buyer";
  login = codes "a.b@fish.ru";
  password_hash = "x";
  email_verified = false;
  terms_accepted_at = 0;
  terms_version = "";
}

user_made : new_user "u1" "c1" "Ann" "Buyer" " A.b@fish.ru" "x" ≡ ok sample_user
unfolding new_user normalize_login normalize_role is_role is_email local_rest is_domain_text
    domain_rest codes lower_codes is_blank_text trim_space trim_left trim_right is_empty str_eq
user_made = refl

abbrev user_run : List UserCommand
user_run = accept_it "v1" hour ∷ promote_it ∷ verify_it ∷ []

user_kept_example :
    IsSameUser sample_user (run_user user_run sample_user)
    × IsValidUser (run_user user_run sample_user)
user_kept_example =
    user_kept "u1" "c1" "Ann" "Buyer" " A.b@fish.ru" "x" sample_user user_run user_made
