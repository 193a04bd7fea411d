-- ===== src/Identity/User.antt =====
-- internal/identity/domain/user.go.
use unbelievable_fish.Prelude.{
  true, false, not, String, Result, ok, Method, modify, fail_if, check, ◌then_also◌, ◌>>◌,
}
use unbelievable_fish.Prelude.Time.{Time, is_zero}
use unbelievable_fish.Prelude.Trim.{trim_space, is_blank_text}
use unbelievable_fish.Identity.Validation.{codes, normalize_login, is_email, is_nil}
use unbelievable_fish.Identity.Role.{normalize_role, is_known_role, role_admin}
use unbelievable_fish.Identity.Types.{Error, User}

-- The checks come after the parts are trimmed and normalized; a normalized text has no space about
-- it, so that it is blank only where it is empty, and it is its own normal form.
unfoldable pub new_user : String → String → String → String → String → String → Result Error User
unfolding trim_space normalize_login normalize_role codes
new_user user_id company_id name role login password_hash =
    let id = trim_space user_id in
    let display = trim_space name in
    let address = normalize_login login in
    let hash = trim_space password_hash in
    let kind = normalize_role role in
    check (is_blank_text id) Error.empty_user_id
    then_also check (is_blank_text display) Error.empty_user_name
    then_also check (is_nil address) Error.empty_login
    then_also check (not (is_email address)) Error.invalid_login
    then_also check (not (is_known_role kind)) Error.invalid_role
    then_also check (is_blank_text hash) Error.empty_password_hash
    then_also ok (record {
      id = id;
      company_id = trim_space company_id;
      name = display;
      role = kind;
      login = address;
      password_hash = hash;
      email_verified = false;
      terms_accepted_at = 0;
      terms_version = "";
    })

unfoldable pub accept_terms : String → Time → Method Error User (Unit {0})
unfolding trim_space
accept_terms version accepted_at =
    let v = trim_space version in
    fail_if (is_blank_text v) Error.empty_terms_version
    >> (fail_if (is_zero accepted_at) Error.empty_terms_accepted_at
        >> modify λ (u : User). record u { terms_version = v; terms_accepted_at = accepted_at })

unfoldable pub promote_to_admin : User → User
unfolding codes
promote_to_admin u = record u { role = codes role_admin }

unfoldable pub verify_email : User → User
verify_email u = record u { email_verified = true }
