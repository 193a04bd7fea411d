-- ===== src/Identity/Users.antt =====
-- The life of a user (internal/identity/domain/user.go).
use unbelievable_fish.Prelude.{◌≡◌, refl, ◌∙◌, ap, true, false, List, [], ◌∷◌, String, ok, arith}
use unbelievable_fish.Prelude.Time.{Time}
use unbelievable_fish.Prelude.Trim.{is_blank_text}
use unbelievable_fish.Identity.Validation.{codes, is_email}
use unbelievable_fish.Identity.Role.{is_known_role, is_role, role_admin}
use unbelievable_fish.Identity.Types.{User}
use unbelievable_fish.Identity.User.{new_user, accept_terms, promote_to_admin, verify_email}

-- A user under the operations: the terms, the promotion and the verification of the address.
pub data UserCommand : Type 0 where
  accept_it : String → Time → UserCommand
  promote_it verify_it : UserCommand

unfoldable pub run_user : List UserCommand → User → User
run_user [] u = u
run_user (accept_it version at ∷ xs) u = run_user xs (accept_terms version at u).0
run_user (promote_it ∷ xs) u = run_user xs (promote_to_admin u)
run_user (verify_it ∷ xs) u = run_user xs (verify_email u)

pub record IsValidUser (u : User) : Type 0 where
  pub id_there : is_blank_text u.id ≡ false
  pub name_there : is_blank_text u.name ≡ false
  pub login_good : is_email u.login ≡ true
  pub role_known : is_known_role u.role ≡ true
  pub hash_there : is_blank_text u.password_hash ≡ false

new_user-IsValid :
    (id company name role login hash : String) (u : User)
    → new_user id company name role login hash ≡ ok u
    → IsValidUser u
unfolding new_user
new_user-IsValid id company name role login hash u h = ground arith

-- What no operation of a user changes.
abbrev pub IsSameUser : User → User → Type 0
IsSameUser u u' =
    (u'.id ≡ u.id)
    × (u'.company_id ≡ u.company_id)
    × (u'.name ≡ u.name)
    × (u'.login ≡ u.login)
    × (u'.password_hash ≡ u.password_hash)

accept_keeps :
    (version : String) (at : Time) (u : User)
    → IsSameUser u (accept_terms version at u).0 × ((accept_terms version at u).0.role ≡ u.role)
unfolding accept_terms
accept_keeps version at u = ground arith

admin_known : is_known_role (codes role_admin) ≡ true
unfolding is_role codes
admin_known = refl

run_user_keeps :
    (xs : List UserCommand) (u : User)
    → is_known_role u.role ≡ true
    → IsSameUser u (run_user xs u) × (is_known_role (run_user xs u).role ≡ true)
unfolding run_user promote_to_admin verify_email
run_user_keeps [] u h = ((refl, refl, refl, refl, refl), h)
run_user_keeps (accept_it version at ∷ xs) u h =
    let ((a, b, c, d, e), r) = accept_keeps version at u in
    let ((a', b', c', d', e'), k) =
      run_user_keeps xs (accept_terms version at u).0 (ap is_known_role r ∙ h) in
    ((a' ∙ a, b' ∙ b, c' ∙ c, d' ∙ d, e' ∙ e), k)
run_user_keeps (promote_it ∷ xs) u h = run_user_keeps xs (promote_to_admin u) admin_known
run_user_keeps (verify_it ∷ xs) u h = run_user_keeps xs (verify_email u) h

-- A user that is registered keeps the id, the company, the name, the login and the password under
-- any of the operations, and stays valid: the login is an address, the role is one of the four, and
-- id, name and password are there.
pub user_kept :
    (id company name role login hash : String) (u : User) (xs : List UserCommand)
    → new_user id company name role login hash ≡ ok u
    → IsSameUser u (run_user xs u) × IsValidUser (run_user xs u)
user_kept id company name role login hash u xs h =
    let v = new_user-IsValid id company name role login hash u h in
    let ((a, b, c, d, e), k) = run_user_keeps xs u v.role_known in
    (
      (a, b, c, d, e),
      record {
        id_there = ap is_blank_text a ∙ v.id_there;
        name_there = ap is_blank_text c ∙ v.name_there;
        login_good = ap is_email d ∙ v.login_good;
        role_known = k;
        hash_there = ap is_blank_text e ∙ v.hash_there;
      },
    )
