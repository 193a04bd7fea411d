-- ===== src/Identity/Types.antt =====
-- The data of internal/identity/domain: errors, the user and the company.
use unbelievable_fish.Prelude.{ℕ, Bool, List, String}
use unbelievable_fish.Prelude.Time.{Time}

pub data Error : Type 0 where
  empty_user_id empty_company_id empty_user_name empty_login invalid_login : Error
  invalid_role empty_password_hash empty_terms_version empty_terms_accepted_at : Error
  empty_company_name company_name_too_long invalid_inn invalid_ogrn : Error
  empty_company_created company_rename_denied invalid_company_state : Error

-- The role and the login are kept as the code points of their normalized texts.
pub record User : Type 0 where
  pub id : String
  pub company_id : String
  pub name : String
  pub role : List ℕ
  pub login : List ℕ
  pub password_hash : String
  pub email_verified : Bool
  pub terms_accepted_at : Time
  pub terms_version : String

-- A status is a string; `other` is any string that is none of the constants.
pub data CompanyStatus : Type 0 where
  active blocked archived : CompanyStatus
  other : String → CompanyStatus

pub record Company : Type 0 where
  pub id : String
  pub name : String
  pub inn : String
  pub ogrn : String
  pub status : CompanyStatus
  pub created_at : Time
