-- ===== src/Models/Accounts.antt =====
-- Roles, users and the electoral roll (app/models.py), and the role guards of
-- app/utils/auth_decorators.py. Times are microseconds of naive UTC.
use secure_voting_platform.Prelude.{ℕ, ◌*◌, Bool, false, Option, none, some, List, any, ◌==◌}
use secure_voting_platform.Prelude.Text.{Text, codes, text_eq, lower}

abbrev pub seconds : ℕ → ℕ
seconds n = n * 1000000

pub record Role : Type 0 where
  pub id : ℕ
  pub name : Text

pub record Region : Type 0 where
  pub id : ℕ
  pub name : Text

pub record User : Type 0 where
  pub id : ℕ
  pub username : Text
  pub email : Option Text
  pub password_hash : Text
  pub driver_lic_no : Text
  pub driver_lic_hash : Text
  pub driver_lic_state : Option Text
  pub role : Option Role
  pub account_status : Text
  pub email_verified : Bool
  pub created_at : ℕ
  pub password_changed_at : Option ℕ
  pub session_version : ℕ
  pub failed_login_attempts : ℕ
  pub account_locked_until : Option ℕ

pub record ElectoralRoll : Type 0 where
  pub id : ℕ
  pub roll_number : Text
  pub driver_license_number : Text
  pub driver_license_hash : Text
  pub full_name : Text
  pub date_of_birth : ℕ
  pub address_line1 : Text
  pub address_line2 : Option Text
  pub suburb : Text
  pub state : Text
  pub postcode : Text
  pub region_id : ℕ
  pub status : Text
  pub verified : Bool
  pub verified_at : Option ℕ
  pub user_id : Option ℕ

-- `User.has_role`
unfoldable pub has_role : List Text → User → Bool
has_role names u = elim u.role [ none ↦ false | some r ↦ any (text_eq r.name) names ]

-- `User.is_approved`
unfoldable pub is_approved : User → Bool
is_approved u = text_eq (lower u.account_status) (codes "approved")

abbrev pub owns : ℕ → ElectoralRoll → Bool
owns uid e = elim e.user_id [ none ↦ false | some k ↦ k == uid ]
