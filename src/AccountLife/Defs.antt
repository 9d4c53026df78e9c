-- ===== src/AccountLife/Defs.antt =====
-- The requests that change the table of users, and what each does to the database.
use secure_voting_platform.Prelude.{Bool, ℕ, Option, List, [], ◌∷◌}
use secure_voting_platform.Prelude.Text.{Text}
use secure_voting_platform.Models.{Store, User, Role}
use secure_voting_platform.Outcome.{Outcome, done, refuse}
use secure_voting_platform.Accounts.{TokenRead, password_step, complete_login, reset_password}
use secure_voting_platform.Registration.{RegistrationForm, register}
use secure_voting_platform.Administration.{
  approve_user, reject_user, unlock_user, verify_email, change_password,
}

pub data Request : Type 0 where
  registration : (detected : Option Text) → RegistrationForm → List Role → Request
  login : (username password : Text) → Request
  login_completed : (user_id : ℕ) → Request
  reset : TokenRead → Option (Text × Text) → (seen : List User) → Request
  change : (user_id : ℕ) (current new confirm : Text) → Request
  verification : TokenRead → Request
  approval rejection unlocking : (admin : User) (user_id : ℕ) → Request

-- A refused request is rolled back.
abbrev pub or_rolled_back : Store → Outcome Store → Store
or_rolled_back s (done t) = t
or_rolled_back s (refuse r) = s

abbrev pub with_users : Store → List User → Store
with_users s users = record s { users = users }

module _ (lic_hmac : Text → Text) (generate_hash : Text → Text)
    (check_hash : (stored password : Text) → Bool) where
  unfoldable pub perform : (now : ℕ) → Request → Store → Store
  perform now (registration detected form roles) s =
      or_rolled_back s (register lic_hmac generate_hash now detected form roles s)
  perform now (login username password) s =
      with_users s (password_step generate_hash check_hash now username password s.users).1
  perform now (login_completed uid) s =
      with_users s (complete_login generate_hash check_hash uid s.users)
  perform now (reset token form seen) s =
      with_users s (reset_password generate_hash check_hash now token form seen s.users).1
  perform now (change uid current new confirm) s =
      with_users s (change_password generate_hash check_hash now uid current new confirm s.users).1
  perform now (verification token) s = with_users s (verify_email token s.users).1
  perform now (approval admin uid) s = or_rolled_back s (approve_user admin uid s)
  perform now (rejection admin uid) s = or_rolled_back s (reject_user admin uid s)
  perform now (unlocking admin uid) s = or_rolled_back s (unlock_user admin uid s)

  -- Requests one after the other, each at its time.
  abbrev pub perform_all : List (ℕ × Request) → Store → Store
  perform_all [] s = s
  perform_all ((now, r) ∷ rs) s = perform_all rs (perform now r s)
