-- ===== src/AccountLife/Rules.antt =====
-- The rules of an account, apart from the handlers: what may happen to a row of `users`, and to the
-- table.
use secure_voting_platform.Prelude.{
  ℕ, suc, ◌+◌, ◌≡◌, Bool, true, false, not, ◌||◌, Option, none, some, List, ◌∷◌, find, any, update,
  if◌then◌else◌, leb,
}
use secure_voting_platform.Prelude.Int.{ℤ, is_id}
use secure_voting_platform.Prelude.Text.{Text, codes, text_eq, is_empty}
use secure_voting_platform.Json.{Json}
use secure_voting_platform.Models.{User, Role, has_role, seconds}
use secure_voting_platform.Passwords.Policy.{IsStrong}
use secure_voting_platform.Elections.{manager, field_text}
use secure_voting_platform.Accounts.{has_user_id, is_account_locked, payload, reset_claims}
use secure_voting_platform.Accounts.Reset.{with_password}
use secure_voting_platform.Registration.{RegistrationForm, has_username, has_email, has_licence}
use secure_voting_platform.AccountLife.Defs.{Request}

-- No other account has its name, its address or its licence.
abbrev pub IsNewcomer : User → List User → Type 0
IsNewcomer u us =
    (any (has_username u.username) us ≡ false)
    × ((e : Text) × (u.email ≡ some e) × (any (has_email e) us ≡ false))
    × (any (has_licence u.driver_lic_hash) us ≡ false)

-- It waits for its address to be verified and for an administrator.
abbrev pub IsPending : User → Type 0
IsPending u = (u.account_status ≡ codes "pending") × (u.email_verified ≡ false)

module _ (generate_hash : Text → Text) (check_hash : (stored password : Text) → Bool) where
  -- What a request may do to an account, and when.
  pub data Revised (now : ℕ) : Request → User → User → Type 0 where
    -- A wrong password for an account that is not locked counts, and the fifth locks it for half an
    -- hour.
    failed :
        (name password : Text) (u : User)
        → text_eq u.username name ≡ true
        → is_account_locked now u ≡ false
        → (is_empty password || not (check_hash u.password_hash password)) ≡ true
        → Revised now (Request.login name password) u (record u {
          failed_login_attempts = suc u.failed_login_attempts;
          account_locked_until =
              if leb 5 (suc u.failed_login_attempts)
              then some (now + seconds 1800)
              else u.account_locked_until;
        })
    completed :
        (k : ℕ) (u : User)
        → u.id ≡ k
        → Revised now
            (Request.login_completed k)
            u
            (record u { failed_login_attempts = 0; account_locked_until = none })
    unlocked :
        (admin : User) (k : ℕ) (u : User)
        → u.id ≡ k
        → has_role manager admin ≡ true
        → Revised now
            (Request.unlocking admin k)
            u
            (record u { failed_login_attempts = 0; account_locked_until = none })
    -- A link names the account and its session version.
    was_reset :
        (j : Json) (seen : List User) (uid ver : ℤ) (password confirm : Text) (u : User)
        → reset_claims generate_hash check_hash j ≡ some (uid, ver)
        → is_id uid u.id ≡ true
        → is_id ver u.session_version ≡ true
        → IsStrong password
        → Revised now
            (Request.reset (payload j) (some (password, confirm)) seen)
            u
            (with_password generate_hash check_hash now password u)
    changed :
        (k : ℕ) (current new confirm : Text) (u : User)
        → u.id ≡ k
        → check_hash u.password_hash current ≡ true
        → check_hash u.password_hash new ≡ false
        → new ≡ confirm
        → IsStrong new
        → Revised now
            (Request.change k current new confirm)
            u
            (with_password generate_hash check_hash now new u)
    -- The link was sent to the account's own address, which was not verified yet.
    confirmed :
        (j : Json) (e : Text) (u : User)
        → j ≡ Json.str e
        → u.email ≡ some e
        → u.email_verified ≡ false
        → Revised now (Request.verification (payload j)) u (record u { email_verified = true })
    approved :
        (admin : User) (k : ℕ) (u : User)
        → u.id ≡ k
        → has_role manager admin ≡ true
        → u.email_verified ≡ true
        → Revised now (Request.approval admin k) u (record u { account_status = codes "approved" })
    -- A rejection ends the account's sessions.
    turned_away :
        (admin : User) (k : ℕ) (u : User)
        → u.id ≡ k
        → has_role manager admin ≡ true
        → Revised now (Request.rejection admin k) u (record u {
          account_status = codes "rejected";
          session_version = u.session_version + 1;
        })

  -- What a request may do to the table: nothing, a revision of one account, or, for a registration,
  -- a new one. The numbers are the next free primary key before and after.
  pub data Step (now : ℕ) (r : Request) : ℕ → List User → ℕ → List User → Type 0 where
    stays : (n : ℕ) (us : List User) → Step now r n us n us
    revises :
        (n : ℕ) (us : List User) (k : ℕ) (x y : User)
        → find (has_user_id k) us ≡ some x
        → Revised now r x y
        → Step now r n us n (update (has_user_id k) (λ _. y) us)
    enrols :
        (n : ℕ) (us : List User) (u : User) (detected : Option Text) (form : RegistrationForm)
        (roles : List Role)
        → r ≡ Request.registration detected form roles
        → u.id ≡ n
        → u.username ≡ field_text form.username
        → IsNewcomer u us
        → IsPending u
        → Step now r n us (suc (suc n)) (u ∷ us)
