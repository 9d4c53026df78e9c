-- ===== src/Accounts/Defs.antt =====
-- `set_password`, the lockout and the expiry of `User` (app/models.py), the password step of `login`
-- (app/auth.py) and `reset_password` (app/routes/password_reset.py). Hashing and checking a password
-- are werkzeug's, and reading a reset token itsdangerous's: parameters.
use secure_voting_platform.Prelude.{
  ℕ, suc, ◌+◌, ◌*◌, Bool, true, false, ◌||◌, not, Option, none, some, List, ◌==◌, find, update,
  if◌then◌else◌, ltb, leb,
}
use secure_voting_platform.Prelude.Int.{ℤ, is_id}
use secure_voting_platform.Prelude.Text.{Text, codes, text_eq, is_empty}
use secure_voting_platform.Json.{Json, get_or_null}
use secure_voting_platform.Models.{User, seconds}
use secure_voting_platform.Passwords.{accepted, validate_password_strength}

-- `User.is_account_locked`
unfoldable pub is_account_locked : ℕ → User → Bool
is_account_locked now u = elim u.account_locked_until [ none ↦ false | some t ↦ ltb now t ]

-- `User.record_failed_login` with its defaults
unfoldable pub record_failed_login : ℕ → User → User
record_failed_login now u = record u {
  failed_login_attempts = suc u.failed_login_attempts;
  account_locked_until =
      if leb 5 (suc u.failed_login_attempts)
      then some (now + seconds 1800)
      else u.account_locked_until;
}

-- `User.reset_failed_logins`
unfoldable pub reset_failed_logins : User → User
reset_failed_logins u = record u { failed_login_attempts = 0; account_locked_until = none }

-- `User.is_password_expired` with its default of 90 days
unfoldable pub is_password_expired : ℕ → User → Bool
is_password_expired now u = elim u.password_changed_at [
  | none ↦ true
  | some t ↦ ltb (t + seconds (90 * 86400)) now
]

abbrev pub has_user_id : ℕ → User → Bool
has_user_id id u = u.id == id

pub data LoginStep : Type 0 where
  unknown_user locked wrong_password : LoginStep
  password_accepted : (user_id : ℕ) → LoginStep

-- How a reset request ends.
pub data ResetStep : Type 0 where
  link_expired link_invalid fields_required mismatch too_weak show_form password_reset : ResetStep

-- What `s.loads(token, max_age=…)` answers.
pub data TokenRead : Type 0 where
  signature_expired bad_signature : TokenRead
  payload : Json → TokenRead

module _ (generate_hash : Text → Text) (check_hash : (stored password : Text) → Bool) where
  -- `User.set_password`; `none` is a PasswordValidationError.
  unfoldable pub set_password : ℕ → Text → User → Option User
  set_password now password u = elim (validate_password_strength password) [
    | accepted ↦ some (record u {
      password_hash = generate_hash password;
      password_changed_at = some now;
      session_version = u.session_version + 1;
      failed_login_attempts = 0;
      account_locked_until = none;
    })
    | _ ↦ none
  ]

  -- The steps of `login` from the user's lookup to the accepted password.
  unfoldable pub password_step : ℕ → (username password : Text) → List User → LoginStep × List User
  password_step now username password users = elim (find (λ u. text_eq u.username username) users) [
    | none ↦ (unknown_user, users)
    | some u ↦
        if is_account_locked now u
        then (locked, users)
        else if is_empty password || not (check_hash u.password_hash password)
        then (wrong_password, update (has_user_id u.id) (record_failed_login now) users)
        else (password_accepted u.id, users)
  ]

  -- `reset_failed_logins` and its commit at the head of `_complete_login`
  unfoldable pub complete_login : ℕ → List User → List User
  complete_login uid users = update (has_user_id uid) reset_failed_logins users

  -- The claims of a reset token: two integers, no booleans.
  abbrev pub reset_claims : Json → Option (ℤ × ℤ)
  reset_claims (Json.obj fs) = elim (get_or_null (codes "uid") fs) [
    | Json.int uid ↦ elim (get_or_null (codes "ver") fs) [
      | Json.int ver ↦ some (uid, ver)
      | _ ↦ none
    ]
    | _ ↦ none
  ]
  reset_claims _ = none

  -- A user whose session version is still the one of the token.
  unfoldable pub token_user : ℤ → ℤ → List User → Option User
  token_user uid ver users = elim (find (λ u. is_id uid u.id) users) [
    | none ↦ none
    | some u ↦ if is_id ver u.session_version then some u else none
  ]

  -- The mutation, on the rows as they are when the lock is held.
  unfoldable pub locked_reset : ℕ → ℤ → ℤ → Text → List User → ResetStep × List User
  locked_reset now uid ver password users = elim (token_user uid ver users) [
    | none ↦ (link_invalid, users)
    | some u ↦ elim (set_password now password u) [
      | none ↦ (too_weak, users)
      | some u' ↦ (password_reset, update (has_user_id u.id) (λ _. u') users)
    ]
  ]

  -- The checks of the posted form.
  unfoldable pub form_problem : Text → Text → Option ResetStep
  form_problem new confirm =
      if is_empty new || is_empty confirm
      then some fields_required
      else if not (text_eq new confirm)
      then some mismatch
      else elim (validate_password_strength new) [ accepted ↦ none | _ ↦ some too_weak ]

  -- `reset_password`. `form` is none for a GET. Other requests may be served between the first look at
  -- the user and the lock: `seen` are the rows of the first, `users` those under the lock.
  unfoldable pub reset_password :
      ℕ → TokenRead → Option (Text × Text) → (seen users : List User) → ResetStep × List User
  reset_password now signature_expired form seen users = (link_expired, users)
  reset_password now bad_signature form seen users = (link_invalid, users)
  reset_password now (payload j) form seen users = elim (reset_claims j) [
    | none ↦ (link_invalid, users)
    | some (uid, ver) ↦ elim (token_user uid ver seen) [
      | none ↦ (link_invalid, users)
      | some _ ↦ elim form [
        | none ↦ (show_form, users)
        | some (new, confirm) ↦ elim (form_problem new confirm) [
          | some problem ↦ (problem, users)
          | none ↦ locked_reset now uid ver new users
        ]
      ]
    ]
  ]
