-- ===== src/Administration/Defs.antt =====
-- `approve_user`, `reject_user`, `unlock_user` and `get_safe_page_limit` (app/routes/admin_users.py),
-- `verify_email` (app/routes/registration.py) and `change_password` (app/routes/password.py).
-- Of an account the attribute `status` is no column.
use secure_voting_platform.Prelude.{
  ℕ, ◌+◌, Bool, true, false, ◌||◌, not, Option, none, some, List, ◌==◌, find, update, if◌then◌else◌,
  ltb, leb,
}
use secure_voting_platform.Prelude.Int.{pos, negsuc}
use secure_voting_platform.Prelude.Text.{Text, codes, text_eq, is_empty, int_of_text}
use secure_voting_platform.Json.{Json}
use secure_voting_platform.Models.{Store, User, ElectoralRoll, owns, has_role, record_audit_event}
use secure_voting_platform.Passwords.{validate_password_strength, accepted}
use secure_voting_platform.Outcome.{
  Outcome, done, refuse_if, or_refuse, ◌>>=◌, ◌>>◌, forbidden, not_found, email_not_verified,
}
use secure_voting_platform.Elections.{manager}
use secure_voting_platform.Accounts.{
  has_user_id, set_password, TokenRead, signature_expired, bad_signature, payload,
}

-- `get_safe_page_limit`; the limit is a text of the query, and no exception is left to catch.
unfoldable pub get_safe_page_limit : Option Text → ℕ → ℕ
get_safe_page_limit none max_limit = 20
get_safe_page_limit (some t) max_limit = if is_empty t then 20 else elim (int_of_text 10 t) [
  | none ↦ 20
  | some (negsuc n) ↦ 10
  | some (pos n) ↦
      if ltb n 1
      then 10
      else if ltb 40 n
      then 40
      else let effective = if leb max_limit 40 then max_limit else 40 in
        if leb n effective then n else effective
]

-- `admin_only` on the logged-in user
abbrev pub admin_only : User → Outcome (Unit {0})
admin_only admin = refuse_if (not (has_role manager admin)) forbidden

abbrev audit_user : Text → User → ℕ → Store → Store
audit_user action admin id =
    record_audit_event (record {
      actor = some admin.id;
      action = action;
      target_type = codes "user";
      target_id = id;
    })

abbrev pub approved_row : User → User
approved_row u = record u { account_status = codes "approved" }

abbrev pub enrolled_row : ElectoralRoll → ElectoralRoll
enrolled_row e = record e { status = codes "active"; verified = true }

abbrev pub rejected_row : User → User
rejected_row u = record u {
  account_status = codes "rejected";
  session_version = u.session_version + 1;
}

-- `reset_failed_logins` written out in `unlock_user`
abbrev pub unlocked_row : User → User
unlocked_row u = record u { failed_login_attempts = 0; account_locked_until = none }

abbrev pub verified_row : User → User
verified_row u = record u { email_verified = true }

abbrev pub same_roll : ElectoralRoll → ElectoralRoll → Bool
same_roll a b = b.id == a.id

-- The user's enrolment, if there is one, becomes active and verified.
unfoldable pub enrol : User → List ElectoralRoll → List ElectoralRoll
enrol u rolls = elim (find (owns u.id) rolls) [
  | none ↦ rolls
  | some e ↦ update (same_roll e) enrolled_row rolls
]

-- `approve_user`
unfoldable pub approve_user : User → ℕ → Store → Outcome Store
approve_user admin id s = do
  admin_only admin
  u ← or_refuse (find (has_user_id id) s.users) not_found
  refuse_if (not u.email_verified) email_not_verified
  done (
      audit_user (codes "user.approve") admin u.id (record s {
        users = update (has_user_id u.id) approved_row s.users;
        rolls = enrol u s.rolls;
      }))

-- `reject_user`
unfoldable pub reject_user : User → ℕ → Store → Outcome Store
reject_user admin id s = do
  admin_only admin
  u ← or_refuse (find (has_user_id id) s.users) not_found
  done (
      audit_user (codes "user.reject") admin u.id
        (record s { users = update (has_user_id u.id) rejected_row s.users }))

-- `unlock_user`, which records no event
unfoldable pub unlock_user : User → ℕ → Store → Outcome Store
unlock_user admin id s = do
  admin_only admin
  u ← or_refuse (find (has_user_id id) s.users) not_found
  done (record s { users = update (has_user_id u.id) unlocked_row s.users })

pub data VerifyStep : Type 0 where
  verify_expired verify_invalid already_verified : VerifyStep
  email_verified : (user_id : ℕ) → VerifyStep

-- `User.query.filter_by(email=email)` for a value read from a token
abbrev pub owns_email : Json → User → Bool
owns_email (Json.str t) u = elim u.email [ none ↦ false | some e ↦ text_eq e t ]
owns_email _ u = false

-- `verify_email`
unfoldable pub verify_email : TokenRead → List User → VerifyStep × List User
verify_email signature_expired users = (verify_expired, users)
verify_email bad_signature users = (verify_invalid, users)
verify_email (payload j) users = elim (find (owns_email j) users) [
  | none ↦ (verify_invalid, users)
  | some u ↦
      if u.email_verified
      then (already_verified, users)
      else (email_verified u.id, update (has_user_id u.id) verified_row users)
]

pub data ChangeStep : Type 0 where
  fields_missing current_wrong unchanged new_mismatch new_weak password_changed : ChangeStep

module _ (generate_hash : Text → Text) (check_hash : (stored password : Text) → Bool) where
  -- The checks of `change_password` on the posted form.
  unfoldable pub change_problem : User → (current new confirm : Text) → Option ChangeStep
  change_problem u current new confirm =
      if is_empty current || is_empty new || is_empty confirm
      then some fields_missing
      else if not (check_hash u.password_hash current)
      then some current_wrong
      else if check_hash u.password_hash new
      then some unchanged
      else if not (text_eq new confirm)
      then some new_mismatch
      else elim (validate_password_strength new) [ accepted ↦ none | _ ↦ some new_weak ]

  -- `change_password` of the logged-in user.
  unfoldable pub change_password :
      (now uid : ℕ) (current new confirm : Text) → List User → Option ChangeStep × List User
  change_password now uid current new confirm users = elim (find (has_user_id uid) users) [
    | none ↦ (none, users)
    | some u ↦ elim (change_problem u current new confirm) [
      | some problem ↦ (some problem, users)
      | none ↦ elim (set_password generate_hash check_hash now new u) [
        | none ↦ (some new_weak, users)
        | some u' ↦ (some password_changed, update (has_user_id u.id) (λ _. u') users)
      ]
    ]
  ]
