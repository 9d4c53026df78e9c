-- ===== src/Administration/NewPassword.antt =====
-- `change_password` (app/routes/password.py): what it asks for and the row that it changes.
use secure_voting_platform.Prelude.{
  ℕ, ◌≡◌, ◌≢◌, ◌⊎◌, refl, ◌∙◌, Bool, true, false, none, some, List, find, update, arith, inl, inr,
  Option-cases,
}
use secure_voting_platform.Prelude.Text.{Text, text_eq_iff, text_eq}
use secure_voting_platform.Models.{User}
use secure_voting_platform.Passwords.Policy.{IsStrong, password_policy}
use secure_voting_platform.Accounts.{has_user_id, set_password}
use secure_voting_platform.Accounts.Reset.{with_password, set_password-eq-some}
use secure_voting_platform.Administration.Defs.{password_changed, change_problem, change_password}

module _ (generate_hash : Text → Text) (check_hash : (stored password : Text) → Bool) where
  change_problem-eq-none :
      (u : User) (current new confirm : Text)
      → change_problem generate_hash check_hash u current new confirm ≡ none
      → (check_hash u.password_hash current ≡ true)
        × (check_hash u.password_hash new ≡ false)
        × (text_eq new confirm ≡ true)
  unfolding change_problem
  change_problem-eq-none u current new confirm h = (ground arith, ground arith, ground arith)

  change_problem-no_change :
      (u : User) (current new confirm : Text)
      → change_problem generate_hash check_hash u current new confirm ≢ some password_changed
  unfolding change_problem
  change_problem-no_change u current new confirm h = ground arith

  -- A user's password is changed only for the right current password and for a new one that is
  -- strong, is repeated and does not match the stored hash. It puts the new hash in that user's row, counts the
  -- session version up, clears the failed attempts and the lock, and leaves every other row; every
  -- other answer leaves all rows.
  pub change_password-effect :
      (now uid : ℕ) (current new confirm : Text) (users : List User)
      → (let r = change_password generate_hash check_hash now uid current new confirm users in
          ((r.0 ≢ some password_changed) × (r.1 ≡ users))
          ⊎ ((u : User) × (find (has_user_id uid) users ≡ some u)
              × (check_hash u.password_hash current ≡ true)
              × (check_hash u.password_hash new ≡ false)
              × (new ≡ confirm)
              × IsStrong new
              × (r ≡ (
                some password_changed,
                update
                    (has_user_id u.id)
                    (λ _. with_password generate_hash check_hash now new u)
                    users,
              ))))
  unfolding change_password
  change_password-effect now uid current new confirm users =
      elim (Option-cases (find (has_user_id uid) users)) [
        | inl absent ↦
            inl (rw (absent, change_password) (λ h. cc h), rw (absent, change_password) refl)
        | inr (u, found) ↦
            elim (Option-cases (change_problem generate_hash check_hash u current new confirm)) [
              | inr (problem, refused) ↦ inl (
                rw (found, refused, change_password)
                    (λ h. change_problem-no_change u current new confirm (refused ∙ h)),
                rw (found, refused, change_password) refl,
              )
              | inl fine ↦ elim (Option-cases (set_password generate_hash check_hash now new u)) [
                | inl weak ↦ inl (
                  rw (found, fine, weak, change_password) (λ h. ground (arith, h)),
                  rw (found, fine, weak, change_password) refl,
                )
                | inr (u', made) ↦
                    let (right, fresh, repeated) =
                      change_problem-eq-none u current new confirm fine in
                    let (strong, same) =
                      set_password-eq-some generate_hash check_hash now new u made in
                    inr (
                      u,
                      found,
                      right,
                      fresh,
                      (text_eq_iff new confirm).0 repeated,
                      ((password_policy new).0).0 strong,
                      rw (found, fine, made, same, change_password) refl,
                    )
              ]
            ]
      ]
