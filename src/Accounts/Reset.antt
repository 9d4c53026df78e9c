-- ===== src/Accounts/Reset.antt =====
-- `reset_password` (app/routes/password_reset.py): its token and the row that it changes.
use secure_voting_platform.Prelude.{
  ℕ, ◌+◌, Bool, true, ◌≡◌, ◌≢◌, Option, none, some, List, find, update, arith, inl, inr,
  Option-cases,
}
use secure_voting_platform.Prelude.Int.{ℤ, is_id}
use secure_voting_platform.Prelude.Text.{Text}
use secure_voting_platform.Models.{User}
use secure_voting_platform.Json.{Json}
use secure_voting_platform.Passwords.{accepted, validate_password_strength}
use secure_voting_platform.Passwords.Policy.{IsStrong, password_policy}
use secure_voting_platform.Accounts.Defs.{
  reset_claims, payload, form_problem, reset_password, password_reset, set_password, token_user,
  locked_reset, has_user_id,
}

module _ (generate_hash : Text → Text) (check_hash : (stored password : Text) → Bool) where
  -- The user after a password was set.
  abbrev pub with_password : ℕ → Text → User → User
  with_password now password u = record u {
    password_hash = generate_hash password;
    password_changed_at = some now;
    session_version = u.session_version + 1;
    failed_login_attempts = 0;
    account_locked_until = none;
  }

  pub set_password-eq-some :
      (now : ℕ) (password : Text) (u : User) {u' : User}
      → set_password generate_hash check_hash now password u ≡ some u'
      → (validate_password_strength password ≡ accepted) × (u' ≡ with_password now password u)
  unfolding set_password
  set_password-eq-some now password u {u'} h = (ground arith, ground arith)

  pub token_user-eq-some :
      (uid ver : ℤ) (users : List User) {u : User}
      → token_user generate_hash check_hash uid ver users ≡ some u
      → (find (λ (x : User). is_id uid x.id) users ≡ some u) × (is_id ver u.session_version ≡ true)
  unfolding token_user
  token_user-eq-some uid ver users {u} h = (ground arith, ground arith)

  pub locked_reset-eq-reset :
      (now : ℕ) (uid ver : ℤ) (password : Text) (users users' : List User)
      → locked_reset generate_hash check_hash now uid ver password users ≡ (password_reset, users')
      → (u : User) × (token_user generate_hash check_hash uid ver users ≡ some u)
        × (validate_password_strength password ≡ accepted)
        × (users' ≡ update (has_user_id u.id) (λ _. with_password now password u) users)
  unfolding locked_reset
  locked_reset-eq-reset now uid ver password users users' h =
      elim (Option-cases (token_user generate_hash check_hash uid ver users)) [
        | inl refused ↦ absurd (ground (arith, refused))
        | inr (u, found) ↦
            elim (Option-cases (set_password generate_hash check_hash now password u)) [
              | inl refused ↦ absurd (ground (arith, found, refused))
              | inr (u', made) ↦
                  let (strong, same) = set_password-eq-some now password u made in
                  (u, found, strong, ground (arith, found, made, same))
            ]
      ]

  pub reset_password-eq-reset :
      (now : ℕ) (j : Json) (form : Option (Text × Text)) (seen users users' : List User)
      → reset_password generate_hash check_hash now (payload j) form seen users
        ≡ (password_reset, users')
      → (uid : ℤ) × (ver : ℤ) × (password : Text) × (confirm : Text) × (reset_claims generate_hash
            check_hash j
          ≡ some (uid, ver))
        × (form ≡ some (password, confirm))
        × (locked_reset generate_hash check_hash now uid ver password users
            ≡ (password_reset, users'))
  unfolding reset_password form_problem
  reset_password-eq-reset now j form seen users users' h =
      elim (Option-cases (reset_claims generate_hash check_hash j)) [
        | inl no_claims ↦ absurd (ground (arith, no_claims))
        | inr ((uid, ver), claimed) ↦ elim (Option-cases form) [
          | inl no_form ↦ absurd (ground (arith, claimed, no_form))
          | inr ((password, confirm), posted) ↦
              (uid, ver, password, confirm, claimed, posted, ground (arith, claimed, posted))
        ]
      ]

  pub reset_password-spent :
      (now : ℕ) (j : Json) (form : Option (Text × Text)) (seen users : List User) {uid ver : ℤ}
      → reset_claims generate_hash check_hash j ≡ some (uid, ver)
      → token_user generate_hash check_hash uid ver users ≡ none
      → ((reset_password generate_hash check_hash now (payload j) form seen users).0
          ≢ password_reset)
        × ((reset_password generate_hash check_hash now (payload j) form seen users).1 ≡ users)
  unfolding reset_password locked_reset form_problem
  reset_password-spent now j form seen users {uid} {ver} claimed spent =
      (λ h. ground (arith, claimed, spent), ground (arith, claimed, spent))

  -- A request resets a password only with a posted form whose new password is strong, for the user
  -- whom the link's claims name and whose session version is still the link's. It puts the new
  -- hash in that user's row, counts the session version up, clears the failed attempts and the
  -- lock, and leaves every other row.
  pub reset_password-effect :
      (now : ℕ) (j : Json) (form : Option (Text × Text)) (seen users users' : List User)
      → reset_password generate_hash check_hash now (payload j) form seen users
        ≡ (password_reset, users')
      → (uid : ℤ) × (ver : ℤ) × (password : Text) × (confirm : Text) × (u : User) × (reset_claims
            generate_hash check_hash j
          ≡ some (uid, ver))
        × (form ≡ some (password, confirm))
        × (find (λ (x : User). is_id uid x.id) users ≡ some u)
        × (is_id ver u.session_version ≡ true)
        × IsStrong password
        × (users' ≡ update (has_user_id u.id) (λ _. with_password now password u) users)
  reset_password-effect now j form seen users users' h =
      let (uid, ver, password, confirm, claimed, posted, locked) =
        reset_password-eq-reset now j form seen users users' h in
      let (u, found, strong, same) =
        locked_reset-eq-reset now uid ver password users users' locked in
      let (here, version) = token_user-eq-some uid ver users found in
      (
        uid,
        ver,
        password,
        confirm,
        u,
        claimed,
        posted,
        here,
        version,
        ((password_policy password).0).0 strong,
        same,
      )
