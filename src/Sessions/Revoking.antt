-- ===== src/Sessions/Revoking.antt =====
-- The requests that end a user's sessions: a new password and a rejection of the account.
use mathlib.Core.Path.{subst}
use secure_voting_platform.Prelude.{
  ℕ, ◌<◌, ◌≡◌, refl, ap, sym, Bool, Option, some, List, [], ◌∷◌, find, find-holds, find-update_row,
  find-update_found, update, arith, inl, inr,
}
use secure_voting_platform.Prelude.Int.{ℤ, pos, is_id}
use secure_voting_platform.Prelude.Text.{Text}
use secure_voting_platform.Json.{Json}
use secure_voting_platform.Models.{Store, User, record_audit_event}
use secure_voting_platform.Administration.NewPassword.{change_password-effect}
use secure_voting_platform.Outcome.{done}
use secure_voting_platform.Accounts.{
  has_user_id, payload, reset_claims, reset_password, password_reset,
}
use secure_voting_platform.Accounts.Reset.{with_password, reset_password-effect}
use secure_voting_platform.Administration.{
  reject_user, rejected_row, change_password, password_changed,
}
use secure_voting_platform.AccountLife.{Request, perform}

module _ (generate_hash : Text → Text) (check_hash : (stored password : Text) → Bool) where
  -- A request that succeeds in setting the user's password, or in rejecting the user.
  pub data Revokes (uid now : ℕ) (s : Store) : Request → Type 0 where
    changed :
        (current new confirm : Text)
        → (change_password generate_hash check_hash now uid current new confirm s.users).0
          ≡ some password_changed
        → Revokes uid now s (Request.change uid current new confirm)
    was_reset :
        (j : Json) (form : Option (Text × Text)) (seen : List User) (ver : ℤ)
        → reset_claims generate_hash check_hash j ≡ some (pos uid, ver)
        → (reset_password generate_hash check_hash now (payload j) form seen s.users).0
          ≡ password_reset
        → Revokes uid now s (Request.reset (payload j) form seen)
    turned_away :
        (admin : User) (t : Store)
        → reject_user admin uid s ≡ done t
        → Revokes uid now s (Request.rejection admin uid)

  -- The user is there with a greater session version.
  abbrev Advanced : ℕ → User → List User → Type 0
  Advanced uid u vs =
      (v : User) × (find (has_user_id uid) vs ≡ some v) × (u.session_version < v.session_version)

  pub find-same_id :
      (uid : ℕ) (us : List User)
      → find (λ (x : User). is_id (pos uid) x.id) us ≡ find (has_user_id uid) us
  find-same_id uid [] = refl
  find-same_id uid (u ∷ us) = ground (arith, find-same_id uid us)

  renewed-Advanced :
      (uid now : ℕ) (password : Text) (us : List User) (u : User)
      → find (has_user_id uid) us ≡ some u
      → Advanced uid u (
          update (has_user_id u.id) (λ _. with_password generate_hash check_hash now password u) us)
  renewed-Advanced uid now password us u here =
      let hit = find-holds (has_user_id uid) us here in
      (
        with_password generate_hash check_hash now password u,
        find-update_row (has_user_id uid) (has_user_id u.id)
            (with_password generate_hash check_hash now password u) us
            (λ x h. ground (arith, h, hit)) hit (ground arith) here,
        omega arith,
      )

  change_password-Advanced :
      (uid now : ℕ) (current new confirm : Text) (us : List User) (u : User)
      → find (has_user_id uid) us ≡ some u
      → (change_password generate_hash check_hash now uid current new confirm us).0
        ≡ some password_changed
      → Advanced uid u (change_password generate_hash check_hash now uid current new confirm us).1
  change_password-Advanced uid now current new confirm us u here h =
      elim (change_password-effect generate_hash check_hash now uid current new confirm us) [
        | inl (unchanged, _) ↦ absurd (unchanged h)
        | inr (w, found, _, _, _, _, same) ↦
            let own : u ≡ w = ground (arith, here, found) in
            rw (same, sym own) (renewed-Advanced uid now new us u here)
      ]

  reject_user-Advanced :
      (admin : User) (uid : ℕ) (s t : Store) (u : User)
      → find (has_user_id uid) s.users ≡ some u
      → reject_user admin uid s ≡ done t
      → Advanced uid u t.users
  unfolding reject_user record_audit_event
  reject_user-Advanced admin uid s t u here h =
      let hit = find-holds (has_user_id uid) s.users here in
      let changed : t.users ≡ update (has_user_id u.id) rejected_row s.users =
        ground (arith, here) in
      rw changed (
        rejected_row u,
        find-update_found (has_user_id uid) (has_user_id u.id) rejected_row s.users (λ x. refl)
            (ground arith) here,
        omega arith,
      )

  reset_password-Advanced :
      (uid now : ℕ) (j : Json) (form : Option (Text × Text)) (seen us : List User) (ver : ℤ)
      (u : User)
      → find (has_user_id uid) us ≡ some u
      → reset_claims generate_hash check_hash j ≡ some (pos uid, ver)
      → (reset_password generate_hash check_hash now (payload j) form seen us).0 ≡ password_reset
      → Advanced uid u (reset_password generate_hash check_hash now (payload j) form seen us).1
  reset_password-Advanced uid now j form seen us ver u here claimed h =
      let r = reset_password generate_hash check_hash now (payload j) form seen us in
      let (uid', ver', password, confirm, w, claimed', posted, found, version, strong, same) =
        reset_password-effect generate_hash check_hash now j form seen us r.1
          (ap (λ x. (x, r.1)) h) in
      let own_id : pos uid ≡ uid' = ground (arith, claimed, claimed') in
      let there = subst (λ z. find (λ (x : User). is_id z x.id) us ≡ some w) (sym own_id) found in
      let own : u ≡ w = ground (arith, here, there, find-same_id uid us) in
      rw (same, sym own) (renewed-Advanced uid now password us u here)

module _ (lic_hmac : Text → Text) (generate_hash : Text → Text)
    (check_hash : (stored password : Text) → Bool) where
  pub perform-Advanced :
      (uid now : ℕ) (r : Request) (s : Store) (u : User)
      → find (has_user_id uid) s.users ≡ some u
      → Revokes generate_hash check_hash uid now s r
      → Advanced generate_hash check_hash uid u
          (perform lic_hmac generate_hash check_hash now r s).users
  unfolding perform
  perform-Advanced uid now r s u here (Revokes.changed current new confirm h) =
      change_password-Advanced generate_hash check_hash uid now current new confirm s.users u here h
  perform-Advanced uid now r s u here (Revokes.was_reset j form seen ver claimed h) =
      reset_password-Advanced generate_hash check_hash uid now j form seen s.users ver u here
        claimed h
  perform-Advanced uid now r s u here (Revokes.turned_away admin t h) =
      rw h (reject_user-Advanced generate_hash check_hash admin uid s t u here h)
