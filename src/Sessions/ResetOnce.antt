-- ===== src/Sessions/ResetOnce.antt =====
-- A reset link after it was used (app/routes/password_reset.py), among the other requests on accounts.
use secure_voting_platform.Prelude.{
  ◌∙◌, find-holds, ap, ℕ, ◌<◌, ◌≡◌, ◌≢◌, refl, Bool, true, false, Option, none, some, List, [], ◌∷◌,
  find, arith,
}
use secure_voting_platform.Prelude.Int.{ℤ, pos, negsuc, is_id}
use secure_voting_platform.Prelude.Text.{Text}
use secure_voting_platform.Json.{Json}
use secure_voting_platform.Models.{Store, User}
use secure_voting_platform.Accounts.{
  has_user_id, payload, reset_claims, reset_password, password_reset, token_user,
}
use secure_voting_platform.Accounts.Reset.{reset_password-effect, reset_password-spent}
use secure_voting_platform.AccountLife.{Request, perform, perform_all, find-by_id}
use secure_voting_platform.AccountLife.Invariants.{IsSound, perform_all-IsSound}
use secure_voting_platform.AccountLife.Persistence.{perform_all-Persists}
use secure_voting_platform.Sessions.Revoking.{Revokes, perform-Advanced, find-same_id}

is_id-pos : (z : ℤ) (n : ℕ) → is_id z n ≡ true → z ≡ pos n
is_id-pos (pos k) n h = let same : k ≡ n = ground (arith, h) in ap (λ i. pos i) same
is_id-pos (negsuc k) n h = absurd (cc h)

is_id-greater : (z : ℤ) (m n : ℕ) → is_id z m ≡ true → m < n → is_id z n ≡ false
is_id-greater (pos k) m n h l = ground (arith, h, l)
is_id-greater (negsuc k) m n h l = refl

module _ (lic_hmac : Text → Text) (generate_hash : Text → Text)
    (check_hash : (stored password : Text) → Bool) where
  newer-spent :
      (ver : ℤ) (uid version : ℕ) (us : List User) (u : User)
      → find (has_user_id uid) us ≡ some u
      → is_id ver version ≡ true
      → version < u.session_version
      → token_user generate_hash check_hash (pos uid) ver us ≡ none
  unfolding token_user
  newer-spent ver uid version us u here old newer =
      let spent = is_id-greater ver version u.session_version old newer in
      rw (find-same_id generate_hash check_hash uid us, token_user) (rw here (rw spent refl))

  -- A reset link works once. After a request that reset a password by it, whatever requests on
  -- accounts are served in between, a later request with the same link, with any form and whatever
  -- it saw before the lock, resets nothing and changes no user, in sound accounts.
  pub reset_password-once :
      (now : ℕ) (j : Json) (form : Option (Text × Text)) (seen : List User) (s : Store)
      → IsSound generate_hash check_hash s.next_id s.users
      → (reset_password generate_hash check_hash now (payload j) form seen s.users).0
        ≡ password_reset
      → (between : List (ℕ × Request)) (later : ℕ) (form' : Option (Text × Text))
        (seen' : List User)
      → (let t = perform_all lic_hmac generate_hash check_hash between (
            perform lic_hmac generate_hash check_hash now
              (Request.reset (payload j) form seen)
              s) in
          ((reset_password generate_hash check_hash later (payload j) form' seen' t.users).0
            ≢ password_reset)
          × ((reset_password generate_hash check_hash later (payload j) form' seen' t.users).1
              ≡ t.users))
  reset_password-once now j form seen s sound h between later form' seen' =
      let after = reset_password generate_hash check_hash now (payload j) form seen s.users in
      let (uid, ver, password, confirm, u, claimed, posted, found, version, strong, same) =
        reset_password-effect generate_hash check_hash now j form seen s.users after.1
          (ap (λ x. (x, after.1)) h) in
      let own : uid ≡ pos u.id =
        is_id-pos uid u.id (find-holds (λ (x : User). is_id uid x.id) s.users found) in
      let claims : reset_claims generate_hash check_hash j ≡ some (pos u.id, ver) =
        claimed ∙ ap (λ z. some (z, ver)) own in
      let here = find-by_id s.next_id (λ (x : User). is_id uid x.id) s.users sound.numbered found in
      let r = Request.reset (payload j) form seen in
      let (u1, here1, newer) =
        perform-Advanced lic_hmac generate_hash check_hash u.id now r s u here
          (Revokes.was_reset j form seen ver claims h) in
      let s1 = perform lic_hmac generate_hash check_hash now r s in
      let sound1 = perform_all-IsSound lic_hmac generate_hash check_hash ((now, r) ∷ []) s sound in
      let (u2, here2, _, grown) =
        perform_all-Persists lic_hmac generate_hash check_hash between s1 u.id u1 sound1 here1 in
      let t = perform_all lic_hmac generate_hash check_hash between s1 in
      reset_password-spent generate_hash check_hash later j form' seen' t.users claims (
        newer-spent ver u.id u.session_version t.users u2 here2 version
          (omega (arith, newer, grown)))
