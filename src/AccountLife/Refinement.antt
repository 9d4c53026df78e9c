-- ===== src/AccountLife/Refinement.antt =====
-- The handlers implement the rules of accounts.
use secure_voting_platform.Prelude.{ℕ, ◌≡◌, refl, Bool, Option, List}
use secure_voting_platform.Prelude.Text.{Text}
use secure_voting_platform.Models.{Store, User, Role}
use secure_voting_platform.Outcome.{Outcome, done, refuse}
use secure_voting_platform.Registration.{RegistrationForm, register}
use secure_voting_platform.Registration.Admission.{Admitted, register-eq-done}
use secure_voting_platform.AccountLife.Defs.{
  Request, registration, login, login_completed, reset, change, verification, approval, rejection,
  unlocking, or_rolled_back, perform,
}
use secure_voting_platform.AccountLife.Numbering.{Descending, ids}
use secure_voting_platform.AccountLife.Rules.{IsNewcomer, IsPending, Step}
use secure_voting_platform.AccountLife.Handlers.{
  password_step-Step, complete_login-Step, unlock_user-Step, reject_user-Step, approve_user-Step,
  verify_email-Step, reset_password-Step, change_password-Step,
}
use secure_voting_platform.AccountLife.Defs.{Request}
use secure_voting_platform.Elections.{field_text}

module _ (lic_hmac : Text → Text) (generate_hash : Text → Text)
    (check_hash : (stored password : Text) → Bool) where
  Admitted-IsNewcomer :
      (now : ℕ) (form : RegistrationForm) (roles : List Role) (s : Store) (u : User)
      → Admitted lic_hmac generate_hash now form roles s u
      → (u.id ≡ s.next_id)
        × (u.username ≡ field_text form.username)
        × IsNewcomer u s.users
        × IsPending u
  Admitted-IsNewcomer now form roles s u a =
      rw a.made (refl, refl, (a.new_name, (_, refl, a.new_address), a.new_licence), (refl, refl))

  register-Step :
      (now : ℕ) (detected : Option Text) (form : RegistrationForm) (roles : List Role) (s : Store)
      → (let t = or_rolled_back s (register lic_hmac generate_hash now detected form roles s) in
          Step generate_hash check_hash now
            (Request.registration detected form roles)
            s.next_id
            s.users
            t.next_id
            t.users)
  register-Step now detected form roles s =
      ended (register lic_hmac generate_hash now detected form roles s) refl
    where
      ended :
          (o : Outcome Store)
          → register lic_hmac generate_hash now detected form roles s ≡ o
          → (let t = or_rolled_back s o in
              Step generate_hash check_hash now
                (Request.registration detected form roles)
                s.next_id
                s.users
                t.next_id
                t.users)
      ended (refuse r) h = Step.stays s.next_id s.users
      ended (done t) h =
          let (u, region, roll, admitted, placed, enrolment, same) =
            register-eq-done lic_hmac generate_hash now detected form roles s t h in
          let (numbered, named, newcomer, pending) =
            Admitted-IsNewcomer now form roles s u admitted in
          rw same (
            Step.enrols s.next_id s.users u detected form roles refl numbered named newcomer
              pending)

  -- The handlers implement the rules: with the users numbered below the next primary key, newest
  -- first, whatever a request does to the table of users and to the next key is a step that the rules
  -- allow this kind of request, under their conditions, or nothing.
  pub perform-Step :
      (now : ℕ) (r : Request) (s : Store)
      → Descending s.next_id (ids s.users)
      → (let t = perform lic_hmac generate_hash check_hash now r s in
          Step generate_hash check_hash now r s.next_id s.users t.next_id t.users)
  unfolding perform
  perform-Step now (registration detected form roles) s d = register-Step now detected form roles s
  perform-Step now (login username password) s d =
      password_step-Step generate_hash check_hash now username password s.next_id s.users d
  perform-Step now (login_completed uid) s d =
      complete_login-Step generate_hash check_hash now uid s.next_id s.users d
  perform-Step now (reset token form seen) s d =
      reset_password-Step generate_hash check_hash now token form seen s.next_id s.users d
  perform-Step now (change uid current new confirm) s d =
      change_password-Step generate_hash check_hash now uid current new confirm s.next_id s.users d
  perform-Step now (verification token) s d =
      verify_email-Step generate_hash check_hash now token s.next_id s.users d
  perform-Step now (approval admin uid) s d =
      approve_user-Step generate_hash check_hash now admin uid s d
  perform-Step now (rejection admin uid) s d =
      reject_user-Step generate_hash check_hash now admin uid s d
  perform-Step now (unlocking admin uid) s d =
      unlock_user-Step generate_hash check_hash now admin uid s d
