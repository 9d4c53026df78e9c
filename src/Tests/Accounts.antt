-- ===== src/Tests/Accounts.antt =====
-- Registration, the accounts and their sessions.
use secure_voting_platform.Json.{to_int}
use secure_voting_platform.Passwords.{has_lower, has_upper, validate_password_strength, has_special}
use secure_voting_platform.Prelude.{
  ℕ, ◌≡◌, ◌+◌, refl, true, false, Option, none, some, List, [], ◌∷◌, arith,
}
use secure_voting_platform.Prelude.Text.{int_of_text, Text, codes, text_eq, decimal}
use secure_voting_platform.Prelude.Int.{pos}
use secure_voting_platform.Json.{Json}
use secure_voting_platform.Models.{Store, User, Role, has_role, record_audit_event, is_approved}
use secure_voting_platform.Outcome.{done}
use secure_voting_platform.Accounts.{is_password_expired}
use secure_voting_platform.Administration.{reject_user, rejected_row}
use secure_voting_platform.Registration.{pending_user, RegistrationForm, pending_roll}
use secure_voting_platform.AccountLife.{Request, perform, perform_all, Step}
use secure_voting_platform.AccountLife.Refinement.{perform-Step}
use secure_voting_platform.AccountLife.Invariants.{IsSound, perform_all-IsSound}
use secure_voting_platform.Sessions.{
  refresh, session_user, load_token, Claims, Identified, logged_in, bind_of, load_user_from_jwt,
  issue_claims, Revokes, other_page,
}
use secure_voting_platform.Sessions.Revocation.{load_user-revoked}
use secure_voting_platform.Tests.Fixture.{voter, manager_user, store, new_draft}
use secure_voting_platform.Json.{Fields}
use secure_voting_platform.Prelude.{◌≢◌}
use secure_voting_platform.Accounts.{
  reset_password, payload, password_reset, token_user, form_problem, locked_reset, set_password,
}
use secure_voting_platform.Sessions.ResetOnce.{reset_password-once}

abbrev lic_hmac : Text → Text
lic_hmac t = t

abbrev hash_of : Text → Text
hash_of p = p

abbrev member : User
member = record voter { password_changed_at = some 0 }

abbrev root : User
root = record manager_user { username = codes "root"; driver_lic_hash = codes "root" }

abbrev accounts : Store
accounts = record (store new_draft) { users = root ∷ member ∷ [] }

accounts-IsSound : IsSound hash_of text_eq 10 (root ∷ member ∷ [])
unfolding is_approved
accounts-IsSound = record {
  numbered = (omega arith, (omega arith, tt));
  usernames = (refl, (refl, tt));
  emails = (refl, (refl, tt));
  licences = (refl, (refl, tt));
  verified = refl;
}

perform-Step_example :
    (let t = perform lic_hmac hash_of text_eq 5 (Request.rejection root 7) accounts in
      Step hash_of text_eq 5 (Request.rejection root 7) 10 (root ∷ member ∷ []) t.next_id t.users)
perform-Step_example =
    perform-Step lic_hmac hash_of text_eq 5 (Request.rejection root 7) accounts
      accounts-IsSound.numbered

abbrev some_day : List (ℕ × Request)
some_day = (5, Request.login (codes "alice") (codes "wrong")) ∷ (6, Request.unlocking root 7) ∷ []

perform_all-IsSound_example :
    (let t = perform_all lic_hmac hash_of text_eq some_day accounts in
      IsSound hash_of text_eq t.next_id t.users)
perform_all-IsSound_example =
    perform_all-IsSound lic_hmac hash_of text_eq some_day accounts accounts-IsSound

-- A token that reads as the claims of the voter in version 3, whatever it is.
abbrev encode : Claims → Text
encode c = codes "t"

abbrev decode : ℕ → Text → Option Claims
decode t token = some (issue_claims 900 0 7 3)

accepts :
    load_user_from_jwt 900 encode decode false false 10 other_page
      (some (codes "t"))
      (root ∷ member ∷ [])
    ≡ logged_in member (bind_of member) none
unfolding load_user_from_jwt load_token session_user to_int issue_claims int_of_text decimal
    is_password_expired refresh
accepts = refl

abbrev rejected_accounts : Store
rejected_accounts = record accounts {
  users = root ∷ rejected_row member ∷ [];
  audit =
      record {
        actor = some 8;
        action = codes "user.reject";
        target_type = codes "user";
        target_id = 7;
      }
      ∷ [];
}

rejects : reject_user root 7 accounts ≡ done rejected_accounts
unfolding reject_user has_role record_audit_event
rejects = refl

load_user-revoked_example :
    (let t =
        perform_all lic_hmac hash_of text_eq
          ((5, Request.rejection root 7) ∷ (6, Request.approval root 7) ∷ [])
          accounts in
      load_user_from_jwt 900 encode decode false true 20 other_page (some (codes "t")) t.users
      ≡ Identified.rejected)
load_user-revoked_example =
    load_user-revoked 900 lic_hmac hash_of text_eq encode decode
      (λ t t' read c c' h k. ground (arith, h, k)) false false 10 other_page (codes "t") accounts
      member (bind_of member) none accounts-IsSound accepts [] 5 (Request.rejection root 7)
      (Revokes.turned_away root rejected_accounts rejects) ((6, Request.approval root 7) ∷ []) false
      true 20 other_page refl

-- A token without a signature, with the claims that are not constant.
abbrev plain_encode : Claims → Text
plain_encode c = elim c.sub [
  | Json.str t ↦ elim c.ver [
    | Json.int z ↦ elim z [ pos v ↦ c.iat ∷ v ∷ t | _ ↦ codes "t" ]
    | _ ↦ codes "t"
  ]
  | _ ↦ codes "t"
]

abbrev plain_decode : ℕ → Text → Option Claims
plain_decode t (iat ∷ v ∷ sub) =
    some (record { sub = Json.str sub; iat = iat; exp = iat + 900; ver = Json.int (pos v) })
plain_decode t _ = none

abbrev form : RegistrationForm
form = record {
  username = some (codes "carol");
  email = some (codes "Carol@mail.org");
  password = some (codes "Correct-Horse!");
  confirm = some (codes "Correct-Horse!");
  driver_lic_no = some (codes "AB12 345");
  driver_lic_state = some (codes "nsw");
}

abbrev voter_role : Role
voter_role = record { id = 1; name = codes "voter" }

abbrev offices : Store
offices = record accounts { regions = record { id = 2; name = codes "Sydney" } ∷ [] }

abbrev carol : User
carol =
    pending_user lic_hmac hash_of 50 10 (codes "carol") (codes "carol@mail.org")
      (codes "Correct-Horse!") (codes "AB12 345") (codes "nsw") (codes "AB12345") voter_role

abbrev enrolled : Store
enrolled = record offices {
  users = carol ∷ root ∷ member ∷ [];
  rolls = pending_roll lic_hmac hash_of 11 carol (codes "AB12345") 2 ∷ offices.rolls;
  next_id = 12;
}

-- The claims `{"uid": 7, "ver": 3}` of a reset link.
abbrev link : Json
link = Json.obj (
    Fields.field (codes "uid") (Json.int (pos 7))
      (Fields.field (codes "ver") (Json.int (pos 3)) Fields.end))

abbrev posted : Option (Text × Text)
posted = some (codes "Correct-Horse!", codes "Correct-Horse!")

link_resets :
    (reset_password hash_of text_eq 50 (payload link) posted accounts.users accounts.users).0
    ≡ password_reset
unfolding reset_password token_user form_problem validate_password_strength has_upper has_lower
    has_special locked_reset set_password
link_resets = refl

reset_password-once_example :
    (let t = perform_all lic_hmac hash_of text_eq some_day (
        perform lic_hmac hash_of text_eq 50
          (Request.reset (payload link) posted accounts.users)
          accounts) in
      ((reset_password hash_of text_eq 60 (payload link) posted accounts.users t.users).0
        ≢ password_reset)
      × ((reset_password hash_of text_eq 60 (payload link) posted accounts.users t.users).1
          ≡ t.users))
reset_password-once_example =
    reset_password-once lic_hmac hash_of text_eq 50 link posted accounts.users accounts
      accounts-IsSound link_resets some_day 60 posted accounts.users
