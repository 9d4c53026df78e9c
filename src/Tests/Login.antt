-- ===== src/Tests/Login.antt =====
-- One-time passwords, the lockout, the password policy and the reset link.
use secure_voting_platform.Prelude.{
  ◌≤◌, true, ◌≡◌, refl, Option, some, List, [], ◌∷◌, find, ◌↔◌, update, arith,
}
use secure_voting_platform.Prelude.Int.{ℤ, pos, is_id}
use secure_voting_platform.Prelude.Text.{Text, codes, text_eq}
use secure_voting_platform.Json.{Json, Fields}
use secure_voting_platform.Models.{OtpChallenge, User}
use secure_voting_platform.Otp.{new_challenge}
use secure_voting_platform.Otp.Attempts.{
  Attempt, verify_all, total, answered, accepted, verify_all_bounds,
}
use secure_voting_platform.Passwords.{
  has_upper, has_special, has_lower, accepted as password_accepted, validate_password_strength,
  check_password_strength_score, very_strong,
}
use secure_voting_platform.Passwords.Policy.{IsStrong, password_policy}
use secure_voting_platform.Accounts.{
  locked_reset, token_user, set_password, form_problem, reset_password, password_reset, payload,
  reset_claims, has_user_id,
}
use secure_voting_platform.Accounts.Lockout.{Guess}
use secure_voting_platform.Accounts.Reset.{with_password, reset_password-effect}
use secure_voting_platform.Tests.Fixture.{voter}

abbrev digest : Text → Text → Text
digest id code = code

abbrev challenge : OtpChallenge
challenge = new_challenge digest 0 (codes "c1") 7 (codes "login_mfa") 300 (codes "123456")

abbrev attempt : Text → Attempt
attempt code = record { now = 10; user_id = 7; purpose = codes "login_mfa"; code = code }

abbrev attempts : List Attempt
attempts = attempt (codes "000000") ∷ attempt (codes "123456") ∷ attempt (codes "123456") ∷ []

verify_all_bounds_example :
    (total digest answered (verify_all digest (codes "c1") attempts (challenge ∷ [])) ≤ 5)
    × (total digest accepted (verify_all digest (codes "c1") attempts (challenge ∷ [])) ≤ 1)
verify_all_bounds_example =
    verify_all_bounds digest (codes "c1") attempts (challenge ∷ []) (omega arith)

abbrev hash_of : Text → Text
hash_of p = p

abbrev guess : Text → Guess
guess p = record { now = 10; password = p }

abbrev guesses : List Guess
guesses = guess (codes "a") ∷ guess (codes "secret") ∷ []

abbrev strong_text : Text
strong_text = codes "Correct-Horse!"

password_policy_example :
    ((validate_password_strength strong_text ≡ password_accepted) ↔ IsStrong strong_text)
    × (((check_password_strength_score strong_text).meets_requirements ≡ true)
        ↔ IsStrong strong_text)
    × (((check_password_strength_score strong_text).strength ≡ very_strong) ↔ IsStrong strong_text)
    × (((check_password_strength_score strong_text).feedback ≡ []) ↔ IsStrong strong_text)
password_policy_example = password_policy strong_text

-- The claims `{"uid": 7, "ver": 3}`.
abbrev link : Json
link = Json.obj (
    Fields.field (codes "uid") (Json.int (pos 7))
      (Fields.field (codes "ver") (Json.int (pos 3)) Fields.end))

abbrev posted : Option (Text × Text)
posted = some (strong_text, strong_text)

abbrev after_reset : List User
after_reset = with_password hash_of text_eq 50 strong_text voter ∷ []

resets :
    reset_password hash_of text_eq 50 (payload link) posted (voter ∷ []) (voter ∷ [])
    ≡ (password_reset, after_reset)
unfolding reset_password token_user form_problem validate_password_strength has_upper has_lower
    has_special locked_reset set_password
resets = refl

reset_password-effect_example :
    (uid : ℤ) × (ver : ℤ) × (password : Text) × (confirm : Text) × (u : User) × (reset_claims
        hash_of text_eq link
      ≡ some (uid, ver))
    × (posted ≡ some (password, confirm))
    × (find (λ (x : User). is_id uid x.id) (voter ∷ []) ≡ some u)
    × (is_id ver u.session_version ≡ true)
    × IsStrong password
    × (after_reset
        ≡ update (has_user_id u.id) (λ _. with_password hash_of text_eq 50 password u) (voter ∷ []))
reset_password-effect_example =
    reset_password-effect hash_of text_eq 50 link posted (voter ∷ []) (voter ∷ []) after_reset
      resets
