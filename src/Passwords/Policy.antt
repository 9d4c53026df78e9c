-- ===== src/Passwords/Policy.antt =====
-- The policy and the score of app/security/password_validator.py.
use secure_voting_platform.Prelude.{◌≤◌, true, ◌≡◌, [], ◌∷◌, length, arith, ◌↔◌}
use secure_voting_platform.Prelude.Text.{Text}
use secure_voting_platform.Passwords.{
  accepted, very_strong, has_upper, has_lower, has_special, validate_password_strength,
  check_password_strength_score,
}

-- The password meets the policy: twelve characters, an upper and a lower case letter, and a special
-- character.
pub record IsStrong (p : Text) : Type 0 where
  pub long : 12 ≤ length p
  pub upper : has_upper p ≡ true
  pub lower : has_lower p ≡ true
  pub special : has_special p ≡ true

validate-IsStrong : (p : Text) → validate_password_strength p ≡ accepted → IsStrong p
unfolding validate_password_strength
validate-IsStrong p h = record {
  long = ground arith;
  upper = ground arith;
  lower = ground arith;
  special = ground arith;
}

IsStrong-validate : (p : Text) → IsStrong p → validate_password_strength p ≡ accepted
unfolding validate_password_strength
IsStrong-validate [] s = absurd (omega (arith, s.long))
IsStrong-validate (c ∷ p) s = ground (arith, s.long, s.upper, s.lower, s.special)

score-IsStrong :
    (p : Text) → (check_password_strength_score p).meets_requirements ≡ true → IsStrong p
unfolding check_password_strength_score
score-IsStrong p h = record {
  long = ground arith;
  upper = ground arith;
  lower = ground arith;
  special = ground arith;
}

IsStrong-score :
    (p : Text)
    → IsStrong p
    → ((check_password_strength_score p).meets_requirements ≡ true)
      × ((check_password_strength_score p).strength ≡ very_strong)
      × ((check_password_strength_score p).feedback ≡ [])
unfolding check_password_strength_score
IsStrong-score p s = (
  ground (arith, s.long, s.upper, s.lower, s.special),
  ground (arith, s.long, s.upper, s.lower, s.special),
  ground (arith, s.long, s.upper, s.lower, s.special),
)

very_strong-IsStrong :
    (p : Text) → (check_password_strength_score p).strength ≡ very_strong → IsStrong p
unfolding check_password_strength_score
very_strong-IsStrong p h = record {
  long = ground arith;
  upper = ground arith;
  lower = ground arith;
  special = ground arith;
}

feedback-IsStrong : (p : Text) → (check_password_strength_score p).feedback ≡ [] → IsStrong p
unfolding check_password_strength_score
feedback-IsStrong p h = record {
  long = ground arith;
  upper = ground arith;
  lower = ground arith;
  special = ground arith;
}

-- A password is accepted exactly when it has twelve characters, an upper case letter, a lower case
-- letter and a special character; exactly then its score meets the requirements, it is labelled very
-- strong, and there is no feedback.
pub password_policy :
    (p : Text)
    → ((validate_password_strength p ≡ accepted) ↔ IsStrong p)
      × (((check_password_strength_score p).meets_requirements ≡ true) ↔ IsStrong p)
      × (((check_password_strength_score p).strength ≡ very_strong) ↔ IsStrong p)
      × (((check_password_strength_score p).feedback ≡ []) ↔ IsStrong p)
password_policy p = (
  (validate-IsStrong p, IsStrong-validate p),
  (score-IsStrong p, λ s. (IsStrong-score p s).0),
  (very_strong-IsStrong p, λ s. (IsStrong-score p s).1),
  (feedback-IsStrong p, λ s. (IsStrong-score p s).2),
)
