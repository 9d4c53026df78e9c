-- ===== src/Passwords.antt =====
-- The password policy of app/security/password_validator.py. A password is a text, empty where the
-- form had none; the messages are constructors, and the score is counted in halves.
pub mod Policy
use secure_voting_platform.Prelude.{
  ℕ, ◌+◌, ◌/◌, Bool, true, false, ◌||◌, ◌&&◌, List, [], ◌∷◌, ◌++◌, ◌==◌, any, length, if◌then◌else◌,
  ltb, leb,
}
use secure_voting_platform.Prelude.Text.{Text, codes, is_empty, is_upper, is_lower}

pub data Requirement : Type 0 where
  min_length uppercase lowercase special : Requirement

pub data Validation : Type 0 where
  accepted : Validation
  empty_password : Validation
  weak : List Requirement → Validation

-- `[!@#$%^&*()_+\-=\[\]{}|;:,.<>?]`
abbrev is_special : ℕ → Bool
is_special c = any (λ d. c == d) (codes "!@#$%^&*()_+-=[]{}|;:,.<>?")

abbrev require : Bool → Requirement → List Requirement
require true r = []
require false r = r ∷ []

abbrev pub long_enough : Text → Bool
long_enough p = leb 12 (length p)

unfoldable pub has_upper : Text → Bool
has_upper p = any is_upper p

unfoldable pub has_lower : Text → Bool
has_lower p = any is_lower p

unfoldable pub has_special : Text → Bool
has_special p = any is_special p

abbrev pub verdict : List Requirement → Validation
verdict [] = accepted
verdict (r ∷ rs) = weak (r ∷ rs)

-- `validate_password_strength`
unfoldable pub validate_password_strength : Text → Validation
validate_password_strength p =
    if is_empty p
    then empty_password
    else verdict (
        require (long_enough p) min_length
        ++ (require (has_upper p) uppercase
            ++ (require (has_lower p) lowercase ++ require (has_special p) special)))

pub data Strength : Type 0 where
  very_weak weak_ fair strong very_strong : Strength

pub record Score : Type 0 where
  pub half_points : ℕ
  pub strength : Strength
  pub meets_requirements : Bool
  pub feedback : List Requirement

abbrev point : Bool → ℕ
point true = 2
point false = 0

-- The half point of sixteen characters, capped at four points.
abbrev with_bonus : Text → ℕ → ℕ
with_bonus p n = if leb 16 (length p) then (if ltb (n + 1) 8 then n + 1 else 8) else n

abbrev label : ℕ → Strength
label n =
    if n == 1
    then weak_
    else if n == 2
    then fair
    else if n == 3
    then strong
    else if n == 4
    then very_strong
    else very_weak

unfoldable pub points : Text → ℕ
points p = point (long_enough p) + point (has_upper p) + point (has_lower p) + point (has_special p)

-- `check_password_strength_score`
unfoldable pub check_password_strength_score : Text → Score
unfolding points
check_password_strength_score p =
    let score = with_bonus p (points p) in
    record {
      half_points = score;
      strength = label (score / 2);
      meets_requirements = leb 8 score;
      feedback =
          require (long_enough p) min_length
          ++ (require (has_upper p) uppercase
              ++ (require (has_lower p) lowercase ++ require (has_special p) special));
    }
