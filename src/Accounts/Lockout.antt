-- ===== src/Accounts/Lockout.antt =====
-- Sequences of calls of the password step, and the lockout (app/models.py, app/auth.py).
use secure_voting_platform.Prelude.{
  true, ℕ, ◌+◌, ◌-◌, ◌≤◌, ◌<◌, Bool, false, ◌||◌, not, ◌≡◌, Option, none, some, List, [], ◌∷◌, find,
  update, if◌then◌else◌, leb, arith, inl, inr, ◌⊎◌, Bool-cases, Option-cases,
}
use secure_voting_platform.Prelude.Text.{Text, text_eq, is_empty}
use secure_voting_platform.Models.{User, seconds}
use secure_voting_platform.Accounts.Defs.{
  LoginStep, wrong_password, is_account_locked, record_failed_login, has_user_id, password_step,
}

-- A call of `login` for one username.
pub record Guess : Type 0 where
  pub now : ℕ
  pub password : Text

-- The calls lie within half an hour from `start`.
abbrev pub InWindow : ℕ → List Guess → Type 0
InWindow start [] = Unit
InWindow start (g ∷ gs) = (start ≤ g.now) × (g.now < start + seconds 1800) × InWindow start gs

abbrev pub wrong : LoginStep → ℕ
wrong wrong_password = 1
wrong _ = 0

-- How many guesses the row still allows in the half hour from `start`.
abbrev guesses_left : ℕ → Option User → ℕ
guesses_left start none = 0
guesses_left start (some u) =
    if (elim u.account_locked_until [ none ↦ false | some t ↦ leb (start + seconds 1800) t ])
    then 0
    else if leb 5 u.failed_login_attempts
    then 1
    else 5 - u.failed_login_attempts

module _ (generate_hash : Text → Text) (check_hash : (stored password : Text) → Bool) where
  abbrev row_named : Text → List User → Option User
  row_named name = find (λ u. text_eq u.username name)

  -- The results of a sequence of calls for one username.
  unfoldable pub login_all : Text → List Guess → List User → List LoginStep
  login_all name [] users = []
  login_all name (g ∷ gs) users =
      let (r, users') = password_step generate_hash check_hash g.now name g.password users in
      r ∷ login_all name gs users'

  abbrev pub wrong_guesses : List LoginStep → ℕ
  wrong_guesses [] = 0
  wrong_guesses (r ∷ rs) = wrong r + wrong_guesses rs

  -- A call leaves the rows alone, or it is a wrong guess at an unlocked row.
  pub step-cases :
      (name : Text) (g : Guess) (users : List User)
      → (let r = password_step generate_hash check_hash g.now name g.password users in
          ((wrong r.0 ≡ 0) × (r.1 ≡ users))
          ⊎ ((u : User) × (row_named name users ≡ some u)
              × (is_account_locked g.now u ≡ false)
              × ((is_empty g.password || not (check_hash u.password_hash g.password)) ≡ true)
              × (r
                  ≡ (wrong_password, update (has_user_id u.id) (record_failed_login g.now) users))))
  unfolding password_step
  step-cases name g users = elim (Option-cases (row_named name users)) [
    | inl unknown ↦ inl (ground (arith, unknown), ground (arith, unknown))
    | inr (u, found) ↦ elim (Bool-cases (is_account_locked g.now u)) [
      | inl is_locked ↦ inl (ground (arith, found), ground (arith, found))
      | inr free ↦
          elim (Bool-cases (is_empty g.password || not (check_hash u.password_hash g.password))) [
            | inl bad ↦ inr (u, found, free, bad, ground (arith, found))
            | inr good ↦ inl (ground (arith, found), ground (arith, found))
          ]
    ]
  ]
