-- ===== src/Sessions/Defs.antt =====
-- The bearer tokens of app/security/jwt_helpers.py, and `_load_user_from_jwt` of app/__init__.py with
-- the cookies that it sets. Signing and reading a token are PyJWT's: parameters. Seconds of a token
-- count from the same origin as the microseconds of the database.
use secure_voting_platform.Prelude.{
  ℕ, ◌+◌, ◌-◌, ◌/◌, Bool, true, false, not, ◌&&◌, ◌||◌, Option, none, some, List, [], ◌∷◌, find,
  if◌then◌else◌, ltb,
}
use secure_voting_platform.Prelude.Int.{pos, is_id}
use secure_voting_platform.Prelude.Text.{Text, codes, text_eq, is_empty, lower, decimal}
use secure_voting_platform.Json.{Json, value, to_int}
use secure_voting_platform.Models.{User, has_role}
use secure_voting_platform.Elections.{manager}
use secure_voting_platform.Accounts.{is_password_expired}

-- The four claims that a token must have. Of a token that PyJWT accepts, `iat` and `exp` are integers.
pub record Claims : Type 0 where
  pub sub : Json
  pub iat : ℕ
  pub exp : ℕ
  pub ver : Json

-- `int(time.time())` at a time of the database
abbrev pub unix : ℕ → ℕ
unix now = now / 1000000

-- The claims of `issue_token` for a user's id and session version. `lifetime` is TOKEN_LIFETIME, which
-- the environment sets; a negative one, under which no token is accepted, is left out.
unfoldable pub issue_claims : (lifetime now user_id session_version : ℕ) → Claims
issue_claims lifetime now user_id session_version = record {
  sub = Json.str (decimal user_id);
  iat = unix now;
  exp = unix now + lifetime;
  ver = Json.int (pos session_version);
}

pub data Endpoint : Type 0 where
  cast_anonymous_ballot change_password_page logout static_file : Endpoint
  other_page : Endpoint

-- The database credential of a request.
pub data Bind : Type 0 where
  voters admin : Bind

-- The user of a request, and what becomes of its cookies: `rejected` clears the token and the session.
pub data Identified : Type 0 where
  anonymous anonymous_voter rejected : Identified
  must_change_password : User → Identified
  logged_in : User → Bind → (refreshed : Option Text) → Identified

abbrev pub is_anonymous_ballot : Endpoint → Bool
is_anonymous_ballot cast_anonymous_ballot = true
is_anonymous_ballot _ = false

abbrev pub may_be_expired : Endpoint → Bool
may_be_expired change_password_page = true
may_be_expired logout = true
may_be_expired static_file = true
may_be_expired _ = false

-- `isinstance(v, int) and not isinstance(v, bool) and v == n`
abbrev pub is_version : Json → ℕ → Bool
is_version (Json.int z) n = is_id z n
is_version _ n = false

-- `User.is_manager` and `User.is_delegate`
abbrev pub bind_of : User → Bind
bind_of u = if has_role manager u || has_role (codes "delegate" ∷ []) u then admin else voters

-- Without a token a session that names a user is a downgrade; TESTING lets it pass.
abbrev pub without_token : (testing has_session : Bool) → Identified
without_token testing has_session = if not testing && has_session then rejected else anonymous

module _ (lifetime : ℕ) (encode : Claims → Text)
    (decode : (seconds : ℕ) → Text → Option Claims) where
  -- `issue_token` with the session version given
  unfoldable pub issue_token : (now user_id session_version : ℕ) → Text
  issue_token now user_id session_version =
      encode (issue_claims lifetime now user_id session_version)

  -- The user of a token's claims, while the claims are still current.
  unfoldable pub session_user : Claims → List User → Option User
  session_user c users = elim (to_int c.sub) [
    | value uid ↦ elim (find (λ u. is_id uid u.id) users) [
      | none ↦ none
      | some u ↦
          if text_eq (lower u.account_status) (codes "rejected")
            || not (is_version c.ver u.session_version)
          then none
          else some u
    ]
    | _ ↦ none
  ]

  -- The new token of a request, once less than half of the old one's life is left.
  unfoldable pub refresh : (now : ℕ) → Claims → User → Option Text
  refresh now c u =
      if ltb c.iat c.exp
        && ltb c.exp (unix now + (c.exp - c.iat) / 2)
        && not (is_password_expired now u)
      then some (issue_token now u.id u.session_version)
      else none

  -- The user of a token that was presented.
  unfoldable pub load_token : (now : ℕ) → Endpoint → (token : Text) → List User → Identified
  load_token now endpoint token users = elim (decode (unix now) token) [
    | none ↦ rejected
    | some c ↦ elim (session_user c users) [
      | none ↦ rejected
      | some u ↦
          if is_password_expired now u && not (may_be_expired endpoint)
          then must_change_password u
          else logged_in u (bind_of u) (refresh now c u)
    ]
  ]

  -- `_load_user_from_jwt`. `testing` is the app's TESTING flag, `has_session` says that the Flask
  -- session names a user.
  unfoldable pub load_user_from_jwt :
      (testing has_session : Bool)
      → (now : ℕ) → Endpoint
      → (cookie : Option Text) → List User
      → Identified
  load_user_from_jwt testing has_session now endpoint cookie users =
      if is_anonymous_ballot endpoint then anonymous_voter else elim cookie [
        | none ↦ without_token testing has_session
        | some token ↦
            if is_empty token
            then without_token testing has_session
            else load_token now endpoint token users
      ]
