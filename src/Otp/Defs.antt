-- ===== src/Otp/Defs.antt =====
-- `issue_otp_challenge` and `verify_otp_challenge` (app/services/otp_service.py) on the table of
-- challenges. The keyed digest of a code and the random identifier are arguments; a negative lifetime
-- counts as zero, since both are raised to a minute.
use secure_voting_platform.Prelude.{
  ℕ, suc, ◌+◌, Bool, ◌&&◌, ◌||◌, not, none, some, List, ◌∷◌, ◌==◌, all, find, update, delete,
  length, is_some, if◌then◌else◌, ltb, leb,
}
use secure_voting_platform.Prelude.Text.{Text, codes, text_eq, is_empty, is_digit}
use secure_voting_platform.Models.{OtpChallenge, seconds}

abbrev pub max_failed_attempts : ℕ
max_failed_attempts = 5

abbrev pub valid_purpose : Text → Bool
valid_purpose p = text_eq p (codes "generic") || text_eq p (codes "login_mfa")

-- `min(int(ttl_seconds), 900)` raised to 60
abbrev lifetime : ℕ → ℕ
lifetime ttl = let capped = if ltb ttl 900 then ttl else 900 in if ltb capped 60 then 60 else capped

pub data Issue : Type 0 where
  issued : (challenge_id : Text) (table : List OtpChallenge) → Issue
  bad_argument rate_limited : Issue

abbrev pub for_purpose : ℕ → Text → OtpChallenge → Bool
for_purpose uid purpose c = (c.user_id == uid) && text_eq c.purpose purpose

-- A challenge that may not be replaced yet.
abbrev pub is_blocking : ℕ → OtpChallenge → Bool
is_blocking now c =
    ltb now c.expires_at
    && (not (is_some c.consumed_at) || leb max_failed_attempts c.failed_attempts)

pub data Verdict : Type 0 where
  missing expired locked invalid valid : Verdict

abbrev pub consume : ℕ → OtpChallenge → OtpChallenge
consume now c = record c { consumed_at = some now }

abbrev pub fail : OtpChallenge → OtpChallenge
fail c = record c { failed_attempts = suc c.failed_attempts }

abbrev pub is_challenge : Text → ℕ → Text → OtpChallenge → Bool
is_challenge id uid purpose c = text_eq c.id id && for_purpose uid purpose c

module _ (digest : (challenge_id code : Text) → Text) where
  abbrev pub new_challenge :
      (now : ℕ) (id : Text) (uid : ℕ) (purpose : Text) (ttl : ℕ) (code : Text) → OtpChallenge
  new_challenge now id uid purpose ttl code = record {
    id = id;
    user_id = uid;
    purpose = purpose;
    code_digest = digest id code;
    expires_at = now + seconds (lifetime ttl);
    failed_attempts = 0;
    consumed_at = none;
    created_at = now;
  }

  -- `issue_otp_challenge`
  unfoldable pub issue_otp_challenge :
      (now : ℕ) (id : Text) (uid : ℕ) (purpose : Text) (ttl : ℕ) (code : Text)
      → List OtpChallenge
      → Issue
  issue_otp_challenge now id uid purpose ttl code table =
      if not (valid_purpose purpose) || not (length code == 6) || not (all is_digit code)
      then bad_argument
      else elim (find (for_purpose uid purpose) table) [
        | none ↦ issued id (new_challenge now id uid purpose ttl code ∷ table)
        | some existing ↦
            if is_blocking now existing
            then rate_limited
            else issued id (
                new_challenge now id uid purpose ttl code
                ∷ delete (λ c. text_eq c.id existing.id) table)
      ]

  -- The verdict on the challenge's row, and the row that is committed.
  unfoldable pub judge : (now : ℕ) (code : Text) (c : OtpChallenge) → Verdict × OtpChallenge
  judge now code c =
      if is_some c.consumed_at
      then (missing, c)
      else if leb c.expires_at now
      then (expired, consume now c)
      else if leb max_failed_attempts c.failed_attempts
      then (locked, consume now c)
      else if text_eq (digest c.id code) c.code_digest
      then (valid, consume now c)
      else if leb max_failed_attempts (suc c.failed_attempts)
      then (locked, consume now (fail c))
      else (invalid, fail c)

  -- `verify_otp_challenge`
  unfoldable pub verify_otp_challenge :
      (now : ℕ) (id : Text) (uid : ℕ) (purpose code : Text)
      → List OtpChallenge
      → Verdict × List OtpChallenge
  verify_otp_challenge now id uid purpose code table =
      if is_empty id || not (valid_purpose purpose)
      then (missing, table)
      else elim (find (is_challenge id uid purpose) table) [
        | none ↦ (missing, table)
        | some c ↦
            let (verdict, c') = judge now code c in
            (verdict, update (λ x. text_eq x.id id) (λ _. c') table)
      ]
