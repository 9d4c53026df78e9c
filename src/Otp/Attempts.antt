-- ===== src/Otp/Attempts.antt =====
-- Sequences of verifications of one challenge (app/services/otp_service.py).
use secure_voting_platform.Prelude.{
  ℕ, ◌+◌, ◌-◌, ◌≤◌, Bool, true, ◌||◌, not, ◌≡◌, refl, Option, none, some, List, [], ◌∷◌, find,
  count, find-holds, count-find, update, is_some, if◌then◌else◌, leb, arith, inl, inr, Bool-cases,
  Option-cases,
}
use secure_voting_platform.Prelude.Text.{is_empty, Text, text_eq}
use secure_voting_platform.Models.{OtpChallenge}
use secure_voting_platform.Otp.Defs.{
  is_challenge, valid_purpose, verify_otp_challenge, Verdict, judge, max_failed_attempts,
}

-- The rows of the identifier, as a primary key, have one challenge.
abbrev row_of : Text → List OtpChallenge → Option OtpChallenge
row_of id = find (λ c. text_eq c.id id)

abbrev pub IsUnique : Text → List OtpChallenge → Type 0
IsUnique id table = count (λ c. text_eq c.id id) table ≤ 1

find-stronger :
    {A : Type 0} (p q : A → Bool) (xs : List A) (a : A)
    → ((x : A) → q x ≡ true → p x ≡ true)
    → count p xs ≤ 1
    → find q xs ≡ some a
    → find p xs ≡ some a
find-stronger p q [] a h once found = cc
find-stronger p q (x ∷ xs) a h once found =
    ground
      (arith, h x, find-stronger p q xs a h, h a, find-holds q xs {a = a}, count-find p xs {a = a})

find-update_const :
    {A : Type 0} (p : A → Bool) (b : A) (xs : List A) {a : A}
    → p b ≡ true
    → find p xs ≡ some a
    → find p (update p (λ _. b) xs) ≡ some b
find-update_const p b [] h found = cc
find-update_const p b (x ∷ xs) {a} h found = ground (arith, find-update_const p b xs {a = a})

count-update_const :
    {A : Type 0} (p : A → Bool) (b : A) (xs : List A)
    → p b ≡ true
    → count p (update p (λ _. b) xs) ≡ count p xs
count-update_const p b [] h = refl
count-update_const p b (x ∷ xs) h = ground (arith, count-update_const p b xs h)

module _ (digest : (challenge_id code : Text) → Text) where
  judge-keeps : (now : ℕ) (code : Text) (c : OtpChallenge) → (judge digest now code c).1.id ≡ c.id
  unfolding judge
  judge-keeps now code c = ground arith

  -- What one verification does to the row of the identifier.
  data RowStep (now : ℕ) (id code : Text) (table : List OtpChallenge)
      : Verdict × List OtpChallenge → Type 0 where
    untouched : RowStep now id code table (Verdict.missing, table)
    judged :
        (c : OtpChallenge) (t : List OtpChallenge)
        → row_of id table ≡ some c
        → row_of id t ≡ some (judge digest now code c).1
        → IsUnique id t
        → RowStep now id code table ((judge digest now code c).0, t)

  verify-RowStep :
      (now : ℕ) (id : Text) (uid : ℕ) (purpose code : Text) (table : List OtpChallenge)
      → IsUnique id table
      → RowStep now id code table (verify_otp_challenge digest now id uid purpose code table)
  unfolding verify_otp_challenge
  verify-RowStep now id uid purpose code table once =
      elim (Bool-cases (is_empty id || not (valid_purpose purpose))) [
        | inl refused ↦ rw refused RowStep.untouched
        | inr fine ↦ rw fine (elim (Option-cases (find (is_challenge id uid purpose) table)) [
          | inl none_found ↦ rw none_found RowStep.untouched
          | inr (c, found) ↦
              let p = λ (x : OtpChallenge). text_eq x.id id in
              let row : row_of id table ≡ some c =
                find-stronger p (is_challenge id uid purpose) table c (λ x h. ground (arith, h))
                  once found in
              let (v, c') = judge digest now code c in
              let named : p c' ≡ true =
                rw (judge-keeps now code c) (find-holds p table {a = c} row) in
              rw found (
                RowStep.judged c (update p (λ _. c') table) row
                  (find-update_const p c' table named row)
                  (rw (count-update_const p c' table named) once))
        ])
      ]

-- A call of `verify_otp_challenge` for one challenge.
pub record Attempt : Type 0 where
  pub now : ℕ
  pub user_id : ℕ
  pub purpose : Text
  pub code : Text

-- How often the row can still be answered with another verdict than `missing`.
abbrev answers_left : Option OtpChallenge → ℕ
answers_left none = 0
answers_left (some c) =
    if is_some c.consumed_at
    then 0
    else if leb max_failed_attempts c.failed_attempts
    then 1
    else max_failed_attempts - c.failed_attempts

abbrev pub answered : Verdict → ℕ
answered Verdict.missing = 0
answered _ = 1

-- How often the row can still be accepted.
abbrev acceptances_left : Option OtpChallenge → ℕ
acceptances_left none = 0
acceptances_left (some c) = if is_some c.consumed_at then 0 else 1

abbrev pub accepted : Verdict → ℕ
accepted Verdict.valid = 1
accepted _ = 0

module _ (digest : (challenge_id code : Text) → Text) where
  -- The verdicts on a sequence of calls for one challenge.
  unfoldable pub verify_all : Text → List Attempt → List OtpChallenge → List Verdict
  verify_all id [] table = []
  verify_all id (a ∷ rest) table =
      let (v, t) = verify_otp_challenge digest a.now id a.user_id a.purpose a.code table in
      v ∷ verify_all id rest t

  abbrev pub total : (Verdict → ℕ) → List Verdict → ℕ
  total weight [] = 0
  total weight (v ∷ vs) = weight v + total weight vs

  -- A count of verdicts that each verification pays for out of the row's credit is bounded by it.
  module _ (weight : Verdict → ℕ) (credit : Option OtpChallenge → ℕ)
      (free : weight Verdict.missing ≡ 0)
      (pays : (now : ℕ) (code : Text) (c : OtpChallenge)
        → weight (judge digest now code c).0 + credit (some (judge digest now code c).1)
          ≤ credit (some c)) where
    total-le-credit :
        (id : Text) (attempts : List Attempt) (table : List OtpChallenge)
        → IsUnique id table
        → total weight (verify_all id attempts table) ≤ credit (row_of id table)
    unfolding verify_all
    total-le-credit id [] table once = omega arith
    total-le-credit id (a ∷ rest) table once =
        go (verify_otp_challenge digest a.now id a.user_id a.purpose a.code table)
          (verify-RowStep digest a.now id a.user_id a.purpose a.code table once)
          (total-le-credit id rest)
      where
        go :
            (r : Verdict × List OtpChallenge)
            → RowStep digest a.now id a.code table r
            → ((t : List OtpChallenge)
                → IsUnique id t
                → total weight (verify_all id rest t) ≤ credit (row_of id t))
            → weight r.0 + total weight (verify_all id rest r.1) ≤ credit (row_of id table)
        go r RowStep.untouched ih = omega (arith, free, ih table once)
        go r (RowStep.judged c t row row' once') ih =
            rw row (omega (arith, pays a.now a.code c, rw row' at (ih t once')))

  answers_pay :
      (now : ℕ) (code : Text) (c : OtpChallenge)
      → answered (judge digest now code c).0 + answers_left (some (judge digest now code c).1)
        ≤ answers_left (some c)
  unfolding judge
  answers_pay now code c = ground arith

  acceptances_pay :
      (now : ℕ) (code : Text) (c : OtpChallenge)
      → accepted (judge digest now code c).0 + acceptances_left (some (judge digest now code c).1)
        ≤ acceptances_left (some c)
  unfolding judge
  acceptances_pay now code c = ground arith

  -- Guessing is bounded and acceptance is single: whatever sequence of codes is tried on one
  -- challenge, by whom and at whatever times, at most five calls are answered otherwise than
  -- `missing`, and at most one is answered `valid`, if challenge identifiers are unique.
  pub verify_all_bounds :
      (id : Text) (attempts : List Attempt) (table : List OtpChallenge)
      → IsUnique id table
      → (total answered (verify_all id attempts table) ≤ 5)
        × (total accepted (verify_all id attempts table) ≤ 1)
  verify_all_bounds id attempts table once = (
    left_le (row_of id table)
        (total-le-credit answered answers_left refl answers_pay id attempts table once),
    one_le (row_of id table)
        (total-le-credit accepted acceptances_left refl acceptances_pay id attempts table once),
  )
    where
      left_le : (o : Option OtpChallenge) {n : ℕ} → n ≤ answers_left o → n ≤ 5
      left_le none h = omega arith
      left_le (some c) h = ground arith

      one_le : (o : Option OtpChallenge) {n : ℕ} → n ≤ acceptances_left o → n ≤ 1
      one_le none h = omega arith
      one_le (some c) h = ground arith
