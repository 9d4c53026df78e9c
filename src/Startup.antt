-- ===== src/Startup.antt =====
-- app/utils/db_utils.py: `wait_for_db`, the wait for the database before the set-up of its tables.
-- The connection attempt with number `i` (from 0) answers the query or raises, `answers i`; this is
-- the database's doing and a parameter. `delay` is in seconds. What the loop prints is left out.
-- `max_attempts` rounds suffice, since each failed one raises `attempts` by one; `none` is a loop
-- whose fuel ran out.
use secure_voting_platform.Prelude.{
  ◌∙◌, ap, not, ◌==◌, ℕ, zero, suc, ◌+◌, ◌*◌, ◌<◌, ◌≡◌, inl, inr, Bool, true, false, Option, none,
  some, if◌then◌else◌, ltb, leb, Bool-cases, arith,
}

-- The attempts that failed and the seconds slept.
pub record Wait : Type 0 where
  pub attempts : ℕ
  pub slept : ℕ

-- How the call ends: it returns, or raises the error of the last attempt.
pub data Waited : Type 0 where
  returned raised : Wait → Waited

module _ (answers : ℕ → Bool) (max_attempts delay : ℕ) where
  unfoldable pub wait_loop : (fuel : ℕ) → Wait → Option Waited
  wait_loop zero w = if ltb w.attempts max_attempts then none else some (returned w)
  wait_loop (suc fuel) w =
      let attempts = suc w.attempts in
      let rest = wait_loop fuel (record { attempts = attempts; slept = w.slept + delay }) in
      if not (ltb w.attempts max_attempts)
      then some (returned w)
      else if answers w.attempts
      then some (returned w)
      else if leb max_attempts attempts
      then some (raised (record w { attempts = attempts }))
      else rest

  unfoldable pub wait_for_db : Option Waited
  wait_for_db = wait_loop max_attempts (record { attempts = 0; slept = 0 })

  -- The end that the attempts give: the first answer within the limit, the error of the last of
  -- them, or, when no attempt is allowed, a return at once.
  pub data Ends : Waited → Type 0 where
    connects :
        (k slept : ℕ)
        → k < max_attempts
        → ((i : ℕ) → i < k → answers i ≡ false)
        → answers k ≡ true
        → slept ≡ k * delay
        → Ends (returned (record { attempts = k; slept = slept }))
    gives_up :
        (k slept : ℕ)
        → max_attempts ≡ suc k
        → ((i : ℕ) → i < max_attempts → answers i ≡ false)
        → slept ≡ k * delay
        → Ends (raised (record { attempts = max_attempts; slept = slept }))
    never_tries : max_attempts ≡ 0 → Ends (returned (record { attempts = 0; slept = 0 }))

  failed_next :
      (k : ℕ)
      → ((i : ℕ) → i < k → answers i ≡ false)
      → answers k ≡ false
      → (i : ℕ) → i < suc k
      → answers i ≡ false
  failed_next k before now i h = elim (Bool-cases (i == k)) [
    | inl same ↦ let at : i ≡ k = ground arith in rw at now
    | inr other ↦ before i (ground arith)
  ]

  -- From an attempt within the limit, one round for each attempt left is enough.
  wait_loop-Ends :
      (fuel k slept : ℕ)
      → k + fuel ≡ max_attempts
      → 0 < fuel
      → ((i : ℕ) → i < k → answers i ≡ false)
      → slept ≡ k * delay
      → (w : Waited) × (wait_loop fuel (record { attempts = k; slept = slept }) ≡ some w) × Ends w
  unfolding wait_loop
  wait_loop-Ends zero k slept total more before sum = absurd (omega arith)
  wait_loop-Ends (suc fuel) k slept total more before sum =
      let inside : ltb k max_attempts ≡ true = ground arith in
      elim (Bool-cases (answers k)) [
        | inl answer ↦ (
          returned (record { attempts = k; slept = slept }),
          ground arith,
          connects k slept (omega arith) before answer sum,
        )
        | inr failure ↦ elim (Bool-cases (leb max_attempts (suc k))) [
          | inl last ↦
              let all_tried : max_attempts ≡ suc k = ground arith in
              let failed : (i : ℕ) → i < max_attempts → answers i ≡ false =
                λ i h. failed_next k before failure i (omega arith) in
              (
                raised (record { attempts = max_attempts; slept = slept }),
                ground arith,
                gives_up k slept all_tried failed sum,
              )
          | inr again ↦
              let (w, ends, how) =
                wait_loop-Ends fuel (suc k) (slept + delay) (omega arith) (ground arith)
                  (failed_next k before failure) (ground arith) in
              (w, rw (inside, failure, again, wait_loop) ends, how)
        ]
      ]

  -- The wait for the database ends, whatever the database does. It returns after the first attempt
  -- that the database answers, if this is one of the first `max_attempts`, having slept `delay`
  -- seconds after each failed one; it raises if none of those is answered, without a sleep after
  -- the last; and with no attempt allowed it returns at once.
  pub wait_for_db-Ends : (w : Waited) × (wait_for_db ≡ some w) × Ends w
  unfolding wait_for_db wait_loop
  wait_for_db-Ends = elim (Bool-cases (max_attempts == 0)) [
    | inl none_allowed ↦
        let zero_allowed : max_attempts ≡ 0 = ground arith in
        (
          returned (record { attempts = 0; slept = 0 }),
          ap (λ fuel. wait_loop fuel (record { attempts = 0; slept = 0 })) zero_allowed
              ∙ ground (arith, zero_allowed),
          never_tries zero_allowed,
        )
    | inr some_allowed ↦
        wait_loop-Ends max_attempts 0 0 (omega arith) (ground arith) (λ i h. absurd (omega arith))
          (omega arith)
  ]
