-- ===== src/AccountLife/Handlers.antt =====
-- Each request that changes the table of users follows the rules.
use secure_voting_platform.Prelude.{
  ap, ◌∙◌, ℕ, ◌≡◌, Bool, Option, some, List, find, update, arith, inl, inr, Option-cases,
  Bool-cases,
}
use secure_voting_platform.Prelude.Text.{text_eq_iff, Text}
use secure_voting_platform.Models.{Store, User}
use secure_voting_platform.Accounts.{
  has_user_id, record_failed_login, reset_failed_logins, password_step, complete_login,
  reset_password, TokenRead, payload, signature_expired, bad_signature,
}
use secure_voting_platform.Accounts.Reset.{with_password}
use secure_voting_platform.Accounts.Lockout.{step-cases}
use secure_voting_platform.Administration.{unlocked_row, approved_row, rejected_row, verified_row}
use secure_voting_platform.AccountLife.Defs.{or_rolled_back, Request}
use secure_voting_platform.Administration.NewPassword.{change_password-effect}
use secure_voting_platform.Passwords.Policy.{IsStrong}
use secure_voting_platform.Prelude.Text.{text_eq}
use secure_voting_platform.Json.{Json}
use secure_voting_platform.Prelude.{true, find-holds, ==_iff, List, refl, none}
use secure_voting_platform.Elections.{manager}
use secure_voting_platform.Models.{has_role, record_audit_event}
use secure_voting_platform.Administration.{
  approve_user, reject_user, unlock_user, verify_email, owns_email, change_password,
}
use secure_voting_platform.Prelude.Int.{ℤ}
use secure_voting_platform.Passwords.Policy.{password_policy}
use secure_voting_platform.Accounts.{
  locked_reset, token_user, set_password, reset_claims, form_problem,
}
use secure_voting_platform.Accounts.Reset.{token_user-eq-some, set_password-eq-some}
use secure_voting_platform.Prelude.Int.{is_id}
use secure_voting_platform.AccountLife.Numbering.{
  Descending, ids, update-row, update-absent, find-by_id,
}
use secure_voting_platform.AccountLife.Rules.{Revised, Step}

-- Only a text names an address, and only the account's own.
owns_email-str :
    (j : Json) (u : User)
    → owns_email j u ≡ true
    → (e : Text) × (j ≡ Json.str e) × (u.email ≡ some e)
owns_email-str (Json.str t) u h = elim (Option-cases u.email) [
  | inl absent ↦ absurd (ground (arith, h, absent))
  | inr (e, has) ↦
      let same : e ≡ t = (text_eq_iff e t).0 (ground (arith, h, has)) in
      (t, refl, has ∙ ap (λ x. some x) same)
]
owns_email-str Json.null u h = absurd (cc h)
owns_email-str (Json.bool _) u h = absurd (cc h)
owns_email-str (Json.int _) u h = absurd (cc h)
owns_email-str (Json.real _) u h = absurd (cc h)
owns_email-str (Json.arr _) u h = absurd (cc h)
owns_email-str (Json.obj _) u h = absurd (cc h)

id_of : (k : ℕ) (us : List User) {u : User} → find (has_user_id k) us ≡ some u → u.id ≡ k
id_of k us {u} found = (==_iff u.id k).0 (find-holds (has_user_id k) us found)

module _ (generate_hash : Text → Text) (check_hash : (stored password : Text) → Bool) where
  abbrev Next : ℕ → Request → ℕ → List User → List User → Type 0
  Next now r n us vs = Step generate_hash check_hash now r n us n vs

  Revised-by_id :
      (now : ℕ) (r : Request) (n k : ℕ) (f : User → User) (us : List User) (u : User)
      → Descending n (ids us)
      → find (has_user_id k) us ≡ some u
      → Revised generate_hash check_hash now r u (f u)
      → Next now r n us (update (has_user_id k) f us)
  Revised-by_id now r n k f us u d found allowed =
      rw (update-row n k f us d found) (Step.revises n us k u (f u) found allowed)

  pub password_step-Step :
      (now : ℕ) (name password : Text) (n : ℕ) (us : List User)
      → Descending n (ids us)
      → Next now
          (Request.login name password)
          n
          us
          (password_step generate_hash check_hash now name password us).1
  unfolding record_failed_login
  password_step-Step now name password n us d =
      elim (step-cases generate_hash check_hash name (record { now = now; password = password })
        us) [
          | inl (_, same) ↦ rw same (Step.stays n us)
          | inr (u, found, free, bad, e) ↦
              let named : text_eq u.username name ≡ true =
                find-holds (λ (x : User). text_eq x.username name) us found in
              rw e (
                Revised-by_id now (Request.login name password) n u.id (record_failed_login now) us
                  u d (find-by_id n (λ (x : User). text_eq x.username name) us d found)
                  (Revised.failed name password u named free bad))
        ]

  pub complete_login-Step :
      (now k n : ℕ) (us : List User)
      → Descending n (ids us)
      → Next now (Request.login_completed k) n us (complete_login generate_hash check_hash k us)
  unfolding complete_login reset_failed_logins
  complete_login-Step now k n us d = elim (Option-cases (find (has_user_id k) us)) [
    | inl absent ↦ rw (update-absent k reset_failed_logins us absent) (Step.stays n us)
    | inr (u, found) ↦
        Revised-by_id now (Request.login_completed k) n k reset_failed_logins us u d found
          (Revised.completed k u (id_of k us found))
  ]

  abbrev Moves : ℕ → Request → Store → Store → Type 0
  Moves now r s t = Step generate_hash check_hash now r s.next_id s.users t.next_id t.users

  -- A decision of an administrator on the account with the number `k`.
  by_manager :
      (now : ℕ) (r : Request) (k : ℕ) (f : User → User) (s : Store) (u : User)
      → Descending s.next_id (ids s.users)
      → find (has_user_id k) s.users ≡ some u
      → (u.id ≡ k → Revised generate_hash check_hash now r u (f u))
      → Next now r s.next_id s.users (update (has_user_id u.id) f s.users)
  by_manager now r k f s u d found allowed =
      Revised-by_id now r s.next_id u.id f s.users u d
        (find-by_id s.next_id (has_user_id k) s.users d found) (allowed (id_of k s.users found))

  pub unlock_user-Step :
      (now : ℕ) (admin : User) (k : ℕ) (s : Store)
      → Descending s.next_id (ids s.users)
      → Moves now (Request.unlocking admin k) s (or_rolled_back s (unlock_user admin k s))
  unfolding unlock_user
  unlock_user-Step now admin k s d = elim (Bool-cases (has_role manager admin)) [
    | inr other ↦ rw other (Step.stays s.next_id s.users)
    | inl may ↦ elim (Option-cases (find (has_user_id k) s.users)) [
      | inl absent ↦ rw (may, absent) (Step.stays s.next_id s.users)
      | inr (u, found) ↦
          rw (may, found)
            (by_manager now (Request.unlocking admin k) k unlocked_row s u d found
              (λ own. Revised.unlocked admin k u own may))
    ]
  ]

  pub reject_user-Step :
      (now : ℕ) (admin : User) (k : ℕ) (s : Store)
      → Descending s.next_id (ids s.users)
      → Moves now (Request.rejection admin k) s (or_rolled_back s (reject_user admin k s))
  unfolding reject_user record_audit_event
  reject_user-Step now admin k s d = elim (Bool-cases (has_role manager admin)) [
    | inr other ↦ rw other (Step.stays s.next_id s.users)
    | inl may ↦ elim (Option-cases (find (has_user_id k) s.users)) [
      | inl absent ↦ rw (may, absent) (Step.stays s.next_id s.users)
      | inr (u, found) ↦
          rw (may, found)
            (by_manager now (Request.rejection admin k) k rejected_row s u d found
              (λ own. Revised.turned_away admin k u own may))
    ]
  ]

  pub approve_user-Step :
      (now : ℕ) (admin : User) (k : ℕ) (s : Store)
      → Descending s.next_id (ids s.users)
      → Moves now (Request.approval admin k) s (or_rolled_back s (approve_user admin k s))
  unfolding approve_user record_audit_event
  approve_user-Step now admin k s d = elim (Bool-cases (has_role manager admin)) [
    | inr other ↦ rw other (Step.stays s.next_id s.users)
    | inl may ↦ elim (Option-cases (find (has_user_id k) s.users)) [
      | inl absent ↦ rw (may, absent) (Step.stays s.next_id s.users)
      | inr (u, found) ↦ elim (Bool-cases u.email_verified) [
        | inr unverified ↦ rw (may, found, unverified) (Step.stays s.next_id s.users)
        | inl is_verified ↦
            rw (may, found, is_verified)
              (by_manager now (Request.approval admin k) k approved_row s u d found
                (λ own. Revised.approved admin k u own may is_verified))
      ]
    ]
  ]

  pub verify_email-Step :
      (now : ℕ) (token : TokenRead) (n : ℕ) (us : List User)
      → Descending n (ids us)
      → Next now (Request.verification token) n us (verify_email token us).1
  unfolding verify_email
  verify_email-Step now signature_expired n us d = Step.stays n us
  verify_email-Step now bad_signature n us d = Step.stays n us
  verify_email-Step now (payload j) n us d = elim (Option-cases (find (owns_email j) us)) [
    | inl absent ↦ rw (absent, verify_email) (Step.stays n us)
    | inr (u, found) ↦ elim (Bool-cases u.email_verified) [
      | inl already ↦ rw (found, already, verify_email) (Step.stays n us)
      | inr unverified ↦
          let (e, named, own) = owns_email-str j u (find-holds (owns_email j) us found) in
          rw (found, unverified, verify_email)
            (Revised-by_id now (Request.verification (payload j)) n u.id verified_row us u d
              (find-by_id n (owns_email j) us d found)
              (Revised.confirmed j e u named own unverified))
    ]
  ]

  locked_reset-Step :
      (now : ℕ) (r : Request) (uid ver : ℤ) (password : Text) (n : ℕ) (us : List User)
      → Descending n (ids us)
      → ((u : User)
          → is_id uid u.id ≡ true
          → is_id ver u.session_version ≡ true
          → IsStrong password
          → Revised generate_hash check_hash now r u
              (with_password generate_hash check_hash now password u))
      → Next now r n us (locked_reset generate_hash check_hash now uid ver password us).1
  unfolding locked_reset
  locked_reset-Step now r uid ver password n us d allowed =
      elim (Option-cases (token_user generate_hash check_hash uid ver us)) [
        | inl spent ↦ rw (spent, locked_reset) (Step.stays n us)
        | inr (u, current) ↦
            elim (Option-cases (set_password generate_hash check_hash now password u)) [
              | inl weak ↦ rw (current, weak, locked_reset) (Step.stays n us)
              | inr (u', made) ↦
                  let (found, version) =
                    token_user-eq-some generate_hash check_hash uid ver us current in
                  let (strong, same) =
                    set_password-eq-some generate_hash check_hash now password u made in
                  let own = find-holds (λ (x : User). is_id uid x.id) us found in
                  rw (current, made, same, locked_reset)
                    (Step.revises n us u.id u
                      (with_password generate_hash check_hash now password u)
                      (find-by_id n (λ (x : User). is_id uid x.id) us d found)
                      (allowed u own version (((password_policy password).0).0 strong)))
            ]
      ]

  pub reset_password-Step :
      (now : ℕ) (token : TokenRead) (form : Option (Text × Text)) (seen : List User) (n : ℕ)
      (us : List User)
      → Descending n (ids us)
      → Next now
          (Request.reset token form seen)
          n
          us
          (reset_password generate_hash check_hash now token form seen us).1
  unfolding reset_password
  reset_password-Step now signature_expired form seen n us d = Step.stays n us
  reset_password-Step now bad_signature form seen n us d = Step.stays n us
  reset_password-Step now (payload j) none seen n us d =
      elim (Option-cases (reset_claims generate_hash check_hash j)) [
        | inl no_claims ↦ rw (no_claims, reset_password) (Step.stays n us)
        | inr ((uid, ver), claimed) ↦
            elim (Option-cases (token_user generate_hash check_hash uid ver seen)) [
              | inl spent ↦ rw (claimed, spent, reset_password) (Step.stays n us)
              | inr (_, current) ↦ rw (claimed, current, reset_password) (Step.stays n us)
            ]
      ]
  reset_password-Step now (payload j) (some (new, confirm)) seen n us d =
      elim (Option-cases (reset_claims generate_hash check_hash j)) [
        | inl no_claims ↦ rw (no_claims, reset_password) (Step.stays n us)
        | inr ((uid, ver), claimed) ↦
            elim (Option-cases (token_user generate_hash check_hash uid ver seen)) [
              | inl spent ↦ rw (claimed, spent, reset_password) (Step.stays n us)
              | inr (_, current) ↦
                  elim (Option-cases (form_problem generate_hash check_hash new confirm)) [
                    | inr (problem, wrong) ↦
                        rw (claimed, current, wrong, reset_password) (Step.stays n us)
                    | inl fine ↦
                        rw (claimed, current, fine, reset_password)
                          (locked_reset-Step now
                            (Request.reset (payload j) (some (new, confirm)) seen) uid ver new n us
                            d
                            (λ u own version strong.
                              Revised.was_reset j seen uid ver new confirm u claimed own version
                                strong))
                  ]
            ]
      ]

  pub change_password-Step :
      (now uid : ℕ) (current new confirm : Text) (n : ℕ) (us : List User)
      → Descending n (ids us)
      → Next now
          (Request.change uid current new confirm)
          n
          us
          (change_password generate_hash check_hash now uid current new confirm us).1
  change_password-Step now uid current new confirm n us d =
      elim (change_password-effect generate_hash check_hash now uid current new confirm us) [
        | inl (_, kept) ↦ rw kept (Step.stays n us)
        | inr (u, found, right, fresh, repeated, strong, made) ↦ rw made (
            Step.revises n us u.id u (with_password generate_hash check_hash now new u)
              (find-by_id n (has_user_id uid) us d found)
              (Revised.changed uid current new confirm u (id_of uid us found) right fresh repeated
                strong))
      ]
