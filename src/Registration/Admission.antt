-- ===== src/Registration/Admission.antt =====
-- Whom `register` (app/auth.py) admits, and the rows that it adds.
use secure_voting_platform.Prelude.{
  [], refl, none, if◌then◌else◌, none, if◌then◌else◌, not-eq-false, ℕ, suc, ◌≡◌, true, false,
  Option, some, List, ◌∷◌, find, any, arith,
}
use secure_voting_platform.Prelude.Text.{
  upper, is_empty, Text, codes, text_eq, lower, upper, is_empty,
}
use secure_voting_platform.Models.{ElectoralRoll, Store, User, Role, Region}
use secure_voting_platform.Passwords.{validate_password_strength, accepted}
use secure_voting_platform.Outcome.{
  done, >>=-eq-done, >>-eq-done, or_refuse-eq-done, geo_mismatch, invalid_username, username_taken,
  invalid_email, email_taken, password_mismatch, password_weak, invalid_licence, licence_taken,
  server_error, registration_unavailable, registration_failed,
}
use secure_voting_platform.Elections.{field_text}
use secure_voting_platform.Registration.Validators.{is_username, is_email, validate_driver_lic}
use secure_voting_platform.Registration.Defs.{
  RegistrationForm, opaque_text, is_weak, is_elsewhere, has_username, has_email, has_licence,
  hash_lic, new_user, pending_roll, map_state_to_region, clashes, register,
}

strong : (p : Text) → is_weak p ≡ false → validate_password_strength p ≡ accepted
strong p h = ground arith

-- The user of a form, and the checks that the form passed.
pub record Admitted (lic_hmac generate_hash : Text → Text) (now : ℕ) (form : RegistrationForm)
    (roles : List Role) (s : Store) (u : User) : Type 0 where
  pub role : Role
  pub lic_hash : Text
  pub named : is_username (field_text form.username) ≡ true
  pub new_name : any (has_username (field_text form.username)) s.users ≡ false
  pub addressed : is_email (lower (field_text form.email)) ≡ true
  pub new_address : any (has_email (lower (field_text form.email))) s.users ≡ false
  pub confirmed : text_eq (opaque_text form.password) (opaque_text form.confirm) ≡ true
  pub strong : validate_password_strength (opaque_text form.password) ≡ accepted
  pub licensed :
      validate_driver_lic (field_text form.driver_lic_no) (field_text form.driver_lic_state) ≡ true
  pub hashed : hash_lic lic_hmac generate_hash (field_text form.driver_lic_no) ≡ some lic_hash
  pub new_licence : any (has_licence lic_hash) s.users ≡ false
  pub voter : find (λ (r : Role). text_eq r.name (codes "voter")) roles ≡ some role
  pub made : u ≡ record {
    id = s.next_id;
    username = field_text form.username;
    email = some (lower (field_text form.email));
    password_hash = generate_hash (opaque_text form.password);
    driver_lic_no = field_text form.driver_lic_no;
    driver_lic_hash = lic_hash;
    driver_lic_state =
        if is_empty (field_text form.driver_lic_state)
        then none
        else some (upper (field_text form.driver_lic_state));
    role = some role;
    account_status = codes "pending";
    email_verified = false;
    created_at = now;
    password_changed_at = some now;
    session_version = 1;
    failed_login_attempts = 0;
    account_locked_until = none;
  }

-- The row of the electoral roll of a new user: pending and unverified, in the region of its state,
-- with a roll number and a licence that no other row has.
pub record IsEnrolment (id : ℕ) (u : User) (region : Region) (rolls : List ElectoralRoll)
    (roll : ElectoralRoll) : Type 0 where
  pub numbered : roll.id ≡ id
  pub owner : roll.user_id ≡ some u.id
  pub named : roll.full_name ≡ u.username
  pub licence : roll.driver_license_number ≡ u.driver_lic_no
  pub licence_hash : roll.driver_license_hash ≡ u.driver_lic_hash
  pub placed : roll.region_id ≡ region.id
  pub pending : roll.status ≡ codes "pending"
  pub unverified : roll.verified ≡ false
  pub never_verified : roll.verified_at ≡ none
  pub new_number : any (λ (x : ElectoralRoll). text_eq roll.roll_number x.roll_number) rolls ≡ false
  pub new_licence :
      any (λ (x : ElectoralRoll). text_eq roll.driver_license_hash x.driver_license_hash) rolls
      ≡ false

clashes-new :
    (roll : ElectoralRoll) (rolls : List ElectoralRoll)
    → any (clashes roll) rolls ≡ false
    → (any (λ (x : ElectoralRoll). text_eq roll.roll_number x.roll_number) rolls ≡ false)
      × (any (λ (x : ElectoralRoll). text_eq roll.driver_license_hash x.driver_license_hash) rolls
          ≡ false)
clashes-new roll [] h = (refl, refl)
clashes-new roll (x ∷ rolls) h =
    (ground (arith, clashes-new roll rolls), ground (arith, clashes-new roll rolls))

module _ (lic_hmac : Text → Text) (generate_hash : Text → Text) where
  pub new_user-Admitted :
      (now : ℕ) (detected : Option Text) (form : RegistrationForm) (roles : List Role) (s : Store)
      {u : User}
      → new_user lic_hmac generate_hash now detected form roles s ≡ done u
      → Admitted lic_hmac generate_hash now form roles s u
  unfolding new_user
  new_user-Admitted now detected form roles s {u} h =
      let (_, h1) =
        >>-eq-done (is_elsewhere detected (field_text form.driver_lic_state)) geo_mismatch _ h in
      let (named, h2) = >>-eq-done _ invalid_username _ h1 in
      let (new_name, h3) = >>-eq-done _ username_taken _ h2 in
      let (addressed, h4) = >>-eq-done _ invalid_email _ h3 in
      let (new_address, h5) = >>-eq-done _ email_taken _ h4 in
      let (confirmed, h6) = >>-eq-done _ password_mismatch _ h5 in
      let (not_weak, h7) = >>-eq-done _ password_weak _ h6 in
      let (licensed, h8) = >>-eq-done _ invalid_licence _ h7 in
      let (lic_hash, hashed, h9) = >>=-eq-done _ _ h8 in
      let (new_licence, h10) = >>-eq-done _ licence_taken _ h9 in
      let (role, voter, h11) = >>=-eq-done _ _ h10 in
      record {
        role = role;
        lic_hash = lic_hash;
        named = not-eq-false _ named;
        new_name = new_name;
        addressed = not-eq-false _ addressed;
        new_address = new_address;
        confirmed = not-eq-false _ confirmed;
        strong = strong _ not_weak;
        licensed = not-eq-false _ licensed;
        hashed = or_refuse-eq-done _ server_error hashed;
        new_licence = new_licence;
        voter = or_refuse-eq-done _ registration_unavailable voter;
        made = ground arith;
      }

  pending_roll-IsEnrolment :
      (id : ℕ) (u : User) (region : Region) (rolls : List ElectoralRoll)
      → (let roll = pending_roll lic_hmac generate_hash id u u.driver_lic_hash region.id in
          any (clashes roll) rolls ≡ false → IsEnrolment id u region rolls roll)
  pending_roll-IsEnrolment id u region rolls free =
      let roll = pending_roll lic_hmac generate_hash id u u.driver_lic_hash region.id in
      let (new_number, new_licence) = clashes-new roll rolls free in
      record {
        numbered = refl;
        owner = refl;
        named = refl;
        licence = refl;
        licence_hash = refl;
        placed = refl;
        pending = refl;
        unverified = refl;
        never_verified = refl;
        new_number = new_number;
        new_licence = new_licence;
      }

  pub register-eq-done :
      (now : ℕ) (detected : Option Text) (form : RegistrationForm) (roles : List Role) (s t : Store)
      → register lic_hmac generate_hash now detected form roles s ≡ done t
      → (u : User) × (region : Region) × (roll : ElectoralRoll) × Admitted lic_hmac generate_hash
          now form roles s u
        × (map_state_to_region lic_hmac generate_hash u s ≡ some region)
        × IsEnrolment (suc s.next_id) u region s.rolls roll
        × (t ≡ record s {
          users = u ∷ s.users;
          rolls = roll ∷ s.rolls;
          next_id = suc (suc s.next_id);
        })
  unfolding register
  register-eq-done now detected form roles s t h =
      let (u, made, h1) =
        >>=-eq-done (new_user lic_hmac generate_hash now detected form roles s) _ h in
      let (region, placed, h2) = >>=-eq-done _ _ h1 in
      let (free, h3) = >>-eq-done _ registration_failed _ h2 in
      let roll =
        pending_roll lic_hmac generate_hash (suc s.next_id) u u.driver_lic_hash region.id in
      (
        u,
        region,
        roll,
        new_user-Admitted now detected form roles s made,
        or_refuse-eq-done _ registration_failed placed,
        pending_roll-IsEnrolment (suc s.next_id) u region s.rolls free,
        ground arith,
      )
