-- ===== src/Registration/Defs.antt =====
-- `register` (app/auth.py), with the licence index of app/models.py. The keyed hash of a licence and
-- the hash of a password are parameters, and so are the rows of `roles`. Texts are compared exactly.
use secure_voting_platform.Prelude.{
  ℕ, suc, Bool, true, false, ◌&&◌, ◌||◌, not, Option, none, some, List, [], ◌∷◌, ◌++◌, any, find,
  if◌then◌else◌, ltb,
}
use secure_voting_platform.Prelude.Text.{
  Text, codes, text_eq, is_empty, lower, upper, strip, decimal,
}
use secure_voting_platform.Models.{Store, User, Role, Region, ElectoralRoll}
use secure_voting_platform.Passwords.{validate_password_strength, accepted}
use secure_voting_platform.Outcome.{
  Outcome, done, refuse_if, or_refuse, ◌>>=◌, ◌>>◌, geo_mismatch, invalid_username, username_taken,
  invalid_email, email_taken, password_mismatch, password_weak, invalid_licence, licence_taken,
  registration_unavailable, registration_failed, server_error,
}
use secure_voting_platform.Elections.{field_text}
use secure_voting_platform.Registration.Validators.{
  is_username, is_email, validate_driver_lic, state_code, region_name, normalize_lic,
}

pub record RegistrationForm : Type 0 where
  pub username : Option Text
  pub email : Option Text
  pub password : Option Text
  pub confirm : Option Text
  pub driver_lic_no : Option Text
  pub driver_lic_state : Option Text

-- `request.form.get(k) or ''`
abbrev pub opaque_text : Option Text → Text
opaque_text none = []
opaque_text (some t) = t

abbrev pub has_username : Text → User → Bool
has_username t u = text_eq u.username t

abbrev pub has_email : Text → User → Bool
has_email t u = elim u.email [ none ↦ false | some e ↦ text_eq e t ]

abbrev pub has_licence : Text → User → Bool
has_licence h u = text_eq u.driver_lic_hash h

-- The selected state is another than the detected one.
abbrev pub is_elsewhere : Option Text → Text → Bool
is_elsewhere detected state = elim detected [
  | none ↦ false
  | some t ↦ elim (state_code t) [
    | none ↦ false
    | some code ↦ not (is_empty state) && not (text_eq (upper (strip state)) code)
  ]
]

abbrev pub is_weak : Text → Bool
is_weak password = elim (validate_password_strength password) [ accepted ↦ false | _ ↦ true ]

-- `f"ER-{user.id:04d}"`
abbrev pub roll_number_of : ℕ → Text
roll_number_of id =
    let digits = decimal id in
    codes "ER-"
    ++ (if ltb id 10
        then codes "000" ++ digits
        else if ltb id 100
        then codes "00" ++ digits
        else if ltb id 1000
        then codes "0" ++ digits
        else digits)

-- The unique constraints of the electoral roll.
abbrev pub clashes : ElectoralRoll → ElectoralRoll → Bool
clashes a b =
    text_eq a.roll_number b.roll_number || text_eq a.driver_license_hash b.driver_license_hash

module _ (lic_hmac : Text → Text) (generate_hash : Text → Text) where
  -- `_hash_lic`
  unfoldable pub hash_lic : Text → Option Text
  hash_lic lic =
      let norm = normalize_lic lic in if is_empty norm then none else some (lic_hmac norm)

  -- The new user, `set_password` included: its first password counts the session version up to one.
  abbrev pub pending_user :
      (now id : ℕ) (username email password lic_no lic_state lic_hash : Text) → Role → User
  pending_user now id username email password lic_no lic_state lic_hash role = record {
    id = id;
    username = username;
    email = some email;
    password_hash = generate_hash password;
    driver_lic_no = lic_no;
    driver_lic_hash = lic_hash;
    driver_lic_state = (if is_empty lic_state then none else some (upper lic_state));
    role = some role;
    account_status = codes "pending";
    email_verified = false;
    created_at = now;
    password_changed_at = some now;
    session_version = 1;
    failed_login_attempts = 0;
    account_locked_until = none;
  }

  abbrev pub pending_roll : (id : ℕ) → User → (lic_hash : Text) → (region_id : ℕ) → ElectoralRoll
  pending_roll id u lic_hash region_id = record {
    id = id;
    roll_number = roll_number_of u.id;
    driver_license_number = u.driver_lic_no;
    driver_license_hash = lic_hash;
    full_name = u.username;
    date_of_birth = 9131;
    address_line1 = codes "N/A";
    address_line2 = none;
    suburb = codes "N/A";
    state = (elim u.driver_lic_state [ none ↦ codes "N/A" | some t ↦ t ]);
    postcode = codes "0000";
    region_id = region_id;
    status = codes "pending";
    verified = false;
    verified_at = none;
    user_id = some u.id;
  }

  -- The checks on the form, and the user that passes them.
  unfoldable pub new_user :
      (now : ℕ) (detected : Option Text) → RegistrationForm → List Role → Store → Outcome User
  unfolding hash_lic
  new_user now detected form roles s = do
    let username = field_text form.username
    let email = lower (field_text form.email)
    let password = opaque_text form.password
    let lic_no = field_text form.driver_lic_no
    let lic_state = field_text form.driver_lic_state
    refuse_if (is_elsewhere detected lic_state) geo_mismatch
    refuse_if (not (is_username username)) invalid_username
    refuse_if (any (has_username username) s.users) username_taken
    refuse_if (not (is_email email)) invalid_email
    refuse_if (any (has_email email) s.users) email_taken
    refuse_if (not (text_eq password (opaque_text form.confirm))) password_mismatch
    refuse_if (is_weak password) password_weak
    refuse_if (not (validate_driver_lic lic_no lic_state)) invalid_licence
    lic_hash ← or_refuse (hash_lic lic_no) server_error
    refuse_if (any (has_licence lic_hash) s.users) licence_taken
    role ← or_refuse (find (λ r. text_eq r.name (codes "voter")) roles) registration_unavailable
    done (pending_user now s.next_id username email password lic_no lic_state lic_hash role)

  -- The region of the user's state; without one the roll's row is refused by the database.
  unfoldable pub map_state_to_region : User → Store → Option Region
  map_state_to_region u s = elim u.driver_lic_state [
    | none ↦ none
    | some state ↦ elim (region_name state) [
      | none ↦ none
      | some name ↦ find (λ r. text_eq r.name name) s.regions
    ]
  ]

  -- `register`: the user and the roll's row in one transaction. The verification mail is sent after it.
  unfoldable pub register :
      (now : ℕ) (detected : Option Text) → RegistrationForm → List Role → Store → Outcome Store
  register now detected form roles s = do
    u ← new_user now detected form roles s
    region ← or_refuse (map_state_to_region u s) registration_failed
    let roll = pending_roll (suc s.next_id) u u.driver_lic_hash region.id
    refuse_if (any (clashes roll) s.rolls) registration_failed
    done (record s { users = u ∷ s.users; rolls = roll ∷ s.rolls; next_id = suc (suc s.next_id) })
