-- ===== src/Registration/Validators.antt =====
-- The validators of app/auth.py: USERNAME_RE, EMAIL_RE, `validate_driver_lic`, the state tables, and
-- the normalisation of a licence in app/models.py.
use secure_voting_platform.Prelude.{
  ℕ, Bool, false, ◌&&◌, ◌||◌, not, Option, none, some, List, [], ◌∷◌, ◌==◌, any, all, length,
  if◌then◌else◌, leb,
}
use secure_voting_platform.Prelude.Text.{
  Text, codes, text_eq, is_empty, is_digit, is_upper, is_lower, is_space, strip, upper,
}

abbrev is_alphanumeric : ℕ → Bool
is_alphanumeric c = is_digit c || is_upper c || is_lower c

abbrev is_word : ℕ → Bool
is_word c = is_alphanumeric c || (c == b'_') || (c == b'.') || (c == b'-')

-- `USERNAME_RE.fullmatch(s)`
unfoldable pub is_username : Text → Bool
is_username s = leb 3 (length s) && leb (length s) 32 && all is_word s

abbrev is_plain : ℕ → Bool
is_plain c = not (c == b'@') && not (is_space c)

-- The part in front of the first `@` and the part behind it.
abbrev split_at_sign : Text → Option (Text × Text)
split_at_sign [] = none
split_at_sign (c ∷ s) =
    if c == b'@'
    then some ([], s)
    else elim (split_at_sign s) [ none ↦ none | some (a, b) ↦ some (c ∷ a, b) ]

-- A dot with a character behind it.
abbrev dot_within : Text → Bool
dot_within [] = false
dot_within (c ∷ []) = false
dot_within (c ∷ d ∷ s) = (c == b'.') || dot_within (d ∷ s)

abbrev has_inner_dot : Text → Bool
has_inner_dot [] = false
has_inner_dot (c ∷ s) = dot_within s

-- `EMAIL_RE.fullmatch(s)`
unfoldable pub is_email : Text → Bool
is_email s = elim (split_at_sign s) [
  | none ↦ false
  | some (local, domain) ↦
      not (is_empty local) && all is_plain local && all is_plain domain && has_inner_dot domain
]

abbrev pub states : List Text
states =
    codes "ACT"
    ∷ codes "NSW"
    ∷ codes "NT"
    ∷ codes "QLD"
    ∷ codes "SA"
    ∷ codes "TAS"
    ∷ codes "VIC"
    ∷ codes "WA"
    ∷ []

abbrev pub without : (ℕ → Bool) → Text → Text
without p [] = []
without p (c ∷ s) = if p c then without p s else c ∷ without p s

-- `validate_driver_lic(lic_no, state)`; an empty state is none.
unfoldable pub validate_driver_lic : Text → Text → Bool
validate_driver_lic lic_no state =
    let lic = without (λ c. c == 32) (strip lic_no) in
    not (is_empty lic_no)
    && leb 6 (length lic)
    && leb (length lic) 10
    && all is_alphanumeric lic
    && (is_empty state || any (text_eq (upper state)) states)

abbrev pub find_text : Text → List (Text × Text) → Option Text
find_text k [] = none
find_text k ((j, v) ∷ m) = if text_eq j k then some v else find_text k m

-- `fullname_map`
abbrev state_names : List (Text × Text)
state_names =
    (codes "NEW SOUTH WALES", codes "NSW")
    ∷ (codes "NSW", codes "NSW")
    ∷ (codes "VICTORIA", codes "VIC")
    ∷ (codes "VIC", codes "VIC")
    ∷ (codes "QUEENSLAND", codes "QLD")
    ∷ (codes "QLD", codes "QLD")
    ∷ (codes "SOUTH AUSTRALIA", codes "SA")
    ∷ (codes "SA", codes "SA")
    ∷ (codes "WESTERN AUSTRALIA", codes "WA")
    ∷ (codes "WA", codes "WA")
    ∷ (codes "TASMANIA", codes "TAS")
    ∷ (codes "TAS", codes "TAS")
    ∷ (codes "NORTHERN TERRITORY", codes "NT")
    ∷ (codes "NT", codes "NT")
    ∷ (codes "AUSTRALIAN CAPITAL TERRITORY", codes "ACT")
    ∷ (codes "ACT", codes "ACT")
    ∷ []

-- The code of a detected state; an empty text is none.
unfoldable pub state_code : Text → Option Text
state_code detected =
    if is_empty detected then none else find_text (upper (strip detected)) state_names

-- `mapping` of `_map_state_to_region`
abbrev region_names : List (Text × Text)
region_names =
    (codes "NSW", codes "Sydney")
    ∷ (codes "VIC", codes "VIC east")
    ∷ (codes "QLD", codes "QLD")
    ∷ (codes "SA", codes "SA")
    ∷ (codes "WA", codes "WA")
    ∷ (codes "TAS", codes "TAS")
    ∷ (codes "ACT", codes "ACT")
    ∷ (codes "NT", codes "NT")
    ∷ []

-- The region's name for a state's code.
unfoldable pub region_name : Text → Option Text
region_name state = if is_empty state then none else find_text (upper state) region_names

-- `_normalize_lic`
unfoldable pub normalize_lic : Text → Text
normalize_lic lic = upper (without is_space lic)
