-- ===== src/Encryption/Base64.antt =====
-- Python's `base64.b64encode` and `base64.b64decode(…, validate=True)`.
use secure_voting_platform.Prelude.{
  not, ℕ, ◌+◌, ◌-◌, ◌*◌, ◌/◌, ◌%◌, ◌<◌, ◌≡◌, refl, ap, Bool, true, false, ◌&&◌, Option, none, some,
  List, [], ◌∷◌, ◌==◌, all, length, if◌then◌else◌, ltb, arith,
}
use secure_voting_platform.Prelude.Text.{Text, is_upper, is_lower, is_digit, is_space}
use secure_voting_platform.Prelude.Digits.{is_unspaced}

abbrev sextet_char : ℕ → ℕ
sextet_char v =
    if ltb v 26
    then v + b'A'
    else if ltb v 52
    then v - 26 + b'a'
    else if ltb v 62
    then v - 52 + b'0'
    else if v == 62
    then b'+'
    else b'/'

abbrev sextet : ℕ → Option ℕ
sextet c =
    if is_upper c
    then some (c - b'A')
    else if is_lower c
    then some (c - b'a' + 26)
    else if is_digit c
    then some (c - b'0' + 52)
    else if c == b'+'
    then some 62
    else if c == b'/'
    then some 63
    else none

unfoldable pub b64encode : List ℕ → Text
b64encode [] = []
b64encode (a ∷ []) = sextet_char (a / 4) ∷ sextet_char (a % 4 * 16) ∷ b'=' ∷ b'=' ∷ []
b64encode (a ∷ b ∷ []) =
    sextet_char (a / 4) ∷ sextet_char (a % 4 * 16 + b / 16) ∷ sextet_char (b % 16 * 4) ∷ b'=' ∷ []
b64encode (a ∷ b ∷ c ∷ bytes) =
    sextet_char (a / 4)
    ∷ sextet_char (a % 4 * 16 + b / 16)
    ∷ sextet_char (b % 16 * 4 + c / 64)
    ∷ sextet_char (c % 64)
    ∷ b64encode bytes

abbrev two_sextets : Option ℕ → Option ℕ → Option (List ℕ)
two_sextets (some v) (some w) = some ((v * 4 + w / 16) ∷ [])
two_sextets _ _ = none

abbrev three_sextets : Option ℕ → Option ℕ → Option ℕ → Option (List ℕ)
three_sextets (some v) (some w) (some x) = some ((v * 4 + w / 16) ∷ (w % 16 * 16 + x / 4) ∷ [])
three_sextets _ _ _ = none

abbrev four_sextets : Option ℕ → Option ℕ → Option ℕ → Option ℕ → Option (List ℕ) → Option (List ℕ)
four_sextets (some v) (some w) (some x) (some y) (some bytes) =
    some ((v * 4 + w / 16) ∷ (w % 16 * 16 + x / 4) ∷ (x % 4 * 64 + y) ∷ bytes)
four_sextets _ _ _ _ _ = none

-- The last group of four may end in one or two `=`; the bits that are left over are ignored.
unfoldable pub b64decode : Text → Option (List ℕ)
b64decode [] = some []
b64decode (c ∷ []) = none
b64decode (c ∷ d ∷ []) = none
b64decode (c ∷ d ∷ e ∷ []) = none
b64decode (c ∷ d ∷ e ∷ f ∷ s) =
    let rest = b64decode s in
    if (f == b'=') && (length s == 0)
    then (if e == b'='
        then two_sextets (sextet c) (sextet d)
        else three_sextets (sextet c) (sextet d) (sextet e))
    else four_sextets (sextet c) (sextet d) (sextet e) (sextet f) rest

sextet-sextet_char : (v : ℕ) → v < 64 → sextet (sextet_char v) ≡ some v
sextet-sextet_char v h = ground arith

sextet_char-unspaced : (v : ℕ) → v < 64 → is_space (sextet_char v) ≡ false
sextet_char-unspaced v h = ground arith

sextet_char-no_padding : (v : ℕ) → v < 64 → (sextet_char v == b'=') ≡ false
sextet_char-no_padding v h = ground arith

abbrev pub is_bytes : List ℕ → Bool
is_bytes = all (λ b. ltb b 256)

-- Three bytes from their sextets.
first_byte : (a b : ℕ) → b < 256 → a / 4 * 4 + (a % 4 * 16 + b / 16) / 16 ≡ a
first_byte a b hb = omega (arith, hb)

second_byte :
    (a b c : ℕ)
    → b < 256
    → c < 256
    → (a % 4 * 16 + b / 16) % 16 * 16 + (b % 16 * 4 + c / 64) / 4 ≡ b
second_byte a b c hb hc = omega (arith, hb, hc)

third_byte : (b c : ℕ) → c < 256 → (b % 16 * 4 + c / 64) % 4 * 64 + c % 64 ≡ c
third_byte b c hc = omega (arith, hc)

-- Every character of a Base64 text is that of a sextet, or a padding.
pub b64encode-all :
    (p : ℕ → Bool) (bytes : List ℕ)
    → ((v : ℕ) → v < 64 → p (sextet_char v) ≡ true)
    → p b'=' ≡ true
    → is_bytes bytes ≡ true
    → all p (b64encode bytes) ≡ true
unfolding b64encode
b64encode-all p [] holds pad h = refl
b64encode-all p (a ∷ []) holds pad h =
    let ha : a < 256 = ground (arith, h) in
    rw (holds (a / 4) (omega (arith, ha)), holds (a % 4 * 16) (omega arith), pad) refl
b64encode-all p (a ∷ b ∷ []) holds pad h =
    let ha : a < 256 = ground (arith, h) in
    let hb : b < 256 = ground (arith, h) in
    rw
      (
        holds (a / 4) (omega (arith, ha)),
        holds (a % 4 * 16 + b / 16) (omega (arith, hb)),
        holds (b % 16 * 4) (omega arith),
        pad,
      )
      refl
b64encode-all p (a ∷ b ∷ c ∷ bytes) holds pad h =
    let ha : a < 256 = ground (arith, h) in
    let hb : b < 256 = ground (arith, h) in
    let hc : c < 256 = ground (arith, h) in
    rw
      (
        holds (a / 4) (omega (arith, ha)),
        holds (a % 4 * 16 + b / 16) (omega (arith, hb)),
        holds (b % 16 * 4 + c / 64) (omega (arith, hc)),
        holds (c % 64) (omega arith),
        b64encode-all p bytes holds pad (ground (arith, h)),
      )
      refl

pub b64encode-unspaced :
    (bytes : List ℕ) → is_bytes bytes ≡ true → is_unspaced (b64encode bytes) ≡ true
b64encode-unspaced bytes h =
    b64encode-all (λ c. not (is_space c)) bytes (λ v small. ap not (sextet_char-unspaced v small))
      refl h

sextet_char-no_colon : (v : ℕ) → v < 64 → (sextet_char v == b':') ≡ false
sextet_char-no_colon v h = ground arith

pub b64encode-no_colon :
    (bytes : List ℕ) → is_bytes bytes ≡ true → all (λ c. not (c == b':')) (b64encode bytes) ≡ true
b64encode-no_colon bytes h =
    b64encode-all (λ c. not (c == b':')) bytes (λ v small. ap not (sextet_char-no_colon v small))
      refl h

pub length-b64encode : (bytes : List ℕ) → length (b64encode bytes) % 4 ≡ 0
unfolding b64encode
length-b64encode [] = refl
length-b64encode (a ∷ []) = refl
length-b64encode (a ∷ b ∷ []) = refl
length-b64encode (a ∷ b ∷ c ∷ bytes) = omega (arith, length-b64encode bytes)

-- Bytes are read back from their Base64 text.
pub b64decode-b64encode :
    (bytes : List ℕ) → is_bytes bytes ≡ true → b64decode (b64encode bytes) ≡ some bytes
unfolding b64encode b64decode
b64decode-b64encode [] h = refl
b64decode-b64encode (a ∷ []) h =
    let ha : a < 256 = ground (arith, h) in
    rw
      (
        b64encode,
        b64decode,
        sextet-sextet_char (a / 4) (omega (arith, ha)),
        sextet-sextet_char (a % 4 * 16) (omega arith),
      )
      (ap (λ n. some (n ∷ [])) (omega arith))
b64decode-b64encode (a ∷ b ∷ []) h =
    let ha : a < 256 = ground (arith, h) in
    let hb : b < 256 = ground (arith, h) in
    rw
      (
        b64encode,
        b64decode,
        sextet_char-no_padding (b % 16 * 4) (omega arith),
        sextet-sextet_char (a / 4) (omega (arith, ha)),
        sextet-sextet_char (a % 4 * 16 + b / 16) (omega (arith, hb)),
        sextet-sextet_char (b % 16 * 4) (omega arith),
      )
      (rw (first_byte a b hb) (ap (λ n. some (a ∷ n ∷ [])) (omega (arith, hb))))
b64decode-b64encode (a ∷ b ∷ c ∷ bytes) h =
    let ha : a < 256 = ground (arith, h) in
    let hb : b < 256 = ground (arith, h) in
    let hc : c < 256 = ground (arith, h) in
    rw
      (
        b64encode,
        b64decode,
        sextet_char-no_padding (c % 64) (omega arith),
        sextet-sextet_char (a / 4) (omega (arith, ha)),
        sextet-sextet_char (a % 4 * 16 + b / 16) (omega (arith, hb)),
        sextet-sextet_char (b % 16 * 4 + c / 64) (omega (arith, hc)),
        sextet-sextet_char (c % 64) (omega arith),
        b64decode-b64encode bytes (ground (arith, h)),
      )
      (rw (first_byte a b hb, second_byte a b c hb hc, third_byte b c hc) refl)
