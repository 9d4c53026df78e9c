-- ===== src/Prelude/Text.antt =====
-- Python's `str` as its code points. Case mapping and white space are those of ASCII.
use Prim.Native.Nat.{zero, suc, ◌/◌, ◌%◌, ◌<◌, ℕ, ◌+◌, ◌-◌, ◌*◌}
use Prim.Native.Char.{code}
use Prim.Native.String.{String}
use mathlib.Core.Path.{◌≡◌, refl}
use mathlib.Core.Logic.{◌↔◌}
use mathlib.Core.Bool.{Bool, true, false, ◌&&◌, ◌||◌}
use mathlib.Core.Option.{Option, none, some}
use mathlib.Core.List.{◌++◌, List, [], ◌∷◌, map, reverse}
use native.Mathlib.Omega.{arith}
use secure_voting_platform.Prelude.Tests.{if◌then◌else◌, ◌==◌, leb, ltb}
use secure_voting_platform.Prelude.Int.{ℤ, pos, negate}

abbrev pub Text : Type 0
Text = List ℕ

abbrev pub codes : String → Text
codes String.[] = []
codes (String.◌∷◌ c s) = code c ∷ codes s

-- `s == t`
abbrev pub text_eq : Text → Text → Bool
text_eq [] [] = true
text_eq [] (d ∷ t) = false
text_eq (c ∷ s) [] = false
text_eq (c ∷ s) (d ∷ t) = (c == d) && text_eq s t

pub text_eq_iff : (s t : Text) → (text_eq s t ≡ true) ↔ (s ≡ t)
text_eq_iff [] [] = (λ h. refl, λ h. refl)
text_eq_iff [] (d ∷ t) = (λ h. cc, λ h. cc)
text_eq_iff (c ∷ s) [] = (λ h. cc, λ h. cc)
text_eq_iff (c ∷ s) (d ∷ t) =
    (λ h. ground (arith, text_eq_iff s t), λ h. ground (arith, text_eq_iff s t))

pub text_eq_refl : (s : Text) → text_eq s s ≡ true
text_eq_refl [] = refl
text_eq_refl (c ∷ s) = ground (arith, text_eq_refl s)

-- `not s`
abbrev pub is_empty : Text → Bool
is_empty [] = true
is_empty (_ ∷ _) = false

abbrev pub is_upper : ℕ → Bool
is_upper c = leb b'A' c && leb c b'Z'

abbrev pub is_lower : ℕ → Bool
is_lower c = leb b'a' c && leb c b'z'

abbrev pub is_digit : ℕ → Bool
is_digit c = leb b'0' c && leb c b'9'

-- `[0-9a-f]`
abbrev pub is_hex_digit : ℕ → Bool
is_hex_digit c = is_digit c || (leb b'a' c && leb c b'f')

abbrev pub is_space : ℕ → Bool
is_space c = (c == 32) || (leb 9 c && leb c 13) || (leb 28 c && leb c 31)

-- `s.lower()`
abbrev pub lower : Text → Text
lower = map (λ c. if is_upper c then c + 32 else c)

-- `s.upper()`
abbrev pub upper : Text → Text
upper = map (λ c. if is_lower c then c - 32 else c)

abbrev pub lstrip : Text → Text
lstrip [] = []
lstrip (c ∷ s) = if is_space c then lstrip s else c ∷ s

-- `s.strip()`
unfoldable pub strip : Text → Text
strip s = reverse (lstrip (reverse (lstrip s)))

abbrev pub hex_value : ℕ → Option ℕ
hex_value c =
    if is_digit c
    then some (c - b'0')
    else if leb b'a' c && leb c b'f'
    then some (c - b'a' + 10)
    else if leb b'A' c && leb c b'F'
    then some (c - b'A' + 10)
    else none

-- The value of a digit in the base, if it is one.
abbrev pub digit_value : ℕ → ℕ → Option ℕ
digit_value base c = elim (hex_value c) [
  | none ↦ none
  | some d ↦ if ltb d base then some d else none
]

-- The digits of `int(s, base)` from the left; single underscores may stand between two of them.
-- The flag says that the last character was a digit.
unfoldable pub read_digits : ℕ → ℕ → Bool → Text → Option ℕ
read_digits base acc after [] = if after then some acc else none
read_digits base acc after (c ∷ s) =
    let v = digit_value base c in
    let on_digit = read_digits base (acc * base + elim v [ none ↦ 0 | some d ↦ d ]) true s in
    let on_underscore = read_digits base acc false s in
    elim v [ some d ↦ on_digit | none ↦ if after && (c == b'_') then on_underscore else none ]

-- `int(s, 16)` also takes a prefix `0x`, and one underscore behind it.
abbrev pub drop_prefix : ℕ → Text → Text
drop_prefix base [] = []
drop_prefix base (c ∷ []) = c ∷ []
drop_prefix base (c ∷ d ∷ []) = c ∷ d ∷ []
drop_prefix base (c ∷ d ∷ e ∷ s) =
    if (base == 16) && (c == b'0') && ((d == b'x') || (d == b'X'))
    then (if e == b'_' then s else e ∷ s)
    else c ∷ d ∷ e ∷ s

unfoldable pub read_signed : ℕ → Text → Option ℤ
unfolding read_digits
read_signed base [] = none
read_signed base (c ∷ s) =
    if c == b'-'
    then elim (read_digits base 0 false (drop_prefix base s)) [
      | none ↦ none
      | some n ↦ some (negate (pos n))
    ]
    else elim (read_digits base 0 false (drop_prefix base (if c == b'+' then s else c ∷ s))) [
      | none ↦ none
      | some n ↦ some (pos n)
    ]

-- `int(s, base)` for the bases 10 and 16; `none` is a ValueError.
unfoldable pub int_of_text : ℕ → Text → Option ℤ
unfolding read_signed strip
int_of_text base s = read_signed base (strip s)

-- White space in `bytes.fromhex`: that of C, without the separators of `str.isspace`.
abbrev pub is_byte_space : ℕ → Bool
is_byte_space c = (c == 32) || (leb 9 c && leb c 13)

-- `bytes.fromhex(s)`: pairs of hexadecimal digits, with white space allowed between the bytes.
unfoldable pub from_hex : Text → Option (List ℕ)
from_hex [] = some []
from_hex (c ∷ []) = if is_byte_space c then some [] else none
from_hex (c ∷ d ∷ s) =
    let rest_space = from_hex (d ∷ s) in
    let rest = from_hex s in
    if is_byte_space c then rest_space else elim (hex_value c) [
      | none ↦ none
      | some hi ↦ elim (hex_value d) [
        | none ↦ none
        | some lo ↦ elim rest [ none ↦ none | some bytes ↦ some ((hi * 16 + lo) ∷ bytes) ]
      ]
    ]

abbrev pub hex_char : ℕ → ℕ
hex_char v = if ltb v 10 then v + b'0' else v - 10 + b'a'

-- `digest.hex()` and `hexdigest()`
unfoldable pub hex_text : List ℕ → Text
hex_text [] = []
hex_text (b ∷ bytes) = hex_char (b / 16) ∷ hex_char (b % 16) ∷ hex_text bytes

-- `str(n)`: a number has at most as many digits as its value, or one.
unfoldable pub decimal_fuel : ℕ → ℕ → Text → Text
decimal_fuel zero n rest = rest
decimal_fuel (suc f) n rest =
    let more = decimal_fuel f (n / 10) ((n % 10 + b'0') ∷ rest) in
    if ltb n 10 then (n + b'0') ∷ rest else more

unfoldable pub decimal : ℕ → Text
unfolding decimal_fuel
decimal n = decimal_fuel (suc n) n []

-- More fuel than the number writes the same digits.
decimal_fuel_enough :
    (f g n : ℕ) (rest : Text) → n < f → n < g → decimal_fuel f n rest ≡ decimal_fuel g n rest
unfolding decimal_fuel
decimal_fuel_enough zero g n rest h k = absurd (omega arith)
decimal_fuel_enough (suc f) zero n rest h k = absurd (omega arith)
decimal_fuel_enough (suc f) (suc g) n rest h k =
    ground (arith, decimal_fuel_enough f g (n / 10) ((n % 10 + b'0') ∷ rest))

abbrev pub utf8_char : ℕ → List ℕ
utf8_char c =
    if ltb c 128
    then c ∷ []
    else if ltb c 2048
    then (192 + c / 64) ∷ (128 + c % 64) ∷ []
    else if ltb c 65536
    then (224 + c / 4096) ∷ (128 + c / 64 % 64) ∷ (128 + c % 64) ∷ []
    else (240 + c / 262144) ∷ (128 + c / 4096 % 64) ∷ (128 + c / 64 % 64) ∷ (128 + c % 64) ∷ []

-- `s.encode("utf-8")`
unfoldable pub utf8 : Text → List ℕ
utf8 [] = []
utf8 (c ∷ s) = utf8_char c ++ utf8 s
