-- ===== src/Prelude/Digits.antt =====
-- Numbers and bytes read back from their texts, decimal and hexadecimal.
use Prim.Native.Nat.{ℕ, zero, suc, ◌+◌, ◌*◌, ◌/◌, ◌%◌, ◌<◌}
use mathlib.Core.Path.{◌≡◌, refl, ap, ◌∙◌}
use mathlib.Core.Bool.{not, Bool, true, false}
use mathlib.Core.Option.{none, some}
use mathlib.Core.List.{List, [], ◌∷◌, reverse, reverse-reverse, reverse_aux}
use native.Mathlib.Omega.{arith}
use secure_voting_platform.Prelude.Tests.{◌==◌, Bool-cases, ◌==◌, ltb}
use mathlib.Core.Logic.{inl, inr}
use secure_voting_platform.Prelude.Rows.{all}
use secure_voting_platform.Prelude.Int.{pos}
use secure_voting_platform.Prelude.Text.{
  hex_value, from_hex, is_byte_space, is_space, hex_text, hex_char, drop_prefix, drop_prefix, Text,
  is_digit, lstrip, strip, digit_value, read_digits, read_signed, int_of_text, decimal_fuel,
  decimal,
}

digit_value-digit : (d : ℕ) → d < 10 → digit_value 10 (d + b'0') ≡ some d
digit_value-digit d h = ground arith

read_digits-cons :
    (acc d c : ℕ) (after : Bool) (s : Text)
    → digit_value 10 c ≡ some d
    → read_digits 10 acc after (c ∷ s) ≡ read_digits 10 (acc * 10 + d) true s
unfolding read_digits
read_digits-cons acc d c after s h =
    rw (h, read_digits)
      (ap (λ v. read_digits 10 (acc * 10 + elim v [ none ↦ 0 | some x ↦ x ]) true s) h)

read_digits-decimal_fuel :
    (f n : ℕ) (after : Bool) (rest : Text)
    → n < f
    → read_digits 10 0 after (decimal_fuel f n rest) ≡ read_digits 10 n true rest
unfolding decimal_fuel
read_digits-decimal_fuel zero n after rest h = absurd (omega arith)
read_digits-decimal_fuel (suc f) n after rest h = elim (Bool-cases (ltb n 10)) [
  | inl small ↦
      rw (small, decimal_fuel)
        (read_digits-cons 0 n (n + b'0') after rest (digit_value-digit n (ground arith))
          ∙ ap (λ k. read_digits 10 k true rest) (omega arith))
  | inr large ↦
      rw (large, decimal_fuel)
        (read_digits-decimal_fuel f (n / 10) after ((n % 10 + b'0') ∷ rest) (ground arith)
          ∙ read_digits-cons (n / 10) (n % 10) (n % 10 + b'0') true rest
              (digit_value-digit (n % 10) (omega arith))
          ∙ ap (λ k. read_digits 10 k true rest) (omega arith))
]

decimal_fuel-digits :
    (f n : ℕ) (rest : Text) → all is_digit rest ≡ true → all is_digit (decimal_fuel f n rest) ≡ true
unfolding decimal_fuel
decimal_fuel-digits zero n rest h = h
decimal_fuel-digits (suc f) n rest h = elim (Bool-cases (ltb n 10)) [
  | inl small ↦ rw (small, decimal_fuel) (ground (arith, small, h))
  | inr large ↦
      rw (large, decimal_fuel)
        (decimal_fuel-digits f (n / 10) ((n % 10 + b'0') ∷ rest) (ground (arith, h)))
]

abbrev pub is_unspaced : Text → Bool
is_unspaced = all (λ c. not (is_space c))

lstrip-unspaced : (s : Text) → is_unspaced s ≡ true → lstrip s ≡ s
lstrip-unspaced [] h = refl
lstrip-unspaced (c ∷ s) h = ground arith

all-reverse_aux :
    (p : ℕ → Bool) (s t : Text) → all p s ≡ true → all p t ≡ true → all p (reverse_aux s t) ≡ true
all-reverse_aux p [] t h k = k
all-reverse_aux p (c ∷ s) t h k =
    all-reverse_aux p s (c ∷ t) (ground (arith, h)) (ground (arith, h, k))

all-reverse : (p : ℕ → Bool) (s : Text) → all p s ≡ true → all p (reverse s) ≡ true
all-reverse p s h = all-reverse_aux p s [] h refl

-- A text without white space is stripped already.
pub strip-unspaced : (s : Text) → is_unspaced s ≡ true → strip s ≡ s
unfolding strip
strip-unspaced s h =
    rw (lstrip-unspaced s h) (
      rw (lstrip-unspaced (reverse s) (all-reverse (λ c. not (is_space c)) s h))
        (reverse-reverse s))

digits-unspaced : (s : Text) → all is_digit s ≡ true → is_unspaced s ≡ true
digits-unspaced [] h = refl
digits-unspaced (c ∷ s) h = ground (arith, digits-unspaced s)

drop_prefix-decimal : (s : Text) → drop_prefix 10 s ≡ s
drop_prefix-decimal [] = refl
drop_prefix-decimal (c ∷ []) = refl
drop_prefix-decimal (c ∷ d ∷ []) = refl
drop_prefix-decimal (c ∷ d ∷ e ∷ s) = refl

read_signed-digits :
    (s : Text) {n : ℕ}
    → all is_digit s ≡ true
    → read_digits 10 0 false s ≡ some n
    → read_signed 10 s ≡ some (pos n)
unfolding read_signed
read_signed-digits [] h e = absurd (cc e)
read_signed-digits (c ∷ s) {n} h e =
    let no_minus : (c == b'-') ≡ false = ground (arith, h) in
    let no_plus : (c == b'+') ≡ false = ground (arith, h) in
    rw (no_minus, no_plus, drop_prefix-decimal (c ∷ s), e, read_signed) refl

-- The decimal text of a number reads back as that number.
pub int_of_text-decimal : (n : ℕ) → int_of_text 10 (decimal n) ≡ some (pos n)
unfolding int_of_text decimal
int_of_text-decimal n =
    let digits = decimal_fuel-digits (suc n) n [] refl in
    rw
      (strip-unspaced (decimal_fuel (suc n) n [])
        (digits-unspaced (decimal_fuel (suc n) n []) digits))
      (read_signed-digits (decimal_fuel (suc n) n []) digits
        (read_digits-decimal_fuel (suc n) n false [] (omega arith)))

hex_char-unspaced : (v : ℕ) → is_byte_space (hex_char v) ≡ false
hex_char-unspaced v = ground arith

-- A digest in hexadecimal has no white space.
pub hex_text-unspaced : (bytes : List ℕ) → is_unspaced (hex_text bytes) ≡ true
unfolding hex_text
hex_text-unspaced [] = refl
hex_text-unspaced (b ∷ bytes) =
    ground (arith, hex_char-unspaced (b / 16), hex_char-unspaced (b % 16), hex_text-unspaced bytes)

hex_char_injective : (v w : ℕ) → hex_char v ≡ hex_char w → v ≡ w
hex_char_injective v w h = ground (arith, h)

hex_byte_injective :
    (b c : ℕ)
    → hex_char (b / 16) ≡ hex_char (c / 16)
    → hex_char (b % 16) ≡ hex_char (c % 16)
    → b ≡ c
hex_byte_injective b c h k =
    let high = hex_char_injective (b / 16) (c / 16) h in
    let low = hex_char_injective (b % 16) (c % 16) k in omega (arith, high, low)

-- Hexadecimal texts of different lists differ.
pub hex_text_injective : (bs cs : List ℕ) → hex_text bs ≡ hex_text cs → bs ≡ cs
unfolding hex_text
hex_text_injective [] [] h = refl
hex_text_injective [] (c ∷ cs) h = absurd (cc h)
hex_text_injective (b ∷ bs) [] h = absurd (cc h)
hex_text_injective (b ∷ bs) (c ∷ cs) h =
    let rest : hex_text bs ≡ hex_text cs = cc h in
    let high : hex_char (b / 16) ≡ hex_char (c / 16) = cc h in
    let low : hex_char (b % 16) ≡ hex_char (c % 16) = cc h in
    rw (hex_byte_injective b c high low, hex_text_injective bs cs rest) refl

hex_value-hex_char : (v : ℕ) → v < 16 → hex_value (hex_char v) ≡ some v
hex_value-hex_char v h = ground arith

from_hex-cons :
    (c d hi lo : ℕ) (s : Text) {bytes : List ℕ}
    → is_byte_space c ≡ false
    → hex_value c ≡ some hi
    → hex_value d ≡ some lo
    → from_hex s ≡ some bytes
    → from_hex (c ∷ d ∷ s) ≡ some ((hi * 16 + lo) ∷ bytes)
unfolding from_hex
from_hex-cons c d hi lo s solid high low rest = rw (from_hex, solid, high, low, rest) refl

-- Bytes are read back from their hexadecimal text.
pub from_hex-hex_text :
    (bytes : List ℕ) → all (λ b. ltb b 256) bytes ≡ true → from_hex (hex_text bytes) ≡ some bytes
unfolding hex_text from_hex
from_hex-hex_text [] h = refl
from_hex-hex_text (b ∷ bytes) h =
    let small : b < 256 = ground (arith, h) in
    from_hex-cons (hex_char (b / 16)) (hex_char (b % 16)) (b / 16) (b % 16) (hex_text bytes)
      (hex_char-unspaced (b / 16)) (hex_value-hex_char (b / 16) (omega (arith, small)))
      (hex_value-hex_char (b % 16) (omega arith)) (from_hex-hex_text bytes (ground (arith, h)))
    ∙ ap (λ n. some (n ∷ bytes)) (omega arith)
