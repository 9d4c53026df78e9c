-- ===== src/BlindSignature.antt =====
-- The RSA primitives of app/security/blind_signature.py: the full-domain hash, signing of a
-- blinded value and verification, and the browser's blinding and unblinding of
-- app/static/js/blind_vote.js. SHA-256 and the fingerprint of a key are parameters. Python's
-- three-argument `pow` is the remainder of the power.
pub mod Modular
pub mod RoundTrip
use secure_voting_platform.Prelude.{
  ℕ, zero, suc, ◌+◌, ◌*◌, ◌/◌, ◌%◌, ◌^◌, ◌<◌, Bool, true, false, ◌&&◌, List, [], ◌∷◌, ◌++◌, ltb,
  ◌==◌, if◌then◌else◌,
}
use native.Mathlib.Nat.{mod-lt}
use native.Mathlib.Omega.{arith}
use mathlib.Core.Path.{◌≡◌}
use secure_voting_platform.Prelude.Int.{ℤ, pos, negsuc}
use secure_voting_platform.Prelude.Text.{Text}
use secure_voting_platform.Keys.{
  PublicKey, PrivateKey, KeyPair, KeyState, KeyAction, KeyResult, ok, key_error, value_error,
  os_error, and_then, load_keys,
}

-- `int.from_bytes(bytes, "big")`, and `bytesToBigInt`
big_endian : ℕ → List ℕ → ℕ
big_endian acc [] = acc
big_endian acc (b ∷ bytes) = big_endian (acc * 256 + b) bytes

-- `counter.to_bytes(4, "big")`
to_bytes_4 : ℕ → List ℕ
to_bytes_4 c = (c / 2 ^ 24) ∷ (c / 2 ^ 16 % 256) ∷ (c / 2 ^ 8 % 256) ∷ (c % 256) ∷ []

-- `math.gcd`, by Euclid's algorithm on a bound of the second number.
gcd_fuel : ℕ → ℕ → ℕ → ℕ
gcd_fuel zero a b = a
gcd_fuel (suc f) a b = let rest = gcd_fuel f b (a % b) in if b == 0 then a else rest

unfoldable pub gcd : ℕ → ℕ → ℕ
unfolding gcd_fuel
gcd a b = gcd_fuel (suc b) a b

-- The check of the domain in `blind_sign`.
unfoldable pub in_domain : ℤ → ℕ → Bool
in_domain (negsuc b) n = false
in_domain (pos b) n = ltb 0 b && ltb b n && (gcd b n == 1)

magnitude : ℤ → ℕ
magnitude (pos b) = b
magnitude (negsuc b) = 0

-- `blind_sign` on the loaded pair.
unfoldable pub sign_with : KeyPair → ℤ → KeyResult ℕ
unfolding magnitude
sign_with pair blinded =
    let n = pair.private_key.public_key.n in
    if in_domain blinded n then ok (magnitude blinded ^ pair.private_key.d % n) else value_error

-- `blind_sign`
unfoldable pub blind_sign : (PublicKey → Text) → ℤ → ℕ → KeyAction ℕ
blind_sign fingerprint blinded id s =
    and_then (load_keys fingerprint id s) (λ pair s'. (sign_with pair blinded, s'))

-- Any fuel above the second number gives the same result.
gcd_fuel_enough : (f g a b : ℕ) → b < f → b < g → gcd_fuel f a b ≡ gcd_fuel g a b
unfolding gcd_fuel
gcd_fuel_enough zero g a b h k = absurd (omega arith)
gcd_fuel_enough (suc f) zero a b h k = absurd (omega arith)
gcd_fuel_enough (suc f) (suc g) a b h k =
    ground (arith, gcd_fuel_enough f g b (a % b), mod-lt a {m = b})

module _ (sha256 : List ℕ → List ℕ) where
  -- The blocks for the counters `c`, `c + 1`, …
  expand : List ℕ → ℕ → ℕ → List ℕ
  unfolding to_bytes_4
  expand seed c zero = []
  expand seed c (suc rounds) = sha256 (seed ++ to_bytes_4 c) ++ expand seed (c + 1) rounds

  -- `hash_ballot` on a modulus of at least 2, and `hashBallot`
  unfoldable pub full_domain_hash : List ℕ → ℕ → ℕ
  unfolding expand big_endian
  full_domain_hash ballot n = big_endian 0 (expand (sha256 ballot) 0 8) % n

  -- `hash_ballot`
  unfoldable pub hash_ballot : List ℕ → ℕ → KeyResult ℕ
  hash_ballot ballot n = if ltb n 2 then value_error else ok (full_domain_hash ballot n)

  -- `verify_unblinded_signature` on the loaded pair.
  unfoldable pub verify_with : KeyPair → List ℕ → ℤ → KeyResult Bool
  verify_with pair ballot (negsuc s) = ok false
  verify_with pair ballot (pos s) =
      let n = pair.public_key.n in
      if ltb 0 s && ltb s n
      then elim (hash_ballot ballot n) [
        | ok expected ↦ ok (s ^ pair.public_key.e % n == expected)
        | key_error e ↦ key_error e
        | value_error ↦ value_error
        | os_error ↦ os_error
      ]
      else ok false

  module _ (fingerprint : PublicKey → Text) where
    -- `verify_unblinded_signature`
    unfoldable pub verify_unblinded_signature : List ℕ → ℤ → ℕ → KeyAction Bool
    verify_unblinded_signature ballot signature id s =
        and_then (load_keys fingerprint id s) (λ pair s'. (verify_with pair ballot signature, s'))

-- `castBlindVote`, step 6: `(m * rE) % n`
unfoldable pub blind : (n e m r : ℕ) → ℕ
blind n e m r = m * (r ^ e % n) % n

-- `castBlindVote`, step 8: `(blindSig * rInv) % n`
unfoldable pub unblind : (n signature inverse : ℕ) → ℕ
unblind n signature inverse = signature * inverse % n
