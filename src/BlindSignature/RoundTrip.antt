-- ===== src/BlindSignature/RoundTrip.antt =====
-- Blinding, signing, unblinding and verifying with one keypair (app/security/blind_signature.py).
use secure_voting_platform.Prelude.{
  ℕ, zero, suc, ◌*◌, ◌%◌, ◌^◌, ◌<◌, ◌≡◌, refl, sym, ap, ◌∙◌, true, List, arith, inl, inr,
  Bool-cases,
}
use secure_voting_platform.Prelude.Int.{pos}
use secure_voting_platform.Prelude.Text.{Text}
use native.Mathlib.Nat.{mod-lt, zero-mod, mod-eq_of_lt, mul_assoc, pow-suc}
use secure_voting_platform.Keys.{PublicKey, KeyPair, KeyState, ok}
use secure_voting_platform.Keys.Immutable.{Extends}
use secure_voting_platform.Keys.Anchor.{Holds, Holds-Extends, load_keys-Holds}
use secure_voting_platform.BlindSignature.{
  full_domain_hash, hash_ballot, in_domain, sign_with, verify_with, blind_sign,
  verify_unblinded_signature, blind, unblind,
}
use secure_voting_platform.BlindSignature.Modular.{
  mul-mod-right, mul-mod-both, pow-mod, mul-pow, pow-inverse,
}

regroup : (a b c d : ℕ) → a * b * (c * d) ≡ a * d * (c * b)
regroup a b c d = omega arith

swap_factors : (a b c : ℕ) → a * (b * c) ≡ b * (a * c)
swap_factors a b c = omega arith

times_one : (a : ℕ) → a * 1 ≡ a
times_one a = omega arith

-- What the RSA generator promises of the numbers of a pair.
pub record IsRsa (pair : KeyPair) : Type 0 where
  pub same : pair.private_key.public_key.n ≡ pair.public_key.n
  pub positive : 0 < pair.public_key.e
  pub signs :
      (x : ℕ)
      → x < pair.public_key.n
      → (x ^ pair.private_key.d) ^ pair.public_key.e % pair.public_key.n ≡ x

zero-pow : (k : ℕ) → 0 < k → 0 ^ k ≡ 0
zero-pow zero h = absurd (omega arith)
zero-pow (suc k) h = pow-suc 0 k ∙ omega arith

-- The unblinded signature, raised to the public exponent, is the hash.
unblind-opens :
    (n e d m r inverse : ℕ)
    → 0 < n
    → m < n
    → r * inverse % n ≡ 1 % n
    → (blind n e m r ^ d) ^ e % n ≡ blind n e m r
    → unblind n (blind n e m r ^ d % n) inverse ^ e % n ≡ m
unfolding blind unblind
unblind-opens n e d m r inverse h lt inv law =
    let b = m * (r ^ e % n) % n in
    pow-mod n (b ^ d % n * inverse) e
    ∙ ap (λ (t : ℕ). t % n) (mul-pow (b ^ d % n) inverse e)
    ∙ mul-mod-both n ((b ^ d % n) ^ e) (inverse ^ e) (m * r ^ e) (inverse ^ e)
        (pow-mod n (b ^ d) e ∙ law ∙ mul-mod-right n m (r ^ e)) refl
    ∙ ap (λ (t : ℕ). t % n) (mul_assoc m (r ^ e) (inverse ^ e))
    ∙ mul-mod-both n m (r ^ e * inverse ^ e) m 1 refl (pow-inverse n r inverse e inv)
    ∙ ap (λ (t : ℕ). t % n) (let one : m * 1 ≡ m = omega arith in one)
    ∙ mod-eq_of_lt lt

unblind_positive : (s e n m k : ℕ) → 0 < n → 0 < e → 0 < m * (k % n) % n → s ^ e % n ≡ m → 0 < s
unblind_positive zero e n m k hn he hb opened =
    let vanishes : m ≡ 0 = sym opened ∙ ap (λ (t : ℕ). t % n) (zero-pow e he) ∙ zero-mod n in
    absurd (omega (arith, rw vanishes at hb, zero-mod n))
unblind_positive (suc s) e n m k hn he hb opened = omega arith

-- A value in the domain is not zero, and its modulus is at least 2.
in_domain_bounds : (b n : ℕ) → in_domain (pos b) n ≡ true → (0 < b) × (b < n)
unfolding in_domain
in_domain_bounds b n h = (ground arith, ground arith)

sign_with-eq-ok :
    (pair : KeyPair) (b : ℕ) {signature : ℕ}
    → sign_with pair (pos b) ≡ ok signature
    → (in_domain (pos b) pair.private_key.public_key.n ≡ true)
      × (signature ≡ b ^ pair.private_key.d % pair.private_key.public_key.n)
unfolding sign_with
sign_with-eq-ok pair b {signature} h =
    elim (Bool-cases (in_domain (pos b) pair.private_key.public_key.n)) [
      | inl good ↦ (good, cc (rw good at h))
      | inr bad ↦ absurd (cc (rw bad at h))
    ]

module _ (sha256 : List ℕ → List ℕ) where
  full_domain_hash-lt : (ballot : List ℕ) (n : ℕ) → 0 < n → full_domain_hash sha256 ballot n < n
  unfolding full_domain_hash
  full_domain_hash-lt ballot n h = mod-lt _ h

  -- Verification accepts a number in range whose power is the hash.
  verify_with_opens :
      (pair : KeyPair) (ballot : List ℕ) (s : ℕ)
      → 1 < pair.public_key.n
      → 0 < s
      → s < pair.public_key.n
      → s ^ pair.public_key.e % pair.public_key.n ≡ full_domain_hash sha256 ballot pair.public_key.n
      → verify_with sha256 pair ballot (pos s) ≡ ok true
  unfolding verify_with hash_ballot
  verify_with_opens pair ballot s two pos_s lt h = ground arith

  -- The whole exchange on one pair.
  exchange :
      (pair : KeyPair) (ballot : List ℕ) (r inverse signature : ℕ)
      → IsRsa pair
      → r * inverse % pair.public_key.n ≡ 1 % pair.public_key.n
      → (let n = pair.public_key.n in
          sign_with pair (pos (blind n pair.public_key.e (full_domain_hash sha256 ballot n) r))
          ≡ ok signature)
      → verify_with sha256 pair ballot (pos (unblind pair.public_key.n signature inverse)) ≡ ok true
  unfolding unblind blind
  exchange pair ballot r inverse signature key inv signed =
      let n = pair.public_key.n in
      let e = pair.public_key.e in
      let m = full_domain_hash sha256 ballot n in
      let b = m * (r ^ e % n) % n in
      let (domain, is_power) = sign_with-eq-ok pair b signed in
      let (b_pos, b_lt) = in_domain_bounds b n (rw key.same at domain) in
      let n_pos : 0 < n = omega arith in
      let power : signature ≡ b ^ pair.private_key.d % n = rw key.same at is_power in
      let s = signature * inverse % n in
      let opened : s ^ e % n ≡ m = rw power (
        unblind-opens n e pair.private_key.d m r inverse n_pos (full_domain_hash-lt ballot n n_pos)
          inv (key.signs b b_lt)) in
      verify_with_opens pair ballot s (omega arith)
        (unblind_positive s e n m (r ^ e) n_pos key.positive b_pos opened) (mod-lt _ n_pos) opened

  module _ (fingerprint : PublicKey → Text) where
    -- The round trip of the voting protocol: if the election's keypair is an RSA pair, the process
    -- holds it, and `inverse` inverts the blinding factor, then whenever `blind_sign` signs the
    -- blinded hash of a ballot, the unblinded signature passes `verify_unblinded_signature` for that
    -- ballot and election, then and in every later state of the keys.
    pub verify-unblind-blind_sign :
        (id : ℕ) (pair : KeyPair) (s t : KeyState) (ballot : List ℕ) (r inverse signature : ℕ)
        → IsRsa pair
        → Holds id pair s
        → Extends s t
        → r * inverse % pair.public_key.n ≡ 1 % pair.public_key.n
        → blind_sign fingerprint
            (pos (
              blind pair.public_key.n pair.public_key.e
                (full_domain_hash sha256 ballot pair.public_key.n)
                r))
            id
            s
          ≡ (ok signature, s)
        → verify_unblinded_signature sha256 fingerprint ballot
            (pos (unblind pair.public_key.n signature inverse))
            id
            t
          ≡ (ok true, t)
    unfolding blind_sign verify_unblinded_signature
    verify-unblind-blind_sign id pair s t ballot r inverse signature key held e inv signed =
        let now = rw (load_keys-Holds fingerprint id s held) at signed in
        rw (load_keys-Holds fingerprint id t (Holds-Extends e held))
          (rw (exchange pair ballot r inverse signature key inv (ap (λ x. x.0) now)) refl)
