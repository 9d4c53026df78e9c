-- ===== src/BlindSignature/Modular.antt =====
-- Powers and products modulo n.
use secure_voting_platform.Prelude.{
  ℕ, zero, suc, ◌*◌, ◌/◌, ◌%◌, ◌^◌, ◌≡◌, refl, sym, ap, ◌∙◌, arith,
}
use native.Mathlib.Nat.{mod-add-div, add-mul-mod_self_left, pow-suc, pow-zero, mul_comm, mod-mod}

pub mul-mod-left : (n a b : ℕ) → a % n * b % n ≡ a * b % n
mul-mod-left n a b =
    sym (add-mul-mod_self_left (a % n * b) n (a / n * b))
    ∙ ap (λ (t : ℕ). t % n) (omega (arith, ap (λ (t : ℕ). t * b) (mod-add-div a n)))

pub mul-mod-right : (n a b : ℕ) → a * (b % n) % n ≡ a * b % n
mul-mod-right n a b = rw (mul_comm a (b % n), mul_comm a b) (mul-mod-left n b a)

pub mul-mod-both : (n a b c d : ℕ) → a % n ≡ c % n → b % n ≡ d % n → a * b % n ≡ c * d % n
mul-mod-both n a b c d p q =
    sym (mul-mod-left n a b)
    ∙ ap (λ (t : ℕ). t * b % n) p
    ∙ mul-mod-left n c b
    ∙ sym (mul-mod-right n c b)
    ∙ ap (λ (t : ℕ). c * t % n) q
    ∙ mul-mod-right n c d

pub pow-mod : (n a k : ℕ) → (a % n) ^ k % n ≡ a ^ k % n
pow-mod n a zero = ap (λ (t : ℕ). t % n) (pow-zero (a % n) ∙ sym (pow-zero a))
pow-mod n a (suc k) =
    rw (pow-suc (a % n) k, pow-suc a k)
      (mul-mod-both n ((a % n) ^ k) (a % n) (a ^ k) a (pow-mod n a k) (mod-mod a n))

pub mul-pow : (a b k : ℕ) → (a * b) ^ k ≡ a ^ k * b ^ k
mul-pow a b zero = rw (pow-zero (a * b), pow-zero a, pow-zero b) refl
mul-pow a b (suc k) = rw (pow-suc (a * b) k, pow-suc a k, pow-suc b k, mul-pow a b k) (omega arith)

pub one-pow : (k : ℕ) → 1 ^ k ≡ 1
one-pow zero = pow-zero 1
one-pow (suc k) = rw (pow-suc 1 k, one-pow k) refl

pub pow-mod_cong : (n a b k : ℕ) → a % n ≡ b % n → a ^ k % n ≡ b ^ k % n
pow-mod_cong n a b k p = sym (pow-mod n a k) ∙ ap (λ (t : ℕ). t ^ k % n) p ∙ pow-mod n b k

-- Units stay units under powers.
pub pow-inverse : (n r s k : ℕ) → r * s % n ≡ 1 % n → r ^ k * s ^ k % n ≡ 1 % n
pow-inverse n r s k p =
    ap (λ (t : ℕ). t % n) (sym (mul-pow r s k))
    ∙ pow-mod_cong n (r * s) 1 k p
    ∙ ap (λ (t : ℕ). t % n) (one-pow k)
