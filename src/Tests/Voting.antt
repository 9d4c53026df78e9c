-- ===== src/Tests/Voting.antt =====
-- The keys, the blind signature and the ballot protocol on the small election.
use secure_voting_platform.Prelude.Int.{pos}
use secure_voting_platform.Prelude.{
  ℕ, zero, suc, ◌%◌, ◌<◌, Bool, true, false, ◌&&◌, ◌≡◌, refl, none, some, [], ◌∷◌, ◌==◌, ◌^◌, arith,
  ==_iff, inl, inr, Bool-cases,
}
use secure_voting_platform.Keys.Immutable.{Extends, Extends-refl, ensure-Extends}
use secure_voting_platform.Keys.Anchor.{Holds, ensure-anchored, ensure-provisioned}
use secure_voting_platform.Keys.{
  KeyState, ok, components, ensure_election_blind_signing_key, generate_blind_signing_keypair,
  create, publish, remember, new_dir, load_and_validate_keypair, get_public_key_components,
  load_keys,
}
use secure_voting_platform.BlindSignature.{
  gcd, in_domain, sign_with, blind_sign, verify_unblinded_signature, blind, unblind,
  full_domain_hash,
}
use secure_voting_platform.BlindSignature.RoundTrip.{IsRsa, verify-unblind-blind_sign}
use secure_voting_platform.Tests.Fixture.{
  creation, no_keys, toy_runtime, toy_pair, toy_fingerprint, anchor, toy_keys,
}

all_below : ℕ → (ℕ → Bool) → Bool
all_below zero p = true
all_below (suc n) p = p n && all_below n p

all_below-lt : (n : ℕ) (p : ℕ → Bool) (x : ℕ) → all_below n p ≡ true → x < n → p x ≡ true
unfolding all_below
all_below-lt zero p x h k = absurd (omega arith)
all_below-lt (suc n) p x h k = elim (Bool-cases (x == n)) [
  | inl same ↦ ground (arith, same)
  | inr other ↦ all_below-lt n p x (ground arith) (ground (arith, other))
]

toy_table : all_below 33 (λ x. (x ^ 7) ^ 3 % 33 == x) ≡ true
unfolding all_below
toy_table = refl

toy_pair-IsRsa : IsRsa toy_pair
toy_pair-IsRsa = record {
  same = refl;
  positive = omega arith;
  signs = λ x h.
      (==_iff ((x ^ 7) ^ 3 % 33) x).0 (all_below-lt 33 (λ x. (x ^ 7) ^ 3 % 33 == x) x toy_table h);
}

toy_keys-Holds : Holds 1 toy_pair toy_keys
toy_keys-Holds = record { nonzero = refl; cached = refl }

ensure-Extends_example :
    Extends no_keys
      (ensure_election_blind_signing_key toy_fingerprint creation true 1 none no_keys).1
ensure-Extends_example = ensure-Extends toy_fingerprint creation true 1 none no_keys

accept_anchored :
    ensure_election_blind_signing_key toy_fingerprint creation false 1 (some anchor) toy_keys
    ≡ (ok (components toy_fingerprint toy_pair), toy_keys)
unfolding ensure_election_blind_signing_key get_public_key_components load_keys
accept_anchored = refl

ensure-anchored_example :
    ((components toy_fingerprint toy_pair).key_id ≡ anchor)
    × (toy_keys.disk ≡ toy_keys.disk)
    × (ensure_election_blind_signing_key toy_fingerprint creation true 1 (some anchor) toy_keys
        ≡ (ok (components toy_fingerprint toy_pair), toy_keys))
ensure-anchored_example =
    ensure-anchored toy_fingerprint creation creation false true 1 toy_keys anchor
      (components toy_fingerprint toy_pair) toy_keys toy_keys accept_anchored
      (Extends-refl toy_keys)

abbrev provisioned_keys : KeyState
provisioned_keys =
    (ensure_election_blind_signing_key toy_fingerprint creation true 1 none no_keys).1

provision :
    ensure_election_blind_signing_key toy_fingerprint creation true 1 none no_keys
    ≡ (ok (record { n = 33; e = 65537; key_id = anchor }), provisioned_keys)
unfolding ensure_election_blind_signing_key generate_blind_signing_keypair create publish remember
    new_dir load_and_validate_keypair get_public_key_components load_keys
provision = refl

ensure-provisioned_example :
    ensure_election_blind_signing_key toy_fingerprint creation false 1
      (some anchor)
      provisioned_keys
    ≡ (ok (record { n = 33; e = 65537; key_id = anchor }), provisioned_keys)
ensure-provisioned_example =
    ensure-provisioned toy_fingerprint creation creation true false 1 no_keys
      (record { n = 33; e = 65537; key_id = anchor }) provisioned_keys provisioned_keys (λ _. refl)
      provision (Extends-refl provisioned_keys)

blind_sign_toy :
    blind_sign toy_fingerprint
      (pos (blind 33 3 (full_domain_hash toy_runtime.sha256 (0 ∷ []) 33) 2))
      1
      toy_keys
    ≡ (ok 25, toy_keys)
unfolding blind_sign load_keys sign_with in_domain gcd blind full_domain_hash
blind_sign_toy = refl

verify-unblind-blind_sign_example :
    verify_unblinded_signature toy_runtime.sha256 toy_fingerprint
      (0 ∷ [])
      (pos (unblind 33 25 17))
      1
      toy_keys
    ≡ (ok true, toy_keys)
verify-unblind-blind_sign_example =
    verify-unblind-blind_sign toy_runtime.sha256 toy_fingerprint 1 toy_pair toy_keys toy_keys
      (0 ∷ []) 2 17 25 toy_pair-IsRsa toy_keys-Holds (Extends-refl toy_keys) refl blind_sign_toy
