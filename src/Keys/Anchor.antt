-- ===== src/Keys/Anchor.antt =====
-- An election's key under its anchored fingerprint (app/security/blind_signature.py).
use secure_voting_platform.Prelude.{
  ℕ, ◌≡◌, refl, sym, ap, Bool, true, false, Option, none, some, arith, ◌==◌, inl, inr, Bool-cases,
}
use mathlib.Core.Path.{subst}
use secure_voting_platform.Prelude.Text.{Text, text_eq, text_eq_iff, text_eq_refl}
use secure_voting_platform.Keys.Defs.{
  PublicKey, KeyPair, KeyState, KeyResult, ok, key_error, value_error, os_error, KeyAction, lookup,
  Attempt, and_then, Components, remember, load_keys, get_public_key_components, components,
  matched, generate_blind_signing_keypair, ensure_election_blind_signing_key,
  well_formed_fingerprint, load_and_validate_keypair,
}
use secure_voting_platform.Keys.Immutable.{Extends}

-- The inversion of a call sequence that succeeds.
pub and_then-eq-ok :
    {A B : Type 0} (m : KeyResult A × KeyState) (f : A → KeyAction B) {b : B} {t : KeyState}
    → and_then m f ≡ (ok b, t)
    → (a : A) × (m ≡ (ok a, m.1)) × (f a m.1 ≡ (ok b, t))
and_then-eq-ok (ok a, s) f h = (a, refl, h)
and_then-eq-ok (key_error e, s) f h = cc
and_then-eq-ok (value_error, s) f h = cc
and_then-eq-ok (os_error, s) f h = cc

-- The process holds the pair for the election.
pub record Holds (id : ℕ) (pair : KeyPair) (s : KeyState) : Type 0 where
  pub nonzero : (id == 0) ≡ false
  pub cached : lookup id s.cache ≡ some pair

pub Holds-Extends :
    {id : ℕ} {pair : KeyPair} {s t : KeyState} → Extends s t → Holds id pair s → Holds id pair t
Holds-Extends {id} {pair} e h = record { nonzero = h.nonzero; cached = e.cached id pair h.cached }

module _ (fingerprint : PublicKey → Text) where
  pub load_keys-Holds :
      (id : ℕ) (s : KeyState) {pair : KeyPair}
      → Holds id pair s
      → load_keys fingerprint id s ≡ (ok pair, s)
  unfolding load_keys
  load_keys-Holds id s h = rw h.nonzero (rw h.cached refl)

  remember-eq-ok :
      (id : ℕ) (s : KeyState) {pair : KeyPair} {t : KeyState}
      → remember fingerprint id s ≡ (ok pair, t)
      → (lookup id t.cache ≡ some pair) × (t.disk ≡ s.disk)
  unfolding remember
  remember-eq-ok id s {pair} {t} h =
      let (p, loaded, done) =
        and_then-eq-ok (load_and_validate_keypair fingerprint (lookup id s.disk) id, s) _ h in
      (ground arith, ground arith)

  pub load_keys-eq-ok :
      (id : ℕ) (s : KeyState) {pair : KeyPair} {t : KeyState}
      → load_keys fingerprint id s ≡ (ok pair, t)
      → Holds id pair t × (t.disk ≡ s.disk)
  unfolding load_keys
  load_keys-eq-ok id s {pair} {t} h = (
    record {
      nonzero = ground arith;
      cached = ground (arith, remember-eq-ok id s {pair = pair} {t = t});
    },
    ground (arith, remember-eq-ok id s {pair = pair} {t = t}),
  )

  get_public_key_components-Holds :
      (id : ℕ) (s : KeyState) {pair : KeyPair}
      → Holds id pair s
      → get_public_key_components fingerprint id s ≡ (ok (components fingerprint pair), s)
  unfolding get_public_key_components
  get_public_key_components-Holds id s h = rw (load_keys-Holds id s h) refl

  get_public_key_components-eq-ok :
      (id : ℕ) (s : KeyState) {c : Components} {t : KeyState}
      → get_public_key_components fingerprint id s ≡ (ok c, t)
      → (pair : KeyPair) × Holds id pair t × (c ≡ components fingerprint pair) × (t.disk ≡ s.disk)
  unfolding get_public_key_components
  get_public_key_components-eq-ok id s {c} {t} h =
      let (pair, loaded, done) = and_then-eq-ok (load_keys fingerprint id s) _ h in
      let same : (load_keys fingerprint id s).1 ≡ t = ap (λ x. x.1) done in
      let (held, kept) = load_keys-eq-ok id s loaded in
      (pair, rw same at held, sym (ground arith), rw same at kept)

  matched-eq-ok :
      (anchor : Text) (r : KeyResult Components) {c : Components}
      → matched fingerprint anchor r ≡ ok c
      → (r ≡ ok c) × (text_eq c.key_id anchor ≡ true)
  matched-eq-ok anchor (ok d) {c} h = elim (Bool-cases (text_eq d.key_id anchor)) [
    | inl e ↦ (rw e at h, let same : d ≡ c = cc (rw e at h) in rw same at e)
    | inr e ↦ absurd (cc (rw e at h))
  ]
  matched-eq-ok anchor (key_error e) h = cc
  matched-eq-ok anchor value_error h = cc
  matched-eq-ok anchor os_error h = cc

  -- The call under an anchor, once the process holds the pair.
  ensure-Holds :
      (attempt : Attempt) (allowed : Bool) (id : ℕ) (s : KeyState) (anchor : Text) (c : Components)
      {pair : KeyPair}
      → well_formed_fingerprint fingerprint anchor ≡ true
      → text_eq c.key_id anchor ≡ true
      → c ≡ components fingerprint pair
      → Holds id pair s
      → ensure_election_blind_signing_key fingerprint attempt allowed id (some anchor) s ≡ (ok c, s)
  unfolding ensure_election_blind_signing_key
  ensure-Holds attempt allowed id s anchor c digits named same held = rw digits (
      rw (get_public_key_components-Holds id s held)
        (let key = ap (λ (d : Components). d.key_id) same in rw (← key) (rw named (rw same refl))))

  -- A key that the call accepts is held by the process from then on, whether it was anchored or new.
  pub ensure-eq-ok :
      (attempt : Attempt) (allowed : Bool) (id : ℕ) (s : KeyState) (anchor : Option Text)
      {c : Components}
      → (ensure_election_blind_signing_key fingerprint attempt allowed id anchor s).0 ≡ ok c
      → (pair : KeyPair) × Holds id pair
          (ensure_election_blind_signing_key fingerprint attempt allowed id anchor s).1
        × (c ≡ components fingerprint pair)
  unfolding ensure_election_blind_signing_key
  ensure-eq-ok attempt true id s none {c} h =
      let made = generate_blind_signing_keypair fingerprint attempt id s in
      let (_, _, p) =
        and_then-eq-ok made (λ _. get_public_key_components fingerprint id) {b = c}
          (ap (λ r. (r, (and_then made (λ _. get_public_key_components fingerprint id)).1)) h) in
      let (pair, held, same, _) = get_public_key_components-eq-ok id made.1 p in (pair, held, same)
  ensure-eq-ok attempt false id s none h = absurd (cc h)
  ensure-eq-ok attempt allowed id s (some anchor) {c} h =
      elim (Bool-cases (well_formed_fingerprint fingerprint anchor)) [
        | inr bad ↦ absurd (ground (arith, h, bad))
        | inl good ↦
            let loaded = get_public_key_components fingerprint id s in
            let (accepted, _) = matched-eq-ok anchor loaded.0 (rw good at h) in
            let (pair, held, same, _) =
              get_public_key_components-eq-ok id s (ap (λ r. (r, loaded.1)) accepted) in
            rw good (pair, held, same)
      ]

  module _ (attempt later : Attempt) (allowed retried : Bool) (id : ℕ) (s : KeyState) where
    -- Once the key of an election has been accepted under its anchored fingerprint, it is the key
    -- with that fingerprint, nothing was written to the disk for it, and every later call under the
    -- same anchor, in any state that extends this one, returns the same components and changes
    -- nothing.
    pub ensure-anchored :
        (anchor : Text) (c : Components) (t u : KeyState)
        → ensure_election_blind_signing_key fingerprint attempt allowed id (some anchor) s
          ≡ (ok c, t)
        → Extends t u
        → (c.key_id ≡ anchor)
          × (t.disk ≡ s.disk)
          × (ensure_election_blind_signing_key fingerprint later retried id (some anchor) u
              ≡ (ok c, u))
    unfolding ensure_election_blind_signing_key
    ensure-anchored anchor c t u h e =
        elim (Bool-cases (well_formed_fingerprint fingerprint anchor)) [
          | inr bad ↦ absurd (cc (rw bad at h))
          | inl good ↦
              let h' = rw good at h in
              let (accepted, named) = matched-eq-ok anchor _ (ap (λ x. x.0) h') in
              let loaded : get_public_key_components fingerprint id s ≡ (ok c, t) = ground arith in
              let (pair, held, same, kept) = get_public_key_components-eq-ok id s loaded in
              (
                (text_eq_iff c.key_id anchor).0 named,
                kept,
                ensure-Holds later retried id u anchor c good named same (Holds-Extends e held),
              )
        ]

    -- A key that was provisioned for an election without an anchor is accepted, with the same
    -- components and no further change, by every later call under the fingerprint that was
    -- returned, in any state that extends this one. Fingerprints are 64 hexadecimal digits.
    pub ensure-provisioned :
        (c : Components) (t u : KeyState)
        → ((k : PublicKey) → well_formed_fingerprint fingerprint (fingerprint k) ≡ true)
        → ensure_election_blind_signing_key fingerprint attempt allowed id none s ≡ (ok c, t)
        → Extends t u
        → ensure_election_blind_signing_key fingerprint later retried id (some c.key_id) u
          ≡ (ok c, u)
    unfolding ensure_election_blind_signing_key
    ensure-provisioned c t u digits h e =
        let (s', provisioned) = created allowed h in
        let (pair, held, same, _) = get_public_key_components-eq-ok id s' provisioned in
        ensure-Holds later retried id u c.key_id c
          (subst (λ (d : Components). well_formed_fingerprint fingerprint d.key_id ≡ true)
            (sym same) (digits pair.public_key))
          (text_eq_refl c.key_id) same (Holds-Extends e held)
      where
        created :
            (b : Bool)
            → ensure_election_blind_signing_key fingerprint attempt b id none s ≡ (ok c, t)
            → (s' : KeyState) × (get_public_key_components fingerprint id s' ≡ (ok c, t))
        created true h =
            let (_, _, p) =
              and_then-eq-ok (generate_blind_signing_keypair fingerprint attempt id s) _ h in
            (_, p)
        created false h = absurd (cc h)
