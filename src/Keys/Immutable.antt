-- ===== src/Keys/Immutable.antt =====
-- What the functions on keys leave in the cache and on the disk (app/security/blind_signature.py).
use secure_voting_platform.Prelude.{
  ℕ, ◌≡◌, refl, Bool, true, false, Option, none, some, List, ◌∷◌, arith, ◌==◌, Option-cases, inl,
  inr, Bool-cases,
}
use secure_voting_platform.Prelude.Text.{Text}
use secure_voting_platform.Keys.Defs.{
  PublicKey, PrivateKey, KeyDir, KeyPair, KeyState, KeyResult, ok, key_error, value_error, os_error,
  lookup, Attempt, Rename, Root, KeyAction, and_then, load_and_validate_keypair, remember, publish,
  create, new_dir, generate_blind_signing_keypair, load_keys, get_public_key_components,
  ensure_election_blind_signing_key, well_formed_fingerprint,
}

-- What is cached or published in `s` is so in `t` too.
pub record Extends (s t : KeyState) : Type 0 where
  pub cached :
      (id : ℕ) (pair : KeyPair) → lookup id s.cache ≡ some pair → lookup id t.cache ≡ some pair
  pub published : (id : ℕ) (d : KeyDir) → lookup id s.disk ≡ some d → lookup id t.disk ≡ some d

pub Extends-refl : (s : KeyState) → Extends s s
Extends-refl s = record { cached = λ id pair h. h; published = λ id d h. h }

pub Extends-trans : {s t u : KeyState} → Extends s t → Extends t u → Extends s u
Extends-trans a b = record {
  cached = λ id pair h. b.cached id pair (a.cached id pair h);
  published = λ id d h. b.published id d (a.published id d h);
}

lookup-cons_new {ℓ} :
    {A : Type ℓ} (k j : ℕ) (a b : A) (m : List (ℕ × A))
    → lookup k m ≡ none
    → lookup j m ≡ some b
    → lookup j ((k, a) ∷ m) ≡ some b
lookup-cons_new k j a b m absent found = ground arith

and_then-Extends :
    {A B : Type 0} (s : KeyState) (m : KeyResult A × KeyState) (f : A → KeyAction B)
    → Extends s m.1
    → ((a : A) → m ≡ (ok a, m.1) → Extends m.1 (f a m.1).1)
    → Extends s (and_then m f).1
and_then-Extends s (ok a, t) f h g = Extends-trans h (g a refl)
and_then-Extends s (key_error e, t) f h g = h
and_then-Extends s (value_error, t) f h g = h
and_then-Extends s (os_error, t) f h g = h

module _ (fingerprint : PublicKey → Text) where
  remember-Extends :
      (id : ℕ) (s : KeyState) → lookup id s.cache ≡ none → Extends s (remember fingerprint id s).1
  unfolding remember
  remember-Extends id s absent =
      and_then-Extends s (load_and_validate_keypair fingerprint (lookup id s.disk) id, s) _
        (Extends-refl s)
        (λ pair _. record {
          cached = λ j p h. lookup-cons_new id j pair p s.cache absent h;
          published = λ j d h. h;
        })

  load_keys-Extends : (id : ℕ) (s : KeyState) → Extends s (load_keys fingerprint id s).1
  unfolding load_keys
  load_keys-Extends id s = elim (Bool-cases (id == 0)) [
    | inl z ↦ rw z (Extends-refl s)
    | inr nz ↦ rw nz (elim (Option-cases (lookup id s.cache)) [
      | inl absent ↦ rw absent (remember-Extends id s absent)
      | inr (pair, e) ↦ rw e (Extends-refl s)
    ])
  ]

  get_public_key_components-Extends :
      (id : ℕ) (s : KeyState) → Extends s (get_public_key_components fingerprint id s).1
  unfolding get_public_key_components
  get_public_key_components-Extends id s =
      and_then-Extends s (load_keys fingerprint id s) _ (load_keys-Extends id s)
        (λ pair _. Extends-refl _)

  publish-Extends :
      (r : Rename) (id : ℕ) (d : KeyDir) (s : KeyState)
      → lookup id s.disk ≡ none
      → Extends s (publish fingerprint r id d s).1
  unfolding publish
  publish-Extends Rename.renamed id d s absent = record {
    cached = λ j p h. h;
    published = λ j x h. lookup-cons_new id j d x s.disk absent h;
  }
  publish-Extends Rename.failed id d s absent = Extends-refl s
  publish-Extends (Rename.lost_to rival) id d s absent = record {
    cached = λ j p h. h;
    published = λ j x h. lookup-cons_new id j rival x s.disk absent h;
  }

  publish-cache :
      (r : Rename) (id : ℕ) (d : KeyDir) (s : KeyState)
      → (publish fingerprint r id d s).1.cache ≡ s.cache
  unfolding publish
  publish-cache Rename.renamed id d s = refl
  publish-cache Rename.failed id d s = refl
  publish-cache (Rename.lost_to rival) id d s = refl

  create-Extends :
      (attempt : Attempt) (id : ℕ) (s : KeyState)
      → lookup id s.cache ≡ none
      → lookup id s.disk ≡ none
      → Extends s (create fingerprint attempt id s).1
  unfolding create
  create-Extends attempt id s uncached unpublished =
      go attempt.root attempt.generated attempt.written
    where
      go :
          (root : Root) (made : Option PrivateKey) (w : Bool)
          → Extends s
              (create fingerprint
                (record { root = root; generated = made; written = w; rename = attempt.rename })
                id
                s).1
      go Root.mkdir_failed made w = Extends-refl s
      go Root.linked_root made w = Extends-refl s
      go Root.ready none w = Extends-refl s
      go Root.ready (some priv) false = Extends-refl s
      go Root.ready (some priv) true =
          let m = publish fingerprint attempt.rename id (new_dir fingerprint id priv) s in
          and_then-Extends s m (λ _. remember fingerprint id)
            (publish-Extends attempt.rename id _ s unpublished)
            (λ _ _.
              remember-Extends id m.1
                (rw (publish-cache attempt.rename id (new_dir fingerprint id priv) s) uncached))

  generate-Extends :
      (attempt : Attempt) (id : ℕ) (s : KeyState)
      → Extends s (generate_blind_signing_keypair fingerprint attempt id s).1
  unfolding generate_blind_signing_keypair
  generate-Extends attempt id s = elim (Bool-cases (id == 0)) [
    | inl z ↦ rw z (Extends-refl s)
    | inr nz ↦ rw nz (elim (Option-cases (lookup id s.cache)) [
      | inl absent ↦ rw absent (elim (Option-cases (lookup id s.disk)) [
        | inl unpublished ↦ rw unpublished (create-Extends attempt id s absent unpublished)
        | inr (d, there) ↦ rw there (remember-Extends id s absent)
      ])
      | inr (pair, e) ↦ rw e (Extends-refl s)
    ])
  ]

  -- No call replaces a keypair: what the process has cached and what stands on the disk before the
  -- call is there unchanged after it, whatever the call is asked and however it ends.
  pub ensure-Extends :
      (attempt : Attempt) (allow_create : Bool) (id : ℕ) (expected : Option Text) (s : KeyState)
      → Extends s
          (ensure_election_blind_signing_key fingerprint attempt allow_create id expected s).1
  unfolding ensure_election_blind_signing_key
  ensure-Extends attempt true id none s =
      and_then-Extends s (generate_blind_signing_keypair fingerprint attempt id s) _
        (generate-Extends attempt id s) (λ _ _. get_public_key_components-Extends id _)
  ensure-Extends attempt false id none s = Extends-refl s
  ensure-Extends attempt allow_create id (some anchor) s =
      elim (Bool-cases (well_formed_fingerprint fingerprint anchor)) [
        | inl w ↦ rw w (get_public_key_components-Extends id s)
        | inr w ↦ rw w (Extends-refl s)
      ]
