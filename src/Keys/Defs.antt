-- ===== src/Keys/Defs.antt =====
-- The key files and the functions on them (app/security/blind_signature.py).
use secure_voting_platform.Prelude.{
  ℕ, Bool, true, false, ◌&&◌, ◌||◌, not, Option, none, some, List, [], ◌∷◌, ◌==◌, length, all,
  is_some, if◌then◌else◌,
}
use secure_voting_platform.Prelude.Text.{is_hex_digit, Text, codes, text_eq}

-- The numbers of an RSA public key.
pub record PublicKey : Type 0 where
  pub n : ℕ
  pub e : ℕ
  pub key_size : ℕ

pub record PrivateKey : Type 0 where
  pub public_key : PublicKey
  pub d : ℕ

-- The reasons of a BlindSigningKeyError.
pub data KeyError : Type 0 where
  absent unsafe_path incomplete invalid not_rsa failed_validation bad_metadata : KeyError
  no_directory unsafe_root generation_failed publication_failed : KeyError
  not_anchored bad_fingerprint mismatch : KeyError
  recovery_needed authorized_without_anchor : KeyError

pub data KeyResult (A : Type 0) : Type 0 where
  ok : A → KeyResult A
  key_error : KeyError → KeyResult A
  value_error : KeyResult A
  os_error : KeyResult A

-- A file of a key directory.
pub data KeyFile (A : Type 0) : Type 0 where
  missing linked unreadable : KeyFile A
  holds : A → KeyFile A

pub data Pem (A : Type 0) : Type 0 where
  rsa : A → Pem A
  other_algorithm : Pem A

-- `other_document` is any JSON value that is no object with exactly the three entries.
pub data Metadata : Type 0 where
  fields : (algorithm : Text) (election_id : ℕ) (public_key_sha256 : Text) → Metadata
  other_document : Metadata

pub record KeyDir : Type 0 where
  pub symlink : Bool
  pub directory : Bool
  pub private_file : KeyFile (Pem PrivateKey)
  pub public_file : KeyFile (Pem PublicKey)
  pub metadata_file : KeyFile Metadata

pub record KeyPair : Type 0 where
  pub private_key : PrivateKey
  pub public_key : PublicKey

pub record KeyState : Type 0 where
  pub cache : List (ℕ × KeyPair)
  pub disk : List (ℕ × KeyDir)

abbrev pub lookup {ℓ} : {A : Type ℓ} → ℕ → List (ℕ × A) → Option A
lookup k [] = none
lookup k ((j, a) ∷ m) = if j == k then some a else lookup k m

abbrev pub KeyAction : Type 0 → Type 0
KeyAction A = KeyState → KeyResult A × KeyState

-- A BlindSigningKeyError, and any other exception, passes on what has been written so far.
abbrev pub and_then :
    {A B : Type 0} → KeyResult A × KeyState → (A → KeyAction B) → KeyResult B × KeyState
and_then (ok a, s) f = f a s
and_then (key_error e, s) f = (key_error e, s)
and_then (value_error, s) f = (value_error, s)
and_then (os_error, s) f = (os_error, s)

abbrev pub key_algorithm : Text
key_algorithm = codes "rsa-2048-fdh-sha256"

abbrev pub same_numbers : PublicKey → PublicKey → Bool
same_numbers a b = (a.n == b.n) && (a.e == b.e)

abbrev pub is_file : {A : Type 0} → KeyFile A → Bool
is_file missing = false
is_file linked = false
is_file _ = true

-- How the operating system and the RSA generator answer one creation.
pub data Root : Type 0 where
  ready mkdir_failed linked_root : Root

pub data Rename : Type 0 where
  renamed failed : Rename
  lost_to : KeyDir → Rename

pub record Attempt : Type 0 where
  pub root : Root
  pub generated : Option PrivateKey
  pub written : Bool
  pub rename : Rename

pub record Components : Type 0 where
  pub n : ℕ
  pub e : ℕ
  pub key_id : Text

module _ (fingerprint : PublicKey → Text) where
  -- The checks on two loaded keys and the metadata.
  pub validate_pair : ℕ → Pem PrivateKey → Pem PublicKey → Metadata → KeyResult KeyPair
  validate_pair id other_algorithm pub_pem m = key_error not_rsa
  validate_pair id (rsa priv) other_algorithm m = key_error not_rsa
  validate_pair id (rsa priv) (rsa pk) other_document =
      if not (priv.public_key.key_size == 2048)
        || not (pk.key_size == 2048)
        || not (same_numbers priv.public_key pk)
        || not (pk.e == 65537)
      then key_error failed_validation
      else key_error bad_metadata
  validate_pair id (rsa priv) (rsa pk) (fields algorithm owner sha) =
      if not (priv.public_key.key_size == 2048)
        || not (pk.key_size == 2048)
        || not (same_numbers priv.public_key pk)
        || not (pk.e == 65537)
      then key_error failed_validation
      else if text_eq algorithm key_algorithm && (owner == id) && text_eq sha (fingerprint pk)
      then ok (record { private_key = priv; public_key = pk })
      else key_error bad_metadata

  read_files :
      ℕ → KeyFile (Pem PrivateKey) → KeyFile (Pem PublicKey) → KeyFile Metadata → KeyResult KeyPair
  unfolding validate_pair
  read_files id (holds priv) (holds pk) (holds m) = validate_pair id priv pk m
  read_files id _ _ _ = key_error invalid

  -- `_load_and_validate_keypair`
  unfoldable pub load_and_validate_keypair : Option KeyDir → ℕ → KeyResult KeyPair
  unfolding read_files
  load_and_validate_keypair none id = key_error absent
  load_and_validate_keypair (some d) id =
      if d.symlink || not d.directory
      then key_error unsafe_path
      else if not (is_file d.private_file && is_file d.public_file && is_file d.metadata_file)
      then key_error incomplete
      else read_files id d.private_file d.public_file d.metadata_file

  -- What loading puts into the cache.
  unfoldable pub remember : ℕ → KeyAction KeyPair
  remember id s =
      and_then (load_and_validate_keypair (lookup id s.disk) id, s)
        (λ pair s'. (ok pair, record s' { cache = (id, pair) ∷ s'.cache }))

  -- The directory that a creation writes.
  unfoldable pub new_dir : ℕ → PrivateKey → KeyDir
  new_dir id priv = record {
    symlink = false;
    directory = true;
    private_file = holds (rsa priv);
    public_file = holds (rsa priv.public_key);
    metadata_file = holds (fields key_algorithm id (fingerprint priv.public_key));
  }

  -- The rename that publishes the new directory; a rival's directory that stands there first wins.
  unfoldable pub publish : Rename → ℕ → KeyDir → KeyAction (Unit {0})
  publish renamed id d s = (ok tt, record s { disk = (id, d) ∷ s.disk })
  publish (lost_to rival) id d s = (ok tt, record s { disk = (id, rival) ∷ s.disk })
  publish failed id d s = (key_error publication_failed, s)

  -- From a root that may be missing to a published and loaded keypair.
  unfoldable pub create : Attempt → ℕ → KeyAction KeyPair
  create attempt id s = elim attempt.root [
    | mkdir_failed ↦ (key_error no_directory, s)
    | linked_root ↦ (key_error unsafe_root, s)
    | ready ↦ elim attempt.generated [
      | none ↦ (key_error generation_failed, s)
      | some priv ↦
          if attempt.written
          then and_then (publish attempt.rename id (new_dir id priv) s) (λ _. remember id)
          else (os_error, s)
    ]
  ]

  -- `generate_blind_signing_keypair`
  unfoldable pub generate_blind_signing_keypair : Attempt → ℕ → KeyAction KeyPair
  generate_blind_signing_keypair attempt id s =
      if id == 0 then (value_error, s) else elim (lookup id s.cache) [
        | some pair ↦ (ok pair, s)
        | none ↦ if is_some (lookup id s.disk) then remember id s else create attempt id s
      ]

  -- `_load_keys`
  unfoldable pub load_keys : ℕ → KeyAction KeyPair
  load_keys id s =
      if id == 0
      then (value_error, s)
      else elim (lookup id s.cache) [ some pair ↦ (ok pair, s) | none ↦ remember id s ]

  abbrev pub components : KeyPair → Components
  components pair = record {
    n = pair.public_key.n;
    e = pair.public_key.e;
    key_id = fingerprint pair.public_key;
  }

  -- `get_public_key_components`
  unfoldable pub get_public_key_components : ℕ → KeyAction Components
  unfolding load_keys
  get_public_key_components id s = and_then (load_keys id s) (λ pair s'. (ok (components pair), s'))

  abbrev pub well_formed_fingerprint : Text → Bool
  well_formed_fingerprint t = (length t == 64) && all is_hex_digit t

  -- The last comparison of `ensure_election_blind_signing_key`.
  abbrev pub matched : Text → KeyResult Components → KeyResult Components
  matched anchor (ok c) = if text_eq c.key_id anchor then ok c else key_error mismatch
  matched anchor r = r

  -- `ensure_election_blind_signing_key`
  unfoldable pub ensure_election_blind_signing_key :
      Attempt → Bool → ℕ → Option Text → KeyAction Components
  ensure_election_blind_signing_key attempt allow_create id none s =
      if allow_create
      then and_then (generate_blind_signing_keypair attempt id s)
          (λ _. get_public_key_components id)
      else (key_error not_anchored, s)
  ensure_election_blind_signing_key attempt allow_create id (some anchor) s =
      if well_formed_fingerprint anchor
      then (let (r, s') = get_public_key_components id s in (matched anchor r, s'))
      else (key_error bad_fingerprint, s)
