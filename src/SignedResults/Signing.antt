-- ===== src/SignedResults/Signing.antt =====
-- `sign_data`, `verify_signature` and `validate_local_public_key` (app/security/signing_service.py).
-- The cryptography library and the Vault client are parameters, and so is the local keypair that
-- `load_keys` read, if it did.
use secure_voting_platform.Prelude.{
  ℕ, Bool, false, ◌&&◌, ◌||◌, not, Option, none, some, List, ◌==◌, all, length, if◌then◌else◌,
}
use secure_voting_platform.Prelude.Text.{
  is_hex_digit, Text, codes, text_eq, is_empty, from_hex, hex_text,
}

-- What `load_pem_public_key` makes of a text; an RSA key by its fingerprint.
pub data PemKey : Type 0 where
  invalid_pem other_key : PemKey
  rsa_key : (fingerprint : Text) → PemKey

pub record LocalKey : Type 0 where
  pub sign : Text → List ℕ
  pub fingerprint : Text
  pub pem : Text

-- The Vault client; `none` is one of its exceptions.
pub record Vault : Type 0 where
  pub is_configured : Bool
  pub is_enabled : Bool
  pub transit_sign : Text → Option Text
  pub transit_signature_version : Text → Option ℕ
  pub transit_key_identity : Option Text
  pub transit_verify : (content signature : Text) → Option Bool

pub record Signer : Type 0 where
  pub local_key : Option LocalKey
  pub load_pem : Text → PemKey
  pub rsa_verify : (pem : Text) → (signature : List ℕ) → (content : Text) → Bool
  pub vault : Vault

pub record SigningResult : Type 0 where
  pub signature : Text
  pub signer_backend : Text
  pub signature_algorithm : Text
  pub signing_key_id : Text
  pub signing_key_version : Option ℕ
  pub public_key_pem : Option Text

abbrev pub local_rsa_backend : Text
local_rsa_backend = codes "local-rsa"

abbrev pub vault_transit_backend : Text
vault_transit_backend = codes "vault-transit"

abbrev pub rsa_pss_sha256 : Text
rsa_pss_sha256 = codes "rsa-pss-sha256"

-- `validate_local_public_key`; false is a SignatureMetadataError.
unfoldable pub validate_local_public_key : Signer → Option Text → (signing_key_id : Text) → Bool
validate_local_public_key signer none signing_key_id = false
validate_local_public_key signer (some pem) signing_key_id =
    not (is_empty pem) && elim (signer.load_pem pem) [
      | rsa_key fingerprint ↦ text_eq fingerprint signing_key_id
      | _ ↦ false
    ]

abbrev vault_sign : Vault → Text → Option SigningResult
vault_sign vault content =
    if not vault.is_enabled then none else elim (vault.transit_sign content) [
      | none ↦ none
      | some envelope ↦ elim (vault.transit_signature_version envelope) [
        | none ↦ none
        | some version ↦ elim vault.transit_key_identity [
          | none ↦ none
          | some identity ↦ some (record {
            signature = envelope;
            signer_backend = vault_transit_backend;
            signature_algorithm = rsa_pss_sha256;
            signing_key_id = identity;
            signing_key_version = some version;
            public_key_pem = none;
          })
        ]
      ]
    ]

abbrev pub local_sign : LocalKey → Text → SigningResult
local_sign key content = record {
  signature = hex_text (key.sign content);
  signer_backend = local_rsa_backend;
  signature_algorithm = rsa_pss_sha256;
  signing_key_id = key.fingerprint;
  signing_key_version = none;
  public_key_pem = some key.pem;
}

-- `sign_data`; `none` is a SigningUnavailableError.
unfoldable pub sign_data : Signer → Text → Option SigningResult
sign_data signer content =
    if signer.vault.is_configured
    then vault_sign signer.vault content
    else elim signer.local_key [ none ↦ none | some key ↦ some (local_sign key content) ]

-- A boolean, a SignatureMetadataError or a SigningUnavailableError.
pub data Verification : Type 0 where
  answer : Bool → Verification
  metadata_error backend_unavailable : Verification

-- `_LOCAL_KEY_ID.fullmatch(s)`
abbrev pub is_local_key_id : Text → Bool
is_local_key_id s = (length s == 64) && all is_hex_digit s

abbrev vault_verify :
    Vault
    → (content signature signing_key_id : Text) (signing_key_version : Option ℕ) → Verification
vault_verify vault content signature signing_key_id none = metadata_error
vault_verify vault content signature signing_key_id (some version) =
    if version == 0 then metadata_error else elim (vault.transit_signature_version signature) [
      | none ↦ answer false
      | some envelope_version ↦
          if not (envelope_version == version)
          then answer false
          else if not vault.is_configured || not vault.is_enabled
          then backend_unavailable
          else elim vault.transit_key_identity [
            | none ↦ backend_unavailable
            | some identity ↦
                if not (text_eq identity signing_key_id)
                then backend_unavailable
                else elim (vault.transit_verify content signature) [
                  | none ↦ backend_unavailable
                  | some b ↦ answer b
                ]
          ]
    ]

abbrev local_verify :
    Signer
    → (content signature signing_key_id : Text) (signing_key_version : Option ℕ)
      (public_key_pem : Option Text)
    → Verification
local_verify signer content signature signing_key_id (some version) pem = metadata_error
local_verify signer content signature signing_key_id none pem =
    if not (is_local_key_id signing_key_id) then metadata_error else elim (from_hex signature) [
      | none ↦ answer false
      | some bytes ↦
          if validate_local_public_key signer pem signing_key_id
          then elim pem [
            | none ↦ metadata_error
            | some text ↦ answer (signer.rsa_verify text bytes content)
          ]
          else metadata_error
    ]

-- `verify_signature`
unfoldable pub verify_signature :
    Signer
    → (content signature signer_backend signature_algorithm signing_key_id : Text)
      (signing_key_version : Option ℕ) (public_key_pem : Option Text)
    → Verification
verify_signature signer content signature backend algorithm key_id version pem =
    if not (text_eq algorithm rsa_pss_sha256) || is_empty key_id
    then metadata_error
    else if text_eq backend vault_transit_backend
    then vault_verify signer.vault content signature key_id version
    else if text_eq backend local_rsa_backend
    then local_verify signer content signature key_id version pem
    else metadata_error
