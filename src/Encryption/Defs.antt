-- ===== src/Encryption/Defs.antt =====
-- `ChaChaEncryptionService` and `EncryptedType` (app/security/encryption.py) under one key. The cipher,
-- ChaCha20-Poly1305, and the decoding of UTF-8 are parameters, and the nonce is an argument. Texts have
-- no lone surrogates.
use secure_voting_platform.Prelude.{
  ℕ, ◌%◌, false, not, ◌||◌, ◌&&◌, Option, none, some, List, [], ◌∷◌, ◌++◌, ◌==◌, length, take, drop,
  is_some, if◌then◌else◌, ltb,
}
use secure_voting_platform.Prelude.Text.{Text, codes, text_eq, is_empty, strip, utf8}
use secure_voting_platform.Encryption.Base64.{b64encode, b64decode}

abbrev pub envelope_prefix : Text
envelope_prefix = codes "svpii:v1:"

abbrev pub legacy_plaintext_prefix : Text
legacy_plaintext_prefix = codes "svpii:legacy-plaintext:v0:"

abbrev pub associated_data : List ℕ
associated_data = codes "securevote:voter-pii:v1"

abbrev pub nonce_bytes : ℕ
nonce_bytes = 12

abbrev pub tag_bytes : ℕ
tag_bytes = 16

-- `s[len(p):]` if `s.startswith(p)`
abbrev pub after_prefix : Text → Text → Option Text
after_prefix [] s = some s
after_prefix (c ∷ p) [] = none
after_prefix (c ∷ p) (d ∷ s) = if c == d then after_prefix p s else none

-- `_decode_payload`; `none` is a PIIDecryptionError, here and below.
unfoldable pub decode_payload : Text → Option (List ℕ)
decode_payload payload =
    if is_empty payload || not (text_eq payload (strip payload)) || not (length payload % 4 == 0)
    then none
    else elim (b64decode payload) [
      | none ↦ none
      | some combined ↦ if ltb (length combined) 28 then none else some combined
    ]

module _ (encrypt_aead : (nonce plaintext : List ℕ) → Option (List ℕ) → List ℕ)
    (decrypt_aead : (nonce ciphertext : List ℕ) → Option (List ℕ) → Option (List ℕ))
    (decode_utf8 : List ℕ → Option Text) where
  -- `_decrypt_combined`
  unfoldable pub decrypt_combined : List ℕ → Option (List ℕ) → Option Text
  decrypt_combined combined aad =
      elim (decrypt_aead (take nonce_bytes combined) (drop nonce_bytes combined) aad) [
        | none ↦ none
        | some plaintext ↦ decode_utf8 plaintext
      ]

  -- `encrypt`
  unfoldable pub encrypt : (nonce : List ℕ) → Text → Text
  encrypt nonce content =
      envelope_prefix
      ++ b64encode (nonce ++ encrypt_aead nonce (utf8 content) (some associated_data))

  -- `decrypt`
  unfoldable pub decrypt : Text → Option Text
  decrypt encrypted = elim (after_prefix envelope_prefix encrypted) [
    | none ↦ none
    | some payload ↦ elim (decode_payload payload) [
      | none ↦ none
      | some combined ↦ decrypt_combined combined (some associated_data)
    ]
  ]

  -- `migrate_legacy_plaintext`; `none` is a LegacyPIIMigrationError.
  unfoldable pub migrate_legacy_plaintext : (nonce : List ℕ) → Text → Option Text
  migrate_legacy_plaintext nonce marked = elim (after_prefix legacy_plaintext_prefix marked) [
    | none ↦ none
    | some plaintext ↦ some (encrypt nonce plaintext)
  ]

  -- `migrate_legacy_ciphertext`
  unfoldable pub migrate_legacy_ciphertext : (nonce : List ℕ) → Text → Option Text
  migrate_legacy_ciphertext nonce unversioned =
      if is_some (after_prefix envelope_prefix unversioned)
      then none
      else elim (decode_payload unversioned) [
        | none ↦ none
        | some combined ↦ elim (decrypt_combined combined none) [
          | none ↦ none
          | some plaintext ↦ some (encrypt nonce plaintext)
        ]
      ]

  -- `EncryptedType.process_bind_param` of a column with a length; the outer `none` is a ValueError.
  unfoldable pub process_bind_param :
      (column : Option ℕ) (nonce : List ℕ) → Option Text → Option (Option Text)
  process_bind_param column nonce none = some none
  process_bind_param column nonce (some content) =
      let encrypted = encrypt nonce content in
      if elim column [ none ↦ false | some n ↦ not (n == 0) && ltb n (length encrypted) ]
      then none
      else some (some encrypted)

  -- `EncryptedType.process_result_value`
  unfoldable pub process_result_value : Option Text → Option (Option Text)
  process_result_value none = some none
  process_result_value (some t) = elim (decrypt t) [
    | none ↦ none
    | some content ↦ some (some content)
  ]
