-- ===== src/Tests/Personal.antt =====
-- Personal data under a cipher that only adds a tag.
use secure_voting_platform.Prelude.{ℕ, ◌≡◌, refl, Option, none, some, List, [], ◌∷◌, ◌++◌, arith}
use secure_voting_platform.Prelude.Text.{Text, codes, utf8}
use secure_voting_platform.Encryption.{
  encrypt, decrypt, process_bind_param, process_result_value, migrate_legacy_plaintext,
  migrate_legacy_ciphertext, legacy_plaintext_prefix, b64encode,
}
use secure_voting_platform.Encryption.RoundTrip.{
  IsCipher, process_result_value-process_bind_param, migrate_legacy-decrypt,
}

abbrev tag : List ℕ
tag = 0 ∷ 0 ∷ 0 ∷ 0 ∷ 0 ∷ 0 ∷ 0 ∷ 0 ∷ 0 ∷ 0 ∷ 0 ∷ 0 ∷ 0 ∷ 0 ∷ 0 ∷ 0 ∷ []

abbrev seal : List ℕ → List ℕ → Option (List ℕ) → List ℕ
seal nonce plaintext aad = tag ++ plaintext

abbrev open_sealed : List ℕ → List ℕ → Option (List ℕ) → Option (List ℕ)
open_sealed nonce (_ ∷ _ ∷ _ ∷ _ ∷ _ ∷ _ ∷ _ ∷ _ ∷ _ ∷ _ ∷ _ ∷ _ ∷ _ ∷ _ ∷ _ ∷ _ ∷ plaintext) aad =
    some plaintext
open_sealed nonce _ aad = none

abbrev from_ascii : List ℕ → Option Text
from_ascii bytes = some bytes

seal-IsCipher : IsCipher seal open_sealed from_ascii
seal-IsCipher = record {
  opens = λ nonce plaintext aad. refl;
  tagged = λ nonce plaintext aad. omega arith;
  bytes = λ nonce plaintext aad h. h;
}

abbrev nonce : List ℕ
nonce = 1 ∷ 2 ∷ 3 ∷ 4 ∷ 5 ∷ 6 ∷ 7 ∷ 8 ∷ 9 ∷ 10 ∷ 11 ∷ 12 ∷ []

abbrev licence : Text
licence = codes "AB12345"

ascii : from_ascii (utf8 licence) ≡ some licence
unfolding utf8
ascii = refl

binds :
    process_bind_param seal open_sealed from_ascii (some 255) nonce (some licence)
    ≡ some (some (encrypt seal open_sealed from_ascii nonce licence))
unfolding process_bind_param encrypt b64encode utf8
binds = refl

process_result_value-process_bind_param_example :
    process_result_value seal open_sealed from_ascii
      (some (encrypt seal open_sealed from_ascii nonce licence))
    ≡ some (some licence)
process_result_value-process_bind_param_example =
    process_result_value-process_bind_param seal open_sealed from_ascii seal-IsCipher (some 255)
      nonce licence (refl, refl) refl ascii binds

migrate_legacy-decrypt_example :
    (let dec = decrypt seal open_sealed from_ascii in
      let sealed = encrypt seal open_sealed from_ascii nonce licence in
      let old = b64encode (nonce ++ seal nonce (utf8 licence) none) in
      (dec (legacy_plaintext_prefix ++ licence) ≡ none)
      × (migrate_legacy_plaintext seal open_sealed from_ascii nonce
            (legacy_plaintext_prefix ++ licence)
          ≡ some sealed)
      × (dec old ≡ none)
      × (migrate_legacy_ciphertext seal open_sealed from_ascii nonce old ≡ some sealed)
      × (dec sealed ≡ some licence))
migrate_legacy-decrypt_example =
    migrate_legacy-decrypt seal open_sealed from_ascii seal-IsCipher nonce nonce licence
      (refl, refl) (refl, refl) refl ascii
