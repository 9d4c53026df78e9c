-- ===== src/Encryption/RoundTrip.antt =====
-- What is encrypted reads back, and nothing else that the migrations accept.
use secure_voting_platform.Prelude.{
  ℕ, zero, suc, ◌+◌, ◌<◌, ◌≤◌, ◌≡◌, refl, ap, Bool, true, false, not, Option, none, some, List, [],
  ◌∷◌, ◌++◌, ◌==◌, all, length, take, drop, ltb, arith,
}
use secure_voting_platform.Prelude.Text.{Text, text_eq_refl, is_empty, utf8, utf8_char}
use secure_voting_platform.Prelude.Digits.{strip-unspaced}
use secure_voting_platform.Encryption.Base64.{
  b64encode, is_bytes, b64encode-unspaced, b64encode-no_colon, length-b64encode,
  b64decode-b64encode,
}
use secure_voting_platform.Encryption.Defs.{
  envelope_prefix, legacy_plaintext_prefix, associated_data, after_prefix, decode_payload,
  decrypt_combined, encrypt, decrypt, migrate_legacy_plaintext, migrate_legacy_ciphertext,
  process_bind_param, process_result_value,
}

-- Unicode's code points.
abbrev pub is_text : Text → Bool
is_text = all (λ c. ltb c 1114112)

all-append :
    (p : ℕ → Bool) (xs ys : List ℕ) → all p xs ≡ true → all p ys ≡ true → all p (xs ++ ys) ≡ true
all-append p [] ys h k = k
all-append p (x ∷ xs) ys h k = ground (arith, h, all-append p xs ys, k)

utf8_char-is_bytes : (c : ℕ) → c < 1114112 → is_bytes (utf8_char c) ≡ true
utf8_char-is_bytes c h = ground arith

utf8-is_bytes : (s : Text) → is_text s ≡ true → is_bytes (utf8 s) ≡ true
unfolding utf8
utf8-is_bytes [] h = refl
utf8-is_bytes (c ∷ s) h =
    all-append (λ b. ltb b 256) (utf8_char c) (utf8 s) (utf8_char-is_bytes c (ground (arith, h)))
      (utf8-is_bytes s (ground (arith, h)))

take-append : (n : ℕ) (xs ys : List ℕ) → length xs ≡ n → take n (xs ++ ys) ≡ xs
take-append zero [] ys h = refl
take-append zero (x ∷ xs) ys h = absurd (omega (arith, h))
take-append (suc n) [] ys h = absurd (omega (arith, h))
take-append (suc n) (x ∷ xs) ys h = ap (λ zs. x ∷ zs) (take-append n xs ys (omega (arith, h)))

drop-append : (n : ℕ) (xs ys : List ℕ) → length xs ≡ n → drop n (xs ++ ys) ≡ ys
drop-append zero [] ys h = refl
drop-append zero (x ∷ xs) ys h = absurd (omega (arith, h))
drop-append (suc n) [] ys h = absurd (omega (arith, h))
drop-append (suc n) (x ∷ xs) ys h = drop-append n xs ys (omega (arith, h))

length-append : (xs ys : List ℕ) → length (xs ++ ys) ≡ length xs + length ys
length-append [] ys = omega arith
length-append (x ∷ xs) ys = omega (arith, length-append xs ys)

after_prefix-absent :
    (k : ℕ) (p s : Text)
    → all (λ c. not (c == k)) p ≡ false
    → all (λ c. not (c == k)) s ≡ true
    → after_prefix p s ≡ none
after_prefix-absent k [] s h absent = absurd (cc h)
after_prefix-absent k (c ∷ p) [] h absent = refl
after_prefix-absent k (c ∷ p) (d ∷ s) h absent =
    ground (arith, h, absent, after_prefix-absent k p s)

b64encode-full : (bytes : List ℕ) → 0 < length bytes → is_empty (b64encode bytes) ≡ false
unfolding b64encode
b64encode-full [] h = absurd (omega (arith, h))
b64encode-full (a ∷ []) h = refl
b64encode-full (a ∷ b ∷ []) h = refl
b64encode-full (a ∷ b ∷ c ∷ bytes) h = refl

decode_payload-b64encode :
    (combined : List ℕ)
    → is_bytes combined ≡ true
    → 28 ≤ length combined
    → decode_payload (b64encode combined) ≡ some combined
unfolding decode_payload
decode_payload-b64encode combined h long =
    let unspaced = strip-unspaced (b64encode combined) (b64encode-unspaced combined h) in
    let enough : ltb (length combined) 28 ≡ false = ground (arith, long) in
    rw
      (
        b64encode-full combined (omega (arith, long)),
        unspaced,
        text_eq_refl (b64encode combined),
        length-b64encode combined,
        b64decode-b64encode combined h,
        enough,
      )
      refl

module _ (encrypt_aead : (nonce plaintext : List ℕ) → Option (List ℕ) → List ℕ)
    (decrypt_aead : (nonce ciphertext : List ℕ) → Option (List ℕ) → Option (List ℕ))
    (decode_utf8 : List ℕ → Option Text) where
  -- What the library documents of the cipher: a ciphertext opens under its nonce and associated data,
  -- and is as many bytes as the plaintext and a tag of sixteen.
  pub record IsCipher : Type 0 where
    pub opens :
        (nonce plaintext : List ℕ) (aad : Option (List ℕ))
        → decrypt_aead nonce (encrypt_aead nonce plaintext aad) aad ≡ some plaintext
    pub tagged :
        (nonce plaintext : List ℕ) (aad : Option (List ℕ))
        → 16 ≤ length (encrypt_aead nonce plaintext aad)
    pub bytes :
        (nonce plaintext : List ℕ) (aad : Option (List ℕ))
        → is_bytes plaintext ≡ true
        → is_bytes (encrypt_aead nonce plaintext aad) ≡ true

  -- A nonce of twelve bytes.
  abbrev pub IsNonce : List ℕ → Type 0
  IsNonce nonce = (length nonce ≡ 12) × (is_bytes nonce ≡ true)

  decrypt_combined-encrypted :
      IsCipher
      → (nonce : List ℕ) (content : Text) (aad : Option (List ℕ)) → length nonce ≡ 12
      → decode_utf8 (utf8 content) ≡ some content
      → decrypt_combined encrypt_aead decrypt_aead decode_utf8
          (nonce ++ encrypt_aead nonce (utf8 content) aad)
          aad
        ≡ some content
  unfolding decrypt_combined
  decrypt_combined-encrypted cipher nonce content aad twelve valid =
      let ciphertext = encrypt_aead nonce (utf8 content) aad in
      rw
        (
          decrypt_combined,
          take-append 12 nonce ciphertext twelve,
          drop-append 12 nonce ciphertext twelve,
          cipher.opens nonce (utf8 content) aad,
          valid,
        )
        refl

  decrypt-encrypt :
      IsCipher
      → (nonce : List ℕ) (content : Text) → IsNonce nonce
      → is_text content ≡ true
      → decode_utf8 (utf8 content) ≡ some content
      → decrypt encrypt_aead decrypt_aead decode_utf8
          (encrypt encrypt_aead decrypt_aead decode_utf8 nonce content)
        ≡ some content
  unfolding decrypt encrypt
  decrypt-encrypt cipher nonce content (twelve, octets) text valid =
      let ciphertext = encrypt_aead nonce (utf8 content) (some associated_data) in
      let combined = nonce ++ ciphertext in
      let tagged = cipher.tagged nonce (utf8 content) (some associated_data) in
      let all_octets =
        all-append (λ b. ltb b 256) nonce ciphertext octets
          (cipher.bytes nonce (utf8 content) (some associated_data) (utf8-is_bytes content text)) in
      let long : 28 ≤ length combined =
        omega (arith, length-append nonce ciphertext, twelve, tagged) in
      rw (decrypt, decode_payload-b64encode combined all_octets long)
        (decrypt_combined-encrypted cipher nonce content (some associated_data) twelve valid)

  -- The round trip of a column: whatever a text is encrypted to when it is bound, it reads back as
  -- that text. The nonce has twelve bytes, the text is Unicode's and UTF-8 decodes it again, and the
  -- cipher opens what it sealed.
  pub process_result_value-process_bind_param :
      IsCipher
      → (column : Option ℕ) (nonce : List ℕ) (content : Text) {stored : Option Text} → IsNonce nonce
      → is_text content ≡ true
      → decode_utf8 (utf8 content) ≡ some content
      → process_bind_param encrypt_aead decrypt_aead decode_utf8 column nonce (some content)
        ≡ some stored
      → process_result_value encrypt_aead decrypt_aead decode_utf8 stored ≡ some (some content)
  unfolding process_bind_param process_result_value
  process_result_value-process_bind_param cipher column nonce content {stored} twelve text valid h =
      let same : some (encrypt encrypt_aead decrypt_aead decode_utf8 nonce content) ≡ stored =
        ground (arith, h) in
      rw⁻¹ same
        (rw (process_result_value, decrypt-encrypt cipher nonce content twelve text valid) refl)

  -- Legacy values: marked plaintext is never read as it is, and its migration reads as that
  -- plaintext; unversioned ciphertext of the old format is never read as it is either, and its
  -- migration reads as what was encrypted. The nonces have twelve bytes, the text is Unicode's and
  -- UTF-8 decodes it again, and the cipher opens what it sealed.
  pub migrate_legacy-decrypt :
      IsCipher
      → (nonce old_nonce : List ℕ) (content : Text) → IsNonce nonce
      → IsNonce old_nonce
      → is_text content ≡ true
      → decode_utf8 (utf8 content) ≡ some content
      → (let dec = decrypt encrypt_aead decrypt_aead decode_utf8 in
          let sealed = encrypt encrypt_aead decrypt_aead decode_utf8 nonce content in
          let old = b64encode (old_nonce ++ encrypt_aead old_nonce (utf8 content) none) in
          (dec (legacy_plaintext_prefix ++ content) ≡ none)
          × (migrate_legacy_plaintext encrypt_aead decrypt_aead decode_utf8 nonce
                (legacy_plaintext_prefix ++ content)
              ≡ some sealed)
          × (dec old ≡ none)
          × (migrate_legacy_ciphertext encrypt_aead decrypt_aead decode_utf8 nonce old
              ≡ some sealed)
          × (dec sealed ≡ some content))
  unfolding decrypt migrate_legacy_plaintext migrate_legacy_ciphertext
  migrate_legacy-decrypt cipher nonce old_nonce content is_nonce (twelve, octets) text valid =
      let ciphertext = encrypt_aead old_nonce (utf8 content) none in
      let combined = old_nonce ++ ciphertext in
      let tagged = cipher.tagged old_nonce (utf8 content) none in
      let all_octets =
        all-append (λ b. ltb b 256) old_nonce ciphertext octets
          (cipher.bytes old_nonce (utf8 content) none (utf8-is_bytes content text)) in
      let unversioned =
        after_prefix-absent b':' envelope_prefix (b64encode combined) refl
          (b64encode-no_colon combined all_octets) in
      let long : 28 ≤ length combined =
        omega (arith, length-append old_nonce ciphertext, twelve, tagged) in
      let decoded = decode_payload-b64encode combined all_octets long in
      let opened = decrypt_combined-encrypted cipher old_nonce content none twelve valid in
      (
        refl,
        refl,
        rw (decrypt, unversioned) refl,
        rw (migrate_legacy_ciphertext, unversioned, decoded, opened) refl,
        decrypt-encrypt cipher nonce content is_nonce text valid,
      )
