-- ===== src/AuditLog/Tampering.antt =====
-- A verified log is determined by the digest of its last line.
use mathlib.Core.Path.{subst}
use mathlib.Core.List.{Memᴰ}
use secure_voting_platform.Prelude.{
  Bool-cases, inl, inr, ℕ, ◌≡◌, refl, ap, sym, ◌∙◌, true, false, none, some, List, [], ◌∷◌, arith,
}
use secure_voting_platform.Prelude.Text.{Text, codes, text_eq, text_eq_iff, hex_text}
use secure_voting_platform.Json.{Json, Fields, get, get_or_null}
use secure_voting_platform.AuditLog.Defs.{
  Last, no_line, digest, last_of, same_last, Parsed, parsed, blank, invalid_json, without_field,
  hexdigest, check_line, check_lines, verify_audit,
}

same_last_iff : (a b : Last) → same_last a b ≡ true → a ≡ b
same_last_iff Last.no_line Last.no_line h = refl
same_last_iff (Last.digest s) (Last.digest t) h = ap digest ((text_eq_iff s t).0 h)
same_last_iff Last.no_line Last.other_value h = absurd (cc h)
same_last_iff Last.no_line (Last.digest t) h = absurd (cc h)
same_last_iff Last.other_value b h = absurd (cc h)
same_last_iff (Last.digest s) Last.no_line h = absurd (cc h)
same_last_iff (Last.digest s) Last.other_value h = absurd (cc h)

text_eq_other : (i j k : Text) → text_eq i k ≡ true → text_eq j k ≡ false → text_eq i j ≡ false
text_eq_other i j k e other = elim (Bool-cases (text_eq i j)) [
  | inr differ ↦ differ
  | inl same ↦
      let again : text_eq j k ≡ true =
        subst (λ t. text_eq t k ≡ true) ((text_eq_iff i j).0 same) e in
      absurd (ground (arith, again, other))
]

get-without_field :
    (k j : Text) (fs : Fields) → text_eq j k ≡ false → get j (without_field k fs) ≡ get j fs
get-without_field k j Fields.end other = refl
get-without_field k j (Fields.field i v fs) other = elim (Bool-cases (text_eq i k)) [
  | inl dropped ↦ rw (dropped, text_eq_other i j k dropped other) (get-without_field k j fs other)
  | inr kept ↦ rw (kept, get-without_field k j fs other) refl
]

module _ {Line Canon : Type 0} (dumps : Fields → Canon) (dumps_line : Fields → Line)
    (mac : Canon → List ℕ) (parse : Line → Parsed) where
  abbrev canonical_line : List Canon → Line → List Canon
  canonical_line older l = elim (parse l) [
    | parsed v ↦ elim v [
      | Json.obj fs ↦ dumps (without_field (codes "hmac") fs) ∷ older
      | _ ↦ older
    ]
    | _ ↦ older
  ]

  -- The canonical forms of the lines of a log, newest first, in front of older ones.
  abbrev pub canonical : List Canon → List Line → List Canon
  canonical older [] = older
  canonical older (l ∷ ls) = canonical (canonical_line older l) ls

  -- A chain of canonical forms and the digest it ends with.
  data Chain : List Canon → Last → Type 0 where
    start : Chain [] no_line
    link :
        (older : List Canon) (last : Last) (payload : Fields)
        → Chain older last
        → last_of (get_or_null (codes "prev_hmac") payload) ≡ last
        → Chain (dumps payload ∷ older) (digest (hexdigest dumps dumps_line mac parse payload))

  -- No form of one list has the digest of another form in the other list. HMAC-SHA256 has collisions,
  -- but nobody finds one.
  abbrev pub NoCollision : List Canon → List Canon → Type 0
  NoCollision es fs =
      (c d : Canon) → Memᴰ c es → Memᴰ d fs → hex_text (mac c) ≡ hex_text (mac d) → c ≡ d

  Chain-unique :
      ((p q : Fields)
        → dumps p ≡ dumps q
        → last_of (get_or_null (codes "prev_hmac") p) ≡ last_of (get_or_null (codes "prev_hmac") q))
      → (es fs : List Canon) (a b : Last) → NoCollision es fs
      → Chain es a
      → Chain fs b
      → a ≡ b
      → es ≡ fs
  Chain-unique links es fs a b collision_free Chain.start Chain.start h = refl
  Chain-unique links es fs a b collision_free Chain.start (Chain.link _ _ _ _ _) h = absurd (cc h)
  Chain-unique links es fs a b collision_free (Chain.link _ _ _ _ _) Chain.start h = absurd (cc h)
  Chain-unique links es fs a b collision_free (Chain.link older last p c own)
        (Chain.link older' last' q c' own') h =
      let digests : hex_text (mac (dumps p)) ≡ hex_text (mac (dumps q)) = ground (arith, h) in
      let same = collision_free (dumps p) (dumps q) (Memᴰ.head refl) (Memᴰ.head refl) digests in
      let before = sym own ∙ links p q same ∙ own' in
      rw
        (
          same,
          Chain-unique links older older' last last'
              (λ x y m k. collision_free x y (Memᴰ.tail m) (Memᴰ.tail k)) c c' before,
        )
        refl

  check_line-Chain :
      (older : List Canon) (last : Last) (l : Line)
      → Chain older last
      → (check_line dumps dumps_line mac parse last l).0 ≡ true
      → Chain (canonical_line older l) (check_line dumps dumps_line mac parse last l).1
  unfolding check_line
  check_line-Chain older last l c h = read (parse l) refl
    where
      read_value :
          (v : Json)
          → parse l ≡ parsed v
          → Chain (canonical_line older l) (check_line dumps dumps_line mac parse last l).1
      read_value (Json.obj fs) e =
          let payload = without_field (codes "hmac") fs in
          let h_link : same_last (last_of (get_or_null (codes "prev_hmac") fs)) last ≡ true =
            ground (arith, h, e) in
          let h_mac : same_last (digest (hexdigest dumps dumps_line mac parse payload))
                (last_of (get_or_null (codes "hmac") fs))
              ≡ true =
            ground (arith, h, e) in
          let own : last_of (get_or_null (codes "prev_hmac") payload) ≡ last =
            ap (λ o. last_of (elim o [ none ↦ Json.null | some v ↦ v ]))
              (get-without_field (codes "hmac") (codes "prev_hmac") fs refl)
            ∙ same_last_iff (last_of (get_or_null (codes "prev_hmac") fs)) last h_link in
          rw (canonical_line, check_line, e)
            (subst (Chain (dumps payload ∷ older))
              (same_last_iff (digest (hexdigest dumps dumps_line mac parse payload))
                (last_of (get_or_null (codes "hmac") fs)) h_mac)
              (Chain.link older last payload c own))
      read_value Json.null e = absurd (ground (arith, h, e))
      read_value (Json.bool b) e = absurd (ground (arith, h, e))
      read_value (Json.int z) e = absurd (ground (arith, h, e))
      read_value (Json.real f) e = absurd (ground (arith, h, e))
      read_value (Json.str t) e = absurd (ground (arith, h, e))
      read_value (Json.arr vs) e = absurd (ground (arith, h, e))

      read :
          (p : Parsed)
          → parse l ≡ p
          → Chain (canonical_line older l) (check_line dumps dumps_line mac parse last l).1
      read blank e = rw (canonical_line, check_line, e) c
      read invalid_json e = absurd (ground (arith, h, e))
      read (parsed v) e = read_value v e

  check_lines-Chain :
      (older : List Canon) (last : Last) (ls : List Line)
      → Chain older last
      → (check_lines dumps dumps_line mac parse last ls).0 ≡ true
      → Chain (canonical older ls) (check_lines dumps dumps_line mac parse last ls).1
  unfolding check_lines
  check_lines-Chain older last [] c h = c
  check_lines-Chain older last (l ∷ ls) c h =
      let next = check_line dumps dumps_line mac parse last l in
      check_lines-Chain (canonical_line older l) next.1 ls
        (check_line-Chain older last l c (ground (arith, h))) (ground (arith, h))

  -- Tamper evidence: two logs that `verify_audit` accepts and whose last lines have the same digest
  -- have the same canonical content, line by line: no line was changed, added, dropped or moved.
  -- No canonical form in the one has the digest of a different one in the other, and a canonical form
  -- determines the link in it.
  pub verify_audit_unique :
      ((p q : Fields)
        → dumps p ≡ dumps q
        → last_of (get_or_null (codes "prev_hmac") p) ≡ last_of (get_or_null (codes "prev_hmac") q))
      → (log copy : List Line) → NoCollision (canonical [] log) (canonical [] copy)
      → verify_audit dumps dumps_line mac parse (some log) ≡ true
      → verify_audit dumps dumps_line mac parse (some copy) ≡ true
      → (check_lines dumps dumps_line mac parse no_line log).1
        ≡ (check_lines dumps dumps_line mac parse no_line copy).1
      → canonical [] log ≡ canonical [] copy
  unfolding verify_audit
  verify_audit_unique links log copy collision_free ok ok' same =
      Chain-unique links (canonical [] log) (canonical [] copy)
        (check_lines dumps dumps_line mac parse no_line log).1
        (check_lines dumps dumps_line mac parse no_line copy).1 collision_free
        (check_lines-Chain [] no_line log Chain.start ok)
        (check_lines-Chain [] no_line copy Chain.start ok') same
