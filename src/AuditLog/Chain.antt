-- ===== src/AuditLog/Chain.antt =====
-- What the handlers write is what `verify_audit` accepts.
use secure_voting_platform.Prelude.{
  ℕ, ◌≡◌, refl, ap, ◌∙◌, Bool, true, false, ◌&&◌, Option, none, some, List, [], ◌∷◌, ◌++◌, ◌==◌,
  if◌then◌else◌, arith, ◌⊎◌, inl, inr, Bool-cases,
}
use secure_voting_platform.Prelude.Text.{
  Text, codes, text_eq, text_eq_refl, is_empty, strip, hex_text,
}
use secure_voting_platform.Prelude.Digits.{strip-unspaced, hex_text-unspaced}
use secure_voting_platform.Json.{Json, Fields, get_or_null}
use secure_voting_platform.AuditLog.Defs.{
  LogRecord, Disk, Files, Last, no_line, digest, last_of, same_last, Parsed, parsed, stored,
  text_or_null, payload_of, set_field, without_field, hexdigest, signed_line, emit, append_line,
  reread, check_line, check_lines, verify_audit,
}

-- The handlers of several processes, each with its `last_hmac`, on one pair of files.
pub record Handlers (Line : Type 0) : Type 0 where
  pub memory : ℕ → Option Text
  pub files : Files Line

-- A record that a process emits.
pub record Emission : Type 0 where
  pub process : ℕ
  pub disk : Disk
  pub event : LogRecord

-- The state file can be read and, once the line is in the log, written.
abbrev pub Reliable : List Emission → Type 0
Reliable [] = Unit
Reliable (e ∷ es) = (e.disk.state_readable ≡ true) × (e.disk.state_write ≡ stored) × Reliable es

payload-fields :
    (last : Option Text) (h : Text) (r : LogRecord)
    → (let payload = set_field (codes "prev_hmac") (text_or_null last) (payload_of r) in
        let signed = set_field (codes "hmac") (Json.str h) payload in
        (get_or_null (codes "prev_hmac") signed ≡ text_or_null last)
        × (get_or_null (codes "hmac") signed ≡ Json.str h)
        × (without_field (codes "hmac") signed ≡ payload))
payload-fields last h r = split r.extra refl
  where
    split :
        (o : Option Fields)
        → r.extra ≡ o
        → (let payload = set_field (codes "prev_hmac") (text_or_null last) (payload_of r) in
            let signed = set_field (codes "hmac") (Json.str h) payload in
            (get_or_null (codes "prev_hmac") signed ≡ text_or_null last)
            × (get_or_null (codes "hmac") signed ≡ Json.str h)
            × (without_field (codes "hmac") signed ≡ payload))
    split none e = rw e (refl, refl, refl)
    split (some Fields.end) e = rw e (refl, refl, refl)
    split (some (Fields.field k v fs)) e = rw e (refl, refl, refl)

pair_eq : {A B : Type 0} (r : A × B) {a : A} {b : B} → r.0 ≡ a → r.1 ≡ b → r ≡ (a, b)
pair_eq (x, y) p q = rw (p, q) refl

same_last_refl :
    (last : Option Text)
    → same_last (last_of (text_or_null last)) (last_of (text_or_null last)) ≡ true
same_last_refl none = refl
same_last_refl (some t) = text_eq_refl t

module _ {Line Canon : Type 0} (dumps : Fields → Canon) (dumps_line : Fields → Line)
    (mac : Canon → List ℕ) (parse : Line → Parsed) where
  abbrev checks : Last → List Line → Bool × Last
  checks = check_lines dumps dumps_line mac parse

  check_lines-append :
      (last : Last) (ls : List Line) (l : Line) {m n : Last}
      → checks last ls ≡ (true, m)
      → check_line dumps dumps_line mac parse m l ≡ (true, n)
      → checks last (ls ++ (l ∷ [])) ≡ (true, n)
  unfolding check_lines
  check_lines-append last [] l {m} {n} h k =
      let same : last ≡ m = ap (λ r. r.1) h in rw (same, k) refl
  check_lines-append last (x ∷ ls) l {m} {n} h k =
      let first = check_line dumps dumps_line mac parse last x in
      let rest = checks first.1 ls in
      let first_ok : first.0 ≡ true = ground (arith, ap (λ r. r.0) h) in
      let rest_ok : rest.0 ≡ true = ground (arith, ap (λ r. r.0) h) in
      rw (first_ok, check_lines-append first.1 ls l (pair_eq rest rest_ok (ap (λ r. r.1) h)) k) refl

  check_line-fields :
      (last : Last) (l : Line) (fs payload : Fields) (prev : Json) (h : Text)
      → parse l ≡ parsed (Json.obj fs)
      → get_or_null (codes "prev_hmac") fs ≡ prev
      → get_or_null (codes "hmac") fs ≡ Json.str h
      → without_field (codes "hmac") fs ≡ payload
      → check_line dumps dumps_line mac parse last l ≡ (
        same_last (last_of prev) last && text_eq (hexdigest dumps dumps_line mac parse payload) h,
        digest h,
      )
  unfolding check_line
  check_line-fields last l fs payload prev h is_read own_prev own_hmac rest =
      rw (check_line, is_read, own_prev, own_hmac, rest) refl

  signed_line-checks :
      ((fs : Fields) → parse (dumps_line fs) ≡ parsed (Json.obj fs))
      → (last : Option Text) (r : LogRecord)
      → (let payload = set_field (codes "prev_hmac") (text_or_null last) (payload_of r) in
          check_line dumps dumps_line mac parse
            (last_of (text_or_null last))
            (signed_line dumps dumps_line mac parse payload)
          ≡ (true, digest (hexdigest dumps dumps_line mac parse payload)))
  signed_line-checks whole last r =
      let payload = set_field (codes "prev_hmac") (text_or_null last) (payload_of r) in
      let h = hexdigest dumps dumps_line mac parse payload in
      let (own_prev, own_hmac, rest) = payload-fields last h r in
      let signed = set_field (codes "hmac") (Json.str h) payload in
      check_line-fields (last_of (text_or_null last)) (dumps_line signed) signed payload
        (text_or_null last) h (whole signed) own_prev own_hmac rest
      ∙ rw (same_last_refl last, text_eq_refl h) refl

  -- What the state file holds is the link of the log's last line; a process has no other link in
  -- memory while there is no state file.
  abbrev pub IsLinked : Handlers Line → Type 0
  IsLinked s =
      (checks no_line s.files.log ≡ (true, last_of (text_or_null s.files.state)))
      × (((s.files.state ≡ none) × ((w : ℕ) → s.memory w ≡ none))
          ⊎ ((t : Text) × (s.files.state ≡ some t) × (strip t ≡ t) × (is_empty t ≡ false)))

  abbrev pub emit_by : Emission → Handlers Line → Handlers Line
  emit_by e s =
      let (last, files) =
        emit dumps dumps_line mac parse e.disk e.event (s.memory e.process) s.files in
      record { memory = (λ w. if w == e.process then last else s.memory w); files = files }

  abbrev pub emit_all : List Emission → Handlers Line → Handlers Line
  emit_all [] s = s
  emit_all (e ∷ es) s = emit_all es (emit_by e s)

  reread-linked :
      (disk : Disk) (w : ℕ) (s : Handlers Line)
      → IsLinked s
      → disk.state_readable ≡ true
      → reread dumps dumps_line mac parse disk (s.memory w) s.files.state ≡ s.files.state
  reread-linked disk w s (_, inl (absent, forgotten)) readable = rw absent (forgotten w)
  reread-linked disk w s (_, inr (t, there, whole, full)) readable =
      rw (there, readable, whole, full) refl

  emit-eq-failed :
      (disk : Disk) (r : LogRecord) (memory : Option Text) (f : Files Line)
      → disk.log_written ≡ false
      → emit dumps dumps_line mac parse disk r memory f
        ≡ (reread dumps dumps_line mac parse disk memory f.state, f)
  unfolding emit append_line
  emit-eq-failed disk r memory f failed = rw (emit, failed) refl

  append_line-written :
      (disk : Disk) (r : LogRecord) (last : Option Text) (f : Files Line)
      → disk.log_written ≡ true
      → disk.state_write ≡ stored
      → (let payload = set_field (codes "prev_hmac") (text_or_null last) (payload_of r) in
          let h = hexdigest dumps dumps_line mac parse payload in
          append_line dumps dumps_line mac parse disk r last f ≡ (
            some h,
            record {
              log = f.log ++ (signed_line dumps dumps_line mac parse payload ∷ []);
              state = some h;
            },
          ))
  unfolding append_line
  append_line-written disk r last f written writes = rw (append_line, written, writes) refl

  emit-eq-written :
      (disk : Disk) (r : LogRecord) (memory : Option Text) (f : Files Line)
      → disk.log_written ≡ true
      → disk.state_write ≡ stored
      → reread dumps dumps_line mac parse disk memory f.state ≡ f.state
      → (let payload = set_field (codes "prev_hmac") (text_or_null f.state) (payload_of r) in
          let h = hexdigest dumps dumps_line mac parse payload in
          emit dumps dumps_line mac parse disk r memory f ≡ (
            some h,
            record {
              log = f.log ++ (signed_line dumps dumps_line mac parse payload ∷ []);
              state = some h;
            },
          ))
  unfolding emit
  emit-eq-written disk r memory f written writes linked =
      ap (λ last. append_line dumps dumps_line mac parse disk r last f) linked
      ∙ append_line-written disk r f.state f written writes

  emit_by-IsLinked :
      ((fs : Fields) → parse (dumps_line fs) ≡ parsed (Json.obj fs))
      → ((c : Canon) → is_empty (hex_text (mac c)) ≡ false)
      → (e : Emission) (s : Handlers Line) → IsLinked s
      → e.disk.state_readable ≡ true
      → e.disk.state_write ≡ stored
      → IsLinked (emit_by e s)
  emit_by-IsLinked whole full e s linked readable writes =
      let same = reread-linked e.disk e.process s linked readable in
      elim (Bool-cases e.disk.log_written) [
        | inr failed ↦
            rw (emit-eq-failed e.disk e.event (s.memory e.process) s.files failed, same)
              (
                linked.0,
                elim linked.1 [
                  | inl (absent, forgotten) ↦ inl (absent, λ w. ground (arith, absent, forgotten w))
                  | inr found ↦ inr found
                ],
              )
        | inl written ↦
            let payload =
              set_field (codes "prev_hmac") (text_or_null s.files.state) (payload_of e.event) in
            rw (emit-eq-written e.disk e.event (s.memory e.process) s.files written writes same) (
              check_lines-append no_line s.files.log
                  (signed_line dumps dumps_line mac parse payload) linked.0
                  (signed_line-checks whole s.files.state e.event),
              inr (
                hexdigest dumps dumps_line mac parse payload,
                refl,
                strip-unspaced (hexdigest dumps dumps_line mac parse payload)
                    (hex_text-unspaced (mac (dumps payload))),
                full (dumps payload),
              ),
            )
      ]

  -- Whatever events several processes emit, in whatever order, and whichever of them fail to be
  -- written, each line whole or not at all, `verify_audit` accepts the log. The log was linked before (as an empty one is), the
  -- state file can be read, and it is written whenever a line is. A line reads as the object that
  -- was written, and no digest is empty.
  pub emit_all-verify :
      ((fs : Fields) → parse (dumps_line fs) ≡ parsed (Json.obj fs))
      → ((c : Canon) → is_empty (hex_text (mac c)) ≡ false)
      → (es : List Emission) (s : Handlers Line) → IsLinked s
      → Reliable es
      → verify_audit dumps dumps_line mac parse (some (emit_all es s).files.log) ≡ true
  unfolding verify_audit
  emit_all-verify whole full [] s linked reliable = ap (λ r. r.0) linked.0
  emit_all-verify whole full (e ∷ es) s linked (readable, writes, reliable) =
      emit_all-verify whole full es (emit_by e s)
        (emit_by-IsLinked whole full e s linked readable writes) reliable
