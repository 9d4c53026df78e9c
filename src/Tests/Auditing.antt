-- ===== src/Tests/Auditing.antt =====
-- The chain of the audit log, with lines kept as objects and a digest of the link alone.
use secure_voting_platform.Prelude.{
  ℕ, ◌≡◌, refl, Bool, true, false, none, some, List, [], ◌∷◌, arith, inl,
}
use secure_voting_platform.Prelude.Text.{codes, is_empty, hex_text, strip}
use secure_voting_platform.Prelude.Digits.{hex_text_injective}
use secure_voting_platform.Json.{Json, Fields, get_or_null}
use secure_voting_platform.AuditLog.{
  LogRecord, Last, last_of, Parsed, parsed, stored, left, StateWrite, verify_audit, check_lines,
  emit, check_line, append_line,
}
use secure_voting_platform.AuditLog.{blank, no_line}
use secure_voting_platform.AuditLog.Chain.{Handlers, Emission, emit_all, emit_all-verify, IsLinked}
use secure_voting_platform.AuditLog.Tampering.{canonical, verify_audit_unique}

abbrev link_of : Fields → Last
link_of fs = last_of (get_or_null (codes "prev_hmac") fs)

abbrev as_line : Fields → Fields
as_line fs = fs

abbrev toy_mac : Last → List ℕ
toy_mac Last.no_line = 1 ∷ []
toy_mac Last.other_value = 2 ∷ []
toy_mac (Last.digest t) = 3 ∷ t

abbrev read_line : Fields → Parsed
read_line fs = parsed (Json.obj fs)

-- A line without a field counts as blank.
abbrev read_spaced : Fields → Parsed
read_spaced Fields.end = blank
read_spaced (Fields.field k v fs) = parsed (Json.obj (Fields.field k v fs))

toy_mac_full : (c : Last) → is_empty (hex_text (toy_mac c)) ≡ false
unfolding hex_text
toy_mac_full Last.no_line = refl
toy_mac_full Last.other_value = refl
toy_mac_full (Last.digest t) = refl

toy_mac_injective : (c d : Last) → toy_mac c ≡ toy_mac d → c ≡ d
toy_mac_injective Last.no_line Last.no_line h = refl
toy_mac_injective Last.other_value Last.other_value h = refl
toy_mac_injective (Last.digest t) (Last.digest s) h = ground (arith, h)
toy_mac_injective Last.no_line Last.other_value h = ground (arith, h)
toy_mac_injective Last.no_line (Last.digest s) h = ground (arith, h)
toy_mac_injective Last.other_value Last.no_line h = ground (arith, h)
toy_mac_injective Last.other_value (Last.digest s) h = ground (arith, h)
toy_mac_injective (Last.digest t) Last.no_line h = ground (arith, h)
toy_mac_injective (Last.digest t) Last.other_value h = ground (arith, h)

abbrev event : LogRecord
event = record {
  timestamp = codes "2026-01-01T00:00:00Z";
  level = codes "INFO";
  logger = codes "securevote.audit";
  message = codes "security_action";
  pathname = none;
  lineno = some 41;
  extra = none;
}

abbrev emission : ℕ → Bool → StateWrite → Emission
emission process written state = record {
  process = process;
  disk = record { state_readable = true; log_written = written; state_write = state };
  event = event;
}

-- Two processes; the second line fails.
abbrev emissions : List Emission
emissions = emission 0 true stored ∷ emission 1 false stored ∷ emission 1 true stored ∷ []

abbrev no_log : Handlers Fields
no_log = record { memory = (λ w. none); files = record { log = []; state = none } }

no_log-IsLinked : IsLinked link_of as_line toy_mac read_line no_log
unfolding check_lines
no_log-IsLinked = (refl, inl (refl, λ w. refl))

emit_all-verify_example :
    verify_audit link_of as_line toy_mac read_line
      (some (emit_all link_of as_line toy_mac read_line emissions no_log).files.log)
    ≡ true
emit_all-verify_example =
    emit_all-verify link_of as_line toy_mac read_line (λ fs. refl) toy_mac_full emissions no_log
      no_log-IsLinked (refl, refl, (refl, refl, (refl, refl, tt)))

abbrev written_log : List Fields
written_log = (emit_all link_of as_line toy_mac read_line emissions no_log).files.log

-- The lines between blank ones: another file with the same content.
abbrev spaced_log : List Fields
spaced_log = Fields.end ∷ written_log

spaced_ok : verify_audit link_of as_line toy_mac read_spaced (some spaced_log) ≡ true
unfolding verify_audit check_lines check_line emit append_line hex_text strip
spaced_ok = refl

written_ok : verify_audit link_of as_line toy_mac read_spaced (some written_log) ≡ true
unfolding verify_audit check_lines check_line emit append_line hex_text strip
written_ok = refl

same_end :
    (check_lines link_of as_line toy_mac read_spaced no_line written_log).1
    ≡ (check_lines link_of as_line toy_mac read_spaced no_line spaced_log).1
unfolding check_lines check_line emit append_line hex_text strip
same_end = refl

verify_audit_unique_example :
    canonical link_of as_line toy_mac read_spaced [] written_log
    ≡ canonical link_of as_line toy_mac read_spaced [] spaced_log
verify_audit_unique_example =
    verify_audit_unique link_of as_line toy_mac read_spaced (λ p q h. h) written_log spaced_log
      (λ c d m k h. toy_mac_injective c d (hex_text_injective (toy_mac c) (toy_mac d) h)) written_ok
      spaced_ok same_end

-- A line whose state file is not written leaves the next line with the old link.
stale_link :
    verify_audit link_of as_line toy_mac read_line (
      some
        (emit_all link_of as_line toy_mac read_line
          (emission 0 true stored ∷ emission 0 true left ∷ emission 0 true stored ∷ [])
          no_log).files.log)
    ≡ false
unfolding verify_audit check_lines emit append_line check_line hex_text strip
stale_link = refl
