-- ===== src/AuditLog/Defs.antt =====
-- `HmacAuditHandler.emit` and `verify_audit` (app/logging_service.py). Parameters are the canonical form
-- and the line that `json.dumps` writes, the digest of HMAC-SHA256 under the log's key, and how a line
-- reads: `raw.strip()` and `json.loads`.
use secure_voting_platform.Prelude.{
  ℕ, Bool, true, false, ◌&&◌, Option, none, some, List, [], ◌∷◌, ◌++◌, if◌then◌else◌,
}
use secure_voting_platform.Prelude.Int.{pos}
use secure_voting_platform.Prelude.Text.{Text, codes, text_eq, is_empty, strip, hex_text}
use secure_voting_platform.Json.{Json, Fields, get_or_null}

pub record LogRecord : Type 0 where
  pub timestamp : Text
  pub level : Text
  pub logger : Text
  pub message : Text
  pub pathname : Option Text
  pub lineno : Option ℕ
  pub extra : Option Fields

abbrev pub text_or_null : Option Text → Json
text_or_null none = Json.null
text_or_null (some t) = Json.str t

abbrev number_or_null : Option ℕ → Json
number_or_null none = Json.null
number_or_null (some n) = Json.int (pos n)

-- `extra` joins the payload when it is not empty.
abbrev with_extra : Option Fields → Fields
with_extra none = Fields.end
with_extra (some Fields.end) = Fields.end
with_extra (some (Fields.field k v fs)) =
    Fields.field (codes "extra") (Json.obj (Fields.field k v fs)) Fields.end

abbrev pub payload_of : LogRecord → Fields
payload_of r = Fields.field (codes "timestamp") (Json.str r.timestamp) (
    Fields.field (codes "level") (Json.str r.level) (
      Fields.field (codes "logger") (Json.str r.logger) (
        Fields.field (codes "message") (Json.str r.message) (
          Fields.field (codes "pathname") (text_or_null r.pathname)
            (Fields.field (codes "lineno") (number_or_null r.lineno) (with_extra r.extra))))))

-- `payload[k] = v`
abbrev pub set_field : Text → Json → Fields → Fields
set_field k v Fields.end = Fields.field k v Fields.end
set_field k v (Fields.field j w fs) =
    if text_eq j k then Fields.field j v fs else Fields.field j w (set_field k v fs)

-- `payload.pop(k, None)`
abbrev pub without_field : Text → Fields → Fields
without_field k Fields.end = Fields.end
without_field k (Fields.field j w fs) =
    if text_eq j k then without_field k fs else Fields.field j w (without_field k fs)

-- `last_hmac`: no line yet, a text, or a value that no text equals.
pub data Last : Type 0 where
  no_line other_value : Last
  digest : Text → Last

abbrev pub last_of : Json → Last
last_of Json.null = no_line
last_of (Json.str t) = digest t
last_of _ = other_value

-- `a == b`. Two values that are no texts occur only behind a line that failed already.
abbrev pub same_last : Last → Last → Bool
same_last no_line no_line = true
same_last (digest s) (digest t) = text_eq s t
same_last _ _ = false

pub data Parsed : Type 0 where
  blank invalid_json : Parsed
  parsed : Json → Parsed

-- What became of the state file.
pub data StateWrite : Type 0 where
  stored left truncated : StateWrite

-- What the disk does: a line is written whole or not at all.
pub record Disk : Type 0 where
  pub state_readable : Bool
  pub log_written : Bool
  pub state_write : StateWrite

-- The log, oldest line first, and the state file.
pub record Files (Line : Type 0) : Type 0 where
  pub log : List Line
  pub state : Option Text

module _ {Line Canon : Type 0} (dumps : Fields → Canon) (dumps_line : Fields → Line)
    (mac : Canon → List ℕ) (parse : Line → Parsed) where
  -- `hmac.new(key, canonical, sha256).hexdigest()`
  abbrev pub hexdigest : Fields → Text
  hexdigest fs = hex_text (mac (dumps fs))

  abbrev pub signed_line : Fields → Line
  signed_line payload = dumps_line (set_field (codes "hmac") (Json.str (hexdigest payload)) payload)

  -- The link that `emit` finds under the lock.
  abbrev pub reread : Disk → (memory state : Option Text) → Option Text
  reread disk memory none = memory
  reread disk memory (some t) =
      if disk.state_readable
      then (let s = strip t in if is_empty s then none else some s)
      else memory

  abbrev pub after_write : StateWrite → Text → Option Text → Option Text
  after_write stored h state = some h
  after_write left h state = state
  after_write truncated h state = some []

  -- The line behind the link `last`, and the state file.
  unfoldable pub append_line :
      Disk → LogRecord → Option Text → Files Line → Option Text × Files Line
  append_line disk r last f =
      let payload = set_field (codes "prev_hmac") (text_or_null last) (payload_of r) in
      if disk.log_written
      then (
        some (hexdigest payload),
        record {
          log = f.log ++ (signed_line payload ∷ []);
          state = after_write disk.state_write (hexdigest payload) f.state;
        },
      )
      else (last, f)

  -- `HmacAuditHandler.emit` of a handler with its `last_hmac` in memory.
  unfoldable pub emit : Disk → LogRecord → Option Text → Files Line → Option Text × Files Line
  emit disk r memory f = append_line disk r (reread disk memory f.state) f

  -- A round of the loop of `verify_audit`: whether it finds no error, and the next `last_hmac`.
  unfoldable pub check_line : Last → Line → Bool × Last
  check_line last line = elim (parse line) [
    | blank ↦ (true, last)
    | invalid_json ↦ (false, last)
    | parsed v ↦ elim v [
      | Json.obj fs ↦
          let h = last_of (get_or_null (codes "hmac") fs) in
          (
            same_last (last_of (get_or_null (codes "prev_hmac") fs)) last
                && same_last (digest (hexdigest (without_field (codes "hmac") fs))) h,
            h,
          )
      | _ ↦ (false, last)
    ]
  ]

  unfoldable pub check_lines : Last → List Line → Bool × Last
  check_lines last [] = (true, last)
  check_lines last (line ∷ lines) =
      let (ok, next) = check_line last line in
      let (all_ok, final) = check_lines next lines in (ok && all_ok, final)

  -- `verify_audit(…)[0]`; `none` is a file that cannot be read.
  unfoldable pub verify_audit : Option (List Line) → Bool
  verify_audit none = false
  verify_audit (some lines) = (check_lines no_line lines).0
