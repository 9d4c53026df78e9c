-- ===== src/Models/Elections.antt =====
-- Elections and candidates (app/models.py). The check constraint on `status` is the data type.
use secure_voting_platform.Prelude.{ℕ, Bool, true, false, ◌&&◌, not, Option, none, some, ltb}
use secure_voting_platform.Prelude.Text.{Text}

pub data Status : Type 0 where
  draft open_ closed : Status

pub record Election : Type 0 where
  pub id : ℕ
  pub name : Text
  pub status : Status
  pub open_at : Option ℕ
  pub close_at : Option ℕ
  pub blind_signing_key_id : Option Text
  pub blind_key_recovery_required : Bool
  pub created_by : Option ℕ
  pub created_at : ℕ

pub record Candidate : Type 0 where
  pub id : ℕ
  pub name : Text
  pub party : Option Text
  pub position : Text
  pub region_id : ℕ
  pub election_id : ℕ

abbrev pub is_draft : Status → Bool
is_draft Status.draft = true
is_draft _ = false

abbrev pub is_status_open : Status → Bool
is_status_open Status.open_ = true
is_status_open _ = false

-- `Election.is_open`
unfoldable pub is_open : ℕ → Election → Bool
is_open now e =
    is_status_open e.status
    && not e.blind_key_recovery_required
    && not (elim e.open_at [ none ↦ false | some t ↦ ltb now t ])
    && not (elim e.close_at [ none ↦ false | some t ↦ ltb t now ])
