-- ===== src/Elections/Defs.antt =====
-- `create_election`, `open_election` and `close_election` (app/routes/elections.py), and the role guard
-- of app/utils/auth_decorators.py. A refusal keeps nothing: what a handler assigned without a commit is
-- rolled back when the session ends. `datetime.fromisoformat` in UTC is a parameter.
use secure_voting_platform.Prelude.{
  ℕ, suc, Bool, false, ◌&&◌, not, Option, none, some, List, [], ◌∷◌, ◌==◌, any, find, select,
  update, is_some, if◌then◌else◌, leb,
}
use secure_voting_platform.Prelude.Text.{Text, codes, is_empty, strip}
use secure_voting_platform.Models.{
  Store, User, Election, Status, is_draft, is_status_open, in_election, has_role,
  record_audit_event,
}
use secure_voting_platform.Keys.{
  PublicKey, Attempt, Components, KeyResult, ok, key_error, value_error, os_error,
  ensure_election_blind_signing_key,
}
use secure_voting_platform.Outcome.{
  Outcome, done, refuse, Refusal, forbidden, name_required, invalid_open_time, invalid_close_time,
  close_before_open, not_found, not_draft, recovery_required, other_election_open, no_candidates,
  not_single_contest, not_open, key_unavailable, server_error, refuse_if, or_refuse, ◌>>=◌, ◌>>◌,
  Server, Session, begin, commit_session, end_request, with_keys,
}
use secure_voting_platform.Voters.{is_single_contest}

-- `roles_required(*allowed)` on the logged-in user
abbrev pub roles_required : List Text → User → Outcome (Unit {0})
roles_required allowed u = refuse_if (not (has_role allowed u)) forbidden

abbrev pub manager : List Text
manager = codes "manager" ∷ []

abbrev audit_election : Text → User → ℕ → Store → Store
audit_election action u id =
    record_audit_event (record {
      actor = some u.id;
      action = action;
      target_type = codes "election";
      target_id = id;
    })

pub record ElectionForm : Type 0 where
  pub name : Option Text
  pub open_at : Option Text
  pub close_at : Option Text

-- `(request.form.get(k) or '').strip()`
abbrev pub field_text : Option Text → Text
field_text none = []
field_text (some t) = strip t

abbrev parse_time : (Text → Option ℕ) → Refusal → Option Text → Outcome (Option ℕ)
parse_time parse r none = done none
parse_time parse r (some t) =
    if is_empty t then done none else (or_refuse (parse t) r >>= λ v. done (some v))

-- `close_at and open_at and close_at <= open_at`
abbrev pub closes_before : Option ℕ → Option ℕ → Bool
closes_before (some c) (some o) = leb c o
closes_before _ _ = false

-- `create_election` up to the new row.
unfoldable pub new_election : (Text → Option ℕ) → ℕ → User → ElectionForm → ℕ → Outcome Election
new_election parse now u form id = do
  roles_required manager u
  let name = field_text form.name
  refuse_if (is_empty name) name_required
  open_at ← parse_time parse invalid_open_time form.open_at
  close_at ← parse_time parse invalid_close_time form.close_at
  refuse_if (closes_before close_at open_at) close_before_open
  done (record {
    id = id;
    name = name;
    status = Status.draft;
    open_at = open_at;
    close_at = close_at;
    blind_signing_key_id = none;
    blind_key_recovery_required = false;
    created_by = some u.id;
    created_at = now;
  })

-- `create_election`
unfoldable pub create_election : (Text → Option ℕ) → ℕ → User → ElectionForm → Store → Outcome Store
create_election parse now u form s = do
  e ← new_election parse now u form s.next_id
  done (
      audit_election (codes "election.create") u e.id
        (record s { elections = e ∷ s.elections; next_id = suc s.next_id }))

abbrev pub other_open : ℕ → Election → Bool
other_open id e = is_status_open e.status && not (e.id == id)

-- `open_election` up to the key.
unfoldable pub may_open : User → ℕ → Store → Outcome Election
may_open u id s = do
  roles_required manager u
  e ← or_refuse (find (λ x. x.id == id) s.elections) not_found
  refuse_if (not (is_draft e.status)) not_draft
  refuse_if e.blind_key_recovery_required recovery_required
  refuse_if (any (other_open e.id) s.elections) other_election_open
  let candidates = select (in_election e.id) s.candidates
  refuse_if (not (any (in_election e.id) s.candidates)) no_candidates
  refuse_if (not (is_single_contest candidates)) not_single_contest
  done e

-- The row of an election that opens.
abbrev pub opened : ℕ → Text → Election → Election
opened now key_id e = record e {
  status = Status.open_;
  open_at = (elim e.open_at [ none ↦ some now | some t ↦ some t ]);
  blind_signing_key_id = some key_id;
}

abbrev pub has_id : ℕ → Election → Bool
has_id id e = e.id == id

-- The row with the assignments of `open_election`.
abbrev pub assign_opening : ℕ → Election → Components → Session → Session
assign_opening now e c q = record q {
  working = record q.working {
    elections = update (has_id e.id) (opened now c.key_id) q.working.elections;
  };
}

-- The event of an opening, recorded after the commit.
abbrev audit_opening : User → Election → Session → Session
audit_opening u e q = record q {
  committed = audit_election (codes "election.open") u e.id q.committed;
}

-- `open_election` from the assignments on: close times in the wrong order are refused after them and
-- before the commit.
unfoldable pub record_opening :
    ℕ → User → Election → Components → Session → Outcome (Unit {0}) × Session
record_opening now u e c q =
    let e' = opened now c.key_id e in
    let assigned = assign_opening now e c q in
    if closes_before e'.close_at e'.open_at
    then (refuse close_before_open, assigned)
    else (done tt, audit_opening u e (commit_session assigned))

-- Only a BlindSigningKeyError is caught.
abbrev pub provisioned : KeyResult Components → Outcome Components
provisioned (ok c) = done c
provisioned (key_error _) = refuse key_unavailable
provisioned value_error = refuse server_error
provisioned os_error = refuse server_error

abbrev pub finish_open :
    ℕ → User → Election → Outcome Components × Server → Outcome (Unit {0}) × Server
finish_open now u e (done c, s) = end_request (record_opening now u e c (begin s.db)) s
finish_open now u e (refuse r, s) = (refuse r, s)

module _ (fingerprint : PublicKey → Text) (attempt : Attempt) where
  abbrev pub run_open : ℕ → User → Outcome Election → Server → Outcome (Unit {0}) × Server
  run_open now u (refuse r) s = (refuse r, s)
  run_open now u (done e) s = finish_open now u e (
      with_keys
        (ensure_election_blind_signing_key fingerprint attempt
          (not (is_some e.blind_signing_key_id)) e.id e.blind_signing_key_id)
        provisioned s)

  -- `open_election`
  unfoldable pub open_election : ℕ → User → ℕ → Server → Outcome (Unit {0}) × Server
  open_election now u id s = run_open now u (may_open u id s.db) s

abbrev pub closed_row : ℕ → Election → Election
closed_row now e = record e { status = Status.closed; close_at = some now }

-- `close_election`
unfoldable pub close_election : ℕ → User → ℕ → Store → Outcome Store
close_election now u id s = do
  roles_required manager u
  e ← or_refuse (find (has_id id) s.elections) not_found
  refuse_if (not (is_status_open e.status)) not_open
  done (
      audit_election (codes "election.close") u e.id
        (record s { elections = update (has_id e.id) (closed_row now) s.elections }))
