-- ===== src/Elections/History.antt =====
-- Sequences of served requests that create, open and close elections (app/routes/elections.py).
use secure_voting_platform.Prelude.{ℕ, ◌≤◌, ◌≡◌, Option, none, some, find, arith}
use secure_voting_platform.Prelude.Text.{Text}
use secure_voting_platform.Models.{User, Status}
use secure_voting_platform.Keys.{PublicKey, Attempt}
use secure_voting_platform.Outcome.{done, Server}
use secure_voting_platform.Elections.Defs.{
  ElectionForm, create_election, open_election, close_election, has_id,
}
use secure_voting_platform.Elections.Lifecycle.{
  Advance, status_in, open_election-Advance, close_election-Advance, create_election-Advance,
}

-- How far an election is: not there, draft, open, closed.
abbrev pub stage : Option Status → ℕ
stage none = 0
stage (some Status.draft) = 1
stage (some Status.open_) = 2
stage (some Status.closed) = 3

Advance-stage : (o p : Option Status) → Advance o p → stage o ≤ stage p
Advance-stage o p (Advance.stays _) = omega arith
Advance-stage o p (Advance.creates before after) = rw (before, after) (omega arith)
Advance-stage o p (Advance.opens before after) = rw (before, after) (omega arith)
Advance-stage o p (Advance.closes before after) = rw (before, after) (omega arith)

module _ (fingerprint : PublicKey → Text) where
  -- A request that was served. The identifier of a new election is one that no election has.
  pub data Served : Server → Server → Type 0 where
    created :
        (parse : Text → Option ℕ) (now : ℕ) (u : User) (form : ElectionForm) (s t : Server)
        → find (has_id s.db.next_id) s.db.elections ≡ none
        → create_election parse now u form s.db ≡ done t.db
        → Served s t
    opened :
        (attempt : Attempt) (now : ℕ) (u : User) (id : ℕ) (s t : Server)
        → open_election fingerprint attempt now u id s ≡ (done tt, t)
        → Served s t
    closed :
        (now : ℕ) (u : User) (id : ℕ) (s t : Server)
        → close_election now u id s.db ≡ done t.db
        → Served s t

  pub data History : Server → Server → Type 0 where
    start : (s : Server) → History s s
    step : (s t v : Server) → Served s t → History t v → History s v

  Served-Advance :
      (s t : Server) (id : ℕ)
      → Served s t
      → Advance (status_in id s.db.elections) (status_in id t.db.elections)
  Served-Advance s t id (Served.created parse now u form _ _ unused h) =
      create_election-Advance parse now u form s.db t.db id unused h
  Served-Advance s t id (Served.opened attempt now u k _ _ h) =
      open_election-Advance fingerprint attempt now u k s t id h
  Served-Advance s t id (Served.closed now u k _ _ h) =
      close_election-Advance now u k s.db t.db id h

  -- Through any sequence of served requests that create, open and close elections, every election
  -- only moves forward, from draft to open to closed: it is never a draft or open again. The
  -- identifier of a new election is one that no election has.
  pub History-forward :
      (s t : Server) (id : ℕ)
      → History s t
      → stage (status_in id s.db.elections) ≤ stage (status_in id t.db.elections)
  History-forward s t id (History.start _) = omega arith
  History-forward s t id (History.step _ m _ served rest) = omega (
    arith,
    Advance-stage (status_in id s.db.elections) (status_in id m.db.elections)
        (Served-Advance s m id served),
    History-forward m t id rest,
  )
