-- ===== src/Elections/Opening.antt =====
-- The opening of an election (app/routes/elections.py).
use secure_voting_platform.Prelude.{
  none, is_some, not, ℕ, ◌≤◌, true, false, ◌≡◌, refl, some, List, [], ◌∷◌, any, find, select, count,
  find-holds, update, arith, ==_iff,
}
use secure_voting_platform.Prelude.Text.{Text}
use secure_voting_platform.Models.{
  Store, User, Election, Status, is_draft, is_status_open, in_election, record_audit_event,
}
use mathlib.Core.Path.{ap, subst}
use secure_voting_platform.Keys.Anchor.{Holds, ensure-eq-ok}
use secure_voting_platform.Keys.{
  PublicKey, Attempt, Components, KeyState, KeyPair, key_error, value_error, os_error, ok,
  KeyResult, ensure_election_blind_signing_key,
}
use secure_voting_platform.Outcome.{Outcome, done, refuse, Server, begin, end_request}
use secure_voting_platform.Voters.{is_single_contest}
use secure_voting_platform.Elections.Defs.{
  provisioned, may_open, opened, record_opening, finish_open, run_open, open_election, has_id,
  other_open, closes_before,
}
use secure_voting_platform.Prelude.{Bool-cases, inl, inr}

may_open-eq-done :
    (u : User) (id : ℕ) (s : Store) {e : Election}
    → may_open u id s ≡ done e
    → (find (has_id id) s.elections ≡ some e)
      × (is_draft e.status ≡ true)
      × (any (other_open e.id) s.elections ≡ false)
      × (is_single_contest (select (in_election e.id) s.candidates) ≡ true)
unfolding may_open
may_open-eq-done u id s {e} h = (ground arith, ground arith, ground arith, ground arith)

record_opening-eq-done :
    (now : ℕ) (u : User) (e : Election) (c : Components) (s t : Server)
    → end_request (record_opening now u e c (begin s.db)) s ≡ (done tt, t)
    → (t.db.elections ≡ update (has_id e.id) (opened now c.key_id) s.db.elections)
      × (t.db.candidates ≡ s.db.candidates)
      × (closes_before e.close_at (opened now c.key_id e).open_at ≡ false)
      × (t.keys ≡ s.keys)
unfolding record_opening record_audit_event
record_opening-eq-done now u e c s t h =
    elim (Bool-cases (closes_before e.close_at (opened now c.key_id e).open_at)) [
      | inl late ↦ absurd (ground (arith, h, late))
      | inr in_order ↦ (
        ground (arith, h, in_order),
        ground (arith, h, in_order),
        in_order,
        ground (arith, h, in_order),
      )
    ]

finish_open-eq-done :
    (now : ℕ) (u : User) (e : Election) (o : Outcome Components) (s t : Server)
    → finish_open now u e (o, s) ≡ (done tt, t)
    → (c : Components) × (o ≡ done c)
      × (end_request (record_opening now u e c (begin s.db)) s ≡ (done tt, t))
finish_open-eq-done now u e (done c) s t h = (c, refl, h)
finish_open-eq-done now u e (refuse r) s t h = absurd (cc h)

provisioned-eq-done :
    (r : KeyResult Components) {c : Components} → provisioned r ≡ done c → r ≡ ok c
provisioned-eq-done (ok c) h = ground (arith, h)
provisioned-eq-done (key_error e) h = absurd (cc h)
provisioned-eq-done value_error h = absurd (cc h)
provisioned-eq-done os_error h = absurd (cc h)

-- What an opening found and did: `row` was the election's row, and `pair` is the keypair that the
-- process holds for the election afterwards.
pub record Opens (fingerprint : PublicKey → Text) (now id : ℕ) (s t : Store) (keys : KeyState)
    : Type 0 where
  pub row : Election
  pub pair : KeyPair
  pub found : find (has_id id) s.elections ≡ some row
  pub was_draft : row.status ≡ Status.draft
  pub alone : any (other_open id) s.elections ≡ false
  pub single : is_single_contest (select (in_election id) s.candidates) ≡ true
  pub held : Holds id pair keys
  pub stored :
      t.elections
      ≡ update
          (has_id id)
          (λ (e : Election). record e {
            status = Status.open_;
            open_at = (elim e.open_at [ none ↦ some now | some at ↦ some at ]);
            blind_signing_key_id = some (fingerprint pair.public_key);
          })
          s.elections
  pub roster : t.candidates ≡ s.candidates
  pub in_order :
      closes_before row.close_at (elim row.open_at [ none ↦ some now | some at ↦ some at ]) ≡ false

is_draft-eq : (x : Status) → is_draft x ≡ true → x ≡ Status.draft
is_draft-eq Status.draft h = refl
is_draft-eq Status.open_ h = absurd (cc h)
is_draft-eq Status.closed h = absurd (cc h)

module _ (fingerprint : PublicKey → Text) (attempt : Attempt) where
  -- An election that opens was a draft, no other election was open, and its roster is one region and
  -- one contest. Its row becomes open, in front of its closing time, and anchors the fingerprint of
  -- the keypair that the process holds for it from then on; the other rows and the roster stay.
  pub open_election-Opens :
      (now : ℕ) (u : User) (id : ℕ) (s t : Server)
      → open_election fingerprint attempt now u id s ≡ (done tt, t)
      → Opens fingerprint now id s.db t.db t.keys
  unfolding open_election
  open_election-Opens now u id s t h = go (may_open u id s.db) refl h
    where
      go :
          (o : Outcome Election)
          → may_open u id s.db ≡ o
          → run_open fingerprint attempt now u o s ≡ (done tt, t)
          → Opens fingerprint now id s.db t.db t.keys
      go (refuse r) eq h = absurd (cc h)
      go (done e) eq h =
          let (found, draft, alone, single) = may_open-eq-done u id s.db eq in
          let same = (==_iff e.id id).0 (find-holds (has_id id) s.db.elections {a = e} found) in
          let (c, provided, kept) = finish_open-eq-done now u e _ _ t h in
          let checked =
            ensure_election_blind_signing_key fingerprint attempt
              (not (is_some e.blind_signing_key_id)) e.id e.blind_signing_key_id s.keys in
          let (pair, holds, key) =
            ensure-eq-ok fingerprint attempt (not (is_some e.blind_signing_key_id)) e.id s.keys
              e.blind_signing_key_id (provisioned-eq-done checked.0 provided) in
          let (stored, roster, in_order, same_keys) = record_opening-eq-done now u e c _ t kept in
          let held : Holds e.id pair t.keys = rw same_keys holds in
          let own : c.key_id ≡ fingerprint pair.public_key =
            ap (λ (d : Components). d.key_id) key in
          record {
            row = e;
            pair = pair;
            held = subst (λ i. Holds i pair t.keys) same held;
            found = found;
            was_draft = is_draft-eq e.status draft;
            alone = rw same at alone;
            single = rw same at single;
            stored = rw (same, own) at stored;
            roster = roster;
            in_order = in_order;
          }

-- No election is open beside `id` before, and at most one after.
one_open_update :
    (now : ℕ) (key_id : Text) (id : ℕ) (es : List Election)
    → any (other_open id) es ≡ false
    → count (has_id id) es ≤ 1
    → count (λ (e : Election). is_status_open e.status) (update (has_id id) (opened now key_id) es)
      ≤ count (has_id id) es
one_open_update now key_id id [] alone once = omega arith
one_open_update now key_id id (e ∷ es) alone once = ground (arith, one_open_update now key_id id es)

-- Election identifiers are primary keys.
module _ (fingerprint : PublicKey → Text) (attempt : Attempt) where
  -- After an opening at most one election is open, if identifiers are unique.
  pub open_election-one_open :
      (now : ℕ) (u : User) (id : ℕ) (s t : Server)
      → count (has_id id) s.db.elections ≤ 1
      → open_election fingerprint attempt now u id s ≡ (done tt, t)
      → count (λ (e : Election). is_status_open e.status) t.db.elections ≤ 1
  open_election-one_open now u id s t once h =
      let o = open_election-Opens fingerprint attempt now u id s t h in
      rw o.stored (
        omega (
          arith,
          one_open_update now (fingerprint o.pair.public_key) id s.db.elections o.alone once,
        ))
