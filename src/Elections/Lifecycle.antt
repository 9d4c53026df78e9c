-- ===== src/Elections/Lifecycle.antt =====
-- The status of an election and the steps that move it (app/routes/elections.py).
use secure_voting_platform.Prelude.{
  ℕ, true, false, ◌≡◌, refl, sym, ap, ◌∙◌, Option, none, some, List, ◌∷◌, ◌==◌, find, find-holds,
  find-update, update, arith, ==_iff, inl, inr, Bool-cases, Option-cases,
}
use secure_voting_platform.Prelude.Text.{Text}
use secure_voting_platform.Models.{
  Store, User, Election, Status, is_status_open, record_audit_event,
}
use secure_voting_platform.Keys.{PublicKey, Attempt}
use secure_voting_platform.Outcome.{done, Server, >>=-eq-done}
use secure_voting_platform.Elections.Defs.{
  new_election, ElectionForm, create_election, opened, open_election, closed_row, close_election,
  has_id, closes_before,
}
use secure_voting_platform.Elections.Opening.{open_election-Opens}

abbrev status : Option Election → Option Status
status none = none
status (some e) = some e.status

-- The status of an election, if it exists.
abbrev pub status_in : ℕ → List Election → Option Status
status_in id es = status (find (has_id id) es)

-- The moves of one election's status; `none` is an election that does not exist.
pub data Advance : Option Status → Option Status → Type 0 where
  stays : (o : Option Status) → Advance o o
  creates : {o p : Option Status} → o ≡ none → p ≡ some Status.draft → Advance o p
  opens : {o p : Option Status} → o ≡ some Status.draft → p ≡ some Status.open_ → Advance o p
  closes : {o p : Option Status} → o ≡ some Status.open_ → p ≡ some Status.closed → Advance o p

-- An update of one election's row, seen at any election.
update-Advance :
    (f : Election → Election) (k other : ℕ) (es : List Election) (e : Election)
    → ((x : Election) → (f x).id ≡ x.id)
    → find (has_id k) es ≡ some e
    → Advance (some e.status) (some (f e).status)
    → Advance (status_in other es) (status_in other (update (has_id k) f es))
update-Advance f k other es e keeps found move =
    let moved = find-update (λ (x : Election). x.id) f other k es keeps in
    elim (Bool-cases (k == other)) [
      | inl same ↦
          let k_is : k ≡ other = (==_iff k other).0 same in
          let before : find (has_id other) es ≡ some e = rw k_is at found in
          let after : find (has_id other) (update (has_id k) f es) ≡ some (f e) =
            ground (arith, moved, before) in
          rw (before, after) move
      | inr different ↦
          let after : find (has_id other) (update (has_id k) f es) ≡ find (has_id other) es =
            ground (arith, moved) in
          rw after (Advance.stays _)
    ]

is_status_open-eq : (x : Status) → is_status_open x ≡ true → x ≡ Status.open_
is_status_open-eq Status.open_ h = refl
is_status_open-eq Status.draft h = absurd (cc h)
is_status_open-eq Status.closed h = absurd (cc h)

module _ (fingerprint : PublicKey → Text) (attempt : Attempt) where
  -- Opening an election moves its status from draft to open, and no other election's.
  pub open_election-Advance :
      (now : ℕ) (u : User) (id : ℕ) (s t : Server) (other : ℕ)
      → open_election fingerprint attempt now u id s ≡ (done tt, t)
      → Advance (status_in other s.db.elections) (status_in other t.db.elections)
  open_election-Advance now u id s t other h =
      let o = open_election-Opens fingerprint attempt now u id s t h in
      rw o.stored (
        update-Advance (opened now (fingerprint o.pair.public_key)) id other s.db.elections o.row
          (λ x. refl) o.found (Advance.opens (ap some o.was_draft) refl))

-- What a closing found and did.
pub close_election-eq-done :
    (now : ℕ) (u : User) (id : ℕ) (s t : Store)
    → close_election now u id s ≡ done t
    → (e : Election) × (find (has_id id) s.elections ≡ some e)
      × (e.status ≡ Status.open_)
      × (t.elections ≡ update (has_id id) (closed_row now) s.elections)
      × (t.candidates ≡ s.candidates)
      × (t.votes ≡ s.votes)
unfolding close_election record_audit_event
close_election-eq-done now u id s t h = elim (Option-cases (find (has_id id) s.elections)) [
  | inl missing ↦ absurd (ground (arith, missing))
  | inr (e, found) ↦
      let same = (==_iff e.id id).0 (find-holds (has_id id) s.elections {a = e} found) in
      (
        e,
        found,
        is_status_open-eq e.status (ground (arith, found)),
        ground (arith, found, same),
        ground (arith, found),
        ground (arith, found),
      )
]

-- Closing an election moves its status from open to closed, and no other election's.
pub close_election-Advance :
    (now : ℕ) (u : User) (id : ℕ) (s t : Store) (other : ℕ)
    → close_election now u id s ≡ done t
    → Advance (status_in other s.elections) (status_in other t.elections)
close_election-Advance now u id s t other h =
    let (e, found, was_open, stored, _, _) = close_election-eq-done now u id s t h in
    rw stored (
      update-Advance (closed_row now) id other s.elections e (λ x. refl) found
        (Advance.closes (ap some was_open) refl))

new_election-eq-done :
    (parse : Text → Option ℕ) (now : ℕ) (u : User) (form : ElectionForm) (id : ℕ) {e : Election}
    → new_election parse now u form id ≡ done e
    → (e.id ≡ id) × (e.status ≡ Status.draft) × (closes_before e.close_at e.open_at ≡ false)
unfolding new_election
new_election-eq-done parse now u form id {e} h = (ground arith, ground arith, ground arith)

-- An election that was created is a draft that does not close before it opens.
pub create_election-eq-done :
    (parse : Text → Option ℕ) (now : ℕ) (u : User) (form : ElectionForm) (s t : Store)
    → create_election parse now u form s ≡ done t
    → (e : Election) × (e.id ≡ s.next_id)
      × (e.status ≡ Status.draft)
      × (closes_before e.close_at e.open_at ≡ false)
      × (t.elections ≡ e ∷ s.elections)
unfolding create_election record_audit_event
create_election-eq-done parse now u form s t h =
    let (e, made, stored) = >>=-eq-done (new_election parse now u form s.next_id) _ h in
    let (named, drafted, ordered) = new_election-eq-done parse now u form s.next_id made in
    (e, named, drafted, ordered, ground arith)

-- Creating an election adds a draft, and moves no election that exists, if the identifier that the
-- database assigns is new.
pub create_election-Advance :
    (parse : Text → Option ℕ) (now : ℕ) (u : User) (form : ElectionForm) (s t : Store) (other : ℕ)
    → find (has_id s.next_id) s.elections ≡ none
    → create_election parse now u form s ≡ done t
    → Advance (status_in other s.elections) (status_in other t.elections)
create_election-Advance parse now u form s t other unused h =
    let (e, named, drafted, _, stored) = create_election-eq-done parse now u form s t h in
    rw stored (elim (Bool-cases (e.id == other)) [
      | inl same ↦
          let is_new : s.next_id ≡ other = sym named ∙ (==_iff e.id other).0 same in
          let absent : find (has_id other) s.elections ≡ none = rw is_new at unused in
          rw same (Advance.creates (rw absent refl) (ap some drafted))
      | inr different ↦ rw different (Advance.stays _)
    ])
