-- ===== src/Candidates/Roster.antt =====
-- The roster of an election, and the steps that edit it (app/routes/candidates.py).
use secure_voting_platform.Prelude.{
  Bool, none, find-holds, ℕ, ◌≤◌, true, false, ◌≡◌, refl, some, List, [], ◌∷◌, ◌==◌, find, select,
  update, delete, count, update-none, delete-none, any-count_zero, arith, ==_iff, inl, inr,
  Bool-cases, Option-cases,
}
use mathlib.Core.Path.{sym, subst}
use secure_voting_platform.Prelude.Int.{ℤ, pos, negsuc, is_id}
use secure_voting_platform.Prelude.Text.{int_of_text}
use secure_voting_platform.Models.{
  record_audit_event, Store, User, Election, Candidate, is_draft, in_election,
}
use secure_voting_platform.Outcome.{>>=-eq-done, Outcome, done, refuse, Refusal}
use secure_voting_platform.Elections.{has_id}
use secure_voting_platform.Candidates.Defs.{
  raw_text, apply_changes, changes, new_candidate, CandidateForm, update_candidate,
  create_candidate, delete_candidate, editable, draft_election, named, outside_region_of,
}

-- The election does not take part in roster changes.
pub record IsFrozen (eid : ℕ) (s : Store) : Type 0 where
  pub row : Election
  pub found : find (has_id eid) s.elections ≡ some row
  pub not_draft : is_draft row.status ≡ false

abbrev pub roster : ℕ → Store → List Candidate
roster eid s = select (in_election eid) s.candidates

draft_election-eq-done :
    (eid : ℕ) (s : Store) {e : Election}
    → draft_election (has_id eid) s ≡ done e
    → (find (has_id eid) s.elections ≡ some e) × (is_draft e.status ≡ true)
unfolding draft_election
draft_election-eq-done eid s {e} h = (ground arith, ground arith)

done-cases :
    {A : Type 0} (o : Outcome A) → ((r : Refusal) → o ≡ refuse r → ⊥) → (a : A) × (o ≡ done a)
done-cases (done a) no_refusal = (a, refl)
done-cases (refuse r) no_refusal = absurd (no_refusal r refl)

-- A draft election is no frozen one.
draft-ne-frozen :
    (eid other : ℕ) (s : Store) {e : Election}
    → IsFrozen eid s
    → draft_election (has_id other) s ≡ done e
    → (other == eid) ≡ false
draft-ne-frozen eid other s {e} frozen h =
    let (found, drafted) = draft_election-eq-done other s h in
    elim (Bool-cases (other == eid)) [
      | inr different ↦ different
      | inl same ↦
          let found' : find (has_id eid) s.elections ≡ some e =
            rw ((==_iff other eid).0 same) at found in
          absurd (ground (arith, found', frozen.found, drafted, frozen.not_draft))
    ]

editable_draft :
    (u : User) (id : ℕ) (s : Store) {c : Candidate}
    → editable u id s ≡ done c
    → (e : Election) × (draft_election (has_id c.election_id) s ≡ done e)
unfolding editable
editable_draft u id s {c} h = elim (Option-cases (find (named id) s.candidates)) [
  | inl missing ↦ absurd (ground (arith, missing))
  | inr (c', listed) ↦
      let here : c' ≡ c = ground (arith, listed) in
      rw here at (
        done-cases (draft_election (has_id c'.election_id) s)
          (λ r refused. ground (arith, listed, refused)))
]

editable-eq-done :
    (u : User) (id : ℕ) (s : Store) {c : Candidate}
    → editable u id s ≡ done c
    → (find (named id) s.candidates ≡ some c)
      × (e : Election) × (draft_election (has_id c.election_id) s ≡ done e)
      × (outside_region_of u c.region_id s ≡ false)
unfolding editable
editable-eq-done u id s {c} h = elim (Option-cases (find (named id) s.candidates)) [
  | inl missing ↦ absurd (ground (arith, missing))
  | inr (c', listed) ↦
      let here : c' ≡ c = ground (arith, listed) in
      let drafted = editable_draft u id s h in
      (rw here at listed, drafted.0, drafted.1, ground (arith, listed, drafted.1))
]

select-update_row :
    (eid k : ℕ) (f : Candidate → Candidate) (cs : List Candidate) (c : Candidate)
    → ((x : Candidate) → (f x).election_id ≡ x.election_id)
    → find (named k) cs ≡ some c
    → count (named k) cs ≤ 1
    → (c.election_id == eid) ≡ false
    → select (in_election eid) (update (named k) f cs) ≡ select (in_election eid) cs
select-update_row eid k f [] c keeps found once other = refl
select-update_row eid k f (x ∷ cs) c keeps found once other =
    ground (arith, keeps x, update-none (named k) f cs, select-update_row eid k f cs c keeps)

select-delete_row :
    (eid k : ℕ) (cs : List Candidate) (c : Candidate)
    → find (named k) cs ≡ some c
    → count (named k) cs ≤ 1
    → (c.election_id == eid) ≡ false
    → select (in_election eid) (delete (named k) cs) ≡ select (in_election eid) cs
select-delete_row eid k [] c found once other = refl
select-delete_row eid k (x ∷ cs) c found once other =
    ground
      (arith, delete-none (named k) cs, any-count_zero (named k) cs, select-delete_row eid k cs c)

-- A roster request of one user that was answered.
pub data RosterStep (u : User) (s t : Store) : Type 0 where
  create : (form : CandidateForm) → create_candidate u form s ≡ done t → RosterStep u s t
  change :
      (id : ℕ) (form : CandidateForm) → update_candidate u id form s ≡ done t → RosterStep u s t
  remove : (id : ℕ) → delete_candidate u id s ≡ done t → RosterStep u s t

-- What an answered request did to the candidates, by the row that it was about.
data Effect (s t : Store) : Type 0 where
  added :
      (c : Candidate) (e : Election)
      → t.candidates ≡ c ∷ s.candidates
      → draft_election (has_id c.election_id) s ≡ done e
      → Effect s t
  changed :
      (c : Candidate) (e : Election) (f : Candidate → Candidate)
      → ((x : Candidate) → (f x).election_id ≡ x.election_id)
      → find (named c.id) s.candidates ≡ some c
      → draft_election (has_id c.election_id) s ≡ done e
      → t.candidates ≡ update (named c.id) f s.candidates
      → Effect s t
  removed :
      (c : Candidate) (e : Election)
      → find (named c.id) s.candidates ≡ some c
      → draft_election (has_id c.election_id) s ≡ done e
      → t.candidates ≡ delete (named c.id) s.candidates
      → Effect s t

editable-found :
    (u : User) (id : ℕ) (s : Store) {c : Candidate}
    → editable u id s ≡ done c
    → find (named c.id) s.candidates ≡ some c
editable-found u id s {c} h =
    let found = (editable-eq-done u id s h).0 in
    let same = (==_iff c.id id).0 (find-holds (named id) s.candidates {a = c} found) in
    subst (λ (k : ℕ). find (named k) s.candidates ≡ some c) (sym same) found

find_cong :
    {A : Type 0} (p q : A → Bool) (xs : List A) → ((x : A) → p x ≡ q x) → find p xs ≡ find q xs
find_cong p q [] h = refl
find_cong p q (x ∷ xs) h = ground (arith, h x, find_cong p q xs h)

draft_election-has_id :
    (z : ℤ) (s : Store) {e : Election}
    → draft_election (λ x. is_id z x.id) s ≡ done e
    → draft_election (has_id e.id) s ≡ done e
unfolding draft_election
draft_election-has_id (pos n) s {e} h =
    let found : find (λ (x : Election). n == x.id) s.elections ≡ some e = ground arith in
    let same = find-holds (λ (x : Election). n == x.id) s.elections {a = e} found in
    ground (
      arith,
      found,
      find_cong (λ (x : Election). n == x.id) (has_id e.id) s.elections (λ x. ground (arith, same)),
    )
draft_election-has_id (negsuc n) s {e} h = ground (arith, find_none s.elections)
  where
    find_none : (es : List Election) → find (λ x. false) es ≡ none
    find_none [] = refl
    find_none (x ∷ es) = find_none es

new_candidate_drafted :
    (u : User) (form : CandidateForm) (s : Store) {c : Candidate}
    → new_candidate u form s ≡ done c
    → (e : Election) × (draft_election (has_id c.election_id) s ≡ done e)
unfolding new_candidate
new_candidate_drafted u form s {c} h =
    elim (Option-cases (int_of_text 10 (raw_text form.election_id))) [
      | inl unread ↦ absurd (ground (arith, unread))
      | inr (z, read) ↦
          let (e, drafted) =
            done-cases (draft_election (λ x. is_id z x.id) s)
              (λ r refused. ground (arith, read, refused)) in
          let owner : c.election_id ≡ e.id = ground (arith, read, drafted) in
          (
            e,
            subst (λ (k : ℕ). draft_election (has_id k) s ≡ done e) (sym owner)
                (draft_election-has_id z s drafted),
          )
    ]

create_candidate-Effect :
    (u : User) (form : CandidateForm) (s t : Store)
    → create_candidate u form s ≡ done t
    → Effect s t
unfolding create_candidate record_audit_event
create_candidate-Effect u form s t h =
    let (c, made, stored) = >>=-eq-done (new_candidate u form s) _ h in
    let (e, drafted) = new_candidate_drafted u form s made in
    Effect.added c e (ground arith) drafted

update_candidate-Effect :
    (u : User) (id : ℕ) (form : CandidateForm) (s t : Store)
    → update_candidate u id form s ≡ done t
    → Effect s t
unfolding update_candidate record_audit_event
update_candidate-Effect u id form s t h =
    let (c, may_edit, rest) = >>=-eq-done (editable u id s) _ h in
    let (n, _, stored) = >>=-eq-done (changes u c form s) _ rest in
    let (_, e, drafted, _) = editable-eq-done u id s may_edit in
    Effect.changed c e (apply_changes n) (λ x. refl) (editable-found u id s may_edit) drafted
      (ground arith)

delete_candidate-Effect :
    (u : User) (id : ℕ) (s t : Store) → delete_candidate u id s ≡ done t → Effect s t
unfolding delete_candidate record_audit_event
delete_candidate-Effect u id s t h =
    let (c, may_edit, stored) = >>=-eq-done (editable u id s) _ h in
    let (_, e, drafted, _) = editable-eq-done u id s may_edit in
    Effect.removed c e (editable-found u id s may_edit) drafted (ground arith)

RosterStep-Effect : {u : User} {s t : Store} → RosterStep u s t → Effect s t
RosterStep-Effect {u} {s} {t} (RosterStep.create form h) = create_candidate-Effect u form s t h
RosterStep-Effect {u} {s} {t} (RosterStep.change id form h) =
    update_candidate-Effect u id form s t h
RosterStep-Effect {u} {s} {t} (RosterStep.remove id h) = delete_candidate-Effect u id s t h

Effect-frozen :
    {s t : Store} (eid : ℕ)
    → ((id : ℕ) → count (named id) s.candidates ≤ 1)
    → IsFrozen eid s
    → Effect s t
    → roster eid t ≡ roster eid s
Effect-frozen {s} {t} eid once frozen (Effect.added c e stored drafted) =
    rw stored (ground (arith, draft-ne-frozen eid c.election_id s frozen drafted))
Effect-frozen {s} {t} eid once frozen (Effect.changed c e f keeps found drafted stored) =
    rw stored (
      select-update_row eid c.id f s.candidates c keeps found (once c.id)
        (draft-ne-frozen eid c.election_id s frozen drafted))
Effect-frozen {s} {t} eid once frozen (Effect.removed c e found drafted stored) = rw stored (
    select-delete_row eid c.id s.candidates c found (once c.id)
      (draft-ne-frozen eid c.election_id s frozen drafted))

-- Once an election has left the draft, no answered request to create, update or delete a candidate
-- changes its roster, if candidate identifiers are unique.
pub RosterStep-frozen :
    (u : User) (s t : Store) (eid : ℕ)
    → ((id : ℕ) → count (named id) s.candidates ≤ 1)
    → IsFrozen eid s
    → RosterStep u s t
    → roster eid t ≡ roster eid s
RosterStep-frozen u s t eid once frozen step =
    Effect-frozen eid once frozen (RosterStep-Effect step)
