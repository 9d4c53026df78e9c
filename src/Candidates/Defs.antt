-- ===== src/Candidates/Defs.antt =====
-- `create_candidate`, `update_candidate` and `delete_candidate` (app/routes/candidates.py). What an
-- update assigned before it was refused is rolled back when the session ends.
use secure_voting_platform.Prelude.{
  ℕ, suc, Bool, true, ◌&&◌, ◌||◌, not, Option, none, some, List, [], ◌∷◌, ◌==◌, find, update,
  delete, if◌then◌else◌,
}
use secure_voting_platform.Prelude.Int.{ℤ, is_id}
use secure_voting_platform.Prelude.Text.{Text, codes, is_empty, strip, int_of_text}
use secure_voting_platform.Models.{
  Store, User, Region, Election, Candidate, is_draft, has_role, owns, record_audit_event,
}
use secure_voting_platform.Outcome.{
  Outcome, done, refuse, Refusal, candidate_fields_required, invalid_region, roster_frozen,
  outside_delegate_region, candidate_name_required, position_required, not_found, refuse_if,
  or_refuse, ◌>>=◌, ◌>>◌,
}
use secure_voting_platform.Elections.{roles_required, manager, field_text}

pub record CandidateForm : Type 0 where
  pub name : Option Text
  pub party : Option Text
  pub position : Option Text
  pub region_id : Option Text
  pub election_id : Option Text

abbrev delegate_or_manager : List Text
delegate_or_manager = codes "delegate" ∷ codes "manager" ∷ []

-- A delegate who is no manager, and is not enrolled in the region.
unfoldable pub outside_region_of : User → ℕ → Store → Bool
outside_region_of u region s =
    has_role (codes "delegate" ∷ []) u
    && not (has_role manager u)
    && (elim (find (owns u.id) s.rolls) [ none ↦ true | some e ↦ not (e.region_id == region) ])

-- The same for the region number of a form, which need not name a region.
unfoldable pub outside_any_region : User → ℤ → Store → Bool
outside_any_region u z s =
    has_role (codes "delegate" ∷ []) u
    && not (has_role manager u)
    && (elim (find (owns u.id) s.rolls) [ none ↦ true | some e ↦ not (is_id z e.region_id) ])

-- `party or None`
abbrev or_none : Text → Option Text
or_none t = if is_empty t then none else some t

-- `not region_id_raw`
abbrev blank : Option Text → Bool
blank none = true
blank (some t) = is_empty t

abbrev pub raw_text : Option Text → Text
raw_text none = []
raw_text (some t) = t

abbrev audit_candidate : Text → User → ℕ → Store → Store
audit_candidate action u id =
    record_audit_event (record {
      actor = some u.id;
      action = action;
      target_type = codes "candidate";
      target_id = id;
    })

-- The election of a request, if it is a draft.
unfoldable pub draft_election : (Election → Bool) → Store → Outcome Election
draft_election p s = do
  e ← or_refuse (find p s.elections) roster_frozen
  refuse_if (not (is_draft e.status)) roster_frozen
  done e

unfoldable pub region_of : ℤ → Store → Outcome Region
region_of z s = or_refuse (find (λ r. is_id z r.id) s.regions) invalid_region

-- `create_candidate` up to the new row.
unfoldable pub new_candidate : User → CandidateForm → Store → Outcome Candidate
new_candidate u form s = do
  roles_required delegate_or_manager u
  let name = field_text form.name
  let position = field_text form.position
  refuse_if (is_empty name || is_empty position || blank form.region_id || blank form.election_id)
      candidate_fields_required
  region_number ← or_refuse (int_of_text 10 (raw_text form.region_id)) invalid_region
  election_number ← or_refuse (int_of_text 10 (raw_text form.election_id)) invalid_region
  e ← draft_election (λ x. is_id election_number x.id) s
  region ← region_of region_number s
  refuse_if (outside_region_of u region.id s) outside_delegate_region
  done (record {
    id = s.next_id;
    name = name;
    party = or_none (field_text form.party);
    position = position;
    region_id = region.id;
    election_id = e.id;
  })

-- `create_candidate`
unfoldable pub create_candidate : User → CandidateForm → Store → Outcome Store
create_candidate u form s = do
  c ← new_candidate u form s
  done (
      audit_candidate (codes "candidate.create") u c.id
        (record s { candidates = c ∷ s.candidates; next_id = suc s.next_id }))

abbrev pub named : ℕ → Candidate → Bool
named id c = c.id == id

-- The candidate of a request, in a draft election, and in the delegate's region.
unfoldable pub editable : User → ℕ → Store → Outcome Candidate
editable u id s = do
  roles_required delegate_or_manager u
  c ← or_refuse (find (named id) s.candidates) not_found
  e ← draft_election (λ x. x.id == c.election_id) s
  refuse_if (outside_region_of u c.region_id s) outside_delegate_region
  done c

-- A field that the form leaves out keeps its value; a blank one is refused.
abbrev new_text : Refusal → Text → Option Text → Outcome Text
new_text r old none = done old
new_text r old (some t) = if is_empty (strip t) then refuse r else done (strip t)

abbrev new_party : Option Text → Option Text → Option Text
new_party old none = old
new_party old (some t) = or_none (strip t)

unfoldable pub new_region : User → ℕ → Option Text → Store → Outcome ℕ
new_region u old none s = done old
new_region u old (some t) s = do
  z ← or_refuse (int_of_text 10 t) invalid_region
  refuse_if (outside_any_region u z s) outside_delegate_region
  region ← region_of z s
  done region.id

-- What an update writes into the candidate's row.
pub record Changes : Type 0 where
  pub name : Text
  pub party : Option Text
  pub position : Text
  pub region_id : ℕ

unfoldable pub changes : User → Candidate → CandidateForm → Store → Outcome Changes
changes u c form s = do
  name ← new_text candidate_name_required c.name form.name
  position ← new_text position_required c.position form.position
  region ← new_region u c.region_id form.region_id s
  done (record {
    name = name;
    party = new_party c.party form.party;
    position = position;
    region_id = region;
  })

abbrev pub apply_changes : Changes → Candidate → Candidate
apply_changes n c = record c {
  name = n.name;
  party = n.party;
  position = n.position;
  region_id = n.region_id;
}

-- `update_candidate`
unfoldable pub update_candidate : User → ℕ → CandidateForm → Store → Outcome Store
update_candidate u id form s = do
  c ← editable u id s
  n ← changes u c form s
  done (
      audit_candidate (codes "candidate.update") u c.id
        (record s { candidates = update (named c.id) (apply_changes n) s.candidates }))

-- `delete_candidate`; the relationship `votes` deletes the candidate's votes too.
unfoldable pub delete_candidate : User → ℕ → Store → Outcome Store
delete_candidate u id s = do
  c ← editable u id s
  done (
      audit_candidate (codes "candidate.delete") u c.id (record s {
        candidates = delete (named c.id) s.candidates;
        votes = delete (λ v. v.candidate_id == c.id) s.votes;
      }))
