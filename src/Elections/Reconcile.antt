-- ===== src/Elections/Reconcile.antt =====
-- `reconcile_open_election_keys` (app/services/election_key_service.py). The rows are those that the
-- query locks, with the ones that are not open passed over. The key that is made for an election, with
-- what the operating system answers, is `attempts` at its id.
use secure_voting_platform.Prelude.{
  ℕ, ◌+◌, Bool, true, false, ◌&&◌, not, ◌≡◌, refl, ap, none, some, List, [], ◌∷◌, ◌==◌, any, count,
  is_some, if◌then◌else◌, arith, inl, inr, Bool-cases, Option-cases,
}
use secure_voting_platform.Models.{Election, BlindSignatureToken, is_status_open}
use secure_voting_platform.Keys.{
  PublicKey, Attempt, KeyAction, KeyState, ok, key_error, and_then, recovery_needed,
  authorized_without_anchor, ensure_election_blind_signing_key, Components,
}
use secure_voting_platform.Keys.Anchor.{and_then-eq-ok, ensure-eq-ok, Holds, Holds-Extends}
use secure_voting_platform.Keys.{KeyPair, components}
use secure_voting_platform.Keys.Immutable.{Extends, Extends-refl, Extends-trans, ensure-Extends}
use mathlib.Core.Path.{subst}
use secure_voting_platform.Prelude.Text.{Text}

abbrev pub authorizes : ℕ → BlindSignatureToken → Bool
authorizes id t = t.election_id == id

abbrev pub anchor_row : Text → Election → Election
anchor_row key_id e = record e { blind_signing_key_id = some key_id }

-- An open election without an anchored key.
abbrev pub is_unanchored : Election → Bool
is_unanchored e = is_status_open e.status && not (is_some e.blind_signing_key_id)

-- The assignment after the key was checked: the row, and how much the counter goes up.
abbrev pub anchored_row : Election → Components → Election × ℕ
anchored_row e c = elim e.blind_signing_key_id [
  | none ↦ (anchor_row c.key_id e, 1)
  | some _ ↦ (e, 0)
]

else_of : {A : Type 0} {b : Bool} (x : A) {y z : A} → b ≡ false → (if b then x else y) ≡ z → y ≡ z
else_of {b = true} x e h = absurd (cc e)
else_of {b = false} x e h = h

module _ (fingerprint : PublicKey → Text) (attempts : ℕ → Attempt)
    (tokens : List BlindSignatureToken) where
  -- The body of the loop.
  unfoldable pub reconcile_one : Election → KeyAction (Election × ℕ)
  reconcile_one e k =
      if e.blind_key_recovery_required
      then (key_error recovery_needed, k)
      else if not (is_some e.blind_signing_key_id) && any (authorizes e.id) tokens
      then (key_error authorized_without_anchor, k)
      else and_then
          (ensure_election_blind_signing_key fingerprint (attempts e.id)
            (not (is_some e.blind_signing_key_id)) e.id e.blind_signing_key_id k)
          (λ c k'. (ok (anchored_row e c), k'))

  -- `reconcile_open_election_keys`: the rows after it and the number of new anchors.
  unfoldable pub reconcile_open_election_keys : List Election → KeyAction (List Election × ℕ)
  reconcile_open_election_keys [] k = (ok ([], 0), k)
  reconcile_open_election_keys (e ∷ es) k =
      if is_status_open e.status
      then and_then (reconcile_one e k) (λ (e', m) k'.
        and_then (reconcile_open_election_keys es k') (λ (es', n) k''. (ok (e' ∷ es', m + n), k'')))
      else and_then (reconcile_open_election_keys es k) (λ (es', n) k'. (ok (e ∷ es', n), k'))

  -- What becomes of a row: it stays, or an open election for which nothing was authorized gets its
  -- anchor.
  pub data Reconciled (keys : KeyState) : Election → Election → Type 0 where
    stays : (e : Election) → is_unanchored e ≡ false → Reconciled keys e e
    anchors :
        (e : Election) (pair : KeyPair)
        → is_unanchored e ≡ true
        → any (authorizes e.id) tokens ≡ false
        → Holds e.id pair keys
        → Reconciled keys e (record e { blind_signing_key_id = some (fingerprint pair.public_key) })

  Reconciled-Extends :
      {k k' : KeyState} (e e' : Election) → Extends k k' → Reconciled k e e' → Reconciled k' e e'
  Reconciled-Extends e e' x (Reconciled.stays _ settled) = Reconciled.stays e settled
  Reconciled-Extends e e' x (Reconciled.anchors _ pair missing unused held) =
      Reconciled.anchors e pair missing unused (Holds-Extends x held)

  pub data AllReconciled (keys : KeyState) : List Election → List Election → Type 0 where
    empty : AllReconciled keys [] []
    row :
        {e e' : Election} {es es' : List Election}
        → Reconciled keys e e'
        → AllReconciled keys es es'
        → AllReconciled keys (e ∷ es) (e' ∷ es')

  anchored_row-Reconciled :
      (e : Election) (c : Components) (pair : KeyPair) (k : KeyState) (e' : Election) (m : ℕ)
      → Holds e.id pair k
      → c ≡ components fingerprint pair
      → is_status_open e.status ≡ true
      → (not (is_some e.blind_signing_key_id) && any (authorizes e.id) tokens) ≡ false
      → anchored_row e c ≡ (e', m)
      → Reconciled k e e' × (m ≡ (if is_unanchored e then 1 else 0)) × (is_unanchored e' ≡ false)
  anchored_row-Reconciled e c pair k e' m held key is_o allowed h =
      elim (Option-cases e.blind_signing_key_id) [
        | inl absent ↦
            let same : e' ≡ anchor_row c.key_id e = ground (arith, absent) in
            let own : c.key_id ≡ fingerprint pair.public_key =
              ap (λ (d : Components). d.key_id) key in
            (
              rw (same, own)
                  (Reconciled.anchors e pair (ground (arith, absent)) (ground (arith, absent))
                    held),
              ground (arith, absent),
              rw same (ground arith),
            )
        | inr (key_id, anchored) ↦
            let same : e' ≡ e = ground (arith, anchored) in
            (
              rw same (Reconciled.stays e (ground (arith, anchored))),
              ground (arith, anchored),
              rw same (ground (arith, anchored)),
            )
      ]

  reconcile_one-Reconciled :
      (e : Election) (k : KeyState) {e' : Election} {m : ℕ} {k' : KeyState}
      → is_status_open e.status ≡ true
      → reconcile_one e k ≡ (ok (e', m), k')
      → Reconciled k' e e'
        × (m ≡ (if is_unanchored e then 1 else 0))
        × (is_unanchored e' ≡ false)
        × Extends k k'
  unfolding reconcile_one
  reconcile_one-Reconciled e k {e'} {m} {k'} is_o h =
      elim (Bool-cases e.blind_key_recovery_required) [
        | inl needed ↦ absurd (ground (arith, needed))
        | inr free ↦
            elim (Bool-cases
              (not (is_some e.blind_signing_key_id) && any (authorizes e.id) tokens)) [
                | inl ambiguous ↦ absurd (ground (arith, free, ambiguous))
                | inr allowed ↦
                    let checked =
                      ensure_election_blind_signing_key fingerprint (attempts e.id)
                        (not (is_some e.blind_signing_key_id)) e.id e.blind_signing_key_id k in
                    let go : Components → KeyAction (Election × ℕ) =
                      (λ c k''. (ok (anchored_row e c), k'')) in
                    let m_ok : and_then checked go ≡ (ok (e', m), k') =
                      else_of (key_error authorized_without_anchor, k) allowed
                        (else_of (key_error recovery_needed, k) free h) in
                    let (c, accepted, last) = and_then-eq-ok checked go m_ok in
                    let (pair, holds, key) =
                      ensure-eq-ok fingerprint (attempts e.id)
                        (not (is_some e.blind_signing_key_id)) e.id k e.blind_signing_key_id
                        (ap (λ x. x.0) accepted) in
                    let held : Holds e.id pair k' =
                      subst (Holds e.id pair) (ap (λ x. x.1) last) holds in
                    let (now, counted, done_with) =
                      anchored_row-Reconciled e c pair k' e' m held key is_o allowed
                        (ground (arith, last)) in
                    let kept =
                      ensure-Extends fingerprint (attempts e.id)
                        (not (is_some e.blind_signing_key_id)) e.id e.blind_signing_key_id k in
                    (now, counted, done_with, subst (Extends k) (ap (λ x. x.1) last) kept)
              ]
      ]

  -- A reconciliation that ends without an error leaves every open election with an anchored key:
  -- it anchors exactly the open elections without one, for which nothing was ever authorized,
  -- each by the fingerprint of the keypair that the process holds for it at the end, counts them, and
  -- changes no other row. No keypair is replaced.
  pub reconcile_open_election_keys-anchors :
      (es : List Election) (k : KeyState) (es' : List Election) (n : ℕ) (k' : KeyState)
      → reconcile_open_election_keys es k ≡ (ok (es', n), k')
      → AllReconciled k' es es'
        × (n ≡ count is_unanchored es)
        × (count is_unanchored es' ≡ 0)
        × Extends k k'
  unfolding reconcile_open_election_keys
  reconcile_open_election_keys-anchors [] k es' n k' h =
      let same : es' ≡ [] = ground (arith, h) in
      let keys : k ≡ k' = ground (arith, h) in
      (
        rw same AllReconciled.empty,
        ground (arith, h),
        rw same refl,
        subst (Extends k) keys (Extends-refl k),
      )
  reconcile_open_election_keys-anchors (e ∷ es) k es' n k' h =
      elim (Bool-cases (is_status_open e.status)) [
        | inr other ↦
            let h' = rw other at h in
            let ((rest, m), first, last) = and_then-eq-ok _ _ h' in
            let (rows, counted, clean, kept) =
              reconcile_open_election_keys-anchors es k rest m _ first in
            let same : es' ≡ e ∷ rest = ground (arith, last) in
            (
              rw same (
                  subst (λ z. AllReconciled z (e ∷ es) (e ∷ rest)) (ap (λ x. x.1) last)
                    (AllReconciled.row (Reconciled.stays e (ground (arith, other))) rows)),
              ground (arith, other, counted, last),
              rw same (ground (arith, other, clean)),
              subst (Extends k) (ap (λ x. x.1) last) kept,
            )
        | inl is_o ↦
            let h' = rw is_o at h in
            let ((e', i), first, later) = and_then-eq-ok _ _ h' in
            let ((rest, m), second, last) = and_then-eq-ok _ _ later in
            let (one, up, anchored, kept) = reconcile_one-Reconciled e k is_o first in
            let (rows, counted, clean, kept') =
              reconcile_open_election_keys-anchors es _ rest m _ second in
            let same : es' ≡ e' ∷ rest = ground (arith, last) in
            let final = ap (λ x. x.1) last in
            let settled = Reconciled-Extends e e' kept' one in
            (
              rw same (
                  subst (λ z. AllReconciled z (e ∷ es) (e' ∷ rest)) final
                    (AllReconciled.row settled rows)),
              ground (arith, up, counted, last),
              rw same (ground (arith, anchored, clean)),
              subst (Extends k) (ap (λ x. x.1) last) (Extends-trans kept kept'),
            )
      ]
