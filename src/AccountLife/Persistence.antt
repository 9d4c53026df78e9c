-- ===== src/AccountLife/Persistence.antt =====
-- An account through a sequence of requests.
use mathlib.Core.Path.{subst}
use secure_voting_platform.Prelude.{
  ℕ, ◌≤◌, ◌≡◌, refl, ap, sym, ◌∙◌, ==_iff, Bool, some, List, [], ◌∷◌, find, ◌==◌, arith, inl, inr,
  Bool-cases, find-holds, find-update_row,
}
use secure_voting_platform.Prelude.Text.{Text}
use secure_voting_platform.Models.{Store, User}
use secure_voting_platform.Accounts.{has_user_id}
use secure_voting_platform.AccountLife.Defs.{
  perform, perform_all, Request, Request, perform, perform_all,
}
use secure_voting_platform.AccountLife.Numbering.{Descending, ids, found-below, find-update_other}
use secure_voting_platform.AccountLife.Rules.{Step}
use secure_voting_platform.AccountLife.Refinement.{perform-Step}
use secure_voting_platform.AccountLife.Invariants.{
  identity, Identity, Revised-identity, Revised-version, IsSound, Step-IsSound,
}

module _ (generate_hash : Text → Text) (check_hash : (stored password : Text) → Bool) where
  -- An account stays, with what registration wrote in it, and its session version never goes down.
  abbrev pub Persists : ℕ → User → List User → Type 0
  Persists uid u vs =
      (u' : User) × (find (has_user_id uid) vs ≡ some u')
      × (identity u' ≡ identity u)
      × (u.session_version ≤ u'.session_version)

  Step-Persists :
      (now : ℕ) (q : Request) (n m : ℕ) (us vs : List User) (uid : ℕ) (u : User)
      → Step generate_hash check_hash now q n us m vs
      → Descending n (ids us)
      → find (has_user_id uid) us ≡ some u
      → Persists uid u vs
  Step-Persists now q n m us vs uid u (Step.stays _ _) d here = (u, here, refl, omega arith)
  Step-Persists now q n m us vs uid u (Step.revises _ _ k x y found r) d here =
      let chosen = find-holds (has_user_id k) us found in
      let hit = find-holds (has_user_id uid) us here in
      let own : y.id ≡ x.id =
        ap (λ (i : Identity). i.id) (Revised-identity generate_hash check_hash now q x y r) in
      elim (Bool-cases (uid == k)) [
        | inr other ↦ (
          u,
          find-update_other uid k y us other (ground (arith, own, chosen)) ∙ here,
          refl,
          omega arith,
        )
        | inl e ↦
            let same : u ≡ x = ground (
              arith,
              subst (λ j. find (has_user_id j) us ≡ some u) ((==_iff uid k).0 e) here,
              found,
            ) in
            (
              y,
              find-update_row (has_user_id uid) (has_user_id k) y us (λ z h. ground (arith, h, e))
                  (ground (arith, own, chosen, e)) (ground (arith, hit, e)) here,
              Revised-identity generate_hash check_hash now q x y r ∙ ap identity (sym same),
              subst (λ (z : User). z.session_version ≤ y.session_version) (sym same)
                  (Revised-version generate_hash check_hash now q x y r),
            )
      ]
  Step-Persists now q n m us vs uid u (Step.enrols _ _ w _ _ _ _ numbered _ newcomer pending) d
        here =
      let below = found-below n (has_user_id uid) us d here in
      let hit = find-holds (has_user_id uid) us here in
      (u, ground (arith, here, numbered, below, hit), refl, omega arith)

module _ (lic_hmac : Text → Text) (generate_hash : Text → Text)
    (check_hash : (stored password : Text) → Bool) where
  -- An account stays through every sequence of requests, with its id, username, address and licence
  -- as they are, and its session version never goes down, in sound accounts.
  pub perform_all-Persists :
      (rs : List (ℕ × Request)) (s : Store) (uid : ℕ) (u : User)
      → IsSound generate_hash check_hash s.next_id s.users
      → find (has_user_id uid) s.users ≡ some u
      → Persists generate_hash check_hash uid u
          (perform_all lic_hmac generate_hash check_hash rs s).users
  perform_all-Persists [] s uid u sound here = (u, here, refl, omega arith)
  perform_all-Persists ((now, r) ∷ rs) s uid u sound here =
      let t = perform lic_hmac generate_hash check_hash now r s in
      let step = perform-Step lic_hmac generate_hash check_hash now r s sound.numbered in
      let (v, there, kept, grown) =
        Step-Persists generate_hash check_hash now r s.next_id t.next_id s.users t.users uid u step
          sound.numbered here in
      let (w, at_end, kept', grown') =
        perform_all-Persists rs t uid v
          (Step-IsSound generate_hash check_hash now r s.next_id t.next_id s.users t.users step
            sound)
          there in
      (w, at_end, kept' ∙ kept, omega (arith, grown, grown'))
