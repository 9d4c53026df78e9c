-- ===== src/AccountLife/Invariants.antt =====
-- What every sequence of requests keeps of the accounts.
use secure_voting_platform.Prelude.{
  ℕ, ◌≤◌, ◌≡◌, refl, ap, Bool, true, false, not, ◌||◌, Option, none, some, List, [], ◌∷◌, map, find,
  any, all, update, arith,
}
use secure_voting_platform.Prelude.Text.{Text, text_eq}
use secure_voting_platform.Models.{Store, User, is_approved}
use secure_voting_platform.Accounts.{has_user_id}
use secure_voting_platform.Registration.{has_email}
use secure_voting_platform.AccountLife.Defs.{
  perform, perform_all, Request, Request, perform, perform_all,
}
use secure_voting_platform.AccountLife.Numbering.{Descending, ids, map-update_row}
use secure_voting_platform.AccountLife.Rules.{Revised, Step}
use secure_voting_platform.AccountLife.Refinement.{perform-Step}

-- What registration wrote in an account stays.
pub record Identity : Type 0 where
  pub id : ℕ
  pub username : Text
  pub email : Option Text
  pub driver_lic_hash : Text

abbrev pub identity : User → Identity
identity u = record {
  id = u.id;
  username = u.username;
  email = u.email;
  driver_lic_hash = u.driver_lic_hash;
}

-- An approved account has a verified address.
abbrev pub approved_and_verified : User → Bool
approved_and_verified u = not (is_approved u) || u.email_verified

abbrev pub AllDistinct : {A : Type 0} → (A → A → Bool) → List A → Type 0
AllDistinct eq [] = Unit
AllDistinct eq (x ∷ xs) = (any (λ y. eq y x) xs ≡ false) × AllDistinct eq xs

abbrev pub same_email : Option Text → Option Text → Bool
same_email none b = false
same_email (some x) none = false
same_email (some x) (some y) = text_eq x y

any-map :
    {A B : Type 0} (p : B → Bool) (f : A → B) (xs : List A)
    → any p (map f xs) ≡ any (λ x. p (f x)) xs
any-map p f [] = refl
any-map p f (x ∷ xs) = ground (arith, any-map p f xs)

module _ (generate_hash : Text → Text) (check_hash : (stored password : Text) → Bool) where
  pub Revised-identity :
      (now : ℕ) (r : Request) (x y : User)
      → Revised generate_hash check_hash now r x y
      → identity y ≡ identity x
  Revised-identity now r x y (Revised.failed _ _ _ _ _ _) = refl
  Revised-identity now r x y (Revised.completed _ _ _) = refl
  Revised-identity now r x y (Revised.unlocked _ _ _ _ _) = refl
  Revised-identity now r x y (Revised.was_reset _ _ _ _ _ _ _ _ _ _ _) = refl
  Revised-identity now r x y (Revised.changed _ _ _ _ _ _ _ _ _ _) = refl
  Revised-identity now r x y (Revised.confirmed _ _ _ _ _ _) = refl
  Revised-identity now r x y (Revised.approved _ _ _ _ _ _) = refl
  Revised-identity now r x y (Revised.turned_away _ _ _ _ _) = refl

  pub Revised-version :
      (now : ℕ) (r : Request) (x y : User)
      → Revised generate_hash check_hash now r x y
      → x.session_version ≤ y.session_version
  Revised-version now r x y (Revised.failed _ _ _ _ _ _) = omega arith
  Revised-version now r x y (Revised.completed _ _ _) = omega arith
  Revised-version now r x y (Revised.unlocked _ _ _ _ _) = omega arith
  Revised-version now r x y (Revised.was_reset _ _ _ _ _ _ _ _ _ _ _) = omega arith
  Revised-version now r x y (Revised.changed _ _ _ _ _ _ _ _ _ _) = omega arith
  Revised-version now r x y (Revised.confirmed _ _ _ _ _ _) = omega arith
  Revised-version now r x y (Revised.approved _ _ _ _ _ _) = omega arith
  Revised-version now r x y (Revised.turned_away _ _ _ _ _) = omega arith

  Revised-verified :
      (now : ℕ) (r : Request) (x y : User)
      → Revised generate_hash check_hash now r x y
      → approved_and_verified x ≡ true
      → approved_and_verified y ≡ true
  unfolding is_approved
  Revised-verified now r x y (Revised.failed _ _ _ _ _ _) h = h
  Revised-verified now r x y (Revised.completed _ _ _) h = h
  Revised-verified now r x y (Revised.unlocked _ _ _ _ _) h = h
  Revised-verified now r x y (Revised.was_reset _ _ _ _ _ _ _ _ _ _ _) h = h
  Revised-verified now r x y (Revised.changed _ _ _ _ _ _ _ _ _ _) h = h
  Revised-verified now r x y (Revised.confirmed _ _ _ _ _ _) h = ground arith
  Revised-verified now r x y (Revised.approved _ _ _ _ _ v) h = v
  Revised-verified now r x y (Revised.turned_away _ _ _ _ _) h = refl

  -- The accounts are numbered, no two share a username, an address or a licence, and an approved
  -- one has a verified address.
  pub record IsSound (n : ℕ) (us : List User) : Type 0 where
    pub numbered : Descending n (ids us)
    pub usernames : AllDistinct text_eq (map (λ (u : User). u.username) us)
    pub emails : AllDistinct same_email (map (λ (u : User). u.email) us)
    pub licences : AllDistinct text_eq (map (λ (u : User). u.driver_lic_hash) us)
    pub verified : all approved_and_verified us ≡ true

  verified-update :
      (k : ℕ) (y : User) (us : List User)
      → all approved_and_verified us ≡ true
      → approved_and_verified y ≡ true
      → all approved_and_verified (update (has_user_id k) (λ _. y) us) ≡ true
  verified-update k y [] h v = refl
  verified-update k y (u ∷ us) h v = ground (arith, verified-update k y us)

  verified-find :
      (p : User → Bool) (us : List User) {x : User}
      → all approved_and_verified us ≡ true
      → find p us ≡ some x
      → approved_and_verified x ≡ true
  verified-find p [] h found = cc
  verified-find p (u ∷ us) {x} h found = ground (arith, verified-find p us {x = x})

  Revised-column :
      {B : Type 0} (g : Identity → B) (now : ℕ) (q : Request) (n k : ℕ) (us : List User)
      (x y : User)
      → Descending n (ids us)
      → find (has_user_id k) us ≡ some x
      → Revised generate_hash check_hash now q x y
      → map (λ u. g (identity u)) (update (has_user_id k) (λ _. y) us)
        ≡ map (λ u. g (identity u)) us
  Revised-column g now q n k us x y d found r =
      map-update_row (λ u. g (identity u)) n k y us d found (ap g (Revised-identity now q x y r))

  newcomer_email :
      (o : Option Text) (us : List User) {e : Text}
      → o ≡ some e
      → any (has_email e) us ≡ false
      → any (λ f. same_email f o) (map (λ (u : User). u.email) us) ≡ false
  newcomer_email o [] has h = refl
  newcomer_email o (u ∷ us) {e} has h = ground (arith, newcomer_email o us {e = e} has)

  pub Step-IsSound :
      (now : ℕ) (q : Request) (n m : ℕ) (us vs : List User)
      → Step generate_hash check_hash now q n us m vs
      → IsSound n us
      → IsSound m vs
  unfolding is_approved
  Step-IsSound now q n m us vs (Step.stays _ _) s = s
  Step-IsSound now q n m us vs (Step.revises _ _ k x y found r) s = record {
    numbered =
        rw (Revised-column (λ (i : Identity). i.id) now q n k us x y s.numbered found r) s.numbered;
    usernames =
        rw (Revised-column (λ (i : Identity). i.username) now q n k us x y s.numbered found r)
          s.usernames;
    emails =
        rw (Revised-column (λ (i : Identity). i.email) now q n k us x y s.numbered found r)
          s.emails;
    licences =
        rw
          (Revised-column (λ (i : Identity). i.driver_lic_hash) now q n k us x y s.numbered found r)
          s.licences;
    verified =
        verified-update k y us s.verified
          (Revised-verified now q x y r (verified-find (has_user_id k) us s.verified found));
  }
  Step-IsSound now q n m us vs
        (Step.enrols _ _ u _ _ _ _ numbered _
          (name, (e, has, address), licence)
          (status, unverified))
        s =
      record {
        numbered = (omega (arith, numbered), rw numbered s.numbered);
        usernames = (
          rw (any-map (λ y. text_eq y u.username) (λ (v : User). v.username) us) name,
          s.usernames,
        );
        emails = (newcomer_email u.email us has address, s.emails);
        licences = (
          rw (any-map (λ y. text_eq y u.driver_lic_hash) (λ (v : User). v.driver_lic_hash) us)
              licence,
          s.licences,
        );
        verified = rw status s.verified;
      }

module _ (lic_hmac : Text → Text) (generate_hash : Text → Text)
    (check_hash : (stored password : Text) → Bool) where
  -- Whatever requests are served, in whatever order and however each ends, the accounts stay sound:
  -- no two share a primary key, a username, an address or a licence, and every approved account has
  -- a verified address, if this was so before.
  pub perform_all-IsSound :
      (rs : List (ℕ × Request)) (s : Store)
      → IsSound generate_hash check_hash s.next_id s.users
      → (let t = perform_all lic_hmac generate_hash check_hash rs s in
          IsSound generate_hash check_hash t.next_id t.users)
  perform_all-IsSound [] s sound = sound
  perform_all-IsSound ((now, r) ∷ rs) s sound =
      let t = perform lic_hmac generate_hash check_hash now r s in
      perform_all-IsSound rs t (
        Step-IsSound generate_hash check_hash now r s.next_id t.next_id s.users t.users
          (perform-Step lic_hmac generate_hash check_hash now r s sound.numbered) sound)
