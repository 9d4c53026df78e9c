-- ===== src/AccountLife/Numbering.antt =====
-- The primary keys of the users: rows lie newest first, each numbered below the ones before it.
use secure_voting_platform.Prelude.{
  false, ◌==◌, Bool, ℕ, ◌≤◌, ◌<◌, ◌≡◌, refl, none, some, List, [], ◌∷◌, map, find, update, arith,
}
use secure_voting_platform.Models.{User}
use secure_voting_platform.Accounts.{has_user_id}

abbrev pub Descending : ℕ → List ℕ → Type 0
Descending n [] = Unit
Descending n (k ∷ ks) = (k < n) × Descending k ks

abbrev pub ids : List User → List ℕ
ids = map (λ (u : User). u.id)

pub Descending-weaken : (n m : ℕ) (ks : List ℕ) → n ≤ m → Descending n ks → Descending m ks
Descending-weaken n m [] h d = tt
Descending-weaken n m (k ∷ ks) h (l, d) = (omega arith, d)

-- No row has an id that is not below the bound.
unnumbered :
    (n k : ℕ) (f : User → User) (us : List User)
    → n ≤ k
    → Descending n (ids us)
    → update (has_user_id k) f us ≡ us
unnumbered n k f [] h d = refl
unnumbered n k f (u ∷ us) h (l, d) = ground (arith, unnumbered u.id k f us)

pub find-fresh :
    (n k : ℕ) (us : List User) → n ≤ k → Descending n (ids us) → find (has_user_id k) us ≡ none
find-fresh n k [] h d = refl
find-fresh n k (u ∷ us) h (l, d) = ground (arith, find-fresh u.id k us)

-- An update by id changes the one row that a query by id finds.
pub update-row :
    (n k : ℕ) (f : User → User) (us : List User) {x : User}
    → Descending n (ids us)
    → find (has_user_id k) us ≡ some x
    → update (has_user_id k) f us ≡ update (has_user_id k) (λ _. f x) us
update-row n k f [] d found = refl
update-row n k f (u ∷ us) {x} (l, d) found = ground (
  arith,
  update-row u.id k f us {x = x} d,
  unnumbered u.id k f us,
  unnumbered u.id k (λ _. f x) us,
)

-- What an update in one row leaves as it is in that row, it leaves in the table.
pub map-update_row :
    {B : Type 0} (g : User → B) (n k : ℕ) (y : User) (us : List User) {x : User}
    → Descending n (ids us)
    → find (has_user_id k) us ≡ some x
    → g y ≡ g x
    → map g (update (has_user_id k) (λ _. y) us) ≡ map g us
map-update_row g n k y [] d found same = refl
map-update_row g n k y (u ∷ us) {x} (l, d) found same =
    ground (arith, map-update_row g u.id k y us {x = x} d, unnumbered u.id k (λ _. y) us)

pub update-absent :
    (k : ℕ) (f : User → User) (us : List User)
    → find (has_user_id k) us ≡ none
    → update (has_user_id k) f us ≡ us
update-absent k f [] none_found = refl
update-absent k f (u ∷ us) none_found = ground (arith, update-absent k f us)

pub found-below :
    (n : ℕ) (p : User → Bool) (us : List User) {x : User}
    → Descending n (ids us)
    → find p us ≡ some x
    → x.id < n
found-below n p [] d found = cc
found-below n p (u ∷ us) {x} (l, d) found = ground (arith, found-below u.id p us {x = x} d)

-- The row that any query finds is the one of its id.
pub find-by_id :
    (n : ℕ) (p : User → Bool) (us : List User) {x : User}
    → Descending n (ids us)
    → find p us ≡ some x
    → find (has_user_id x.id) us ≡ some x
find-by_id n p [] d found = cc
find-by_id n p (u ∷ us) {x} (l, d) found =
    ground (arith, find-by_id u.id p us {x = x} d, found-below u.id p us {x = x} d)

pub find-update_other :
    (k j : ℕ) (y : User) (us : List User)
    → (k == j) ≡ false
    → y.id ≡ j
    → find (has_user_id k) (update (has_user_id j) (λ _. y) us) ≡ find (has_user_id k) us
find-update_other k j y [] other h = refl
find-update_other k j y (u ∷ us) other h = ground (arith, find-update_other k j y us)
