-- ===== src/Prelude/Rows.antt =====
-- The rows of a table as a list, newest first, and the queries made of them.
use Prim.Native.Nat.{ℕ, zero, suc, ◌+◌, ◌<◌}
use mathlib.Core.Path.{◌≡◌, refl}
use mathlib.Core.Bool.{Bool, true, false, ◌&&◌, ◌||◌}
use mathlib.Core.Option.{Option, none, some}
use mathlib.Core.List.{List, [], ◌∷◌}
use native.Mathlib.Omega.{arith}
use secure_voting_platform.Prelude.Tests.{◌==◌, if◌then◌else◌}

module _ {ℓ} {A : Type ℓ} where
  abbrev pub length : List A → ℕ
  length [] = 0
  length (x ∷ xs) = suc (length xs)

  -- `query.filter(p).first()`
  abbrev pub find : (A → Bool) → List A → Option A
  find p [] = none
  find p (x ∷ xs) = if p x then some x else find p xs

  -- `query.filter(p).first() is not None`, and Python's `any`
  abbrev pub any : (A → Bool) → List A → Bool
  any p [] = false
  any p (x ∷ xs) = p x || any p xs

  abbrev pub all : (A → Bool) → List A → Bool
  all p [] = true
  all p (x ∷ xs) = p x && all p xs

  -- `query.filter(p).all()`
  abbrev pub select : (A → Bool) → List A → List A
  select p [] = []
  select p (x ∷ xs) = if p x then x ∷ select p xs else select p xs

  -- `query.filter(p).count()`
  abbrev pub count : (A → Bool) → List A → ℕ
  count p [] = 0
  count p (x ∷ xs) = (if p x then 1 else 0) + count p xs

  -- An update of the rows that satisfy `p`.
  abbrev pub update : (A → Bool) → (A → A) → List A → List A
  update p f [] = []
  update p f (x ∷ xs) = (if p x then f x else x) ∷ update p f xs

  -- A deletion of the rows that satisfy `p`.
  abbrev pub delete : (A → Bool) → List A → List A
  delete p [] = []
  delete p (x ∷ xs) = if p x then delete p xs else x ∷ delete p xs

  abbrev pub take : ℕ → List A → List A
  take zero xs = []
  take (suc n) [] = []
  take (suc n) (x ∷ xs) = x ∷ take n xs

  abbrev pub drop : ℕ → List A → List A
  drop zero xs = xs
  drop (suc n) [] = []
  drop (suc n) (x ∷ xs) = drop n xs

  pub any-count : (p : A → Bool) (xs : List A) → any p xs ≡ false → count p xs ≡ 0
  any-count p [] h = refl
  any-count p (x ∷ xs) h = ground (arith, any-count p xs)

  pub find-holds : (p : A → Bool) (xs : List A) {a : A} → find p xs ≡ some a → p a ≡ true
  find-holds p [] h = ground arith
  find-holds p (x ∷ xs) {a} h = ground (arith, find-holds p xs {a = a})

  pub find-any : (p : A → Bool) (xs : List A) {a : A} → find p xs ≡ some a → any p xs ≡ true
  find-any p [] h = ground arith
  find-any p (x ∷ xs) {a} h = ground (arith, find-any p xs {a = a})

  pub find-none : (p : A → Bool) (xs : List A) → find p xs ≡ none → any p xs ≡ false
  find-none p [] h = refl
  find-none p (x ∷ xs) h = ground (arith, find-none p xs)

  pub count-any : (p : A → Bool) (xs : List A) → 0 < count p xs → any p xs ≡ true
  count-any p [] h = absurd (omega arith)
  count-any p (x ∷ xs) h = ground (arith, count-any p xs)

module _ {ℓ} {A : Type ℓ} (eq : A → A → Bool) where
  -- `len({f(x) for x in xs}) == 1`: there is a value, and no two differ.
  abbrev pub all_equal : List A → Bool
  all_equal [] = false
  all_equal (x ∷ xs) = all (eq x) xs

module _ {ℓ} {A : Type ℓ} where
  -- An update of the rows with one key, by a function that keeps the key.
  pub find-update :
      (key : A → ℕ) (f : A → A) (i k : ℕ) (xs : List A)
      → ((x : A) → key (f x) ≡ key x)
      → find (λ x. key x == i) (update (λ x. key x == k) f xs) ≡ (
          if k == i
          then (elim (find (λ x. key x == i) xs) [ none ↦ none | some x ↦ some (f x) ])
          else find (λ x. key x == i) xs)
  find-update key f i k [] h = ground arith
  find-update key f i k (x ∷ xs) h = ground (arith, h x, find-update key f i k xs h)

  pub count-update_same :
      (p q : A → Bool) (f : A → A) (xs : List A)
      → ((x : A) → p (f x) ≡ p x)
      → count p (update q f xs) ≡ count p xs
  count-update_same p q f [] h = refl
  count-update_same p q f (x ∷ xs) h = ground (arith, h x, count-update_same p q f xs h)

  pub delete-none : (p : A → Bool) (xs : List A) → any p xs ≡ false → delete p xs ≡ xs
  delete-none p [] h = refl
  delete-none p (x ∷ xs) h = ground (arith, delete-none p xs)

  pub select-update_other :
      (p q : A → Bool) (f : A → A) (xs : List A)
      → ((x : A) → q x ≡ true → p x ≡ false)
      → ((x : A) → q x ≡ true → p (f x) ≡ false)
      → select p (update q f xs) ≡ select p xs
  select-update_other p q f [] h g = refl
  select-update_other p q f (x ∷ xs) h g =
      ground (arith, h x, g x, select-update_other p q f xs h g)

  pub update-none : (p : A → Bool) (f : A → A) (xs : List A) → count p xs ≡ 0 → update p f xs ≡ xs
  update-none p f [] h = refl
  update-none p f (x ∷ xs) h = ground (arith, update-none p f xs)

  pub any-count_zero : (p : A → Bool) (xs : List A) → count p xs ≡ 0 → any p xs ≡ false
  any-count_zero p [] h = refl
  any-count_zero p (x ∷ xs) h = ground (arith, any-count_zero p xs)

  pub count-find : (p : A → Bool) (xs : List A) {a : A} → find p xs ≡ some a → 0 < count p xs
  count-find p [] h = cc
  count-find p (x ∷ xs) {a} h = ground (arith, count-find p xs {a = a})

  -- An update that puts one row in the place of those it chooses.
  pub find-update_row :
      (p q : A → Bool) (b : A) (xs : List A) {a : A}
      → ((x : A) → q x ≡ true → p x ≡ true)
      → p b ≡ true
      → q a ≡ true
      → find p xs ≡ some a
      → find p (update q (λ _. b) xs) ≡ some b
  find-update_row p q b [] within hit chosen found = cc
  find-update_row p q b (x ∷ xs) {a} within hit chosen found =
      ground (arith, within x, find-update_row p q b xs {a = a} within)

  -- An update that the row of a query takes part in, by a function that the query does not notice.
  pub find-update_found :
      (p q : A → Bool) (f : A → A) (xs : List A) {a : A}
      → ((x : A) → p (f x) ≡ p x)
      → q a ≡ true
      → find p xs ≡ some a
      → find p (update q f xs) ≡ some (f a)
  find-update_found p q f [] keeps held found = cc
  find-update_found p q f (x ∷ xs) {a} keeps held found =
      ground (arith, keeps x, find-update_found p q f xs {a = a} keeps)
