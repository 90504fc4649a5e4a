-- ===== src/Prelude/Tables.antt =====
-- Database tables as lists of rows, and the queries that the services make: `findFirst`,
-- `findMany`, `count`, `update`, `updateMany`, `deleteMany` and the aggregates.
use Prim.Native.Nat.{ℕ, zero, suc, ◌+◌}
use mathlib.Core.Path.{◌≡◌, refl, ap}
use mathlib.Core.Bool.{Bool, true, false, ◌&&◌, ◌||◌}
use mathlib.Core.Option.{Option, none, some}
use mathlib.Core.List.{List, [], ◌∷◌}
use native.Mathlib.Omega.{arith}
use mahber_connect_backend.Prelude.Tests.{◌==◌, if◌then◌else◌}

abbrev pub All {ℓ κ} : {A : Type ℓ} → (A → Type κ) → List A → Type κ
All P [] = Unit
All P (x ∷ xs) = P x × All P xs

module _ {ℓ} {A : Type ℓ} where
  abbrev pub length : List A → ℕ
  length [] = 0
  length (x ∷ xs) = suc (length xs)

  -- `take` and `skip` of a paged query
  abbrev pub take : ℕ → List A → List A
  take zero xs = []
  take (suc n) [] = []
  take (suc n) (x ∷ xs) = x ∷ take n xs

  abbrev pub drop : ℕ → List A → List A
  drop zero xs = xs
  drop (suc n) [] = []
  drop (suc n) (x ∷ xs) = drop n xs

  -- `findFirst`: the first row that passes the test
  unfoldable pub find : (A → Bool) → List A → Option A
  find p [] = none
  find p (x ∷ xs) = if p x then some x else find p xs

  -- `findMany`, and `Array.filter`
  unfoldable pub select : (A → Bool) → List A → List A
  select p [] = []
  select p (x ∷ xs) = let rest = select p xs in if p x then x ∷ rest else rest

  -- `updateMany`, and `update` by a unique key
  unfoldable pub update_where : (A → Bool) → (A → A) → List A → List A
  update_where p f [] = []
  update_where p f (x ∷ xs) = (if p x then f x else x) ∷ update_where p f xs

  -- `count`
  unfoldable pub count : (A → Bool) → List A → ℕ
  count p [] = 0
  count p (x ∷ xs) = (if p x then 1 else 0) + count p xs

  -- `Array.some`
  unfoldable pub any : (A → Bool) → List A → Bool
  any p [] = false
  any p (x ∷ xs) = p x || any p xs

  -- `Array.every`
  unfoldable pub all : (A → Bool) → List A → Bool
  all p [] = true
  all p (x ∷ xs) = p x && all p xs

-- `Array.includes` on ids
unfoldable pub includes : ℕ → List ℕ → Bool
includes k [] = false
includes k (x ∷ xs) = (x == k) || includes k xs

module _ {ℓ} {A : Type ℓ} where
  -- What `findFirst` returns passes the test.
  pub find_sound : (p : A → Bool) (xs : List A) (a : A) → find p xs ≡ some a → p a ≡ true
  unfolding find
  find_sound p [] a h = cc
  find_sound p (x ∷ xs) a h = ground (arith, find_sound p xs a)

  -- No row passes the test exactly when `findFirst` returns nothing.
  pub find-eq_none : (p : A → Bool) (xs : List A) → find p xs ≡ none → any p xs ≡ false
  unfolding find any
  find-eq_none p [] h = refl
  find-eq_none p (x ∷ xs) h = ground (arith, find-eq_none p xs)

  pub find-All {κ} :
      (P : A → Type κ) (p : A → Bool) (xs : List A) (a : A) → All P xs → find p xs ≡ some a → P a
  unfolding find
  find-All P p [] a h e = cc
  find-All P p (x ∷ xs) a h e = ground (arith, find-All P p xs a h.1)

  pub All-of {κ} : {P : A → Type κ} (xs : List A) → ((a : A) → P a) → All P xs
  All-of [] k = tt
  All-of (x ∷ xs) k = (k x, All-of xs k)

  pub All-map {κ υ} :
      {P : A → Type κ} {Q : A → Type υ} (xs : List A) → All P xs → ((a : A) → P a → Q a) → All Q xs
  All-map [] h k = tt
  All-map (x ∷ xs) h k = (k x h.0, All-map xs h.1 k)

  pub All-update_where {κ} :
      (P : A → Type κ) (p : A → Bool) (f : A → A) (xs : List A)
      → ((a : A) → p a ≡ true → P a → P (f a))
      → All P xs
      → All P (update_where p f xs)
  unfolding update_where
  All-update_where P p f [] k h = tt
  All-update_where P p f (x ∷ xs) k h = ground (arith, k x, All-update_where P p f xs k h.1)

  pub update_where-none :
      (p : A → Bool) (f : A → A) (xs : List A) → ((a : A) → p a ≡ false) → update_where p f xs ≡ xs
  unfolding update_where
  update_where-none p f [] h = refl
  update_where-none p f (x ∷ xs) h = ground (arith, h x, update_where-none p f xs h)

  pub length-update_where :
      (p : A → Bool) (f : A → A) (xs : List A) → length (update_where p f xs) ≡ length xs
  unfolding update_where
  length-update_where p f [] = refl
  length-update_where p f (x ∷ xs) = ap suc (length-update_where p f xs)

  -- A row that passes is found, though it may be another one.
  pub any-find : (p : A → Bool) (xs : List A) (a : A) → find p xs ≡ some a → any p xs ≡ true
  unfolding find any
  any-find p [] a h = cc
  any-find p (x ∷ xs) a h = ground (arith, any-find p xs a)

module _ {ℓ} {A : Type ℓ} where
  -- A lookup by `q` after an update of the rows of `p`, where the update keeps `q`.
  pub find-update_where :
      (q p : A → Bool) (f : A → A) (xs : List A)
      → ((a : A) → q (f a) ≡ q a)
      → find q (update_where p f xs)
        ≡ elim (find q xs) [ none ↦ none | some a ↦ some (if p a then f a else a) ]
  unfolding find update_where
  find-update_where q p f [] k = refl
  find-update_where q p f (x ∷ xs) k = ground (arith, k x, find-update_where q p f xs k)
