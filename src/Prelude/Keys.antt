-- ===== src/Prelude/Keys.antt =====
-- Primary keys: tables whose rows carry a key, no key twice.
use Prim.Native.Nat.{ℕ, ◌≤◌}
use mathlib.Core.Path.{◌≡◌, refl, subst}
use mathlib.Core.Bool.{Bool, true, false}
use mathlib.Core.Logic.{inl, inr}
use mathlib.Core.Option.{none, some}
use mathlib.Core.List.{List, [], ◌∷◌}
use native.Mathlib.Omega.{arith}
use mahber_connect_backend.Prelude.Tests.{◌==◌, Bool-cases}
use mahber_connect_backend.Prelude.Tables.{All, find, find-All, count, update_where}

module _ {ℓ} {A : Type ℓ} where
  pub find-eq_none_count : (p : A → Bool) (xs : List A) → find p xs ≡ none → count p xs ≡ 0
  unfolding find count
  find-eq_none_count p [] h = refl
  find-eq_none_count p (x ∷ xs) h = ground (arith, find-eq_none_count p xs)

  -- Rows that an update newly brings under a test have passed it before: the count does not grow.
  pub count-update_where_le :
      (q p : A → Bool) (f : A → A) (xs : List A)
      → All (λ a. p a ≡ true → q (f a) ≡ true → q a ≡ true) xs
      → count q (update_where p f xs) ≤ count q xs
  unfolding count update_where
  count-update_where_le q p f [] h = omega arith
  count-update_where_le q p f (x ∷ xs) h = ground (arith, h.0, count-update_where_le q p f xs h.1)

module _ {ℓ} {A : Type ℓ} (key : A → ℕ) where
  -- No row has this key.
  abbrev pub IsFresh : ℕ → List A → Type 0
  IsFresh k xs = All (λ a. (key a == k) ≡ false) xs

  abbrev pub Unique : List A → Type 0
  Unique [] = Unit
  Unique (x ∷ xs) = IsFresh (key x) xs × Unique xs

  IsFresh-only :
      (k : ℕ) (xs : List A) (a : A) → IsFresh k xs → All (λ b. (key b == k) ≡ true → b ≡ a) xs
  IsFresh-only k [] a f = tt
  IsFresh-only k (x ∷ xs) a f = (λ e. ground arith, IsFresh-only k xs a f.1)

  -- With unique keys a row that a query finds is the only one that has its key.
  pub Unique-only :
      (p : A → Bool) (xs : List A) (a : A)
      → Unique xs
      → find p xs ≡ some a
      → All (λ b. (key b == key a) ≡ true → b ≡ a) xs
  unfolding find
  Unique-only p [] a u e = cc
  Unique-only p (x ∷ xs) a u e = elim (Bool-cases (p x)) [
    | inl same ↦
        let eq : x ≡ a = ground arith in
        (λ _. eq, IsFresh-only (key a) xs a (subst (λ b. IsFresh (key b) xs) eq u.0))
    | inr other ↦
        let found : find p xs ≡ some a = ground arith in
        (
          λ h. ground (arith, find-All (λ b. (key b == key x) ≡ false) p xs a u.0 found),
          Unique-only p xs a u.1 found,
        )
  ]

  pub IsFresh-update_where :
      (k : ℕ) (p : A → Bool) (f : A → A) (xs : List A)
      → ((a : A) → key (f a) ≡ key a)
      → IsFresh k xs
      → IsFresh k (update_where p f xs)
  unfolding update_where
  IsFresh-update_where k p f [] h u = tt
  IsFresh-update_where k p f (x ∷ xs) h u = ground (arith, h x, IsFresh-update_where k p f xs h u.1)

  pub Unique-update_where :
      (p : A → Bool) (f : A → A) (xs : List A)
      → ((a : A) → key (f a) ≡ key a)
      → Unique xs
      → Unique (update_where p f xs)
  unfolding update_where
  Unique-update_where p f [] h u = tt
  Unique-update_where p f (x ∷ xs) h u = (
    elim (Bool-cases (p x)) [
      | inl yes_p ↦ rw (yes_p, h x) (IsFresh-update_where (key x) p f xs h u.0)
      | inr no_p ↦ rw no_p (IsFresh-update_where (key x) p f xs h u.0)
    ],
    Unique-update_where p f xs h u.1,
  )
