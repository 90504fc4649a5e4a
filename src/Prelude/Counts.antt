-- ===== src/Prelude/Counts.antt =====
-- How an update of one row changes a count.
use Prim.Native.Nat.{ℕ, suc, ◌≤◌}
use mathlib.Core.Path.{◌≡◌, refl}
use mathlib.Core.Bool.{Bool, true}
use mathlib.Core.Logic.{inl, inr}
use mathlib.Core.List.{List, [], ◌∷◌}
use native.Mathlib.Omega.{arith}
use mahber_connect_backend.Prelude.Tests.{◌==◌, Bool-cases}
use mahber_connect_backend.Prelude.Tables.{All, count, update_where}
use mahber_connect_backend.Prelude.Keys.{IsFresh, Unique}

module _ {ℓ} {A : Type ℓ} where
  -- Rows that the update takes from under a test were not under it: the count does not shrink.
  pub count-update_where_ge :
      (q p : A → Bool) (f : A → A) (xs : List A)
      → All (λ a. p a ≡ true → q a ≡ true → q (f a) ≡ true) xs
      → count q xs ≤ count q (update_where p f xs)
  unfolding count update_where
  count-update_where_ge q p f [] h = omega arith
  count-update_where_ge q p f (x ∷ xs) h = ground (arith, h.0, count-update_where_ge q p f xs h.1)

module _ {ℓ} {A : Type ℓ} (key : A → ℕ) (q : A → Bool) (f : A → A) (k : ℕ) where
  count-fresh :
      (xs : List A) → IsFresh key k xs → count q (update_where (λ a. key a == k) f xs) ≡ count q xs
  unfolding count update_where
  count-fresh [] h = refl
  count-fresh (x ∷ xs) h = ground (arith, count-fresh xs h.1)

  IsFresh-of :
      (x : A) (xs : List A) → (key x == k) ≡ true → IsFresh key (key x) xs → IsFresh key k xs
  IsFresh-of x [] e h = tt
  IsFresh-of x (y ∷ ys) e h = (ground arith, IsFresh-of x ys e h.1)

  -- One row changes, so the count changes by one at most.
  pub count-update_row :
      (xs : List A)
      → Unique key xs
      → (count q xs ≤ suc (count q (update_where (λ a. key a == k) f xs)))
        × (count q (update_where (λ a. key a == k) f xs) ≤ suc (count q xs))
  unfolding count update_where
  count-update_row [] u = (omega arith, omega arith)
  count-update_row (x ∷ xs) u = elim (Bool-cases (key x == k)) [
    | inl same ↦
        let rest = count-fresh xs (IsFresh-of x xs same u.0) in (ground arith, ground arith)
    | inr other ↦ let rest = count-update_row xs u.1 in (ground arith, ground arith)
  ]
