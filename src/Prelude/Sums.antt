-- ===== src/Prelude/Sums.antt =====
-- The `_sum` aggregate, and how it follows the changes of a table.
use mathlib.Core.Path.{◌≡◌}
use mathlib.Core.Bool.{Bool}
use mathlib.Core.List.{List, [], ◌∷◌, ◌++◌}
use mahber_connect_backend.Prelude.Tests.{if◌then◌else◌}
use mahber_connect_backend.Prelude.Int.{ℤ, pos, ◌+ℤ◌, int_laws}

module _ {ℓ} {A : Type ℓ} where
  -- `aggregate` with `_sum` over the rows that pass the test
  unfoldable pub sum_where : (A → Bool) → (A → ℤ) → List A → ℤ
  sum_where p f [] = pos 0
  sum_where p f (x ∷ xs) = (if p x then f x else pos 0) +ℤ sum_where p f xs

  pub sum_where-append :
      (p : A → Bool) (f : A → ℤ) (xs ys : List A)
      → sum_where p f (xs ++ ys) ≡ sum_where p f xs +ℤ sum_where p f ys
  unfolding sum_where
  sum_where-append p f [] ys = omega int_laws
  sum_where-append p f (x ∷ xs) ys = rw (sum_where-append p f xs ys) (omega int_laws)
