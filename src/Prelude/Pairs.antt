-- ===== src/Prelude/Pairs.antt =====
-- Tables with a unique key of two columns.
use Prim.Native.Nat.{ℕ, ◌≤◌}
use mathlib.Core.Path.{◌≡◌, refl, subst}
use mathlib.Core.Bool.{Bool, false, ◌&&◌}
use mathlib.Core.Logic.{inl, inr}
use mathlib.Core.List.{List, [], ◌∷◌}
use native.Mathlib.Omega.{arith}
use mahber_connect_backend.Prelude.Tests.{◌==◌, Bool-cases}
use mahber_connect_backend.Prelude.Tables.{any, count}

module _ {ℓ} {A : Type ℓ} (left right : A → ℕ) where
  abbrev pub has_pair : ℕ → ℕ → A → Bool
  has_pair k l x = (left x == k) && (right x == l)

  -- No two rows agree in both columns.
  abbrev pub IsOnePair : List A → Type 0
  IsOnePair xs = (k l : ℕ) → count (has_pair k l) xs ≤ 1

  -- A new row whose key is not there yet.
  pub IsOnePair-new :
      (x : A) (xs : List A)
      → count (has_pair (left x) (right x)) xs ≡ 0
      → IsOnePair xs
      → IsOnePair (x ∷ xs)
  unfolding count
  IsOnePair-new x xs new h k l = elim (Bool-cases (has_pair k l x)) [
    | inl same ↦
        let left_eq : left x ≡ k = ground arith in
        let right_eq : right x ≡ l = ground arith in
        let none_there : count (has_pair k l) xs ≡ 0 =
          subst (λ a. count (has_pair a l) xs ≡ 0) left_eq
            (subst (λ b. count (has_pair (left x) b) xs ≡ 0) right_eq new) in
        ground arith
    | inr other ↦ ground (arith, h k l)
  ]

module _ {ℓ} {A : Type ℓ} where
  pub any-eq_false-count : (p : A → Bool) (xs : List A) → any p xs ≡ false → count p xs ≡ 0
  unfolding any count
  any-eq_false-count p [] h = refl
  any-eq_false-count p (x ∷ xs) h = ground (arith, any-eq_false-count p xs)
