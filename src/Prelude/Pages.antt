-- ===== src/Prelude/Pages.antt =====
-- Paged queries: `skip`, `take` and the `meta` of a listing.
use Prim.Native.Nat.{ℕ, zero, suc, ◌+◌, ◌-◌, ◌*◌, ◌/◌, ◌≤◌}
use mathlib.Core.Path.{◌≡◌, refl, ap, sym, ◌∙◌}
use mathlib.Core.List.{List, [], ◌∷◌, ◌++◌}
use native.Mathlib.Nat.{zero-mul, suc-mul, lt-div-mul-add}
use native.Mathlib.Omega.{arith}
use mahber_connect_backend.Prelude.Tables.{length, take, drop}

-- The rows from the oldest to the newest.
unfoldable pub oldest_first {ℓ} : {A : Type ℓ} → List A → List A
oldest_first [] = []
oldest_first (x ∷ xs) = oldest_first xs ++ (x ∷ [])

pub record Paged {ℓ} (A : Type ℓ) : Type ℓ where
  pub rows : List A
  pub total : ℕ
  pub page : ℕ
  pub limit : ℕ
  pub total_pages : ℕ

module _ {ℓ} {A : Type ℓ} where
  -- Page `page`, from 1, of the rows that match, `limit` rows to a page; `Math.ceil(total / limit)`.
  abbrev pub paged : ℕ → ℕ → List A → Paged A
  paged page limit xs = record {
    rows = take limit (drop ((page - 1) * limit) xs);
    total = length xs;
    page = page;
    limit = limit;
    total_pages = (length xs + (limit - 1)) / limit;
  }

  -- The first `n` pages, one after the other.
  abbrev pub first_pages : ℕ → (ℕ → List A) → List A
  first_pages zero f = []
  first_pages (suc n) f = first_pages n f ++ f (suc n)

  take-nil : (n : ℕ) → take {A = A} n [] ≡ []
  take-nil zero = refl
  take-nil (suc n) = refl

  take-+ : (a b : ℕ) (xs : List A) → take (a + b) xs ≡ take a xs ++ take b (drop a xs)
  take-+ zero b xs = ap (λ n. take n xs) (omega arith)
  take-+ (suc a) b [] = take-nil (suc a + b) ∙ sym (take-nil b)
  take-+ (suc a) b (x ∷ xs) =
      let grown : suc a + b ≡ suc (a + b) = omega arith in
      ap (λ n. take n (x ∷ xs)) grown ∙ ap (λ ys. x ∷ ys) (take-+ a b xs)

  take_all : (n : ℕ) (xs : List A) → length xs ≤ n → take n xs ≡ xs
  take_all zero [] h = refl
  take_all zero (x ∷ xs) h = ground arith
  take_all (suc n) [] h = refl
  take_all (suc n) (x ∷ xs) h = ap (λ ys. x ∷ ys) (take_all n xs (omega arith))

  first_pages-take :
      (n limit : ℕ) (xs : List A)
      → first_pages n (λ p. (paged p limit xs).rows) ≡ take (n * limit) xs
  first_pages-take zero limit xs = sym (ap (λ n. take n xs) (zero-mul limit))
  first_pages-take (suc n) limit xs =
      let before : (suc n - 1) * limit ≡ n * limit = ap (λ k. k * limit) (omega arith) in
      rw (first_pages-take n limit xs, before, suc-mul n limit) (sym (take-+ (n * limit) limit xs))

  -- The pages of a listing, one after the other, are all its rows.
  pub first_pages-all :
      (limit : ℕ) (xs : List A)
      → 1 ≤ limit
      → first_pages (paged 1 limit xs).total_pages (λ p. (paged p limit xs).rows) ≡ xs
  first_pages-all limit xs h =
      first_pages-take ((length xs + (limit - 1)) / limit) limit xs
      ∙ take_all _ xs (
          let over = lt-div-mul-add {a = length xs + (limit - 1)} {b = limit} (omega arith) in
          omega arith)
