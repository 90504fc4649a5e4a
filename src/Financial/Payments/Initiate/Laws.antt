-- ===== src/Financial/Payments/Initiate/Laws.antt =====
-- What the selection of fines gives, and which payment an initiation stores.
use mahber_connect_backend.Prelude.{
  ℕ, String, ◌≡◌, refl, ap, inl, inr, true, false, Option, none, some, List, [], ◌∷◌, map, arith,
  ◌==◌, Bool-cases, ==-refl, sum_where, ◌+ℤ◌, All, find, select, update_where, includes, All-map,
}
use mahber_connect_backend.Db.{Mahber, Membership, Fine, Db}
use mahber_connect_backend.Exec.{ok}
use mahber_connect_backend.Membership.Access.{membership_of}
use mahber_connect_backend.Financial.Payments.{
  outstanding_fine, fines_amount, mahber_has_id, outstanding_fines, fine_total,
}
use mahber_connect_backend.Financial.Payments.Initiate.{
  fine_id, Outside, dedupe, select_fines, plan_of, new_payment, initiate_payment,
}

includes-dedupe :
    (k : ℕ) (seen xs : List ℕ)
    → includes k xs ≡ true
    → includes k seen ≡ false
    → includes k (dedupe seen xs) ≡ true
unfolding dedupe includes
includes-dedupe k seen [] h n = cc
includes-dedupe k seen (x ∷ xs) h n = elim (Bool-cases (x == k)) [
  | inl same ↦ let eq : x ≡ k = ground arith in rw (eq, n) (ground arith)
  | inr differ ↦ ground (arith, includes-dedupe k (x ∷ seen) xs)
]

empty-includes : (k : ℕ) → includes k [] ≡ false
unfolding includes
empty-includes k = refl

select-whole :
    (wanted : List ℕ) (fines : List Fine)
    → All (λ f. includes f.id wanted ≡ true) fines
    → select (λ f. includes f.id wanted) fines ≡ fines
unfolding select
select-whole wanted [] h = refl
select-whole wanted (f ∷ fines) h = ground (arith, select-whole wanted fines h.1)

own-ids : (fines : List Fine) → All (λ f. includes f.id (map fine_id fines) ≡ true) fines
unfolding includes
own-ids [] = tt
own-ids (x ∷ fines) =
    (ground (arith, ==-refl x.id), All-map fines (own-ids fines) (λ f h. ground arith))

-- With no choice of fines, an accepted selection takes every outstanding fine.
pub select_fines-all :
    (fines selected : List Fine) → select_fines none fines ≡ ok selected → selected ≡ fines
unfolding select_fines
select_fines-all fines selected h =
    let known =
      All-map fines (own-ids fines)
        (λ f i. includes-dedupe f.id [] (map fine_id fines) i (empty-includes f.id)) in
    let whole = select-whole (dedupe [] (map fine_id fines)) fines known in ground (arith, whole)

pub sum-outstanding :
    (fines : List Fine)
    → sum_where (λ _. true) fines_amount (map outstanding_fine fines) ≡ fine_total fines
unfolding sum_where
sum-outstanding [] = refl
sum-outstanding (f ∷ fines) = ap (λ n. f.amount +ℤ n) (sum-outstanding fines)

module _ (x : Outside) (mahber member : ℕ) (s : Db) where
  -- Whether it returns or throws, an initiation changes no membership, fine or ledger entry.
  pub initiate_payment-keeps :
      (ids : Option (List ℕ))
      → ((initiate_payment x mahber member ids s).1.memberships ≡ s.memberships)
        × ((initiate_payment x mahber member ids s).1.fines ≡ s.fines)
        × ((initiate_payment x mahber member ids s).1.ledger ≡ s.ledger)
  unfolding initiate_payment
  initiate_payment-keeps ids = (ground arith, ground arith, ground arith)

  -- For a member and an organization that are found and a selection of fines that is accepted, an
  -- initiation that returns has stored under its reference the payment that the plan gives, with
  -- its checkout address.
  pub initiate_payment-stored :
      (ids : Option (List ℕ)) (url : String) (ref : ℕ) (m : Membership) (o : Mahber)
      (selected : List Fine)
      → (initiate_payment x mahber member ids s).0 ≡ ok (url, ref)
      → membership_of mahber member s ≡ some m
      → find (mahber_has_id mahber) s.mahbers ≡ some o
      → select_fines ids (outstanding_fines mahber member s) ≡ ok selected
      → find (λ p. p.tx_ref == x.tx_ref) (initiate_payment x mahber member ids s).1.payments
        ≡ some (record (new_payment x mahber member m o (plan_of x m o selected)) {
          checkout_url = some url;
        })
  unfolding initiate_payment find update_where
  initiate_payment-stored ids url ref m o selected h found known chosen =
      ground (arith, ==-refl x.tx_ref, ==-refl x.id)
