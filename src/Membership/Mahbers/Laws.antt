-- ===== src/Membership/Mahbers/Laws.antt =====
-- Theorems on seeing and removing an organization.
use mahber_connect_backend.Prelude.{
  ℕ, ◌≡◌, refl, inl, inr, Bool, true, false, not, ◌&&◌, ◌||◌, none, some, List, [], ◌∷◌, arith,
  ◌==◌, Option-cases, is_some, sum_where, zero-+ℤ, find, select, count, any, find-eq_none, any-find,
}
use mahber_connect_backend.Db.{LedgerEntry, Db}
use mahber_connect_backend.Exec.{is_ok, ok}
use mahber_connect_backend.Membership.Access.{membership_of, holds}
use mahber_connect_backend.Membership.Mahbers.{is_pending_request, find_one, remove}
use mahber_connect_backend.Financial.Ledger.{entry_amount, entry_in, current_balance}

select-rejects {ℓ} :
    {A : Type ℓ} (p : A → Bool) (xs : List A) → any p (select (λ x. not (p x)) xs) ≡ false
unfolding select any
select-rejects p [] = refl
select-rejects p (x ∷ xs) = ground (arith, select-rejects p xs)

select-sum :
    (mahber other : ℕ) (xs : List LedgerEntry)
    → (mahber == other) ≡ false
    → sum_where (entry_in other) entry_amount (select (λ r. not (r.mahber_id == mahber)) xs)
      ≡ sum_where (entry_in other) entry_amount xs
unfolding select sum_where
select-sum mahber other [] h = refl
select-sum mahber other (x ∷ xs) h =
    let rest = select-sum mahber other xs h in
    let whole = sum_where (entry_in other) entry_amount xs in ground (arith, zero-+ℤ whole)

module _ (mahber user : ℕ) (s : Db) where
  -- A removal that returns was made by a holder of `manage_members` who was the only member. It
  -- leaves neither the organization nor a membership, a ledger entry or a payment of it, and every
  -- other organization holds what it held.
  pub remove-ok :
      (other : ℕ)
      → (mahber == other) ≡ false
      → (remove mahber user s).0 ≡ ok tt
      → (holds "manage_members" mahber user s ≡ true)
        × (count (λ m. (m.mahber_id == mahber) && not (m.member_id == user)) s.memberships ≡ 0)
        × (any (λ o. o.id == mahber) (remove mahber user s).1.mahbers ≡ false)
        × (any (λ m. m.mahber_id == mahber) (remove mahber user s).1.memberships ≡ false)
        × (any (λ e. e.mahber_id == mahber) (remove mahber user s).1.ledger ≡ false)
        × (any (λ p. p.mahber_id == mahber) (remove mahber user s).1.payments ≡ false)
        × (current_balance other (remove mahber user s).1 ≡ current_balance other s)
  unfolding remove current_balance
  remove-ok other differ h =
      let mahbers_gone = select-rejects (λ o. o.id == mahber) s.mahbers in
      let members_gone = select-rejects (λ m. m.mahber_id == mahber) s.memberships in
      let entries_gone = select-rejects (λ e. e.mahber_id == mahber) s.ledger in
      let payments_gone = select-rejects (λ p. p.mahber_id == mahber) s.payments in
      (
        ground arith,
        ground arith,
        ground arith,
        ground arith,
        ground arith,
        ground arith,
        ground (arith, select-sum mahber other s.ledger differ),
      )

  -- Seeing an organization returns exactly when it is there and is public, or the user has a
  -- membership or a Pending join request in it.
  pub find_one_lem :
      is_ok (find_one mahber user s).0 ≡ elim (find (λ o. o.id == mahber) s.mahbers) [
        | none ↦ false
        | some o ↦
            o.is_public
            || is_some (membership_of mahber user s)
            || any (is_pending_request mahber user) s.join_requests
      ]
  unfolding find_one
  find_one_lem = elim (Option-cases (find (is_pending_request mahber user) s.join_requests)) [
    | inl e ↦ ground (arith, find-eq_none (is_pending_request mahber user) s.join_requests e)
    | inr (r, e) ↦ ground (arith, any-find (is_pending_request mahber user) s.join_requests r e)
  ]
