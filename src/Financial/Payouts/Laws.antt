-- ===== src/Financial/Payouts/Laws.antt =====
-- What a payout requires and what it does to the books.
use mahber_connect_backend.Prelude.{
  refl, inl, ℕ, ◌≡◌, ◌⊎◌, true, false, arith, ==-refl, is_some, sum_where, ◌+ℤ◌, +ℤ_comm, find,
}
use mahber_connect_backend.Db.{PayoutCategory, Payout, Db}
use mahber_connect_backend.Db.Decimals.{rounded, less_than}
use mahber_connect_backend.Exec.{Error, ok, err}
use mahber_connect_backend.Financial.Ledger.{create_ledger_entry, current_balance}
use mahber_connect_backend.Financial.Ledger.Balance.{may_round, write-IsBalanced, IsBalanced}
use mahber_connect_backend.Financial.Payouts.{
  map_category_to_transaction_type, payout_entry, CreatePayout, is_recipient, create_payout,
}

payout-rounds : (c : PayoutCategory) → may_round (map_category_to_transaction_type c) ≡ true
unfolding map_category_to_transaction_type
payout-rounds PayoutCategory.iddir_benefit = refl
payout-rounds PayoutCategory.event_reimbursement = refl
payout-rounds PayoutCategory.recurring = refl
payout-rounds PayoutCategory.general = refl

module _ (now id entry mahber approved_by : ℕ) (dto : CreatePayout) (s : Db) where
  -- A payout that throws has changed nothing.
  pub create_payout-err :
      (e : Error)
      → (create_payout now id entry mahber dto approved_by s).0 ≡ err e
      → (create_payout now id entry mahber dto approved_by s).1 ≡ s
  unfolding create_payout create_ledger_entry
  create_payout-err e h = ground arith

  -- A payout that returns went to an Active member of the organization and was covered by what
  -- the organization holds.
  pub create_payout-ok :
      (p : Payout)
      → (create_payout now id entry mahber dto approved_by s).0 ≡ ok p
      → (is_some (find (is_recipient mahber dto.member_id) s.memberships) ≡ true)
        × (less_than (current_balance mahber s) dto.amount ≡ false)
        × (p.amount ≡ rounded dto.amount)
        × (p.member_id ≡ dto.member_id)
  unfolding create_payout create_ledger_entry
  create_payout-ok p h = ground arith

  create_payout-writes :
      ((create_payout now id entry mahber dto approved_by s).1.ledger ≡ s.ledger)
      ⊎ ((create_payout now id entry mahber dto approved_by s).1.ledger
          ≡ (create_ledger_entry now entry (payout_entry id mahber dto) s).1.ledger)
  unfolding create_payout create_ledger_entry
  create_payout-writes = ground arith

  -- The ledger stays balanced.
  pub create_payout-IsBalanced :
      IsBalanced s.ledger
      → IsBalanced (create_payout now id entry mahber dto approved_by s).1.ledger
  create_payout-IsBalanced =
      write-IsBalanced now entry (payout_entry id mahber dto) s _ (inl (payout-rounds dto.category))
        create_payout-writes

  -- A payout that returns raises what the organization holds by the amount that it pays out, rounded
  -- to cents.
  pub create_payout-raises :
      (p : Payout)
      → (create_payout now id entry mahber dto approved_by s).0 ≡ ok p
      → current_balance mahber (create_payout now id entry mahber dto approved_by s).1
        ≡ current_balance mahber s +ℤ rounded dto.amount
  unfolding create_payout create_ledger_entry current_balance sum_where
  create_payout-raises p h =
      ground (arith, ==-refl mahber, +ℤ_comm (rounded dto.amount) (current_balance mahber s))
