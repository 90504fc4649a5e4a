-- ===== src/Financial/Fines.antt =====
-- src/financial/fine.service.ts. `percent a r` is what decimal.js gives for a · r / 100 where a and r
-- have two places, in ten-thousandths of a cent; it is a parameter, and is rounded on the write only.
pub mod Laws
use mahber_connect_backend.Prelude.{
  ℕ, String, Bool, true, false, not, ◌&&◌, Option, none, some, List, ◌∷◌, str_eq, ◌==◌,
  if◌then◌else◌, sum_where, ℤ, ltb_ℤ, find, select, update_where,
}
use mahber_connect_backend.Db.{TransactionType, ViolationType, Fine, Db}
use mahber_connect_backend.Db.Decimals.{Decimal, cents, parts, rounded, negated}
use mahber_connect_backend.Exec.{
  Exec, pure, gets, or_throw, ◌>>=◌, ◌>>◌, throw_if, modify, forbidden, not_found,
}
use mahber_connect_backend.Financial.Ledger.{LedgerData, create_ledger_entry}

-- The ledger entry of a fine.
abbrev pub fine_entry : ℕ → ℕ → ℕ → Decimal → String → LedgerData
fine_entry id mahber member amount description = record {
  mahber_id = mahber;
  member_id = member;
  transaction_type = TransactionType.fine;
  amount = negated amount;
  description = description;
  payment_id = none;
  fine_id = some id;
  lottery_id = none;
  expense_id = none;
  payout_id = none;
}

module _ (percent : ℤ → ℤ → ℤ) where
  unfoldable pub calculate_fine : ℤ → ℤ → String → Decimal
  calculate_fine rate contribution mode =
      if str_eq mode "percentage" then parts (percent contribution rate) else cents rate

  -- `applyFine`: the fine, and its debit in the ledger. `id` and `entry` are the new rows' ids.
  unfoldable pub apply_fine :
      ℕ → ℕ → ℕ → ℕ → ℕ → ViolationType → ℤ → ℤ → String → String → Exec Fine
  apply_fine now id entry mahber member violation rate contribution mode description = do
    let amount = calculate_fine rate contribution mode
    let fine_row : Fine = record {
      id = id;
      mahber_id = mahber;
      member_id = member;
      violation_type = violation;
      amount = rounded amount;
      is_waived = false;
      paid_at = none;
      payment_id = none;
      waiver_reason = none;
      waived_by = none;
      waived_at = none;
      created_at = now;
    }
    modify (λ s. record s { fines = fine_row ∷ s.fines })
    create_ledger_entry now entry (fine_entry id mahber member amount description)
    pure fine_row

abbrev pub fine_in : ℕ → ℕ → Fine → Bool
fine_in mahber id f = (f.id == id) && (f.mahber_id == mahber)

abbrev pub fine_has_id : ℕ → Fine → Bool
fine_has_id id f = f.id == id

abbrev pub waived : ℕ → ℕ → String → Fine → Fine
waived now actor reason f = record f {
  is_waived = true;
  waiver_reason = some reason;
  waived_by = some actor;
  waived_at = some now;
}

unfoldable pub waive_fine : ℕ → ℕ → ℕ → ℕ → String → Exec Fine
waive_fine now id mahber actor reason = do
  f ← or_throw (← gets (λ s. find (fine_in mahber id) s.fines)) (not_found "Fine not found")
  throw_if f.is_waived (forbidden "Fine is already waived")
  modify (λ s. record s { fines = update_where (fine_has_id id) (waived now actor reason) s.fines })
  pure (waived now actor reason f)

abbrev same_bool : Bool → Bool → Bool
same_bool true b = b
same_bool false b = not b

-- `findAll` with its optional filters.
unfoldable pub find_all_fines : ℕ → Option ℕ → Option Bool → Db → List Fine
find_all_fines mahber member is_waived s =
    select
      (λ f.
        (f.mahber_id == mahber)
        && elim member [ none ↦ true | some m ↦ f.member_id == m ]
        && elim is_waived [ none ↦ true | some w ↦ same_bool f.is_waived w ])
      s.fines

-- The fines that `hasUnpaidFinesExceedingThreshold` sums up.
abbrev pub is_counted : ℕ → ℕ → Fine → Bool
is_counted mahber member f = (f.mahber_id == mahber) && (f.member_id == member) && not f.is_waived

abbrev pub fine_amount : Fine → ℤ
fine_amount f = f.amount

unfoldable pub unpaid_total : ℕ → ℕ → Db → ℤ
unpaid_total mahber member s = sum_where (is_counted mahber member) fine_amount s.fines

unfoldable pub has_unpaid_fines_exceeding_threshold : ℕ → ℕ → ℤ → Db → Bool
unfolding unpaid_total
has_unpaid_fines_exceeding_threshold mahber member threshold s =
    ltb_ℤ threshold (unpaid_total mahber member s)
