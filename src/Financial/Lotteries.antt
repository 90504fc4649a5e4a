-- ===== src/Financial/Lotteries.antt =====
-- src/financial/lottery.service.ts. `percent` is as in Fines; the 32 random bytes are the argument
-- `seed`.
pub mod Laws
use mahber_connect_backend.Prelude.{
  ℕ, zero, suc, ◌%◌, String, Bool, true, not, ◌&&◌, Option, none, some, List, [], ◌∷◌, map, leb,
  ◌==◌, is_some, ℤ, leb_ℤ, pos, length, find, select, update_where, all,
}
use mahber_connect_backend.Db.{
  TransactionType, ExpenseStatus, ExpenseCategory, is_active, payment_is_completed, is_contribution,
  Membership, Payment, Lottery, Expense, Db,
}
use mahber_connect_backend.Db.Decimals.{Decimal, parts, rounded, negated, sub_from, is_positive}
use mahber_connect_backend.Exec.{
  Exec, pure, gets, or_throw, ◌>>=◌, ◌>>◌, throw_if, modify, transaction, bad_request, prisma_error,
}
use mahber_connect_backend.Financial.Ledger.{LedgerData, create_ledger_entry, current_balance}
use mahber_connect_backend.Financial.Fines.{has_unpaid_fines_exceeding_threshold}

abbrev pub is_active_in : ℕ → Membership → Bool
is_active_in mahber m = (m.mahber_id == mahber) && is_active m.status

-- A completed contribution of the member since the last draw.
abbrev pub is_paid_since : ℕ → ℕ → ℕ → Payment → Bool
is_paid_since mahber since member p =
    (p.mahber_id == mahber)
    && (p.member_id == member)
    && is_contribution p.payment_type
    && payment_is_completed p.status
    && leb since p.created_at

abbrev pub has_paid : ℕ → ℕ → Db → Membership → Bool
has_paid mahber since s m = is_some (find (is_paid_since mahber since m.member_id) s.payments)

-- `lastDraw?.created_at ?? mahber!.created_at`
abbrev pub since_date : ℕ → Db → Option ℕ
since_date mahber s = elim (find (λ l. l.mahber_id == mahber) s.lotteries) [
  | some draw ↦ some draw.created_at
  | none ↦ elim (find (λ o. o.id == mahber) s.mahbers) [ none ↦ none | some o ↦ some o.created_at ]
]

-- Neither a winner of this cycle nor over the limit of unpaid fines.
abbrev pub is_eligible : ℕ → ℤ → Db → Membership → Bool
is_eligible mahber threshold s m =
    not m.has_won_current_cycle
    && not (has_unpaid_fines_exceeding_threshold mahber m.member_id threshold s)

unfoldable pub eligible_members : ℕ → ℤ → Db → List ℕ
eligible_members mahber threshold s =
    map (λ m. m.member_id)
      (select (λ m. is_active_in mahber m && is_eligible mahber threshold s m) s.memberships)

abbrev pub get_elem? {ℓ} : {A : Type ℓ} → List A → ℕ → Option A
get_elem? [] i = none
get_elem? (x ∷ xs) zero = some x
get_elem? (x ∷ xs) (suc i) = get_elem? xs i

-- `eligibleMemberIds[Number(seedBigInt % BigInt(eligibleMemberIds.length))]`
unfoldable pub pick_winner : ℕ → List ℕ → Option ℕ
pick_winner seed eligible = get_elem? eligible (seed % length eligible)

abbrev pub lottery_entry : ℕ → ℕ → ℕ → Decimal → LedgerData
lottery_entry id mahber winner amount = record {
  mahber_id = mahber;
  member_id = winner;
  transaction_type = TransactionType.equb_payout;
  amount = negated amount;
  description = "Equb payout from lottery draw";
  payment_id = none;
  fine_id = none;
  lottery_id = some id;
  expense_id = none;
  payout_id = none;
}

abbrev user_name : ℕ → Db → String
user_name id s = elim (find (λ u. u.id == id) s.users) [ none ↦ "Equb Winner" | some u ↦ u.name ]

abbrev lottery_expense : ℕ → ℕ → Decimal → ℕ → String → Expense
lottery_expense id mahber amount executed_by name = record {
  id = id;
  mahber_id = mahber;
  amount = rounded amount;
  reason = "Equb lottery payout";
  category = ExpenseCategory.equb_payout;
  status = ExpenseStatus.paid;
  created_by = executed_by;
  approved_by = none;
  approved_at = none;
  rejection_reason = none;
  recipient_name = name;
  recipient_account_type = "internal";
  recipient_account = "Equb Payout";
  recipient_bank_code = none;
  chapa_transfer_ref = none;
  chapa_transfer_status = none;
}

-- The ids of the three rows that a draw creates.
pub record NewIds : Type 0 where
  pub lottery : ℕ
  pub entry : ℕ
  pub expense : ℕ

abbrev pub wins : Membership → Membership
wins m = record m { has_won_current_cycle = true }

-- The transaction: the draw, the debit, the expense and the mark of the winner.
unfoldable pub record_draw : ℕ → NewIds → ℕ → ℕ → List ℕ → ℕ → Decimal → ℕ → Exec Lottery
record_draw now ids mahber winner eligible seed amount executed_by = transaction do
  let draw : Lottery = record {
    id = ids.lottery;
    mahber_id = mahber;
    winner_id = winner;
    eligible_members = eligible;
    random_seed = seed;
    payout_amount = rounded amount;
    created_at = now;
  }
  modify (λ s. record s { lotteries = draw ∷ s.lotteries })
  create_ledger_entry now ids.entry (lottery_entry ids.lottery mahber winner amount)
  modify (λ s. record s {
    expenses =
        lottery_expense ids.expense mahber amount executed_by (user_name winner s) ∷ s.expenses;
    memberships =
        update_where (λ m. (m.mahber_id == mahber) && (m.member_id == winner)) wins s.memberships;
  })
  pure draw

module _ (percent : ℤ → ℤ → ℤ) where
  -- What is left of the balance after the operational cost.
  abbrev pub payout_of : ℤ → ℤ → Decimal
  payout_of balance cost_rate = sub_from balance (parts (percent balance cost_rate))

  unfoldable pub execute_lottery : ℕ → NewIds → ℕ → ℕ → ℤ → ℤ → ℕ → Exec Lottery
  unfolding record_draw
  execute_lottery now ids seed mahber cost_rate threshold executed_by = do
    active ← gets (λ s. select (is_active_in mahber) s.memberships)
    throw_if (length active == 0) (bad_request "No active members for the lottery draw")
    since ← or_throw (← gets (since_date mahber)) (prisma_error "TypeError")
    all_paid ← gets (λ s. all (has_paid mahber since s) active)
    throw_if (not all_paid) (bad_request "Lottery cannot be drawn: unpaid contributions")
    eligible ← gets (eligible_members mahber threshold)
    throw_if (length eligible == 0) (bad_request "No eligible members for the lottery draw")
    winner ← or_throw (pick_winner seed eligible) (prisma_error "winner_id is undefined")
    balance ← gets (current_balance mahber)
    throw_if (leb_ℤ balance (pos 0))
        (bad_request "Insufficient balance. Cannot execute lottery draw.")
    throw_if (not (is_positive (payout_of balance cost_rate)))
        (bad_request "Operational cost rate is too high")
    record_draw now ids mahber winner eligible seed (payout_of balance cost_rate) executed_by
