-- ===== src/Financial/Reports.antt =====
-- The financial report of src/financial/ledger.controller.ts, and the summary and listings of
-- src/financial/payout.service.ts and src/financial/expense.service.ts.
pub mod Laws
use mahber_connect_backend.Prelude.{
  ℕ, Bool, true, false, not, ◌&&◌, Option, List, ◌==◌, sum_where, ℤ, ◌+ℤ◌, ◌-ℤ◌, take, find, select,
  count,
}
use mahber_connect_backend.Db.{
  TransactionType, PayoutCategory, expense_is_pending, Expense, Payout, Db,
}
use mahber_connect_backend.Exec.{Exec, gets, or_throw, ◌>>=◌, ◌>>◌, not_found}
use mahber_connect_backend.Financial.Ledger.{entry_amount, in_range}

pub record Report : Type 0 where
  pub total_contributions : ℤ
  pub total_fines : ℤ
  pub total_expenses : ℤ
  pub total_payouts : ℤ
  pub net_balance : ℤ

-- The tests on the column `transaction_type` that the groups of the query make.
abbrev pub is_contribution_type : TransactionType → Bool
is_contribution_type TransactionType.contribution = true
is_contribution_type _ = false

abbrev pub is_fine_type : TransactionType → Bool
is_fine_type TransactionType.fine = true
is_fine_type _ = false

abbrev pub is_expense_type : TransactionType → Bool
is_expense_type TransactionType.expense = true
is_expense_type _ = false

-- `Equb_Payout`, `Iddir_Payout` and `Refund`, whose sums the report adds up.
abbrev pub is_payout_type : TransactionType → Bool
is_payout_type TransactionType.equb_payout = true
is_payout_type TransactionType.iddir_payout = true
is_payout_type TransactionType.refund = true
is_payout_type _ = false

module _ (mahber : ℕ) (start end : Option ℕ) (s : Db) where
  -- `_sum.amount` of the entries of some types, 0 if there is none.
  unfoldable pub sum_by_type : (TransactionType → Bool) → ℤ
  sum_by_type is_type =
      sum_where
        (λ e.
          (e.mahber_id == mahber) && in_range start end e.created_at && is_type e.transaction_type)
        entry_amount s.ledger

  -- `getFinancialReport`
  unfoldable pub get_financial_report : Report
  unfolding sum_by_type
  get_financial_report =
      let contributions = sum_by_type is_contribution_type in
      let fines = sum_by_type is_fine_type in
      let expenses = sum_by_type is_expense_type in
      let payouts = sum_by_type is_payout_type in
      record {
        total_contributions = contributions;
        total_fines = fines;
        total_expenses = expenses;
        total_payouts = payouts;
        net_balance = contributions +ℤ fines -ℤ payouts +ℤ expenses;
      }

abbrev pub is_payout_in : ℕ → Payout → Bool
is_payout_in mahber p = p.mahber_id == mahber

unfoldable pub find_all_payouts : ℕ → Db → List Payout
find_all_payouts mahber s = select (is_payout_in mahber) s.payouts

unfoldable pub find_one_payout : ℕ → ℕ → Exec Payout
find_one_payout mahber id = do
  p ← gets (λ s. find (λ p. (p.id == id) && (p.mahber_id == mahber)) s.payouts)
  or_throw p (not_found "Payout not found")

pub record PayoutSummary : Type 0 where
  pub total_amount : ℤ
  pub total_count : ℕ
  pub category_amount : PayoutCategory → ℤ
  pub category_count : PayoutCategory → ℕ
  pub recent : List Payout

abbrev same_category : PayoutCategory → PayoutCategory → Bool
same_category PayoutCategory.iddir_benefit PayoutCategory.iddir_benefit = true
same_category PayoutCategory.event_reimbursement PayoutCategory.event_reimbursement = true
same_category PayoutCategory.recurring PayoutCategory.recurring = true
same_category PayoutCategory.general PayoutCategory.general = true
same_category _ _ = false

abbrev payout_amount : Payout → ℤ
payout_amount p = p.amount

-- `getSummary`; a category without a payout has no line in the source, and 0 here.
unfoldable pub get_summary : ℕ → Db → PayoutSummary
get_summary mahber s = record {
  total_amount = sum_where (is_payout_in mahber) payout_amount s.payouts;
  total_count = count (is_payout_in mahber) s.payouts;
  category_amount = λ c.
      sum_where (λ p. is_payout_in mahber p && same_category p.category c) payout_amount s.payouts;
  category_count = λ c. count (λ p. is_payout_in mahber p && same_category p.category c) s.payouts;
  recent = take 5 (select (is_payout_in mahber) s.payouts);
}

unfoldable pub find_all_expenses : ℕ → Db → List Expense
find_all_expenses mahber s = select (λ e. e.mahber_id == mahber) s.expenses

-- `findPending`
unfoldable pub find_pending_expenses : ℕ → Db → List Expense
find_pending_expenses mahber s =
    select (λ e. (e.mahber_id == mahber) && expense_is_pending e.status) s.expenses
