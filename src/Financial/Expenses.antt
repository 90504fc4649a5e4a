-- ===== src/Financial/Expenses.antt =====
-- src/financial/expense.service.ts. The listings stand in Financial/Reports.
pub mod Laws
use mahber_connect_backend.Prelude.{
  ℕ, String, Bool, not, Option, none, some, ◌∷◌, str_eq, ◌==◌, if◌then◌else◌, neg, ltb_ℤ, find,
  update_where,
}
use mahber_connect_backend.Db.{
  TransactionType, ExpenseStatus, ExpenseCategory, expense_is_pending, Expense, Db,
}
use mahber_connect_backend.Db.Decimals.{rounded, Decimal, cents}
use mahber_connect_backend.Exec.{
  Result, Exec, pure, gets, or_throw, ◌>>=◌, ◌>>◌, throw_if, modify, bad_request,
}
use mahber_connect_backend.Financial.Ledger.{LedgerData, create_ledger_entry, current_balance}

-- The argument `data` of `create`.
pub record CreateExpense : Type 0 where
  pub amount : Decimal
  pub reason : String
  pub category : ExpenseCategory
  pub recipient_name : String
  pub recipient_account_type : String
  pub recipient_account : String
  pub recipient_bank_code : Option String

abbrev audit : ℕ → ℕ → String → ℕ → Db → Db
audit mahber id action actor s = record s {
  audit_trail =
      (record {
        mahber_id = mahber;
        entity_type = "expense";
        entity_id = id;
        action = action;
        actor_id = some actor;
      })
      ∷ s.audit_trail;
}

unfoldable pub create_expense : ℕ → ℕ → CreateExpense → ℕ → Exec Expense
create_expense id mahber d created_by = do
  let expense : Expense = record {
    id = id;
    mahber_id = mahber;
    amount = rounded d.amount;
    reason = d.reason;
    category = d.category;
    status = ExpenseStatus.pending;
    created_by = created_by;
    approved_by = none;
    approved_at = none;
    rejection_reason = none;
    recipient_name = d.recipient_name;
    recipient_account_type = d.recipient_account_type;
    recipient_account = d.recipient_account;
    recipient_bank_code = d.recipient_bank_code;
    chapa_transfer_ref = none;
    chapa_transfer_status = none;
  }
  modify (λ s. record s { expenses = expense ∷ s.expenses })
  modify (audit mahber id "expense_created" created_by)
  pure expense

abbrev pub expense_has_id : ℕ → Expense → Bool
expense_has_id id e = e.id == id

-- What `chapa.initiateTransfer` returns.
pub record Transfer : Type 0 where
  pub transfer_ref : String
  pub status : String

-- The expense of this id, if it is of the organization and still Pending.
unfoldable pub find_pending_expense : ℕ → ℕ → Exec Expense
find_pending_expense id mahber = do
  e ← or_throw (← gets (λ s. find (expense_has_id id) s.expenses)) (bad_request "Expense not found")
  throw_if (not (e.mahber_id == mahber)) (bad_request "Expense not found")
  throw_if (not (expense_is_pending e.status)) (bad_request "Expense is not pending")
  pure e

-- `!rawBankCode`: the empty text counts as missing.
abbrev bank_code : Option String → Option String
bank_code none = none
bank_code (some t) = if str_eq t "" then none else some t

abbrev pub paid_expense : ℕ → ℕ → Transfer → Expense → Expense
paid_expense now actor t e = record e {
  status = ExpenseStatus.paid;
  approved_by = some actor;
  approved_at = some now;
  chapa_transfer_ref = some t.transfer_ref;
  chapa_transfer_status = some t.status;
}

abbrev pub rejected_expense : ℕ → ℕ → String → Expense → Expense
rejected_expense now actor reason e = record e {
  status = ExpenseStatus.rejected;
  approved_by = some actor;
  approved_at = some now;
  rejection_reason = some reason;
}

-- The ledger entry of an approved expense.
abbrev pub expense_entry : ℕ → ℕ → Expense → LedgerData
expense_entry mahber actor e = record {
  mahber_id = mahber;
  member_id = actor;
  transaction_type = TransactionType.expense;
  amount = cents (neg e.amount);
  description = e.reason;
  payment_id = none;
  fine_id = none;
  lottery_id = none;
  expense_id = some e.id;
  payout_id = none;
}

-- `is_number` is JavaScript's `!isNaN(Number(text))`, and `transfer` the answer of Chapa to the
-- transfer of an expense; both are parameters. `entry` is the id of the new ledger entry.
module _ (is_number : String → Bool) (transfer : Expense → Result Transfer) where
  unfoldable pub approve_expense : ℕ → ℕ → ℕ → ℕ → ℕ → Exec Expense
  unfolding find_pending_expense
  approve_expense now entry id mahber approved_by = do
    e ← find_pending_expense id mahber
    balance ← gets (current_balance mahber)
    throw_if (ltb_ℤ balance e.amount) (bad_request "Insufficient balance")
    code ←
        or_throw (bank_code e.recipient_bank_code)
          (bad_request "Missing recipient bank code for this expense")
    throw_if (not (is_number code)) (bad_request "Invalid recipient bank code")
    t ← λ s. (transfer e, s)
    modify (λ s. record s {
      expenses = update_where (expense_has_id id) (paid_expense now approved_by t) s.expenses;
    })
    create_ledger_entry now entry (expense_entry mahber approved_by e)
    modify (audit mahber id "expense_approved" approved_by)
    pure (paid_expense now approved_by t e)

unfoldable pub reject_expense : ℕ → ℕ → ℕ → ℕ → String → Exec Expense
unfolding find_pending_expense
reject_expense now id mahber approved_by reason = do
  e ← find_pending_expense id mahber
  modify (λ s. record s {
    expenses =
        update_where (expense_has_id id) (rejected_expense now approved_by reason) s.expenses;
  })
  modify (audit mahber id "expense_rejected" approved_by)
  pure (rejected_expense now approved_by reason e)
