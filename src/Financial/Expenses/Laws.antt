-- ===== src/Financial/Expenses/Laws.antt =====
-- The life of an expense, and what its approval does to the books.
use mathlib.Core.Option
use mahber_connect_backend.Prelude.{
  ℕ, String, ◌≡◌, refl, ◌≢◌, ◌⊎◌, inl, inr, Bool, none, some, arith, ◌==◌, if◌then◌else◌,
  Option-cases, ==-refl, sum_where, ◌+ℤ◌, neg, ◌≤ℤ◌, find, find_sound, find-update_where,
}
use mahber_connect_backend.Db.{ExpenseStatus, Expense, Db}
use mahber_connect_backend.Exec.{Error, Result, bad_request, ok, err}
use mahber_connect_backend.Financial.Ledger.{create_ledger_entry, current_balance}
use mahber_connect_backend.Financial.Ledger.Balance.{write-IsBalanced, IsBalanced}
use mahber_connect_backend.Financial.Expenses.{
  expense_entry, expense_has_id, Transfer, rejected_expense, approve_expense, reject_expense,
}

module _ (is_number : String → Bool) (transfer : Expense → Result Transfer) where
  module _ (now entry id mahber actor : ℕ) (s : Db) where
    -- An approval that throws has changed nothing.
    pub approve_expense-err :
        (e : Error)
        → (approve_expense is_number transfer now entry id mahber actor s).0 ≡ err e
        → (approve_expense is_number transfer now entry id mahber actor s).1 ≡ s
    unfolding approve_expense create_ledger_entry
    approve_expense-err e h = ground arith

    -- An approval that returns gives a paid expense that the organization's balance covered, and
    -- takes exactly its amount off what the organization holds.
    pub approve_expense-ok :
        (e : Expense)
        → (approve_expense is_number transfer now entry id mahber actor s).0 ≡ ok e
        → (e.status ≡ ExpenseStatus.paid)
          × (e.amount ≤ℤ current_balance mahber s)
          × (current_balance mahber
                (approve_expense is_number transfer now entry id mahber actor s).1
              ≡ neg e.amount +ℤ current_balance mahber s)
    unfolding approve_expense create_ledger_entry current_balance sum_where
    approve_expense-ok e h = ground (arith, ==-refl mahber)

    approve_expense-writes :
        (e : Expense)
        → find (expense_has_id id) s.expenses ≡ some e
        → ((approve_expense is_number transfer now entry id mahber actor s).1.ledger ≡ s.ledger)
          ⊎ ((approve_expense is_number transfer now entry id mahber actor s).1.ledger
              ≡ (create_ledger_entry now entry (expense_entry mahber actor e) s).1.ledger)
    unfolding approve_expense create_ledger_entry
    approve_expense-writes e found = ground arith

    approve_expense-unknown :
        find (expense_has_id id) s.expenses ≡ none
        → (approve_expense is_number transfer now entry id mahber actor s).1.ledger ≡ s.ledger
    unfolding approve_expense
    approve_expense-unknown missing = ground arith

    -- The ledger stays balanced, on every branch.
    pub approve_expense-IsBalanced :
        IsBalanced s.ledger
        → IsBalanced (approve_expense is_number transfer now entry id mahber actor s).1.ledger
    approve_expense-IsBalanced b = elim (Option-cases (find (expense_has_id id) s.expenses)) [
      | inl missing ↦ rw (approve_expense-unknown missing) b
      | inr (e, found) ↦
          write-IsBalanced now entry (expense_entry mahber actor e) s _ (inr refl)
            (approve_expense-writes e found) b
    ]

-- A decided expense stays as it is: neither approval nor rejection returns once its status is no
-- longer Pending, and both leave the database alone.
pub decided_expense-final :
    (is_number : String → Bool) (transfer : Expense → Result Transfer)
    (now entry id mahber actor : ℕ) (reason : String) (s : Db) (e : Expense)
    → find (expense_has_id id) s.expenses ≡ some e
    → e.status ≢ ExpenseStatus.pending
    → ((approve_expense is_number transfer now entry id mahber actor s).1 ≡ s)
      × ((reject_expense now id mahber actor reason s).1 ≡ s)
      × ((reject_expense now id mahber actor reason s).0
          ≡ err (
              bad_request
                (if e.mahber_id == mahber then "Expense is not pending" else "Expense not found")))
unfolding approve_expense reject_expense
decided_expense-final is_number transfer now entry id mahber actor reason s e found decided =
    ground arith

module _ (now id mahber actor : ℕ) (reason : String) (s : Db) where
  -- A rejection that returns decides a Pending expense of the organization, and neither it nor a
  -- rejection that throws touches the ledger.
  pub reject_expense-ok :
      (e : Expense)
      → (reject_expense now id mahber actor reason s).0 ≡ ok e
      → (e.status ≡ ExpenseStatus.rejected)
        × (Option.map (λ x. x.status) (find (expense_has_id id) s.expenses)
            ≡ some ExpenseStatus.pending)
        × (Option.map
              (λ x. x.status)
              (find (expense_has_id id) (reject_expense now id mahber actor reason s).1.expenses)
            ≡ some ExpenseStatus.rejected)
        × ((reject_expense now id mahber actor reason s).1.ledger ≡ s.ledger)
  unfolding reject_expense
  reject_expense-ok e h = elim (Option-cases (find (expense_has_id id) s.expenses)) [
    | inl none_found ↦ ground arith
    | inr (x, found) ↦ ground (
      arith,
      find-update_where (expense_has_id id) (expense_has_id id) (rejected_expense now actor reason)
          s.expenses (λ a. refl),
      find_sound (expense_has_id id) s.expenses x found,
    )
  ]
