-- ===== src/Financial/Reports/Laws.antt =====
-- Theorems on the financial report and the summaries.
use mahber_connect_backend.Prelude.{
  ℕ, ◌≡◌, refl, ◌∙◌, none, ◌∷◌, arith, ==-refl, sum_where, ℤ, ◌+ℤ◌, ◌-ℤ◌, neg, int_laws, pos, find,
}
use mahber_connect_backend.Db.{TransactionType, LedgerEntry, Lottery, Db}
use mahber_connect_backend.Exec.{ok}
use mahber_connect_backend.Db.Decimals.Laws.{rounded-negated}
use mahber_connect_backend.Financial.Ledger.{
  entry_of, previous_balance, new_entry, create_ledger_entry, current_balance,
}
use mahber_connect_backend.Financial.Lotteries.{payout_of, lottery_entry, NewIds, execute_lottery}
use mahber_connect_backend.Financial.Lotteries.Laws.{execute_lottery-pays}
use mahber_connect_backend.Financial.Reports.{
  is_contribution_type, is_fine_type, is_expense_type, is_payout_type, sum_by_type,
  get_financial_report,
}

rearranged :
    (c f p x a : ℤ)
    → (pos 0 +ℤ c) +ℤ (pos 0 +ℤ f) -ℤ (a +ℤ p) +ℤ (pos 0 +ℤ x) ≡ c +ℤ f -ℤ p +ℤ x -ℤ a
rearranged c f p x a = omega int_laws

minus-neg : (a b : ℤ) → a -ℤ neg b ≡ a +ℤ b
minus-neg a b = omega int_laws

-- An entry of a payout of the lottery is subtracted from the net balance.
report-entry :
    (mahber : ℕ) (s t : Db) (e : LedgerEntry)
    → t.ledger ≡ e ∷ s.ledger
    → e.mahber_id ≡ mahber
    → e.transaction_type ≡ TransactionType.equb_payout
    → (get_financial_report mahber none none t).net_balance
      ≡ (get_financial_report mahber none none s).net_balance -ℤ e.amount
unfolding get_financial_report sum_by_type sum_where
report-entry mahber s t e wrote own kind =
    rw (wrote, own, kind, ==-refl mahber)
      (rearranged (sum_by_type mahber none none s is_contribution_type)
        (sum_by_type mahber none none s is_fine_type)
        (sum_by_type mahber none none s is_payout_type)
        (sum_by_type mahber none none s is_expense_type) e.amount)

module _ (percent : ℤ → ℤ → ℤ) (now : ℕ) (ids : NewIds) (seed mahber : ℕ) (cost threshold : ℤ)
    (by : ℕ) (s : Db) where
  draw_entry :
      (draw : Lottery)
      → (execute_lottery percent now ids seed mahber cost threshold by s).0 ≡ ok draw
      → (e : LedgerEntry) × ((execute_lottery percent now ids seed mahber cost threshold by
            s).1.ledger
          ≡ e ∷ s.ledger)
        × (e.mahber_id ≡ mahber)
        × (e.transaction_type ≡ TransactionType.equb_payout)
        × (e.amount ≡ neg draw.payout_amount)
  unfolding execute_lottery create_ledger_entry
  draw_entry draw h = (
    new_entry now ids.entry
        (lottery_entry draw.id mahber draw.winner_id
          (payout_of percent (current_balance mahber s) cost))
        (previous_balance (find (entry_of mahber draw.winner_id) s.ledger)),
    ground arith,
    refl,
    refl,
    ground (arith, rounded-negated (payout_of percent (current_balance mahber s) cost)),
  )

  -- A draw of the lottery that returns takes the payout off what the organization holds, and raises
  -- the net balance of the report over all time by the same amount.
  pub execute_lottery-report :
      (draw : Lottery)
      → (execute_lottery percent now ids seed mahber cost threshold by s).0 ≡ ok draw
      → let t = (execute_lottery percent now ids seed mahber cost threshold by s).1 in
        (current_balance mahber t ≡ neg draw.payout_amount +ℤ current_balance mahber s)
        × ((get_financial_report mahber none none t).net_balance
            ≡ (get_financial_report mahber none none s).net_balance +ℤ draw.payout_amount)
  execute_lottery-report draw h =
      let (e, wrote, own, kind, amount) = draw_entry draw h in
      (
        (execute_lottery-pays percent now ids seed mahber cost threshold by s draw h).2,
        report-entry mahber s _ e wrote own kind ∙ rw amount (minus-neg _ draw.payout_amount),
      )
