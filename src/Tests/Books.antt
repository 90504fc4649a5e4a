-- ===== src/Tests/Books.antt =====
-- Tests of the ledger, fines, payouts, expenses and lotteries.
use mahber_connect_backend.Prelude.{
  map, ℕ, ◌≡◌, refl, ◌≢◌, true, none, some, [], ◌∷◌, sum_where, ◌+ℤ◌, neg, pos, find, select,
  update_where, any, all,
}
use mahber_connect_backend.Db.{
  ViolationType, PaymentStatus, TransactionType, PayoutCategory, Payment, Lottery, Payout, Db,
}
use mahber_connect_backend.Db.Decimals.{
  round_parts, scale, cents, parts, rounded, sub_from, is_positive,
}
use mahber_connect_backend.Exec.{Result}
use mahber_connect_backend.Financial.Ledger.{
  LedgerData, create_ledger_entry, get_member_balance, current_balance,
}
use mahber_connect_backend.Financial.Ledger.Balance.{IsExact, create_ledger_entry-balance}
use mahber_connect_backend.Financial.Fines.{
  apply_fine, calculate_fine, unpaid_total, has_unpaid_fines_exceeding_threshold,
}
use mahber_connect_backend.Financial.Fines.Laws.{paid_fines_still_count}
use mahber_connect_backend.Financial.Payouts.{CreatePayout, create_payout}
use mahber_connect_backend.Financial.Payouts.Laws.{create_payout-raises}
use mahber_connect_backend.Financial.Lotteries.{
  eligible_members, pick_winner, NewIds, record_draw, execute_lottery,
}
use mahber_connect_backend.Financial.Lotteries.Laws.{
  execute_lottery-pays, execute_lottery-no_repeat,
}
use mahber_connect_backend.Financial.Reports.{get_financial_report}
use mahber_connect_backend.Financial.Reports.Laws.{execute_lottery-report}
use mahber_connect_backend.Tests.Samples.{share, value, entry, payment, db}

abbrev gift : LedgerData
gift = record {
  mahber_id = 1;
  member_id = 3;
  transaction_type = TransactionType.contribution;
  amount = cents (pos 40);
  payment_id = none;
  fine_id = none;
  lottery_id = none;
  expense_id = none;
  payout_id = none;
  description = "gift";
}

db-IsExact : IsExact db.ledger
unfolding sum_where ◌+ℤ◌
db-IsExact = (refl, tt)

create_ledger_entry-balance_example :
    ((value (create_ledger_entry 20 2 gift db).0 entry).running_balance
      ≡ get_member_balance 1 3 (create_ledger_entry 20 2 gift db).1)
    × (get_member_balance 1 3 (create_ledger_entry 20 2 gift db).1
        ≡ get_member_balance 1 3 db +ℤ pos 40)
unfolding create_ledger_entry find
create_ledger_entry-balance_example =
    create_ledger_entry-balance 20 2 gift (pos 40) db
      (value (create_ledger_entry 20 2 gift db).0 entry) refl db-IsExact refl

paid_fines_still_count_example :
    has_unpaid_fines_exceeding_threshold 1 3 (pos 15) (record db {
      fines =
          update_where
            (λ f. true)
            (λ f. record f { paid_at = some 20; payment_id = some 6 })
            db.fines;
    })
    ≡ has_unpaid_fines_exceeding_threshold 1 3 (pos 15) db
paid_fines_still_count_example = paid_fines_still_count (λ f. true) 20 6 1 3 (pos 15) db

abbrev aid : CreatePayout
aid = record {
  member_id = 3;
  amount = cents (pos 40);
  category = PayoutCategory.general;
  reason = "aid";
}

abbrev aided : Payout
aided = record {
  id = 9;
  mahber_id = 1;
  member_id = 3;
  amount = pos 40;
  category = PayoutCategory.general;
  reason = "aid";
  approved_by = 1;
  paid_at = some 20;
}

create_payout-raises_example :
    current_balance 1 (create_payout 20 9 2 1 aid 1 db).1 ≡ current_balance 1 db +ℤ pos 40
unfolding create_payout create_ledger_entry find sum_where current_balance update_where ◌+ℤ◌
create_payout-raises_example =
    create_payout-raises 20 9 2 1 1 aid db (value (create_payout 20 9 2 1 aid 1 db).0 aided) refl

abbrev new_ids : NewIds
new_ids = record { lottery = 70; entry = 71; expense = 72 }

-- Every Active member has paid.
abbrev paid_by : ℕ → ℕ → Payment
paid_by id who = record payment {
  id = id;
  member_id = who;
  status = PaymentStatus.completed;
  completed_at = some 40;
  created_at = 40;
}

abbrev ready : Db
ready = record db { payments = paid_by 61 1 ∷ paid_by 62 2 ∷ paid_by 63 3 ∷ [] }

abbrev no_draw : Lottery
no_draw = record {
  id = 0;
  mahber_id = 0;
  winner_id = 0;
  eligible_members = [];
  random_seed = 0;
  payout_amount = pos 0;
  created_at = 0;
}

abbrev first_draw : Result Lottery × Db
first_draw = execute_lottery share 20 new_ids 4 1 (pos 1000) (pos 0) 1 ready

execute_lottery-pays_example :
    let left =
      sub_from (current_balance 1 ready) (parts (share (current_balance 1 ready) (pos 1000))) in
    (is_positive left ≡ true)
    × ((value first_draw.0 no_draw).payout_amount ≡ rounded left)
    × (current_balance 1 first_draw.1
        ≡ neg (value first_draw.0 no_draw).payout_amount +ℤ current_balance 1 ready)
unfolding execute_lottery create_ledger_entry find sum_where current_balance update_where select all
    any eligible_members pick_winner record_draw unpaid_total has_unpaid_fines_exceeding_threshold
    ◌+ℤ◌ neg scale
execute_lottery-pays_example =
    execute_lottery-pays share 20 new_ids 4 1 (pos 1000) (pos 0) 1 ready
      (value first_draw.0 no_draw) refl

abbrev second_draw : Result Lottery × Db
second_draw = execute_lottery share 50 new_ids 4 1 (pos 300) (pos 0) 1 first_draw.1

execute_lottery-no_repeat_example :
    (value second_draw.0 no_draw).winner_id ≢ (value first_draw.0 no_draw).winner_id
unfolding execute_lottery create_ledger_entry find sum_where current_balance update_where select all
    any eligible_members pick_winner record_draw unpaid_total has_unpaid_fines_exceeding_threshold
    ◌+ℤ◌ neg scale round_parts
execute_lottery-no_repeat_example =
    execute_lottery-no_repeat share 20 50 new_ids new_ids 4 4 1 (pos 1000) (pos 300) (pos 0) (pos 0)
      1 1 ready (value first_draw.0 no_draw) (value second_draw.0 no_draw) refl refl

execute_lottery-report_example :
    (current_balance 1 first_draw.1
      ≡ neg (value first_draw.0 no_draw).payout_amount +ℤ current_balance 1 ready)
    × ((get_financial_report 1 none none first_draw.1).net_balance
        ≡ (get_financial_report 1 none none ready).net_balance
          +ℤ (value first_draw.0 no_draw).payout_amount)
unfolding execute_lottery create_ledger_entry find sum_where current_balance update_where select all
    any eligible_members pick_winner record_draw unpaid_total has_unpaid_fines_exceeding_threshold
    ◌+ℤ◌ neg scale
execute_lottery-report_example =
    execute_lottery-report share 20 new_ids 4 1 (pos 1000) (pos 0) 1 ready
      (value first_draw.0 no_draw) refl

-- A fine of 3% of 12.50 on a balance of 1.00: the balance is stored as 0.63 and the amount as -0.38,
-- so the amounts add up to 0.62.
abbrev fined : Db
fined =
    (apply_fine share 20 9 2 1 3 ViolationType.missed_payment (pos 300) (pos 1250) "percentage"
      "late" db).1

balance_drift :
    (map (λ e. e.running_balance) fined.ledger ≡ pos 63 ∷ pos 100 ∷ [])
    × (get_member_balance 1 3 fined ≡ pos 62)
unfolding apply_fine calculate_fine create_ledger_entry get_member_balance find sum_where scale
    round_parts neg ◌+ℤ◌
balance_drift = (refl, refl)
