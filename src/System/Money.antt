-- ===== src/System/Money.antt =====
-- The calls of src/financial that change the database, and its jobs.
use mahber_connect_backend.Prelude.{ℕ, String, ◌≡◌, refl, inl, inr, Bool, Option, List, arith, ℤ}
use mahber_connect_backend.Db.{Lottery, Expense, Db}
use mahber_connect_backend.Exec.{Error, ok, err, Result}
use mahber_connect_backend.Dates.{Calendar}
use mahber_connect_backend.Financial.Ledger.{current_balance, create_ledger_entry}
use mahber_connect_backend.Financial.Ledger.Balance.{IsBalanced, write-IsBalanced}
use mahber_connect_backend.Financial.Payments.Webhook.{Payload, process_webhook}
use mahber_connect_backend.Financial.Payments.Webhook.Credit.{process_webhook-IsBalanced}
use mahber_connect_backend.Financial.Payments.Initiate.{initiate_payment, Outside}
use mahber_connect_backend.Financial.Payments.Retry.{retry_payment}
use mahber_connect_backend.Financial.Callback.{Message, handle_chapa_callback, settle_pending}
use mahber_connect_backend.Financial.Callback.Laws.{handle_chapa_callback-IsBalanced}
use mahber_connect_backend.Financial.Joining.{join_mahber, Outside as JoinOutside}
use mahber_connect_backend.Financial.Payouts.{CreatePayout, create_payout}
use mahber_connect_backend.Financial.Payouts.Laws.{create_payout-IsBalanced}
use mahber_connect_backend.Financial.Expenses.{
  CreateExpense, create_expense, approve_expense, reject_expense, Transfer, find_pending_expense,
}
use mahber_connect_backend.Financial.Expenses.Laws.{approve_expense-IsBalanced}
use mahber_connect_backend.Financial.Fines.{waive_fine}
use mahber_connect_backend.Financial.Lotteries.{payout_of, NewIds, lottery_entry, execute_lottery}
use mahber_connect_backend.Automation.FineCalculation.{process}
use mahber_connect_backend.Automation.FineCalculation.Laws.{process-IsBalanced}
use mahber_connect_backend.Events.Attendance.{process_event_attendance}
use mahber_connect_backend.Events.Attendance.Absence.{process_event_attendance-IsBalanced}
use mahber_connect_backend.System.Jobs.{process-LedgerOnly, process_event_attendance-LedgerOnly}
use mahber_connect_backend.System.Guarded.{guarded, IsIntact, same-IsIntact, ledger-IsIntact}

module _ (s : Db) where
  webhook-frame :
      (cal : Calendar) (now entry : ℕ) (payload : Payload)
      → let t = (process_webhook cal now entry payload s).1 in
        guarded t ≡ record (guarded s) { ledger = t.ledger }
  unfolding process_webhook create_ledger_entry
  webhook-frame cal now entry payload = ground arith

  callback-frame :
      (valid : String → Bool) (cal : Calendar) (now id entry : ℕ) (message : Message)
      → let t = (handle_chapa_callback valid cal now id entry message s).1 in
        guarded t ≡ record (guarded s) { ledger = t.ledger }
  unfolding handle_chapa_callback settle_pending create_ledger_entry
  callback-frame valid cal now id entry message = ground arith

  pub join-frame :
      (x : JoinOutside) (mahber user : ℕ) → guarded (join_mahber x mahber user s).1 ≡ guarded s
  unfolding join_mahber
  join-frame x mahber user = ground arith

  pub initiate-frame :
      (x : Outside) (mahber member : ℕ) (fines : Option (List ℕ))
      → guarded (initiate_payment x mahber member fines s).1 ≡ guarded s
  unfolding initiate_payment
  initiate-frame x mahber member fines = ground arith

  pub retry-frame :
      (x : Outside) (mahber payment member : ℕ)
      → guarded (retry_payment x mahber payment member s).1 ≡ guarded s
  unfolding retry_payment
  retry-frame x mahber payment member = ground arith

  payout-frame :
      (now id entry mahber : ℕ) (dto : CreatePayout) (by : ℕ)
      → let t = (create_payout now id entry mahber dto by s).1 in
        guarded t ≡ record (guarded s) { ledger = t.ledger }
  unfolding create_payout create_ledger_entry
  payout-frame now id entry mahber dto by = ground arith

  pub create_expense-frame :
      (id mahber : ℕ) (dto : CreateExpense) (by : ℕ)
      → guarded (create_expense id mahber dto by s).1 ≡ guarded s
  unfolding create_expense
  create_expense-frame id mahber dto by = ground arith

  approve-frame :
      (is_number : String → Bool) (transfer : Expense → Result Transfer)
      (now entry id mahber by : ℕ)
      → let t = (approve_expense is_number transfer now entry id mahber by s).1 in
        guarded t ≡ record (guarded s) { ledger = t.ledger }
  unfolding approve_expense create_ledger_entry find_pending_expense
  approve-frame is_number transfer now entry id mahber by = ground arith

  pub reject-frame :
      (now id mahber by : ℕ) (reason : String)
      → guarded (reject_expense now id mahber by reason s).1 ≡ guarded s
  unfolding reject_expense find_pending_expense
  reject-frame now id mahber by reason = ground arith

  pub waive-frame :
      (now id mahber by : ℕ) (reason : String)
      → guarded (waive_fine now id mahber by reason s).1 ≡ guarded s
  unfolding waive_fine
  waive-frame now id mahber by reason = ground arith

  draw-frame :
      (percent : ℤ → ℤ → ℤ) (now : ℕ) (ids : NewIds) (seed mahber : ℕ) (cost threshold : ℤ) (by : ℕ)
      → let t = (execute_lottery percent now ids seed mahber cost threshold by s).1 in
        guarded t ≡ record (guarded s) { ledger = t.ledger }
  unfolding execute_lottery create_ledger_entry
  draw-frame percent now ids seed mahber cost threshold by = ground arith

  draw_write :
      (percent : ℤ → ℤ → ℤ) (now : ℕ) (ids : NewIds) (seed mahber : ℕ) (cost threshold : ℤ) (by : ℕ)
      (draw : Lottery)
      → (execute_lottery percent now ids seed mahber cost threshold by s).0 ≡ ok draw
      → (execute_lottery percent now ids seed mahber cost threshold by s).1.ledger
        ≡ (create_ledger_entry now ids.entry
            (lottery_entry draw.id mahber draw.winner_id
              (payout_of percent (current_balance mahber s) cost))
            s).1.ledger
  unfolding execute_lottery create_ledger_entry
  draw_write percent now ids seed mahber cost threshold by draw h = ground arith

  draw_err :
      (percent : ℤ → ℤ → ℤ) (now : ℕ) (ids : NewIds) (seed mahber : ℕ) (cost threshold : ℤ) (by : ℕ)
      (e : Error)
      → (execute_lottery percent now ids seed mahber cost threshold by s).0 ≡ err e
      → (execute_lottery percent now ids seed mahber cost threshold by s).1.ledger ≡ s.ledger
  unfolding execute_lottery create_ledger_entry
  draw_err percent now ids seed mahber cost threshold by e h = ground arith

  draw-IsBalanced :
      (percent : ℤ → ℤ → ℤ) (now : ℕ) (ids : NewIds) (seed mahber : ℕ) (cost threshold : ℤ) (by : ℕ)
      (result : Result Lottery)
      → (execute_lottery percent now ids seed mahber cost threshold by s).0 ≡ result
      → IsBalanced s.ledger
      → IsBalanced (execute_lottery percent now ids seed mahber cost threshold by s).1.ledger
  draw-IsBalanced percent now ids seed mahber cost threshold by (ok draw) h b =
      write-IsBalanced now ids.entry
        (lottery_entry draw.id mahber draw.winner_id
          (payout_of percent (current_balance mahber s) cost))
        s _ (inl refl) (inr (draw_write percent now ids seed mahber cost threshold by draw h)) b
  draw-IsBalanced percent now ids seed mahber cost threshold by (err e) h b =
      rw (draw_err percent now ids seed mahber cost threshold by e h) b

-- A call about money, with what it takes from outside, and the database that it leaves.
pub data MoneyStep (s : Db) : Db → Type 0 where
  webhook :
      (cal : Calendar) (now entry : ℕ) (payload : Payload)
      → MoneyStep s (process_webhook cal now entry payload s).1
  callback :
      (valid : String → Bool) (cal : Calendar) (now id entry : ℕ) (message : Message)
      → MoneyStep s (handle_chapa_callback valid cal now id entry message s).1
  join : (x : JoinOutside) (mahber user : ℕ) → MoneyStep s (join_mahber x mahber user s).1
  initiate :
      (x : Outside) (mahber member : ℕ) (fines : Option (List ℕ))
      → MoneyStep s (initiate_payment x mahber member fines s).1
  retry :
      (x : Outside) (mahber payment member : ℕ)
      → MoneyStep s (retry_payment x mahber payment member s).1
  payout :
      (now id entry mahber : ℕ) (dto : CreatePayout) (by : ℕ)
      → MoneyStep s (create_payout now id entry mahber dto by s).1
  propose :
      (id mahber : ℕ) (dto : CreateExpense) (by : ℕ)
      → MoneyStep s (create_expense id mahber dto by s).1
  approve :
      (is_number : String → Bool) (transfer : Expense → Result Transfer)
      (now entry id mahber by : ℕ)
      → MoneyStep s (approve_expense is_number transfer now entry id mahber by s).1
  reject :
      (now id mahber by : ℕ) (reason : String)
      → MoneyStep s (reject_expense now id mahber by reason s).1
  waive :
      (now id mahber by : ℕ) (reason : String)
      → MoneyStep s (waive_fine now id mahber by reason s).1
  draw :
      (percent : ℤ → ℤ → ℤ) (now : ℕ) (ids : NewIds) (seed mahber : ℕ) (cost threshold : ℤ) (by : ℕ)
      → MoneyStep s (execute_lottery percent now ids seed mahber cost threshold by s).1
  fine_job :
      (percent : ℤ → ℤ → ℤ) (now : ℕ) (new_ids : ℕ → ℕ × ℕ)
      → MoneyStep s (process percent now new_ids s)
  absences :
      (percent : ℤ → ℤ → ℤ) (id_text : ℕ → String) (now : ℕ) (new_ids : ℕ → ℕ × ℕ)
      (mahber event : ℕ)
      → MoneyStep s (process_event_attendance percent id_text now new_ids mahber event s).1

-- Every call about money keeps the invariants.
pub MoneyStep-IsIntact : {s t : Db} → MoneyStep s t → IsIntact (guarded s) → IsIntact (guarded t)
MoneyStep-IsIntact {s = s} {t = t} (webhook cal now entry payload) h =
    ledger-IsIntact s h t (webhook-frame s cal now entry payload)
      (process_webhook-IsBalanced cal now entry payload s h.books)
MoneyStep-IsIntact {s = s} {t = t} (callback valid cal now id entry message) h =
    ledger-IsIntact s h t (callback-frame s valid cal now id entry message)
      (handle_chapa_callback-IsBalanced valid cal now id entry message s h.books)
MoneyStep-IsIntact {s = s} {t = t} (join x mahber user) h =
    same-IsIntact s h t (join-frame s x mahber user)
MoneyStep-IsIntact {s = s} {t = t} (initiate x mahber member fines) h =
    same-IsIntact s h t (initiate-frame s x mahber member fines)
MoneyStep-IsIntact {s = s} {t = t} (retry x mahber payment member) h =
    same-IsIntact s h t (retry-frame s x mahber payment member)
MoneyStep-IsIntact {s = s} {t = t} (payout now id entry mahber dto by) h =
    ledger-IsIntact s h t (payout-frame s now id entry mahber dto by)
      (create_payout-IsBalanced now id entry mahber by dto s h.books)
MoneyStep-IsIntact {s = s} {t = t} (propose id mahber dto by) h =
    same-IsIntact s h t (create_expense-frame s id mahber dto by)
MoneyStep-IsIntact {s = s} {t = t} (approve is_number transfer now entry id mahber by) h =
    ledger-IsIntact s h t (approve-frame s is_number transfer now entry id mahber by)
      (approve_expense-IsBalanced is_number transfer now entry id mahber by s h.books)
MoneyStep-IsIntact {s = s} {t = t} (reject now id mahber by reason) h =
    same-IsIntact s h t (reject-frame s now id mahber by reason)
MoneyStep-IsIntact {s = s} {t = t} (waive now id mahber by reason) h =
    same-IsIntact s h t (waive-frame s now id mahber by reason)
MoneyStep-IsIntact {s = s} {t = t} (draw percent now ids seed mahber cost threshold by) h =
    ledger-IsIntact s h t (draw-frame s percent now ids seed mahber cost threshold by)
      (draw-IsBalanced s percent now ids seed mahber cost threshold by _ refl h.books)
MoneyStep-IsIntact {s = s} {t = t} (fine_job percent now new_ids) h =
    ledger-IsIntact s h t (process-LedgerOnly percent now new_ids s)
      (process-IsBalanced percent now new_ids s h.books)
MoneyStep-IsIntact {s = s} {t = t} (absences percent id_text now new_ids mahber event) h =
    ledger-IsIntact s h t
      (process_event_attendance-LedgerOnly percent now new_ids id_text mahber event s)
      (process_event_attendance-IsBalanced percent id_text now new_ids mahber event s h.books)
