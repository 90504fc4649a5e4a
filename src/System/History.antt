-- ===== src/System/History.antt =====
-- The ledger only grows: what the calls of System keep of its entries.
use mahber_connect_backend.Prelude.{
  ℕ, ◌≤◌, String, inl, inr, Bool, ◌&&◌, Option, List, [], ◌∷◌, arith, ◌==◌, Option-cases, ℤ, find,
  select, count,
}
use mahber_connect_backend.Db.{
  is_active, Configuration, Mahber, Membership, LedgerEntry, Expense, Event, Db,
}
use mahber_connect_backend.Exec.{Result}
use mahber_connect_backend.Dates.{Calendar}
use mahber_connect_backend.Financial.Ledger.{create_ledger_entry}
use mahber_connect_backend.Financial.Fines.{apply_fine}
use mahber_connect_backend.Financial.Payments.Webhook.{Payload, process_webhook}
use mahber_connect_backend.Financial.Callback.{Message, handle_chapa_callback, settle_pending}
use mahber_connect_backend.Financial.Payouts.{CreatePayout, create_payout}
use mahber_connect_backend.Financial.Expenses.{approve_expense, Transfer, find_pending_expense}
use mahber_connect_backend.Financial.Lotteries.{NewIds, execute_lottery}
use mahber_connect_backend.Automation.FineCalculation.{
  fine_member, ban_member, process_members, process_mahber, process_mahbers, process,
}
use mahber_connect_backend.Events.Attendance.{
  absent_members, configuration_of, process_event_attendance, apply_absence_fines, fine_all_absent,
  fine_absent,
}
use mahber_connect_backend.Events.Schedule.{event_in}
use mahber_connect_backend.System.Jobs.{attendance_none, attendance_fines}

-- How many entries pass a test.
abbrev pub entries : (LedgerEntry → Bool) → Db → ℕ
entries q s = count q s.ledger

module _ (q : LedgerEntry → Bool) (s : Db) where
  pub process_webhook-entries :
      (cal : Calendar) (now entry : ℕ) (payload : Payload)
      → entries q s ≤ entries q (process_webhook cal now entry payload s).1
  unfolding process_webhook create_ledger_entry count
  process_webhook-entries cal now entry payload = ground arith

  pub handle_chapa_callback-entries :
      (valid : String → Bool) (cal : Calendar) (now id entry : ℕ) (message : Message)
      → entries q s ≤ entries q (handle_chapa_callback valid cal now id entry message s).1
  unfolding handle_chapa_callback settle_pending create_ledger_entry count
  handle_chapa_callback-entries valid cal now id entry message = ground arith

  pub create_payout-entries :
      (now id entry mahber : ℕ) (dto : CreatePayout) (by : ℕ)
      → entries q s ≤ entries q (create_payout now id entry mahber dto by s).1
  unfolding create_payout create_ledger_entry count
  create_payout-entries now id entry mahber dto by = ground arith

  pub approve_expense-entries :
      (is_number : String → Bool) (transfer : Expense → Result Transfer)
      (now entry id mahber by : ℕ)
      → entries q s ≤ entries q (approve_expense is_number transfer now entry id mahber by s).1
  unfolding approve_expense create_ledger_entry find_pending_expense count
  approve_expense-entries is_number transfer now entry id mahber by = ground arith

  pub execute_lottery-entries :
      (percent : ℤ → ℤ → ℤ) (now : ℕ) (ids : NewIds) (seed mahber : ℕ) (cost threshold : ℤ) (by : ℕ)
      → entries q s ≤ entries q (execute_lottery percent now ids seed mahber cost threshold by s).1
  unfolding execute_lottery create_ledger_entry count
  execute_lottery-entries percent now ids seed mahber cost threshold by = ground arith

module _ (q : LedgerEntry → Bool) (percent : ℤ → ℤ → ℤ) (now : ℕ) (new_ids : ℕ → ℕ × ℕ) where
  module _ (mahber : ℕ) (config : Configuration) where
    fine_member-entries :
        (m : Membership) (s : Db)
        → entries q s ≤ entries q (fine_member percent now new_ids mahber config m s)
    unfolding fine_member apply_fine create_ledger_entry count
    fine_member-entries m s = ground arith

    ban_member-entries :
        (m : Membership) (s : Db)
        → entries q s ≤ entries q (ban_member percent now new_ids mahber config m s)
    unfolding ban_member
    ban_member-entries m s = ground arith

    process_members-entries :
        (ms : List Membership) (s : Db)
        → entries q s ≤ entries q (process_members percent now new_ids mahber config ms s)
    unfolding process_members
    process_members-entries [] s = omega arith
    process_members-entries (m ∷ ms) s =
        let fined = fine_member percent now new_ids mahber config m s in
        let looked = ban_member percent now new_ids mahber config m fined in
        omega (
          arith,
          fine_member-entries m s,
          ban_member-entries m fined,
          process_members-entries ms looked,
        )

  process_mahbers-entries :
      (os : List Mahber) (s : Db)
      → entries q s ≤ entries q (process_mahbers percent now new_ids os s)
  unfolding process_mahbers process_mahber
  process_mahbers-entries [] s = omega arith
  process_mahbers-entries (o ∷ os) s = omega (
    arith,
    process_members-entries o.id o.configuration
        (select (λ r. (r.mahber_id == o.id) && is_active r.status) s.memberships) s,
    process_mahbers-entries os (process_mahber percent now new_ids o s),
  )

  pub process-entries : (s : Db) → entries q s ≤ entries q (process percent now new_ids s)
  unfolding process
  process-entries s = process_mahbers-entries s.mahbers s

  module _ (id_text : ℕ → String) (config : Option Configuration) (e : Event) where
    fine_absent-entries :
        (m : Membership) (s : Db)
        → entries q s ≤ entries q (fine_absent percent id_text now new_ids config e m s)
    unfolding fine_absent apply_fine create_ledger_entry count
    fine_absent-entries m s = ground arith

    fine_all_absent-entries :
        (ms : List Membership) (s : Db)
        → entries q s ≤ entries q (fine_all_absent percent id_text now new_ids config e ms s).1
    unfolding fine_all_absent
    fine_all_absent-entries [] s = omega arith
    fine_all_absent-entries (m ∷ ms) s = omega (
      arith,
      fine_absent-entries m s,
      fine_all_absent-entries ms (fine_absent percent id_text now new_ids config e m s),
    )

  apply_absence_fines-entries :
      (id_text : ℕ → String) (e : Event) (absent : List Membership) (s : Db)
      → entries q s ≤ entries q (apply_absence_fines percent id_text now new_ids e absent s).1
  unfolding apply_absence_fines
  apply_absence_fines-entries id_text e absent s =
      ground (arith, fine_all_absent-entries id_text (configuration_of e.mahber_id s) e absent s)

  pub process_event_attendance-entries :
      (id_text : ℕ → String) (mahber event : ℕ) (s : Db)
      → entries q s
        ≤ entries q (process_event_attendance percent id_text now new_ids mahber event s).1
  process_event_attendance-entries id_text mahber event s =
      elim (Option-cases (find (event_in mahber event) s.events)) [
        | inl missing ↦
            rw (attendance_none percent now new_ids id_text mahber event s missing) (omega arith)
        | inr (e, found) ↦
            rw (attendance_fines percent now new_ids id_text mahber event e s found)
              (apply_absence_fines-entries id_text e (absent_members mahber event s) s)
      ]
