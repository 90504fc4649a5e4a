-- ===== src/Automation/Runs.antt =====
-- The jobs of src/automation/processors that call a service: lottery-execution.processor.ts,
-- suspension-expiry.processor.ts and attendance.processor.ts.
pub mod Laws
use mahber_connect_backend.Prelude.{
  ℕ, String, ◌&&◌, none, some, List, [], ◌∷◌, ◌==◌, if◌then◌else◌, ℤ, find,
}
use mahber_connect_backend.Db.{is_active, Lottery, Db}
use mahber_connect_backend.Exec.{Exec, pure, gets, ◌>>=◌, ◌>>◌}
use mahber_connect_backend.Membership.Member.{Reinstated, check_and_reinstate_expired_suspensions}
use mahber_connect_backend.Financial.Lotteries.{NewIds, execute_lottery}
use mahber_connect_backend.Events.Attendance.{process_event_attendance}
use mahber_connect_backend.Communication.Notifications.{
  NotificationType, send_to_user, send_to_mahber_members, info, success,
}

-- The member who stands for the caller of an automated draw, or else `system`.
abbrev pub executed_by : ℕ → ℕ → Db → ℕ
executed_by system mahber s =
    elim (find (λ m. (m.mahber_id == mahber) && is_active m.status) s.memberships) [
      | none ↦ system
      | some m ↦ m.member_id
    ]

-- `ids` are the ids of the draw's rows and `note_ids` those of the notifications; `text` is the
-- message on the payout.
unfoldable pub process_lottery :
    (ℤ → ℤ → ℤ) → ℕ → NewIds → (ℕ → ℕ) → ℕ → ℕ → ℕ → ℤ → ℤ → (ℤ → String) → Exec Lottery
unfolding execute_lottery send_to_mahber_members
process_lottery percent now ids note_ids seed system mahber cost_rate threshold text = do
  by ← gets (executed_by system mahber)
  draw ← execute_lottery percent now ids seed mahber cost_rate threshold by
  send_to_mahber_members note_ids mahber "Lottery Draw Completed" (text draw.payout_amount)
      (some "LOTTERY_RESULT") NotificationType.info none
  pure draw

unfoldable pub notify_one : (ℕ → ℕ) → Reinstated → Db → Db
unfolding send_to_user
notify_one ids r s =
    (send_to_user (ids r.member_id) r.member_id "Membership Reinstated"
      "Your temporary suspension has expired and your membership has been automatically reinstated."
      (some "MEMBERSHIP_REINSTATED") NotificationType.info s).1

-- The notifications of those who were reinstated.
unfoldable pub notify_reinstated : (ℕ → ℕ) → List Reinstated → Db → Db
unfolding notify_one
notify_reinstated ids [] s = s
notify_reinstated ids (r ∷ rs) s =
    notify_reinstated ids rs (if r.success then notify_one ids r s else s)

unfoldable pub process_suspensions : (ℕ → ℕ) → ℕ → Db → Db
unfolding check_and_reinstate_expired_suspensions notify_reinstated
process_suspensions ids now s =
    let run = check_and_reinstate_expired_suspensions now s in notify_reinstated ids run.0 run.1

unfoldable pub process_attendance :
    (ℤ → ℤ → ℤ) → (ℕ → String) → ℕ → (ℕ → ℕ × ℕ) → ℕ → ℕ → Exec (Unit {0})
unfolding process_event_attendance
process_attendance percent id_text now new_ids mahber event_id = do
  process_event_attendance percent id_text now new_ids mahber event_id
  pure tt
