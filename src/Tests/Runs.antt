-- ===== src/Tests/Runs.antt =====
-- Tests of attendance, invitations and the jobs.
use mahber_connect_backend.Prelude.{
  ℕ, ◌+◌, String, ◌≡◌, refl, true, none, some, [], ◌∷◌, arith, pos, find, select, count, any,
  includes,
}
use mahber_connect_backend.Db.{MembershipStatus, Membership, Event, Db}
use mahber_connect_backend.Exec.{conflict, ok, err}
use mahber_connect_backend.Events.Attendance.{
  is_fine_for, attendance_result, process_event_attendance,
}
use mahber_connect_backend.Events.Attendance.Absence.{
  process_event_attendance-one_fine, process_event_attendance_twice,
}
use mahber_connect_backend.Events.Sending.{
  not_invited, insert_invitations, SendResult, send_invitations,
}
use mahber_connect_backend.Events.Sending.Laws.{send_invitations_twice}
use mahber_connect_backend.Automation.Runs.{process_suspensions}
use mahber_connect_backend.Automation.Runs.Laws.{process_suspensions-active}
use mahber_connect_backend.Events.Schedule.{find_one}
use mahber_connect_backend.Membership.StateMachine.{has_id}
use mahber_connect_backend.Tests.Samples.{share, value, away, meeting, db}

abbrev duty : Event
duty = record meeting { is_mandatory = true }

abbrev duty_db : Db
duty_db = record db { events = duty ∷ []; ledger = [] }

abbrev id_text : ℕ → String
id_text n = "event"

abbrev ids : ℕ → ℕ × ℕ
ids n = (100 + n, 200 + n)

process_event_attendance-one_fine_example :
    count
      (is_fine_for id_text 1 2 3)
      (process_event_attendance share id_text 20 ids 1 2 duty_db).1.ledger
    ≡ 1
unfolding find any count
process_event_attendance-one_fine_example =
    process_event_attendance-one_fine share id_text 20 ids duty duty_db 3 refl refl
      (λ other. omega arith) refl refl

process_event_attendance_twice_example :
    process_event_attendance share id_text 30 ids 1 2
      (process_event_attendance share id_text 20 ids 1 2 duty_db).1
    ≡ (
      ok (attendance_result 1 2 duty_db 0),
      (process_event_attendance share id_text 20 ids 1 2 duty_db).1,
    )
unfolding find
process_event_attendance_twice_example =
    process_event_attendance_twice share id_text 20 ids duty duty_db 30 ids refl

abbrev sent : Db
sent = (send_invitations (λ m. 50 + m) 1 2 1 (1 ∷ 3 ∷ []) db).1

abbrev no_result : SendResult
no_result = record { invited = 0; already_invited = pos 0; invalid_members = pos 0 }

send_invitations_twice_example :
    send_invitations (λ m. 60 + m) 1 2 2 (1 ∷ 3 ∷ []) sent
    ≡ (err (conflict "All selected members have already been invited"), sent)
unfolding send_invitations find_one not_invited insert_invitations find select includes any
send_invitations_twice_example =
    send_invitations_twice (λ m. 50 + m) 1 2 1 (1 ∷ 3 ∷ []) db (λ m. 60 + m) 2
      (value (send_invitations (λ m. 50 + m) 1 2 1 (1 ∷ 3 ∷ []) db).0 no_result) refl

process_suspensions-active_example :
    (m' : Membership) × (find (has_id 4) (process_suspensions (λ m. 300 + m) 60 db).memberships
      ≡ some m')
    × (m'.status ≡ MembershipStatus.active)
    × (m'.suspended_until ≡ none)
unfolding find
process_suspensions-active_example =
    process_suspensions-active (λ m. 300 + m) 60 4 db away refl refl
