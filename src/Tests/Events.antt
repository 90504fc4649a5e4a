-- ===== src/Tests/Events.antt =====
-- Tests of events, invitations and due dates.
use mahber_connect_backend.Prelude.{◌*◌, ◌≡◌, refl, true, none, some, arith, is_some, find}
use mahber_connect_backend.Db.{Recurrence}
use mahber_connect_backend.Exec.{ok}
use mahber_connect_backend.Events.Schedule.{CreateEvent, move, schedule}
use mahber_connect_backend.Events.Schedule.Laws.{MovesOn, schedule-enough}
use mahber_connect_backend.Events.Invitations.{
  new_registration, register_for_event, cancel_registration,
}
use mahber_connect_backend.Events.Invitations.Laws.{cancel_registration-register}
use mahber_connect_backend.Tests.Samples.{day, calendar, db}
use mahber_connect_backend.Dates.Fields.{set_date, set_month}

calendar-MovesOn : MovesOn calendar
unfolding move set_date set_month
calendar-MovesOn Recurrence.none t h = ground arith
calendar-MovesOn Recurrence.weekly t h = ground arith
calendar-MovesOn Recurrence.monthly t h = ground arith

abbrev course : CreateEvent
course = record {
  title = "Course";
  start_time = 10;
  end_time = 20;
  location = "Hall";
  is_mandatory = none;
  host_id = some 2;
  recurrence_pattern = some Recurrence.weekly;
  recurrence_end_date = some (20 * day);
}

schedule-enough_example : is_some (schedule calendar course) ≡ true
schedule-enough_example = schedule-enough calendar calendar-MovesOn course

cancel_registration-register_example :
    ((cancel_registration 1 2 3 (register_for_event 20 33 1 2 3 db).1).0 ≡ ok tt)
    × ((cancel_registration 1 2 3 (register_for_event 20 33 1 2 3 db).1).1.event_invitations
        ≡ db.event_invitations)
unfolding register_for_event find
cancel_registration-register_example =
    cancel_registration-register 20 33 1 2 3 db (new_registration 20 33 1 2 3) (refl, tt) refl refl
