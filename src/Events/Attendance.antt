-- ===== src/Events/Attendance.antt =====
-- src/events/attendance.service.ts and src/events/qr.service.ts: check-in and the fines of absent
-- members. The monthly trends and the PDF report are not modelled and logging is left out.
pub mod Laws
pub mod Absence
use mathlib.Core.Option
use mahber_connect_backend.Prelude.{
  oldest_first, ℕ, suc, ◌+◌, ◌-◌, ◌*◌, ◌/◌, String, concat, Bool, not, ◌&&◌, ◌||◌, Option, none,
  some, List, [], ◌∷◌, map, ltb, ◌==◌, if◌then◌else◌, or_default, is_some, ℤ, ◌-ℤ◌, pos, length,
  find, select, any, contains,
}
use mahber_connect_backend.Db.{
  ViolationType, is_active, Configuration, Membership, LedgerEntry, Event, Attendance, Db,
}
use mahber_connect_backend.Exec.{
  Result, Exec, pure, gets, or_throw, ◌>>=◌, ◌>>◌, throw_if, modify, bad_request, conflict,
  forbidden, not_found, unauthorized, ok, err,
}
use mahber_connect_backend.Membership.Access.{active_membership_of}
use mahber_connect_backend.Financial.Fines.{apply_fine}
use mahber_connect_backend.Events.Schedule.{event_in, cancelled}

-- What the JWT library reads from a token that it accepts.
pub record VerifiedQrPayload : Type 0 where
  pub event_id : ℕ
  pub mahber_id : ℕ
  pub member_id : Option ℕ

-- The lifetime in seconds that `generateQRCode` asks for; `now` and `end_time` are milliseconds.
unfoldable pub qr_lifetime : ℕ → ℕ → ℕ
qr_lifetime now end_time = (end_time / 1000 + 30 * 60) - now / 1000

-- `sign` is the JWT library, which takes the payload and the lifetime.
unfoldable pub generate_qr_code : (ℕ → ℕ → ℕ → String) → ℕ → Event → Result String
unfolding qr_lifetime
generate_qr_code sign now e =
    if qr_lifetime now e.end_time == 0
    then err (unauthorized "Event has already ended or QR would be expired")
    else ok (sign e.id e.mahber_id (qr_lifetime now e.end_time))

-- `verify` is the JWT library: nothing where it throws.
unfoldable pub validate_qr_code :
    (String → Option VerifiedQrPayload) → String → ℕ → Exec VerifiedQrPayload
validate_qr_code verify token mahber = do
  payload ← or_throw (verify token) (unauthorized "QR code is invalid or expired")
  throw_if (not (payload.mahber_id == mahber))
      (unauthorized "QR code does not belong to this mahber")
  pure payload

-- The unique key on event and member.
abbrev pub attendance_of : ℕ → ℕ → Attendance → Bool
attendance_of event member a = (a.event_id == event) && (a.member_id == member)

abbrev pub new_attendance : ℕ → ℕ → ℕ → ℕ → Attendance
new_attendance id mahber event member = record {
  id = id;
  event_id = event;
  member_id = member;
  mahber_id = mahber;
}

-- `attendance.create`
abbrev create_attendance : Attendance → Exec Attendance
create_attendance a = modify (λ s. record s { attendance = a ∷ s.attendance }) >> pure a

unfoldable pub record_attendance :
    (String → Option VerifiedQrPayload) → ℕ → ℕ → ℕ → ℕ → String → Exec Attendance
unfolding validate_qr_code
record_attendance verify id mahber event member token = do
  payload ← validate_qr_code verify token mahber
  let target = or_default payload.member_id member
  throw_if (not (payload.event_id == event)) (forbidden "QR code does not match this event")
  _ ← or_throw (← gets (λ s. find (event_in mahber event) s.events)) (not_found "Event not found")
  _ ←
      or_throw (← gets (active_membership_of mahber target))
        (forbidden "You must be an active member of this mahber to check in")
  existing ← gets (λ s. find (attendance_of event target) s.attendance)
  throw_if (is_some existing) (conflict "Attendance already recorded for this event")
  create_attendance (new_attendance id mahber event target)

unfoldable pub manual_check_in : ℕ → ℕ → ℕ → ℕ → Exec Attendance
manual_check_in id mahber event member = do
  e ← or_throw (← gets (λ s. find (event_in mahber event) s.events)) (not_found "Event not found")
  throw_if e.is_cancelled (bad_request "Cannot check in to a cancelled event")
  _ ←
      or_throw (← gets (active_membership_of mahber member))
        (forbidden "Member is not active in this mahber")
  existing ← gets (λ s. find (attendance_of event member) s.attendance)
  throw_if (is_some existing) (conflict "Attendance already recorded for this member")
  create_attendance (new_attendance id mahber event member)

-- `where: { event_id, mahber_id }`
abbrev pub is_attendance_in : ℕ → ℕ → Attendance → Bool
is_attendance_in mahber event a = (a.event_id == event) && (a.mahber_id == mahber)

-- `getAttendance`: the records from the oldest to the newest, without the users that the source joins
unfoldable pub get_attendance : ℕ → ℕ → Exec (List Attendance)
unfolding oldest_first
get_attendance mahber event = do
  _ ← or_throw (← gets (λ s. find (event_in mahber event) s.events)) (not_found "Event not found")
  gets (λ s. oldest_first (select (is_attendance_in mahber event) s.attendance))

-- `attendedMemberIds.has`
abbrev pub has_attended : ℕ → ℕ → ℕ → Db → Bool
has_attended mahber event member s =
    any (λ a. (a.event_id == event) && (a.mahber_id == mahber) && (a.member_id == member))
      s.attendance

-- The members with the status Active, and those of them without an attendance.
unfoldable pub active_members : ℕ → Db → List Membership
active_members mahber s = select (λ m. (m.mahber_id == mahber) && is_active m.status) s.memberships

unfoldable pub absent_members : ℕ → ℕ → Db → List Membership
unfolding active_members
absent_members mahber event s =
    select (λ m. not (has_attended mahber event m.member_id s)) (active_members mahber s)

-- A row of the ledger that `hasAttendanceFineForEvent` takes for the fine; `id_text` is the text
-- of an id.
abbrev pub is_fine_for : (ℕ → String) → ℕ → ℕ → ℕ → LedgerEntry → Bool
is_fine_for id_text mahber event member e =
    (e.mahber_id == mahber) && (e.member_id == member) && contains (id_text event) e.description

unfoldable pub has_attendance_fine_for_event : (ℕ → String) → ℕ → ℕ → ℕ → Db → Bool
has_attendance_fine_for_event id_text mahber member event s =
    is_some (find (is_fine_for id_text mahber event member) s.ledger)

-- The description of the fine.
abbrev pub fine_text : (ℕ → String) → Event → String
fine_text id_text e =
    concat (concat "Absent from mandatory event: " (concat e.title " ("))
      (concat (id_text e.id) ")")

module _ (percent : ℤ → ℤ → ℤ) (id_text : ℕ → String) (now : ℕ) (new_ids : ℕ → ℕ × ℕ)
    (config : Option Configuration) (e : Event) where
  abbrev pub rate : ℤ
  rate = elim config [ none ↦ pos 0 | some c ↦ or_default c.penalty_rate (pos 0) ]

  abbrev pub contribution : ℤ
  contribution = elim config [ none ↦ pos 0 | some c ↦ or_default c.contribution_amount (pos 0) ]

  abbrev pub mode : String
  mode = elim config [ none ↦ "fixed" | some c ↦ or_default c.penalty_mode "fixed" ]

  -- One turn of the loop; `new_ids` gives the ids of the fine and of its entry for a membership.
  unfoldable pub fine_absent : Membership → Db → Db
  unfolding has_attendance_fine_for_event apply_fine
  fine_absent m s =
      if has_attendance_fine_for_event id_text e.mahber_id m.member_id e.id s
      then s
      else (apply_fine percent now (new_ids m.id).0 (new_ids m.id).1 e.mahber_id m.member_id
          ViolationType.missed_attendance rate contribution mode (fine_text id_text e) s).1

  -- The loop, with the number of fines that it applied.
  unfoldable pub fine_all_absent : List Membership → Db → ℕ × Db
  unfolding fine_absent has_attendance_fine_for_event
  fine_all_absent [] s = (0, s)
  fine_all_absent (m ∷ ms) s =
      let rest = fine_all_absent ms (fine_absent m s) in
      (
        if has_attendance_fine_for_event id_text e.mahber_id m.member_id e.id s
            then rest.0
            else suc rest.0,
        rest.1,
      )

pub record AttendanceResult : Type 0 where
  pub event_id : ℕ
  pub total_members : ℕ
  pub attended : ℕ
  pub absent : ℕ
  pub fines_applied : ℕ

abbrev pub attendance_result : ℕ → ℕ → Db → ℕ → AttendanceResult
attendance_result mahber event s fines = record {
  event_id = event;
  total_members = length (active_members mahber s);
  attended = length (select (is_attendance_in mahber event) s.attendance);
  absent = length (absent_members mahber event s);
  fines_applied = fines;
}

abbrev pub configuration_of : ℕ → Db → Option Configuration
configuration_of mahber s = Option.map (λ o. o.configuration) (find (λ o. o.id == mahber) s.mahbers)

-- The loop, unless it is left out.
unfoldable pub apply_absence_fines :
    (ℤ → ℤ → ℤ) → (ℕ → String) → ℕ → (ℕ → ℕ × ℕ) → Event → List Membership → Exec ℕ
unfolding fine_all_absent
apply_absence_fines percent id_text now new_ids e absent s =
    let run =
      fine_all_absent percent id_text now new_ids (configuration_of e.mahber_id s) e absent s in
    if not e.is_mandatory || (length absent == 0) then (ok 0, s) else (ok run.0, run.1)

unfoldable pub process_event_attendance :
    (ℤ → ℤ → ℤ) → (ℕ → String) → ℕ → (ℕ → ℕ × ℕ) → ℕ → ℕ → Exec AttendanceResult
unfolding absent_members active_members apply_absence_fines
process_event_attendance percent id_text now new_ids mahber event = do
  e ← or_throw (← gets (λ s. find (event_in mahber event) s.events)) (not_found "Event not found")
  absent ← gets (absent_members mahber event)
  report ← gets (attendance_result mahber event)
  fines ← apply_absence_fines percent id_text now new_ids e absent
  pure (report fines)

pub record Analytics : Type 0 where
  pub total_members : ℕ
  pub attended : ℕ
  pub absent : ℤ
  pub attendance_percentage : ℕ
  pub is_mandatory : Bool
  pub is_cancelled : Bool

-- `Math.round((attended / members) * 100)` in whole numbers: half a percent is rounded up.
unfoldable pub rounded_percentage : ℕ → ℕ → ℕ
rounded_percentage attended members =
    if ltb 0 members then (200 * attended + members) / (2 * members) else 0

unfoldable pub get_analytics : ℕ → ℕ → Exec Analytics
unfolding active_members rounded_percentage
get_analytics mahber event = do
  e ← or_throw (← gets (λ s. find (event_in mahber event) s.events)) (not_found "Event not found")
  members ← gets (λ s. length (active_members mahber s))
  attended ← gets (λ s. length (select (is_attendance_in mahber event) s.attendance))
  pure (record {
    total_members = members;
    attended = attended;
    absent = pos members -ℤ pos attended;
    attendance_percentage = rounded_percentage attended members;
    is_mandatory = e.is_mandatory;
    is_cancelled = e.is_cancelled;
  })
