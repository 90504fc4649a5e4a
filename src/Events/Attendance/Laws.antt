-- ===== src/Events/Attendance/Laws.antt =====
-- Theorems on check-in and on the fines of absent members.
use mahber_connect_backend.Prelude.{
  ℕ, String, ◌≡◌, inl, inr, true, Option, none, some, List, ◌∷◌, arith, Option-cases, or_default,
  is_some, find, find-eq_none_count, IsOnePair, IsOnePair-new,
}
use mahber_connect_backend.Db.{Attendance, Db}
use mahber_connect_backend.Exec.{ok}
use mahber_connect_backend.Membership.Access.{active_membership_of}
use mahber_connect_backend.Events.Schedule.{event_in}
use mahber_connect_backend.Events.Attendance.{
  VerifiedQrPayload, validate_qr_code, attendance_of, new_attendance, record_attendance,
  manual_check_in,
}

-- No member has two attendances at one event: the table's unique key.
abbrev pub IsOneCheckIn : List Attendance → Type 0
IsOneCheckIn rows = IsOnePair (λ a. a.event_id) (λ a. a.member_id) rows

IsOneCheckIn-new :
    (id mahber event member : ℕ) (rows : List Attendance)
    → find (attendance_of event member) rows ≡ none
    → IsOneCheckIn rows
    → IsOneCheckIn (new_attendance id mahber event member ∷ rows)
IsOneCheckIn-new id mahber event member rows none_yet =
    IsOnePair-new (λ a. a.event_id) (λ a. a.member_id) (new_attendance id mahber event member) rows
      (find-eq_none_count (attendance_of event member) rows none_yet)

module _ (id mahber event member : ℕ) (s : Db) where
  -- If no member has two attendances at one event, none has after a manual check-in, whether it
  -- returns or throws.
  pub manual_check_in-IsOneCheckIn :
      IsOneCheckIn s.attendance
      → IsOneCheckIn (manual_check_in id mahber event member s).1.attendance
  unfolding manual_check_in
  manual_check_in-IsOneCheckIn h ev m =
      elim (Option-cases (find (attendance_of event member) s.attendance)) [
        | inr (a, e) ↦ ground (arith, h ev m)
        | inl e ↦
            ground (arith, h ev m, IsOneCheckIn-new id mahber event member s.attendance e h ev m)
      ]

  -- The same for a check-in with a QR code.
  pub record_attendance-IsOneCheckIn :
      (verify : String → Option VerifiedQrPayload) (token : String)
      → IsOneCheckIn s.attendance
      → IsOneCheckIn (record_attendance verify id mahber event member token s).1.attendance
  unfolding record_attendance validate_qr_code
  record_attendance-IsOneCheckIn verify token h ev m = elim (Option-cases (verify token)) [
    | inl bad ↦ ground (arith, h ev m)
    | inr (payload, good) ↦
        let target = or_default payload.member_id member in
        elim (Option-cases (find (attendance_of event target) s.attendance)) [
          | inr (a, e) ↦ ground (arith, h ev m)
          | inl e ↦
              ground (arith, h ev m, IsOneCheckIn-new id mahber event target s.attendance e h ev m)
        ]
  ]

  -- A check-in with a QR code that returns had a code that was signed for this event of this
  -- organization, and its member, the code's or else the caller, was Active and had none yet.
  pub record_attendance-ok :
      (verify : String → Option VerifiedQrPayload) (token : String) (a : Attendance)
      → (record_attendance verify id mahber event member token s).0 ≡ ok a
      → ((p : VerifiedQrPayload) × ((verify token ≡ some p)
            × (p.mahber_id ≡ mahber)
            × (p.event_id ≡ event)
            × (a.member_id ≡ or_default p.member_id member)))
        × (is_some (find (event_in mahber event) s.events) ≡ true)
        × (is_some (active_membership_of mahber a.member_id s) ≡ true)
        × (find (attendance_of event a.member_id) s.attendance ≡ none)
        × ((record_attendance verify id mahber event member token s).1.attendance
            ≡ a ∷ s.attendance)
  unfolding record_attendance validate_qr_code
  record_attendance-ok verify token a h = elim (Option-cases (verify token)) [
    | inl bad ↦ ground arith
    | inr (p, good) ↦ (
      (p, (good, ground arith, ground arith, ground arith)),
      ground arith,
      ground arith,
      ground arith,
      ground arith,
    )
  ]
