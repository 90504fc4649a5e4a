-- ===== src/Events/Attendance/Absence.antt =====
-- Theorems on `processEventAttendance`: who is fined, how often, and what it does to the ledger.
use mathlib.Core.Path.{subst}
use mahber_connect_backend.Prelude.{
  ℕ, ◌≤◌, String, concat, ◌≡◌, refl, sym, ap, ◌∙◌, inl, inr, Bool, true, false, not, ◌&&◌, ◌||◌,
  Option, some, List, [], ◌∷◌, arith, ◌==◌, Bool-cases, Option-cases, ==-refl, is_some, ℤ, All,
  length, find, select, count, any, contains-concat, find-eq_none_count,
}
use mahber_connect_backend.Db.{
  ViolationType, is_active, Configuration, Membership, LedgerEntry, Fine, Event, Db,
}
use mahber_connect_backend.Exec.{Result, ok}
use mahber_connect_backend.Membership.Access.{is_active_of}
use mahber_connect_backend.Financial.Ledger.{create_ledger_entry}
use mahber_connect_backend.Financial.Ledger.Balance.{IsBalanced}
use mahber_connect_backend.Financial.Fines.{apply_fine}
use mahber_connect_backend.Financial.Fines.Laws.{apply_fine-IsBalanced}
use mahber_connect_backend.Events.Schedule.{event_in}
use mahber_connect_backend.Events.Attendance.{
  configuration_of, has_attended, active_members, absent_members, is_fine_for,
  has_attendance_fine_for_event, fine_text, rate, contribution, mode, fine_absent, fine_all_absent,
  AttendanceResult, attendance_result, apply_absence_fines, process_event_attendance,
}

module _ (percent : ℤ → ℤ → ℤ) (id_text : ℕ → String) (now : ℕ) (new_ids : ℕ → ℕ × ℕ) where
  module _ (config : Option Configuration) (e : Event) where
    abbrev step : Membership → Db → Db
    step = fine_absent percent id_text now new_ids config e

    abbrev loop : List Membership → Db → ℕ × Db
    loop = fine_all_absent percent id_text now new_ids config e

    abbrev fined : ℕ → Db → Bool
    fined member s = has_attendance_fine_for_event id_text e.mahber_id member e.id s

    fine_absent-fined : (m : Membership) (s : Db) → fined m.member_id (step m s) ≡ true
    unfolding fine_absent has_attendance_fine_for_event apply_fine create_ledger_entry find
    fine_absent-fined m s =
        let text =
          contains-concat (concat "Absent from mandatory event: " (concat e.title " ("))
            (id_text e.id) ")" in
        ground (arith, ==-refl e.mahber_id, ==-refl m.member_id, text)

    fine_absent-keeps :
        (m : Membership) (member : ℕ) (s : Db)
        → fined member s ≡ true
        → fined member (step m s) ≡ true
    unfolding fine_absent has_attendance_fine_for_event apply_fine create_ledger_entry find
    fine_absent-keeps m member s h = ground arith

    fine_absent-IsBalanced :
        (m : Membership) (s : Db) → IsBalanced s.ledger → IsBalanced (step m s).ledger
    unfolding fine_absent
    fine_absent-IsBalanced m s h =
        let step =
          apply_fine-IsBalanced percent now (new_ids m.id).0 (new_ids m.id).1 e.mahber_id
            m.member_id ViolationType.missed_attendance (rate percent id_text now new_ids config e)
            (contribution percent id_text now new_ids config e)
            (mode percent id_text now new_ids config e) (fine_text id_text e) s h in
        ground arith

    loop-keeps :
        (ms : List Membership) (member : ℕ) (s : Db)
        → fined member s ≡ true
        → fined member (loop ms s).1 ≡ true
    unfolding fine_all_absent
    loop-keeps [] member s h = h
    loop-keeps (m ∷ ms) member s h =
        loop-keeps ms member (step m s) (fine_absent-keeps m member s h)

    loop-fined :
        (ms : List Membership) (s : Db) → All (λ m. fined m.member_id (loop ms s).1 ≡ true) ms
    unfolding fine_all_absent
    loop-fined [] s = tt
    loop-fined (m ∷ ms) s =
        (loop-keeps ms m.member_id (step m s) (fine_absent-fined m s), loop-fined ms (step m s))

    loop-IsBalanced :
        (ms : List Membership) (s : Db) → IsBalanced s.ledger → IsBalanced (loop ms s).1.ledger
    unfolding fine_all_absent
    loop-IsBalanced [] s h = h
    loop-IsBalanced (m ∷ ms) s h = loop-IsBalanced ms (step m s) (fine_absent-IsBalanced m s h)

    -- Members who all have the fine are left alone.
    loop-idle :
        (ms : List Membership) (s : Db)
        → All (λ m. fined m.member_id s ≡ true) ms
        → loop ms s ≡ (0, s)
    unfolding fine_all_absent fine_absent
    loop-idle [] s h = refl
    loop-idle (m ∷ ms) s h = ground (arith, h.0, loop-idle ms s h.1)

    fine_absent-one :
        (m : Membership) (s : Db)
        → ((member : ℕ) → count (is_fine_for id_text e.mahber_id e.id member) s.ledger ≤ 1)
        → (member : ℕ) → count (is_fine_for id_text e.mahber_id e.id member) (step m s).ledger ≤ 1
    unfolding fine_absent has_attendance_fine_for_event apply_fine create_ledger_entry count
    fine_absent-one m s h member =
        elim (Option-cases (find (is_fine_for id_text e.mahber_id e.id m.member_id) s.ledger)) [
          | inr (x, there) ↦ ground (arith, h member)
          | inl missing ↦
              let zero_yet =
                find-eq_none_count (is_fine_for id_text e.mahber_id e.id m.member_id) s.ledger
                  missing in
              elim (Bool-cases (m.member_id == member)) [
                | inl same ↦
                    let eq : m.member_id ≡ member = ground arith in
                    let zero_there : count (is_fine_for id_text e.mahber_id e.id member) s.ledger
                        ≡ 0 =
                      subst (λ x. count (is_fine_for id_text e.mahber_id e.id x) s.ledger ≡ 0) eq
                        zero_yet in
                    ground arith
                | inr other ↦ ground (arith, h member)
              ]
        ]

    loop-one :
        (ms : List Membership) (s : Db)
        → ((member : ℕ) → count (is_fine_for id_text e.mahber_id e.id member) s.ledger ≤ 1)
        → (member : ℕ)
        → count (is_fine_for id_text e.mahber_id e.id member) (loop ms s).1.ledger ≤ 1
    unfolding fine_all_absent
    loop-one [] s h = h
    loop-one (m ∷ ms) s h = loop-one ms (step m s) (fine_absent-one m s h)

    -- The loop writes fines and ledger entries only.
    fine_absent-frame :
        (m : Membership) (s : Db)
        → step m s ≡ record s { ledger = (step m s).ledger; fines = (step m s).fines }
    unfolding fine_absent apply_fine create_ledger_entry
    fine_absent-frame m s = ground arith

    loop-frame :
        (ms : List Membership) (s : Db)
        → (loop ms s).1 ≡ record s { ledger = (loop ms s).1.ledger; fines = (loop ms s).1.fines }
    unfolding fine_all_absent
    loop-frame [] s = refl
    loop-frame (m ∷ ms) s =
        let t = loop ms (step m s) in
        loop-frame ms (step m s)
        ∙ ap {A = Db} (λ x. record x { ledger = t.1.ledger; fines = t.1.fines })
            (fine_absent-frame m s)

All-any :
    (P : ℕ → Bool) (member : ℕ) (ms : List Membership)
    → All (λ m. P m.member_id ≡ true) ms
    → any (λ m. m.member_id == member) ms ≡ true
    → P member ≡ true
unfolding any
All-any P member [] h e = cc
All-any P member (m ∷ ms) h e = elim (Bool-cases (m.member_id == member)) [
  | inl same ↦ let eq : m.member_id ≡ member = ground arith in subst (λ x. P x ≡ true) eq h.0
  | inr other ↦ All-any P member ms h.1 (ground arith)
]

-- An active member for whom `f` is false is among the absent ones.
absent-any :
    (f : ℕ → Bool) (mahber member : ℕ) (ms : List Membership)
    → f member ≡ false
    → any (is_active_of mahber member) ms ≡ true
    → any
        (λ m. m.member_id == member)
        (select
          (λ m. not (f m.member_id))
          (select (λ m. (m.mahber_id == mahber) && is_active m.status) ms))
      ≡ true
unfolding any select
absent-any f mahber member [] absent h = cc
absent-any f mahber member (m ∷ ms) absent h = elim (Bool-cases (is_active_of mahber member m)) [
  | inl same ↦
      let eq : m.member_id ≡ member = ground arith in
      let away : f m.member_id ≡ false = subst (λ x. f x ≡ false) (sym eq) absent in ground arith
  | inr other ↦ ground (arith, absent-any f mahber member ms absent)
]

module _ (percent : ℤ → ℤ → ℤ) (id_text : ℕ → String) (now : ℕ) (new_ids : ℕ → ℕ × ℕ)
    (mahber event : ℕ) (s : Db) where
  -- If every entry of the ledger carries the sum of its member's amounts up to itself, so it does
  -- after the attendance of an event is processed, whether that returns or throws.
  pub process_event_attendance-IsBalanced :
      IsBalanced s.ledger
      → IsBalanced (process_event_attendance percent id_text now new_ids mahber event s).1.ledger
  unfolding process_event_attendance apply_absence_fines
  process_event_attendance-IsBalanced h =
      elim (Option-cases (find (event_in mahber event) s.events)) [
        | inl missing ↦ ground (arith, h)
        | inr (e, found) ↦ ground (
          arith,
          h,
          loop-IsBalanced percent id_text now new_ids (configuration_of e.mahber_id s) e
              (absent_members mahber event s) s h,
        )
      ]

any-nonempty : (q : Membership → Bool) (ms : List Membership) → any q ms ≡ true → 1 ≤ length ms
unfolding any
any-nonempty q [] h = cc
any-nonempty q (m ∷ ms) h = omega arith

found-count :
    (p : LedgerEntry → Bool) (xs : List LedgerEntry) → is_some (find p xs) ≡ true → 1 ≤ count p xs
unfolding find count
found-count p [] h = cc
found-count p (x ∷ xs) h = ground (arith, found-count p xs)

module _ (percent : ℤ → ℤ → ℤ) (id_text : ℕ → String) (now : ℕ) (new_ids : ℕ → ℕ × ℕ) (e : Event)
    (s : Db) where
  abbrev processed : Result AttendanceResult × Db
  processed = process_event_attendance percent id_text now new_ids e.mahber_id e.id s

  absent_loop :
      find (event_in e.mahber_id e.id) s.events ≡ some e
      → e.is_mandatory ≡ true
      → 1 ≤ length (absent_members e.mahber_id e.id s)
      → processed.1
        ≡ (fine_all_absent percent id_text now new_ids
            (configuration_of e.mahber_id s)
            e
            (absent_members e.mahber_id e.id s)
            s).1
  unfolding process_event_attendance apply_absence_fines
  absent_loop found mandatory some_absent = ground arith

  -- Where no member has two ledger entries that name a mandatory event, every active member
  -- without an attendance has exactly one after the event is processed.
  pub process_event_attendance-one_fine :
      (member : ℕ)
      → find (event_in e.mahber_id e.id) s.events ≡ some e
      → e.is_mandatory ≡ true
      → ((other : ℕ) → count (is_fine_for id_text e.mahber_id e.id other) s.ledger ≤ 1)
      → any (is_active_of e.mahber_id member) s.memberships ≡ true
      → has_attended e.mahber_id e.id member s ≡ false
      → count (is_fine_for id_text e.mahber_id e.id member) processed.1.ledger ≡ 1
  unfolding absent_members active_members has_attendance_fine_for_event
  process_event_attendance-one_fine member found mandatory one active away =
      let config = configuration_of e.mahber_id s in
      let absent = absent_members e.mahber_id e.id s in
      let named =
        absent-any (λ m. has_attended e.mahber_id e.id m s) e.mahber_id member s.memberships away
          active in
      let run = absent_loop found mandatory (any-nonempty _ absent named) in
      let le = loop-one percent id_text now new_ids config e absent s one member in
      let has =
        All-any
          (λ m.
            fined percent id_text now new_ids config e m
              (fine_all_absent percent id_text now new_ids config e absent s).1)
          member absent (loop-fined percent id_text now new_ids config e absent s) named in
      let ge = found-count (is_fine_for id_text e.mahber_id e.id member) _ has in
      rw run (omega (arith, le, ge))

  idle_again :
      (now' : ℕ) (new_ids' : ℕ → ℕ × ℕ) (entries : List LedgerEntry) (fines : List Fine)
      → find (event_in e.mahber_id e.id) s.events ≡ some e
      → let t = record s { ledger = entries; fines = fines } in
        All
          (λ m. has_attendance_fine_for_event id_text e.mahber_id m.member_id e.id t ≡ true)
          (absent_members e.mahber_id e.id s)
        → process_event_attendance percent id_text now' new_ids' e.mahber_id e.id t
          ≡ (ok (attendance_result e.mahber_id e.id s 0), t)
  unfolding process_event_attendance apply_absence_fines absent_members active_members
  idle_again now' new_ids' entries fines found all_fined =
      let t : Db = record s { ledger = entries; fines = fines } in
      let idle =
        loop-idle percent id_text now' new_ids' (configuration_of e.mahber_id s) e
          (absent_members e.mahber_id e.id s) t all_fined in
      ground arith

  absent_none :
      (now' : ℕ) (new_ids' : ℕ → ℕ × ℕ)
      → find (event_in e.mahber_id e.id) s.events ≡ some e
      → (not e.is_mandatory || (length (absent_members e.mahber_id e.id s) == 0)) ≡ true
      → process_event_attendance percent id_text now' new_ids' e.mahber_id e.id s
        ≡ (ok (attendance_result e.mahber_id e.id s 0), s)
  unfolding process_event_attendance apply_absence_fines
  absent_none now' new_ids' found none_absent = ground arith

  -- Processing an event that is found in its organization a second time, later and with other new
  -- ids, applies no fine and changes nothing.
  pub process_event_attendance_twice :
      (now' : ℕ) (new_ids' : ℕ → ℕ × ℕ)
      → find (event_in e.mahber_id e.id) s.events ≡ some e
      → process_event_attendance percent id_text now' new_ids' e.mahber_id e.id processed.1
        ≡ (ok (attendance_result e.mahber_id e.id s 0), processed.1)
  process_event_attendance_twice now' new_ids' found =
      let config = configuration_of e.mahber_id s in
      let absent = absent_members e.mahber_id e.id s in
      let t = (fine_all_absent percent id_text now new_ids config e absent s).1 in
      let frame = loop-frame percent id_text now new_ids config e absent s in
      let all_fined = loop-fined percent id_text now new_ids config e absent s in
      elim (Bool-cases (not e.is_mandatory || (length absent == 0))) [
        | inl idle ↦
            rw (ap (λ r. r.1) (absent_none now new_ids found idle))
              (absent_none now' new_ids' found idle)
        | inr busy ↦ rw (absent_loop found (ground arith) (ground arith)) (
            subst
              (λ x.
                process_event_attendance percent id_text now' new_ids' e.mahber_id e.id x
                ≡ (ok (attendance_result e.mahber_id e.id s 0), x))
              (sym frame)
              (idle_again now' new_ids' t.ledger t.fines found (
                subst
                  (λ x.
                    All
                      (λ m.
                        has_attendance_fine_for_event id_text e.mahber_id m.member_id e.id x ≡ true)
                      absent)
                  frame all_fined)))
      ]
