-- ===== src/System/Jobs.antt =====
-- What the jobs that fine members leave alone.
use mahber_connect_backend.Prelude.{
  ℕ, String, ◌≡◌, refl, ap, ◌∙◌, inl, inr, not, ◌&&◌, ◌||◌, Option, none, some, List, [], ◌∷◌,
  arith, ◌==◌, Bool-cases, Option-cases, ℤ, length, find, select,
}
use mahber_connect_backend.Db.{is_active, Configuration, Mahber, Membership, Event, Db}
use mahber_connect_backend.Financial.Fines.{apply_fine}
use mahber_connect_backend.Financial.Ledger.{create_ledger_entry}
use mahber_connect_backend.Automation.FineCalculation.{
  fine_member, ban_member, process_members, process_mahber, process_mahbers, process,
}
use mahber_connect_backend.Events.Attendance.{
  absent_members, configuration_of, process_event_attendance, apply_absence_fines, fine_all_absent,
  fine_absent,
}
use mahber_connect_backend.Events.Schedule.{event_in}
use mahber_connect_backend.System.Guarded.{Guarded, guarded}

-- Only the ledger of the guarded tables changes.
abbrev pub LedgerOnly : Db → Db → Type 0
LedgerOnly s t = guarded t ≡ record (guarded s) { ledger = t.ledger }

LedgerOnly-trans : (s t u : Db) → LedgerOnly s t → LedgerOnly t u → LedgerOnly s u
LedgerOnly-trans s t u p q = q ∙ ap {A = Guarded} (λ g. record g { ledger = u.ledger }) p

module _ (percent : ℤ → ℤ → ℤ) (now : ℕ) (new_ids : ℕ → ℕ × ℕ) where
  module _ (mahber : ℕ) (config : Configuration) where
    fine_member-LedgerOnly :
        (m : Membership) (s : Db) → LedgerOnly s (fine_member percent now new_ids mahber config m s)
    unfolding fine_member apply_fine create_ledger_entry
    fine_member-LedgerOnly m s = ground arith

    ban_member-LedgerOnly :
        (m : Membership) (s : Db) → LedgerOnly s (ban_member percent now new_ids mahber config m s)
    unfolding ban_member
    ban_member-LedgerOnly m s = ground arith

    process_members-LedgerOnly :
        (ms : List Membership) (s : Db)
        → LedgerOnly s (process_members percent now new_ids mahber config ms s)
    unfolding process_members
    process_members-LedgerOnly [] s = refl
    process_members-LedgerOnly (m ∷ ms) s =
        let fined = fine_member percent now new_ids mahber config m s in
        let looked = ban_member percent now new_ids mahber config m fined in
        LedgerOnly-trans s looked (process_members percent now new_ids mahber config ms looked)
          (LedgerOnly-trans s fined looked (fine_member-LedgerOnly m s)
            (ban_member-LedgerOnly m fined))
          (process_members-LedgerOnly ms looked)

  process_mahbers-LedgerOnly :
      (os : List Mahber) (s : Db) → LedgerOnly s (process_mahbers percent now new_ids os s)
  unfolding process_mahbers process_mahber
  process_mahbers-LedgerOnly [] s = refl
  process_mahbers-LedgerOnly (o ∷ os) s =
      let next = process_mahber percent now new_ids o s in
      LedgerOnly-trans s next (process_mahbers percent now new_ids os next)
        (process_members-LedgerOnly o.id o.configuration
          (select (λ r. (r.mahber_id == o.id) && is_active r.status) s.memberships) s)
        (process_mahbers-LedgerOnly os next)

  pub process-LedgerOnly : (s : Db) → LedgerOnly s (process percent now new_ids s)
  unfolding process
  process-LedgerOnly s = process_mahbers-LedgerOnly s.mahbers s

  module _ (id_text : ℕ → String) (config : Option Configuration) (e : Event) where
    fine_absent-LedgerOnly :
        (m : Membership) (s : Db)
        → LedgerOnly s (fine_absent percent id_text now new_ids config e m s)
    unfolding fine_absent apply_fine create_ledger_entry
    fine_absent-LedgerOnly m s = ground arith

    fine_all_absent-LedgerOnly :
        (ms : List Membership) (s : Db)
        → LedgerOnly s (fine_all_absent percent id_text now new_ids config e ms s).1
    unfolding fine_all_absent
    fine_all_absent-LedgerOnly [] s = refl
    fine_all_absent-LedgerOnly (m ∷ ms) s =
        let next = fine_absent percent id_text now new_ids config e m s in
        LedgerOnly-trans s next (fine_all_absent percent id_text now new_ids config e ms next).1
          (fine_absent-LedgerOnly m s) (fine_all_absent-LedgerOnly ms next)

  apply_absence_fines-LedgerOnly :
      (id_text : ℕ → String) (e : Event) (absent : List Membership) (s : Db)
      → LedgerOnly s (apply_absence_fines percent id_text now new_ids e absent s).1
  unfolding apply_absence_fines
  apply_absence_fines-LedgerOnly id_text e absent s =
      elim (Bool-cases (not e.is_mandatory || (length absent == 0))) [
        | inl idle ↦ rw idle refl
        | inr busy ↦
            rw busy (fine_all_absent-LedgerOnly id_text (configuration_of e.mahber_id s) e absent s)
      ]

  pub attendance_fines :
      (id_text : ℕ → String) (mahber event : ℕ) (e : Event) (s : Db)
      → find (event_in mahber event) s.events ≡ some e
      → (process_event_attendance percent id_text now new_ids mahber event s).1
        ≡ (apply_absence_fines percent id_text now new_ids e (absent_members mahber event s) s).1
  unfolding process_event_attendance
  attendance_fines id_text mahber event e s found = ground arith

  pub attendance_none :
      (id_text : ℕ → String) (mahber event : ℕ) (s : Db)
      → find (event_in mahber event) s.events ≡ none
      → (process_event_attendance percent id_text now new_ids mahber event s).1 ≡ s
  unfolding process_event_attendance
  attendance_none id_text mahber event s missing = ground arith

  pub process_event_attendance-LedgerOnly :
      (id_text : ℕ → String) (mahber event : ℕ) (s : Db)
      → LedgerOnly s (process_event_attendance percent id_text now new_ids mahber event s).1
  process_event_attendance-LedgerOnly id_text mahber event s =
      elim (Option-cases (find (event_in mahber event) s.events)) [
        | inl missing ↦ rw (attendance_none id_text mahber event s missing) refl
        | inr (e, found) ↦
            rw (attendance_fines id_text mahber event e s found)
              (apply_absence_fines-LedgerOnly id_text e (absent_members mahber event s) s)
      ]
