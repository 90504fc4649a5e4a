-- ===== src/Automation/Reminders/Laws.antt =====
-- Theorems on reminders: who is reminded, and that nothing else changes.
use mahber_connect_backend.Prelude.{
  ℕ, ◌+◌, ◌-◌, ◌*◌, ◌/◌, ◌≤◌, ◌<◌, ◌≡◌, refl, sym, ap, ◌∙◌, inl, inr, true, false, ◌&&◌, some, List,
  [], ◌∷◌, arith, ◌==◌, Option-cases, select,
}
use mahber_connect_backend.Db.{is_active, Configuration, Mahber, Membership, Db}
use mahber_connect_backend.Communication.Notifications.{send_to_user}
use mahber_connect_backend.Automation.Reminders.{
  day_ms, days_until, is_reminder_day, Outside, has_paid_period, due_of, reminded_of, remind_member,
  remind_members, process_mahber_reminders, process_each, process_reminders,
}

soon :
    (now due days : ℕ)
    → (due - now + 86399999) / 86400000 ≡ days
    → is_reminder_day days ≡ true
    → (now < due) × (due ≤ now + 259200000)
soon now due days h r = (ground arith, ground arith)

module _ (x : Outside) (now mahber : ℕ) (config : Configuration) where
  -- A reminder writes a notification and nothing else.
  remind_member-frame :
      (m : Membership) (s : Db)
      → remind_member x now mahber config m s
        ≡ record s { notifications = (remind_member x now mahber config m s).notifications }
  unfolding remind_member send_to_user
  remind_member-frame m s = ground arith

  remind_members-frame :
      (ms : List Membership) (s : Db)
      → remind_members x now mahber config ms s
        ≡ record s { notifications = (remind_members x now mahber config ms s).notifications }
  unfolding remind_members
  remind_members-frame [] s = refl
  remind_members-frame (m ∷ ms) s =
      let t = remind_members x now mahber config ms (remind_member x now mahber config m s) in
      remind_members-frame ms (remind_member x now mahber config m s)
      ∙ ap {A = Db} (λ r. record r { notifications = t.notifications }) (remind_member-frame m s)

  -- A member who is reminded has a due date later than now and at most three days away, and has not
  -- paid for its period.
  pub reminded_of-soon :
      (m : Membership) (s : Db) (due : ℕ)
      → reminded_of x now mahber config m s ≡ some due
      → (now < due)
        × (due ≤ now + 3 * day_ms)
        × (due_of x now mahber config m ≡ some due)
        × (has_paid_period x now mahber config m.member_id due s ≡ false)
  unfolding reminded_of days_until
  reminded_of-soon m s due h = elim (Option-cases (due_of x now mahber config m)) [
    | inl undated ↦ ground arith
    | inr (d, dated) ↦
        let same : d ≡ due = ground arith in
        let near : is_reminder_day (days_until now due) ≡ true = rw (sym same) (ground arith) in
        let (after, before) = soon now due (days_until now due) refl near in
        (after, before, ground arith, ground arith)
  ]

process_each-frame :
    (x : Outside) (now : ℕ) (os : List Mahber) (s : Db)
    → process_each x now os s ≡ record s { notifications = (process_each x now os s).notifications }
unfolding process_each process_mahber_reminders
process_each-frame x now [] s = refl
process_each-frame x now (o ∷ os) s =
    let members = select (λ m. (m.mahber_id == o.id) && is_active m.status) s.memberships in
    let next = process_mahber_reminders x now o s in
    let t = process_each x now os next in
    process_each-frame x now os next
    ∙ ap {A = Db} (λ r. record r { notifications = t.notifications })
        (remind_members-frame x now o.id o.configuration members s)

-- A run of the job writes notifications and nothing else.
pub process_reminders-frame :
    (x : Outside) (now : ℕ) (s : Db)
    → process_reminders x now s
      ≡ record s { notifications = (process_reminders x now s).notifications }
unfolding process_reminders
process_reminders-frame x now s = process_each-frame x now s.mahbers s
