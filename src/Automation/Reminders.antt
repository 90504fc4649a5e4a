-- ===== src/Automation/Reminders.antt =====
-- src/automation/processors/payment-reminder.processor.ts: reminders three days and one day before
-- a contribution is due. The clock is read once for each run.
pub mod Laws
use mahber_connect_backend.Prelude.{
  ℕ, zero, suc, ◌+◌, ◌-◌, ◌*◌, ◌/◌, String, Bool, not, ◌&&◌, ◌||◌, Option, none, some, List, [],
  ◌∷◌, leb, ◌==◌, if◌then◌else◌, or_default, or_else, ℤ, pos, select, any,
}
use mahber_connect_backend.Db.{
  is_active, payment_is_completed, is_contribution, Configuration, Mahber, Membership, Db,
}
use mahber_connect_backend.Dates.{
  Frequency, parse_frequency, Calendar, daily, weekly, monthly, quarterly, other,
}
use mahber_connect_backend.Dates.Fields.{Date, set_date, set_month}
use mahber_connect_backend.Communication.Notifications.{NotificationType, send_to_user, info}

abbrev pub day_ms : ℕ
day_ms = 24 * 60 * 60 * 1000

-- `Math.ceil` of the days until the date; 0 stands for every number that is not positive.
unfoldable pub days_until : ℕ → ℕ → ℕ
days_until now due = (due - now + (day_ms - 1)) / day_ms

-- `REMINDER_DAYS`
abbrev pub is_reminder_day : ℕ → Bool
is_reminder_day days = (days == 3) || (days == 1)

-- `setDate(getDate() - n)`, a day at a time
unfoldable pub days_back : ℕ → Date → Date
unfolding set_date
days_back zero d = d
days_back (suc n) d = days_back n (set_date (d.day - 1) d)

-- `getPeriodStart`
unfoldable pub period_start : Date → Frequency → Date
unfolding days_back set_month
period_start due Frequency.daily = days_back 1 due
period_start due Frequency.weekly = days_back 7 due
period_start due Frequency.quarterly = days_back 90 due
period_start due Frequency.monthly = set_month (due.month + 11) (record due { year = due.year - 1 })
period_start due Frequency.other = set_month (due.month + 11) (record due { year = due.year - 1 })

-- What the job takes from outside: the calendar, the body of the message and the ids of the
-- notifications, by member.
pub record Outside : Type 0 where
  pub calendar : Calendar
  pub body : ℤ → ℕ → String
  pub ids : ℕ → ℕ

module _ (x : Outside) (now mahber : ℕ) (config : Configuration) where
  -- A completed contribution since the start of the period.
  unfoldable pub has_paid_period : ℕ → ℕ → Db → Bool
  unfolding period_start parse_frequency
  has_paid_period member due s =
      let start =
        x.calendar.timestamp
          (period_start (x.calendar.fields due) (parse_frequency config.payment_frequency)) in
      any
        (λ p.
          (p.mahber_id == mahber)
          && (p.member_id == member)
          && is_contribution p.payment_type
          && payment_is_completed p.status
          && leb start p.created_at)
        s.payments

  abbrev pub due_of : Membership → Option ℕ
  due_of m = or_else m.next_payment_due config.next_payment_date

  -- The date that the member is to be reminded of now.
  unfoldable pub reminded_of : Membership → Db → Option ℕ
  unfolding days_until has_paid_period
  reminded_of m s = elim (due_of m) [
    | none ↦ none
    | some due ↦
        if is_reminder_day (days_until now due) && not (has_paid_period m.member_id due s)
        then some due
        else none
  ]

  abbrev title : ℕ → String
  title due = if days_until now due == 3 then "Payment Due in 3 Days" else "Payment Due Tomorrow"

  unfoldable pub remind_member : Membership → Db → Db
  unfolding reminded_of days_until send_to_user
  remind_member m s = elim (reminded_of m s) [
    | none ↦ s
    | some due ↦
        (send_to_user (x.ids m.member_id) m.member_id (title due)
          (x.body (or_default config.contribution_amount (pos 0)) due) (some "PAYMENT_REMINDER")
          NotificationType.info s).1
  ]

  unfoldable pub remind_members : List Membership → Db → Db
  unfolding remind_member
  remind_members [] s = s
  remind_members (m ∷ ms) s = remind_members ms (remind_member m s)

-- `processMahberReminders`
unfoldable pub process_mahber_reminders : Outside → ℕ → Mahber → Db → Db
unfolding remind_members
process_mahber_reminders x now o s =
    remind_members x now o.id o.configuration
      (select (λ m. (m.mahber_id == o.id) && is_active m.status) s.memberships) s

unfoldable pub process_each : Outside → ℕ → List Mahber → Db → Db
unfolding process_mahber_reminders
process_each x now [] s = s
process_each x now (o ∷ os) s = process_each x now os (process_mahber_reminders x now o s)

-- `process`
unfoldable pub process_reminders : Outside → ℕ → Db → Db
unfolding process_each
process_reminders x now s = process_each x now s.mahbers s
