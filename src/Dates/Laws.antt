-- ===== src/Dates/Laws.antt =====
-- Due dates: what `addFrequency` and `getNextPaymentDueDate` give for dates of the calendar.
use mahber_connect_backend.Prelude.{
  ℕ, zero, suc, ◌+◌, ◌-◌, ◌*◌, ◌/◌, ◌%◌, ◌≤◌, ◌<◌, ◌≡◌, refl, ap, ◌∙◌, inl, inr, ◌&&◌, arith, leb,
  ◌==◌, if◌then◌else◌, Bool-cases,
}
use mahber_connect_backend.Dates.{days_ahead, next_weekly}
use mahber_connect_backend.Dates.Fields.{
  Date, is_leap, days_in_month, month_after, set_date, days_before, is_leap, day_number, weekday,
}

-- The fields of a day that exists.
abbrev pub IsDate : Date → Type 0
IsDate d = (1 ≤ d.year) × (d.month < 12) × (1 ≤ d.day) × (d.day ≤ days_in_month d.year d.month)

-- Months have 28 to 31 days.
days_in_month-bounds : (y m : ℕ) → (28 ≤ days_in_month y m) × (days_in_month y m ≤ 31)
unfolding days_in_month
days_in_month-bounds y m = (ground arith, ground arith)

abbrev leap_day : ℕ → ℕ → ℕ
leap_day y m = if is_leap y && leb 2 m then 1 else 0

days_before-next :
    (y m : ℕ)
    → m < 11
    → days_before (m + 1) + leap_day y (m + 1) ≡ days_before m + leap_day y m + days_in_month y m
unfolding days_in_month
days_before-next y m h = elim (Bool-cases (is_leap y)) [
  | inl leap ↦ ground arith
  | inr common ↦ ground arith
]

-- The days of the years before.
abbrev days_of : ℕ → ℕ
days_of y = y * 365 + y / 4 - y / 100 + y / 400

days_of-next : (y : ℕ) → days_of (y + 1) ≡ days_of y + 365 + leap_day (y + 1) 11
unfolding is_leap
days_of-next y = ground arith

december_long : (y : ℕ) → days_in_month y 11 ≡ 31
unfolding days_in_month
december_long y = refl

-- The day number of a year, a month and a day.
unfoldable number : ℕ → ℕ → ℕ → ℕ
number y m n = days_of (y - 1) + days_before m + leap_day y m + (n - 1)

number_of : (d : Date) → day_number d ≡ number d.year d.month d.day
unfolding day_number number
number_of d = refl

number-next_month : (y m : ℕ) → m < 11 → number y (m + 1) 1 ≡ number y m (days_in_month y m) + 1
unfolding number
number-next_month y m h =
    let next = days_before-next y m h in let bounds = days_in_month-bounds y m in omega arith

number-next_year : (y : ℕ) → 1 ≤ y → number (y + 1) 0 1 ≡ number y 11 (days_in_month y 11) + 1
unfolding number
number-next_year zero h = ground arith
number-next_year (suc y) h = rw (december_long (suc y)) (let next = days_of-next y in ground arith)

-- The first of the next month is one day after the last of a month.
day_number-month_after :
    (d : Date)
    → IsDate d
    → day_number (record (month_after d) { day = 1 })
      ≡ day_number (record d { day = days_in_month d.year d.month }) + 1
day_number-month_after d h =
    let after = number_of (record (month_after d) { day = 1 }) in
    let last = number_of (record d { day = days_in_month d.year d.month }) in
    elim (Bool-cases (d.month == 11)) [
      | inl december ↦ let next = number-next_year d.year h.0 in ground arith
      | inr earlier ↦ let next = number-next_month d.year d.month (ground arith) in ground arith
    ]

-- A day of a month is as many days after the first.
day_number-day :
    (d : Date) (n : ℕ)
    → 1 ≤ n
    → day_number (record d { day = n }) + 1 ≡ day_number (record d { day = 1 }) + n
unfolding day_number
day_number-day d n h = ground arith

-- Moving on by up to four weeks.
day_number-set_date :
    (d : Date) (n : ℕ)
    → IsDate d
    → 1 ≤ n
    → n ≤ 28
    → day_number (set_date (d.day + n) d) ≡ day_number d + n
unfolding set_date
day_number-set_date d n h lo hi =
    let bounds = days_in_month-bounds d.year d.month in
    let last = day_number-day d (days_in_month d.year d.month) (omega arith) in
    let next = day_number-month_after d h in
    let here = day_number-day d (d.day + n) (omega arith) in
    let now = day_number-day d d.day (omega arith) in
    let there = day_number-day (month_after d) (d.day + n - days_in_month d.year d.month) in
    ground arith

days_ahead-bounds : (p t : ℕ) → (1 ≤ days_ahead p t) × (days_ahead p t ≤ 7)
days_ahead-bounds p t = (ground arith, ground arith)

days_ahead_lem : (p n : ℕ) → p ≤ 6 → (n + days_ahead p ((n + 1) % 7) + 1) % 7 ≡ p
days_ahead_lem p n h = ground arith

-- For a date that exists and a payment day from 0 to 6, the weekly due date falls on that weekday,
-- at least one and at most seven days after the date.
pub next_weekly_lem :
    (p : ℕ) (d : Date)
    → IsDate d
    → p ≤ 6
    → (weekday (next_weekly p d) ≡ p)
      × (day_number d < day_number (next_weekly p d))
      × (day_number (next_weekly p d) ≤ day_number d + 7)
unfolding next_weekly weekday
next_weekly_lem p d h le =
    let bounds = days_ahead-bounds p (weekday d) in
    let moved = day_number-set_date d (days_ahead p (weekday d)) h bounds.0 (omega arith) in
    (
      ap (λ n. (n + 1) % 7) moved ∙ days_ahead_lem p (day_number d) le,
      rw moved (omega arith),
      rw moved (omega arith),
    )
