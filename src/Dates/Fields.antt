-- ===== src/Dates/Fields.antt =====
-- The fields of a `Date` of the JavaScript runtime, and its setters.
use mahber_connect_backend.Prelude.{
  ℕ, ◌+◌, ◌-◌, ◌*◌, ◌/◌, ◌%◌, Bool, not, ◌&&◌, ◌||◌, leb, ◌==◌, if◌then◌else◌,
}

pub record Date : Type 0 where
  pub year : ℕ
  pub month : ℕ
  pub day : ℕ
  pub time : ℕ

unfoldable pub is_leap : ℕ → Bool
is_leap y = ((y % 4 == 0) && not (y % 100 == 0)) || (y % 400 == 0)

-- `new Date(y, m + 1, 0).getDate()`, months from 0
unfoldable pub days_in_month : ℕ → ℕ → ℕ
unfolding is_leap
days_in_month y m =
    if m == 1
    then (if is_leap y then 29 else 28)
    else if (m == 3) || (m == 5) || (m == 8) || (m == 10)
    then 30
    else 31

abbrev pub month_after : Date → Date
month_after d =
    if d.month == 11
    then record d { year = d.year + 1; month = 0 }
    else record d { month = d.month + 1 }

abbrev pub month_before : Date → Date
month_before d =
    if d.month == 0
    then record d { year = d.year - 1; month = 11 }
    else record d { month = d.month - 1 }

-- `setDate`, from day 0 (the last of the month before) to four weeks past the month's end.
unfoldable pub set_date : ℕ → Date → Date
set_date n d =
    let dim = days_in_month d.year d.month in
    let before = month_before d in
    let after = month_after d in
    if n == 0
    then record before { day = days_in_month before.year before.month }
    else if leb n dim
    then record d { day = n }
    else record after { day = n - dim }

-- `setMonth`: years carry over, and a day past the end of the new month runs into the next one.
unfoldable pub set_month : ℕ → Date → Date
unfolding set_date
set_month m d = set_date d.day (record d { year = d.year + m / 12; month = m % 12 })

-- Days before the first of a month, in a year that is no leap year.
abbrev pub days_before : ℕ → ℕ
days_before m =
    if m == 0
    then 0
    else if m == 1
    then 31
    else if m == 2
    then 59
    else if m == 3
    then 90
    else if m == 4
    then 120
    else if m == 5
    then 151
    else if m == 6
    then 181
    else if m == 7
    then 212
    else if m == 8
    then 243
    else if m == 9
    then 273
    else if m == 10
    then 304
    else 334

-- Days since the first of January of year 1, which was a Monday; `year` is 1 or more.
unfoldable pub day_number : Date → ℕ
unfolding is_leap
day_number d =
    let y = d.year - 1 in
    y * 365
    + y / 4
    - y / 100
    + y / 400
    + days_before d.month
    + (if is_leap d.year && leb 2 d.month then 1 else 0)
    + (d.day - 1)

-- `getDay`: 0 is Sunday
unfoldable pub weekday : Date → ℕ
unfolding day_number
weekday d = (day_number d + 1) % 7

abbrev day_ms : ℕ
day_ms = 24 * 60 * 60 * 1000

-- `getTime`, up to a constant: it orders dates as JavaScript does.
unfoldable pub stamp : Date → ℕ
unfolding day_number
stamp d = day_number d * day_ms + d.time
