-- ===== src/Dates.antt =====
-- src/common/utils/date.utils.ts, over the calendar fields of a JavaScript `Date` (local time, the
-- proleptic Gregorian calendar, months from 0). The passage between the fields and the timestamp
-- is the runtime's, and is a parameter (`Calendar`).
pub mod Fields
pub mod Laws
use mahber_connect_backend.Prelude.{
  ℕ, ◌+◌, ◌-◌, ◌%◌, min, String, Bool, true, false, ◌&&◌, Option, none, some, List, [], ◌∷◌, str_eq,
  leb, ◌==◌, if◌then◌else◌,
}
use Prim.Native.Char.{code}
use mahber_connect_backend.Dates.Fields.{Date, days_in_month, set_date, set_month, weekday, stamp}

-- The code points of a text in lower case: `toLowerCase` on the texts that the code compares.
abbrev lower_code : ℕ → ℕ
lower_code c = if leb b'A' c && leb c b'Z' then c + 32 else c

abbrev pub lower_codes : String → List ℕ
lower_codes String.[] = []
lower_codes (String.◌∷◌ c s) = lower_code (code c) ∷ lower_codes s

abbrev same_codes : List ℕ → List ℕ → Bool
same_codes [] [] = true
same_codes (a ∷ xs) (b ∷ ys) = (a == b) && same_codes xs ys
same_codes _ _ = false

-- `text.toLowerCase() === small`, for a text `small` in lower case
unfoldable pub lower_is : String → String → Bool
lower_is text small = same_codes (lower_codes text) (lower_codes small)

pub data Frequency : Type 0 where
  daily weekly monthly quarterly other : Frequency

-- `(frequency || 'Monthly').toLowerCase()`
unfoldable pub parse_frequency : Option String → Frequency
unfolding lower_is
parse_frequency none = monthly
parse_frequency (some t) =
    if str_eq t ""
    then monthly
    else if lower_is t "daily"
    then daily
    else if lower_is t "weekly"
    then weekly
    else if lower_is t "quarterly"
    then quarterly
    else if lower_is t "monthly"
    then monthly
    else other

-- The body of `addFrequency`; `default` is `monthly`.
unfoldable pub advance : Frequency → Date → Date
unfolding set_date set_month
advance daily d = set_date (d.day + 1) d
advance weekly d = set_date (d.day + 7) d
advance quarterly d = set_month (d.month + 3) d
advance monthly d = set_month (d.month + 1) d
advance other d = set_month (d.month + 1) d

-- `setDate(1)`, then `setDate(Math.min(paymentDay, daysInMonth))`
unfoldable pub clamp_to : ℕ → Date → Date
unfolding set_date
clamp_to payment_day d =
    let first = set_date 1 d in
    set_date (min payment_day (days_in_month first.year first.month)) first

-- `result <= fromDate`
abbrev pub le_date : Date → Date → Bool
le_date a b = leb (stamp a) (stamp b)

abbrev months_of : Frequency → ℕ
months_of quarterly = 3
months_of _ = 1

unfoldable pub next_monthly : Frequency → ℕ → Date → Date
unfolding clamp_to set_month
next_monthly freq payment_day from =
    let result = clamp_to payment_day from in
    if le_date result from
    then (let first = set_date 1 result in
        clamp_to payment_day (set_month (first.month + months_of freq) first))
    else result

-- `(paymentDay - getDay() + 7) % 7`, and a week if that is nothing
abbrev pub days_ahead : ℕ → ℕ → ℕ
days_ahead payment_day today =
    let diff = (payment_day + 7 - today) % 7 in if diff == 0 then 7 else diff

unfoldable pub next_weekly : ℕ → Date → Date
unfolding set_date
next_weekly payment_day from = set_date (from.day + days_ahead payment_day (weekday from)) from

unfoldable pub get_next_payment_due_date : Date → Frequency → Option ℕ → Date
unfolding advance next_weekly next_monthly
get_next_payment_due_date from freq none = advance freq from
get_next_payment_due_date from daily (some day) = advance daily from
get_next_payment_due_date from weekly (some day) = next_weekly day from
get_next_payment_due_date from monthly (some day) = next_monthly monthly day from
get_next_payment_due_date from quarterly (some day) = next_monthly quarterly day from
get_next_payment_due_date from other (some day) = advance other from

-- The JavaScript runtime's passage between a timestamp and the fields of the local time.
pub record Calendar : Type 0 where
  pub fields : ℕ → Date
  pub timestamp : Date → ℕ

-- `addFrequency` on timestamps.
unfoldable pub add_frequency : Calendar → ℕ → Option String → ℕ
unfolding advance parse_frequency
add_frequency cal t frequency = cal.timestamp (advance (parse_frequency frequency) (cal.fields t))
