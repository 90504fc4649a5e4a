-- ===== src/Automation/FineCalculation.antt =====
-- src/automation/processors/fine-calculation.processor.ts. The clock is read once for each run.
pub mod Laws
use mathlib.Core.Option
use mahber_connect_backend.Prelude.{
  ℕ, ◌+◌, ◌-◌, ◌*◌, String, Bool, true, false, not, ◌&&◌, Option, none, some, List, [], ◌∷◌, map,
  leb, ◌==◌, if◌then◌else◌, or_default, is_some, ℤ, ltb_ℤ, pos, find, select, update_where,
}
use mahber_connect_backend.Db.{
  MembershipStatus, ViolationType, is_active, is_contribution_entry, is_missed_payment,
  Configuration, Mahber, Membership, LedgerEntry, Fine, Db,
}
use mahber_connect_backend.Membership.StateMachine.{has_id}
use mahber_connect_backend.Financial.Fines.{apply_fine, has_unpaid_fines_exceeding_threshold}
use Prim.Native.Char.{code}
use mahber_connect_backend.Dates.{Frequency, parse_frequency}

abbrev pub day_ms : ℕ
day_ms = 24 * 60 * 60 * 1000

abbrev pub overdue_days : Frequency → ℕ
overdue_days Frequency.daily = 1
overdue_days Frequency.weekly = 7
overdue_days Frequency.quarterly = 90
overdue_days Frequency.monthly = 30
overdue_days Frequency.other = 30

-- `getOverdueDate`
unfoldable pub get_overdue_date : ℕ → String → ℕ
get_overdue_date now frequency = now - overdue_days (parse_frequency (some frequency)) * day_ms

abbrev digit_value : ℕ → Option ℕ
digit_value c = if leb b'0' c && leb c b'9' then some (c - b'0') else none

-- The number of milliseconds of `d`, `h` or `m`, at the end of the text.
abbrev unit_ms : ℕ → String → Option ℕ
unit_ms c (String.◌∷◌ d s) = none
unit_ms c String.[] =
    if c == b'd'
    then some day_ms
    else if c == b'h'
    then some (60 * 60 * 1000)
    else if c == b'm'
    then some (60 * 1000)
    else none

-- What the rest of the text makes of the digits read so far; `seen` tells whether there are any.
abbrev interval_from : Bool → ℕ → String → Option ℕ
interval_from seen value String.[] = none
interval_from seen value (String.◌∷◌ c s) =
    let longer = interval_from true (value * 10 + or_default (digit_value (code c)) 0) s in
    elim (digit_value (code c)) [
      | some d ↦ longer
      | none ↦ if seen then Option.map (λ ms. value * ms) (unit_ms (code c) s) else none
    ]

-- `parseIntervalToMs`: the pattern `^(\d+)([dhm])$`, else 30 days
unfoldable pub parse_interval_to_ms : Option String → ℕ
parse_interval_to_ms none = 30 * day_ms
parse_interval_to_ms (some t) = or_default (interval_from false 0 t) (30 * day_ms)

-- The contribution since the overdue date, and the fine for a missed one.
abbrev pub is_recent_contribution : ℕ → ℕ → ℕ → LedgerEntry → Bool
is_recent_contribution mahber member overdue e =
    (e.mahber_id == mahber)
    && (e.member_id == member)
    && is_contribution_entry e.transaction_type
    && leb overdue e.created_at

abbrev pub is_recent_fine : ℕ → ℕ → ℕ → Fine → Bool
is_recent_fine mahber member overdue f =
    (f.mahber_id == mahber)
    && (f.member_id == member)
    && is_missed_payment f.violation_type
    && leb overdue f.created_at

abbrev notify : ℕ → String → Db → Db
notify user kind s = record s { notices = (record { user_id = user; kind = kind }) ∷ s.notices }

-- `shouldApplyFine`
abbrev pub should_apply_fine : ℕ → ℕ → Option Fine → Bool
should_apply_fine now interval none = true
should_apply_fine now interval (some f) = leb (f.created_at + interval) now

module _ (percent : ℤ → ℤ → ℤ) (now : ℕ) (new_ids : ℕ → ℕ × ℕ) (mahber : ℕ)
    (config : Configuration) where
  abbrev pub frequency : String
  frequency = or_default config.payment_frequency "Monthly"

  abbrev pub overdue : ℕ
  overdue = get_overdue_date now frequency

  -- Whether the member is to be fined now.
  unfoldable pub is_due : ℕ → Db → Bool
  unfolding get_overdue_date parse_interval_to_ms
  is_due member s =
      not (is_some (find (is_recent_contribution mahber member overdue) s.ledger))
      && should_apply_fine now (parse_interval_to_ms config.penalty_interval)
          (find (is_recent_fine mahber member overdue) s.fines)

  -- The fine and its notice; `new_ids` gives the new fine's id and its entry's for a membership.
  unfoldable pub fine_member : Membership → Db → Db
  unfolding apply_fine is_due
  fine_member m s =
      if is_due m.member_id s
      then notify m.member_id "FINE_APPLIED"
          (apply_fine percent now (new_ids m.id).0 (new_ids m.id).1 mahber m.member_id
            ViolationType.missed_payment (or_default config.penalty_rate (pos 0))
            (or_default config.contribution_amount (pos 0)) (or_default config.penalty_mode "fixed")
            "Missed contribution payment" s).1
      else s

  abbrev pub exceeds : ℕ → Db → Bool
  exceeds member s =
      let max = or_default config.max_fine_total (pos 0) in
      ltb_ℤ (pos 0) max && has_unpaid_fines_exceeding_threshold mahber member max s

  abbrev pub banned_row : Membership → Membership
  banned_row m = record m { status = MembershipStatus.banned }

  unfoldable pub ban_member : Membership → Db → Db
  unfolding has_unpaid_fines_exceeding_threshold
  ban_member m s =
      if exceeds m.member_id s
      then notify m.member_id "MEMBERSHIP_BANNED"
          (record s { memberships = update_where (has_id m.id) banned_row s.memberships })
      else s

  unfoldable pub process_members : List Membership → Db → Db
  unfolding fine_member ban_member
  process_members [] s = s
  process_members (m ∷ ms) s = process_members ms (ban_member m (fine_member m s))

-- The members are found before the first of them is processed.
unfoldable pub process_mahber : (ℤ → ℤ → ℤ) → ℕ → (ℕ → ℕ × ℕ) → Mahber → Db → Db
unfolding process_members
process_mahber percent now new_ids mahber s =
    process_members percent now new_ids mahber.id mahber.configuration
      (select (λ m. (m.mahber_id == mahber.id) && is_active m.status) s.memberships) s

unfoldable pub process_mahbers : (ℤ → ℤ → ℤ) → ℕ → (ℕ → ℕ × ℕ) → List Mahber → Db → Db
unfolding process_mahber
process_mahbers percent now new_ids [] s = s
process_mahbers percent now new_ids (m ∷ ms) s =
    process_mahbers percent now new_ids ms (process_mahber percent now new_ids m s)

-- `process`: the organizations are found before the first of them is processed.
unfoldable pub process : (ℤ → ℤ → ℤ) → ℕ → (ℕ → ℕ × ℕ) → Db → Db
unfolding process_mahbers
process percent now new_ids s = process_mahbers percent now new_ids s.mahbers s
