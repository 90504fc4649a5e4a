-- ===== src/Events/Schedule.antt =====
-- src/events/event.service.ts: creating events, single or in a series, and changing them. The
-- columns `description` and `event_type` and the notification to all members are not modelled.
pub mod Laws
use mahber_connect_backend.Prelude.{
  ℕ, zero, suc, ◌+◌, ◌*◌, String, Bool, true, false, not, ◌&&◌, Option, none, some, List, [], ◌∷◌,
  ◌++◌, map, str_eq, ltb, leb, ◌==◌, if◌then◌else◌, or_default, is_some, length, find, update_where,
}
use mahber_connect_backend.Db.{Recurrence, Event}
use mahber_connect_backend.Exec.{
  Exec, pure, gets, or_throw, ◌>>=◌, ◌>>◌, throw_if, modify, bad_request, not_found, prisma_error,
}
use mahber_connect_backend.Membership.Access.{active_membership_of}
use mathlib.Core.Option
use mahber_connect_backend.Dates.{Calendar}
use mahber_connect_backend.Dates.Fields.{Date, set_date, set_month}

abbrev pub day_ms : ℕ
day_ms = 24 * 60 * 60 * 1000

-- CreateEventDto, its dates as timestamps
pub record CreateEvent : Type 0 where
  pub title : String
  pub start_time : ℕ
  pub end_time : ℕ
  pub location : String
  pub is_mandatory : Option Bool
  pub host_id : Option ℕ
  pub recurrence_pattern : Option Recurrence
  pub recurrence_end_date : Option ℕ

abbrev pub is_recurring : Recurrence → Bool
is_recurring Recurrence.none = false
is_recurring _ = true

-- One step of the loop on a date: `setDate(getDate() + 7)` or `setMonth(getMonth() + 1)`.
abbrev move_fields : Recurrence → Date → Date
move_fields Recurrence.none d = d
move_fields Recurrence.weekly d = set_date (d.day + 7) d
move_fields Recurrence.monthly d = set_month (d.month + 1) d

unfoldable pub move : Calendar → Recurrence → ℕ → ℕ
unfolding set_date set_month
move cal pattern t = cal.timestamp (move_fields pattern (cal.fields t))

-- The start and end times that the loop pushes; nothing if the fuel runs out.
unfoldable pub occurrences : Calendar → Recurrence → ℕ → ℕ → ℕ → ℕ → Option (List (ℕ × ℕ))
unfolding move
occurrences cal pattern boundary zero start end = none
occurrences cal pattern boundary (suc fuel) start end =
    let rest =
      occurrences cal pattern boundary fuel (move cal pattern start) (move cal pattern end) in
    if leb start boundary
    then (if is_recurring pattern
        then Option.map (λ ts. (start, end) ∷ ts) rest
        else some ((start, end) ∷ []))
    else some []

-- The recurrence end, or the start, and at most 365 days after the start.
unfoldable pub end_boundary : CreateEvent → ℕ
end_boundary dto =
    let boundary = or_default dto.recurrence_end_date dto.start_time in
    let one_year = dto.start_time + 365 * day_ms in
    if ltb one_year boundary then one_year else boundary

abbrev pub pattern_of : CreateEvent → Recurrence
pattern_of dto = or_default dto.recurrence_pattern Recurrence.none

-- Steps of a week or a month: 62 rounds are more than a year has.
unfoldable pub schedule : Calendar → CreateEvent → Option (List (ℕ × ℕ))
unfolding occurrences end_boundary
schedule cal dto =
    occurrences cal (pattern_of dto) (end_boundary dto) 62 dto.start_time dto.end_time

module _ (mahber actor : ℕ) (dto : CreateEvent) (series : Option ℕ) (new_id : ℕ → ℕ) where
  abbrev pub event_at : ℕ → ℕ × ℕ → Event
  event_at k (start, end) = record {
    id = new_id k;
    mahber_id = mahber;
    title = dto.title;
    start_time = start;
    end_time = end;
    location = dto.location;
    is_mandatory = or_default dto.is_mandatory false;
    is_cancelled = false;
    created_by = actor;
    host_id = dto.host_id;
    recurrence_pattern = pattern_of dto;
    recurrence_end_date = dto.recurrence_end_date;
    series_id = series;
  }

  -- The rows of `createMany`, the k-th with the id `new_id k`.
  unfoldable pub events_from : ℕ → List (ℕ × ℕ) → List Event
  events_from k [] = []
  events_from k (t ∷ ts) = event_at k t ∷ events_from (suc k) ts

-- `findFirst` for the event to return
abbrev pub is_first_event : ℕ → ℕ → CreateEvent → Event → Bool
is_first_event mahber actor dto e =
    (e.mahber_id == mahber)
    && (e.created_by == actor)
    && str_eq e.title dto.title
    && (e.start_time == dto.start_time)

abbrev pub event_in : ℕ → ℕ → Event → Bool
event_in mahber id e = (e.id == id) && (e.mahber_id == mahber)

abbrev pub event_has_id : ℕ → Event → Bool
event_has_id id e = e.id == id

abbrev audit : ℕ → ℕ → ℕ → String → Exec (Unit {0})
audit mahber id actor action = modify (λ s. record s {
  audit_trail =
      (record {
        mahber_id = mahber;
        entity_type = "event";
        entity_id = id;
        action = action;
        actor_id = some actor;
      })
      ∷ s.audit_trail;
})

-- `create` from `createMany` on, for the times that the loop has pushed.
unfoldable pub create_events : ℕ → ℕ → CreateEvent → Option ℕ → (ℕ → ℕ) → List (ℕ × ℕ) → Exec Event
unfolding events_from
create_events mahber actor dto series new_id times = do
  throw_if (length times == 0) (bad_request "Invalid recurrence parameters. Resulted in 0 events.")
  modify (λ s. record s { events = events_from mahber actor dto series new_id 0 times ++ s.events })
  first ←
      or_throw (← gets (λ s. find (is_first_event mahber actor dto) s.events))
        (bad_request "Failed to retrieve created event")
  audit mahber (or_default series first.id) actor "event_created"
  pure first

abbrev pub series_of : CreateEvent → ℕ → Option ℕ
series_of dto uuid = if is_recurring (pattern_of dto) then some uuid else none

-- `uuid` is the new series' id. Running out of fuel is no exception of the source's.
unfoldable pub create : Calendar → ℕ → (ℕ → ℕ) → ℕ → ℕ → CreateEvent → Exec Event
unfolding schedule create_events
create cal uuid new_id mahber actor dto = do
  host ←
      gets
        (λ s. elim dto.host_id [ none ↦ true | some h ↦ is_some (active_membership_of mahber h s) ])
  throw_if (not host) (bad_request "Specified host is not an active member")
  throw_if (is_recurring (pattern_of dto) && not (is_some dto.recurrence_end_date))
      (bad_request "recurrence_end_date is required when a recurrence pattern is provided")
  times ← or_throw (schedule cal dto) (prisma_error "out of fuel")
  create_events mahber actor dto (series_of dto uuid) new_id times

unfoldable pub find_one : ℕ → ℕ → Exec Event
find_one mahber id = do
  e ← gets (λ s. find (event_in mahber id) s.events)
  or_throw e (not_found "Event not found")

-- UpdateEventDto
pub record UpdateEvent : Type 0 where
  pub title : Option String
  pub start_time : Option ℕ
  pub end_time : Option ℕ
  pub location : Option String
  pub is_mandatory : Option Bool

abbrev pub with_update : UpdateEvent → Event → Event
with_update dto e = record e {
  title = or_default dto.title e.title;
  start_time = or_default dto.start_time e.start_time;
  end_time = or_default dto.end_time e.end_time;
  location = or_default dto.location e.location;
  is_mandatory = or_default dto.is_mandatory e.is_mandatory;
}

abbrev pub change : ℕ → (Event → Event) → Exec (Unit {0})
change id f = modify (λ s. record s { events = update_where (event_has_id id) f s.events })

unfoldable pub update : ℕ → ℕ → ℕ → UpdateEvent → Exec Event
unfolding find_one
update now mahber id dto = do
  e ← find_one mahber id
  throw_if e.is_cancelled (bad_request "Cannot update a cancelled event")
  throw_if (ltb e.start_time (now + day_ms))
      (bad_request "Event can only be updated more than 24 hours before start time")
  change id (with_update dto)
  pure (with_update dto e)

abbrev pub cancelled : Event → Event
cancelled e = record e { is_cancelled = true }

unfoldable pub cancel : ℕ → ℕ → Exec Event
unfolding find_one
cancel mahber id = do
  e ← find_one mahber id
  throw_if e.is_cancelled (bad_request "Event is already cancelled")
  change id cancelled
  pure (cancelled e)

abbrev pub with_host : Option ℕ → Event → Event
with_host host e = record e { host_id = host }

unfoldable pub assign_host : ℕ → ℕ → ℕ → ℕ → Exec Event
unfolding find_one
assign_host mahber id actor member = do
  e ← find_one mahber id
  throw_if e.is_cancelled (bad_request "Cannot assign host to a cancelled event")
  host ← gets (active_membership_of mahber member)
  throw_if (not (is_some host)) (bad_request "Specified member is not an active member")
  change id (with_host (some member))
  audit mahber id actor "host_assigned"
  pure (with_host (some member) e)

unfoldable pub remove_host : ℕ → ℕ → ℕ → Exec Event
unfolding find_one
remove_host mahber id actor = do
  e ← find_one mahber id
  throw_if (not (is_some e.host_id)) (bad_request "Event has no host to remove")
  change id (with_host none)
  audit mahber id actor "host_removed"
  pure (with_host none e)
