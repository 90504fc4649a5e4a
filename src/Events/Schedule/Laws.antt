-- ===== src/Events/Schedule/Laws.antt =====
-- Theorems on the series of events that `create` makes and on the changes of an event.
use mathlib.Core.List.{head?}
use mahber_connect_backend.Prelude.{
  ℕ, zero, suc, ◌+◌, ◌*◌, ◌≤◌, ◌<◌, ◌≡◌, refl, ap, ◌∙◌, inl, inr, Bool, true, false, not, ◌&&◌,
  Option, none, some, List, [], ◌∷◌, ◌++◌, arith, str_eq, eq_iff, leb, ◌==◌, if◌then◌else◌,
  Bool-cases, Option-cases, ==-refl, or_default, is_some, length, find, all, find_sound,
  find-update_where,
}
use mahber_connect_backend.Db.{Recurrence, Event, Db}
use mahber_connect_backend.Exec.{is_ok, is_ok, ok}
use mahber_connect_backend.Events.Schedule.{
  create_events, series_of, day_ms, CreateEvent, is_recurring, move, occurrences, end_boundary,
  pattern_of, schedule, event_at, events_from, is_first_event, event_in, event_has_id, create,
  UpdateEvent, update, cancelled, cancel, assign_host,
}
use mahber_connect_backend.Dates.{Calendar}
use mahber_connect_backend.Events.Invitations.{register_for_event}

-- A week or a month of the calendar is at least six days, whatever the clock changes.
abbrev pub MovesOn : Calendar → Type 0
MovesOn cal = (p : Recurrence) (t : ℕ) → is_recurring p ≡ true → t + 6 * day_ms ≤ move cal p t

module _ (cal : Calendar) (moves : MovesOn cal) where
  occurrences-enough :
      (p : Recurrence) (boundary fuel start end : ℕ)
      → boundary < start + fuel * (6 * day_ms)
      → is_some (occurrences cal p boundary (suc fuel) start end) ≡ true
  unfolding occurrences
  occurrences-enough p boundary zero start end h = ground arith
  occurrences-enough p boundary (suc fuel) start end h = elim (Bool-cases (is_recurring p)) [
    | inl recurs ↦
        let step = moves p start recurs in
        let rest =
          occurrences-enough p boundary fuel (move cal p start) (move cal p end) (omega arith) in
        ground arith
    | inr single ↦ ground arith
  ]

  -- On a calendar where a week or a month moves a time on by six days or more, the loop of every
  -- request ends within its fuel.
  pub schedule-enough : (dto : CreateEvent) → is_some (schedule cal dto) ≡ true
  unfolding schedule end_boundary
  schedule-enough dto =
      occurrences-enough (pattern_of dto) (end_boundary dto) 61 dto.start_time dto.end_time
        (ground arith)

  occurrences-within :
      (p : Recurrence) (first boundary fuel start end : ℕ) (ts : List (ℕ × ℕ))
      → first ≤ start
      → occurrences cal p boundary fuel start end ≡ some ts
      → all (λ t. leb first t.0 && leb t.0 boundary) ts ≡ true
  unfolding occurrences all
  occurrences-within p first boundary zero start end ts le h = cc
  occurrences-within p first boundary (suc fuel) start end ts le h =
      elim (Bool-cases (is_recurring p)) [
        | inl recurs ↦
            let step = moves p start recurs in
            let later = occurrences cal p boundary fuel (move cal p start) (move cal p end) in
            elim (Option-cases later) [
              | inl e ↦ ground arith
              | inr (rest, e) ↦ ground (
                arith,
                occurrences-within p first boundary fuel (move cal p start) (move cal p end) rest
                    (omega arith) e,
              )
            ]
        | inr single ↦ ground arith
      ]

  -- On a calendar where a week or a month moves a time on by six days or more, every event of a
  -- series starts no earlier than the request says and no later than the boundary, which is at
  -- most 365 days after the start and at most the given end, or the start if none is given.
  pub schedule-within :
      (dto : CreateEvent) (ts : List (ℕ × ℕ))
      → schedule cal dto ≡ some ts
      → (all (λ t. leb dto.start_time t.0 && leb t.0 (end_boundary dto)) ts ≡ true)
        × (end_boundary dto ≤ dto.start_time + 365 * day_ms)
        × (end_boundary dto ≤ or_default dto.recurrence_end_date dto.start_time)
  unfolding schedule end_boundary
  schedule-within dto ts h = (
    occurrences-within (pattern_of dto) dto.start_time (end_boundary dto) 62 dto.start_time
        dto.end_time ts (omega arith) h,
    ground arith,
    ground arith,
  )

-- The first start that is pushed is the one asked for.
occurrences-first :
    (cal : Calendar) (p : Recurrence) (boundary fuel start end : ℕ) (ts : List (ℕ × ℕ))
    → occurrences cal p boundary fuel start end ≡ some ts
    → (length ts == 0) ≡ false
    → head? ts ≡ some (start, end)
unfolding occurrences
occurrences-first cal p boundary zero start end ts h ne = cc
occurrences-first cal p boundary (suc fuel) start end ts h ne = ground arith

-- The row of the first start is the one that `findFirst` gives.
find-created :
    (mahber actor : ℕ) (dto : CreateEvent) (series : Option ℕ) (new_id : ℕ → ℕ) (ts : List (ℕ × ℕ))
    (es : List Event)
    → head? ts ≡ some (dto.start_time, dto.end_time)
    → find (is_first_event mahber actor dto) (events_from mahber actor dto series new_id 0 ts ++ es)
      ≡ some (event_at mahber actor dto series new_id 0 (dto.start_time, dto.end_time))
unfolding events_from find
find-created mahber actor dto series new_id [] es h = cc
find-created mahber actor dto series new_id (t ∷ ts) es h =
    let same : str_eq dto.title dto.title ≡ true = (eq_iff dto.title dto.title).1 refl in
    ground (arith, ==-refl mahber, ==-refl actor, ==-refl dto.start_time)

series_is_some : (b : Bool) (uuid : ℕ) → is_some (if b then some uuid else none) ≡ b
series_is_some true uuid = refl
series_is_some false uuid = refl

create_events-returns :
    (mahber actor : ℕ) (dto : CreateEvent) (series : Option ℕ) (new_id : ℕ → ℕ) (ts : List (ℕ × ℕ))
    (s : Db) (e : Event)
    → ((length ts == 0) ≡ false → head? ts ≡ some (dto.start_time, dto.end_time))
    → (create_events mahber actor dto series new_id ts s).0 ≡ ok e
    → e ≡ event_at mahber actor dto series new_id 0 (dto.start_time, dto.end_time)
unfolding create_events
create_events-returns mahber actor dto series new_id ts s e first h =
    elim (Bool-cases (length ts == 0)) [
      | inl nothing ↦ ground arith
      | inr something ↦
          let found = find-created mahber actor dto series new_id ts s.events (first something) in
          ground arith
    ]

create-returns :
    (cal : Calendar) (uuid : ℕ) (new_id : ℕ → ℕ) (mahber actor : ℕ) (dto : CreateEvent) (s : Db)
    (e : Event)
    → (create cal uuid new_id mahber actor dto s).0 ≡ ok e
    → e ≡ event_at mahber actor dto (series_of dto uuid) new_id 0 (dto.start_time, dto.end_time)
unfolding create
create-returns cal uuid new_id mahber actor dto s e h = elim (Option-cases (schedule cal dto)) [
  | inl missing ↦ ground arith
  | inr (ts, found) ↦
      create_events-returns mahber actor dto (series_of dto uuid) new_id ts s e
        (occurrences-first cal (pattern_of dto) (end_boundary dto) 62 dto.start_time dto.end_time ts
          found)
        (ground arith)
]

-- A call that returns gives the event at the start that was asked for, and stores it.
pub create-ok :
    (cal : Calendar) (uuid : ℕ) (new_id : ℕ → ℕ) (mahber actor : ℕ) (dto : CreateEvent) (s : Db)
    (e : Event)
    → (create cal uuid new_id mahber actor dto s).0 ≡ ok e
    → (e.id ≡ new_id 0)
      × (e.start_time ≡ dto.start_time)
      × (e.end_time ≡ dto.end_time)
      × (e.is_cancelled ≡ false)
      × (is_some e.series_id ≡ is_recurring (pattern_of dto))
unfolding create
create-ok cal uuid new_id mahber actor dto s e h =
    let eq = create-returns cal uuid new_id mahber actor dto s e h in
    (
      ap (λ x. x.id) eq,
      ap (λ x. x.start_time) eq,
      ap (λ x. x.end_time) eq,
      ap (λ x. x.is_cancelled) eq,
      ap (λ x. is_some x.series_id) eq ∙ series_is_some (is_recurring (pattern_of dto)) uuid,
    )

module _ (mahber id : ℕ) (s : Db) (e : Event) where
  -- An update that returns was made more than a day before the start of an event that stands.
  pub update-ok :
      (now : ℕ) (dto : UpdateEvent)
      → (update now mahber id dto s).0 ≡ ok e
      → elim (find (event_in mahber id) s.events) [
        | none ↦ false
        | some old ↦ not old.is_cancelled && leb (now + day_ms) old.start_time
      ]
        ≡ true
  unfolding update
  update-ok now dto h = ground arith

  -- After a cancellation that returned, the event cannot be updated, cancelled, given a host or
  -- registered for.
  pub cancel-final :
      (now actor member row : ℕ) (dto : UpdateEvent)
      → (cancel mahber id s).0 ≡ ok e
      → let t = (cancel mahber id s).1 in
        (is_ok (update now mahber id dto t).0 ≡ false)
        × (is_ok (cancel mahber id t).0 ≡ false)
        × (is_ok (assign_host mahber id actor member t).0 ≡ false)
        × (is_ok (register_for_event now row mahber id member t).0 ≡ false)
  unfolding cancel update assign_host register_for_event
  cancel-final now actor member row dto h =
      elim (Option-cases (find (event_in mahber id) s.events)) [
        | inl missing ↦ ground arith
        | inr (old, found) ↦
            let kept =
              find-update_where (event_in mahber id) (event_has_id id) cancelled s.events
                (λ a. refl) in
            let same = find_sound (event_in mahber id) s.events old found in
            (ground arith, ground arith, ground arith, ground arith)
      ]
