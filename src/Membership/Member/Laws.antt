-- ===== src/Membership/Member/Laws.antt =====
-- Theorems on suspension, reinstatement and the nightly reinstatement job.
use mathlib.Core.Option
use mahber_connect_backend.Prelude.{
  ℕ, ◌≡◌, refl, ◌∙◌, ◌⊎◌, inl, inr, Bool, true, false, Option, none, some, List, [], ◌∷◌, map,
  arith, ◌==◌, Bool-cases, Option-cases, find, select, includes, find_sound, find-update_where,
}
use mahber_connect_backend.Db.{
  MembershipStatus, Membership, Db, active, banned, payment_required, suspended,
}
use mahber_connect_backend.Exec.{ok}
use mahber_connect_backend.Membership.Access.{membership_of, holds}
use mahber_connect_backend.Membership.StateMachine.{
  validate_transition, no_extra, updated, has_id, transition_state,
}
use mahber_connect_backend.Membership.Member.{
  SuspendMember, suspension_end, suspend, reinstate, is_expired_suspension, reinstate_each,
  check_and_reinstate_expired_suspensions,
}

-- The status of the row that a request for this member changes.
abbrev pub target_status : ℕ → ℕ → Db → Option MembershipStatus
target_status mahber member s = elim (membership_of mahber member s) [
  | none ↦ none
  | some m ↦ Option.map (λ m'. m'.status) (find (has_id m.id) s.memberships)
]

module _ (now mahber member actor : ℕ) (s : Db) where
  -- A suspension that returns was made by a holder of `manage_members`, on an Active membership,
  -- and leaves it Suspended until the end that the request gives.
  pub suspend-ok :
      (dto : SuspendMember) (r : Membership)
      → (suspend now mahber member actor dto s).0 ≡ ok r
      → (holds "manage_members" mahber actor s ≡ true)
        × (target_status mahber member s ≡ some active)
        × (r.status ≡ suspended)
        × (r.suspended_until ≡ suspension_end now dto.duration_days)
  unfolding suspend updated validate_transition
  suspend-ok dto r h = ground arith

  -- A reinstatement that returns was made by a holder of `manage_members`, on a membership that
  -- was Suspended, Banned or waiting for its payment, and leaves it Active with no suspension.
  pub reinstate-ok :
      (r : Membership)
      → (reinstate now mahber member actor s).0 ≡ ok r
      → (holds "manage_members" mahber actor s ≡ true)
        × ((target_status mahber member s ≡ some suspended)
            ⊎ (target_status mahber member s ≡ some banned)
            ⊎ (target_status mahber member s ≡ some payment_required))
        × (r.status ≡ active)
        × (r.suspended_until ≡ none)
  unfolding reinstate updated validate_transition
  reinstate-ok r h = ground arith

-- Rows of other ids do not change.
step_other :
    (now id j : ℕ) (to : MembershipStatus) (s : Db)
    → (id == j) ≡ false
    → find (has_id j) (transition_state now id to none no_extra s).1.memberships
      ≡ find (has_id j) s.memberships
unfolding transition_state updated
step_other now id j to s ne =
    let kept =
      find-update_where (has_id j) (has_id id) (updated now to no_extra) s.memberships
        (λ a. refl) in
    elim (Option-cases (find (has_id j) s.memberships)) [
      | inl e ↦ ground (arith, kept)
      | inr (m, e) ↦ ground (arith, kept, find_sound (has_id j) s.memberships m e)
    ]

-- A Suspended row is reinstated by the transition of its id.
step_self :
    (now j : ℕ) (s : Db) (m : Membership)
    → find (has_id j) s.memberships ≡ some m
    → m.status ≡ suspended
    → (m' : Membership) × (find
          (has_id j)
          (transition_state now j active none no_extra s).1.memberships
        ≡ some m')
      × (m'.status ≡ active)
      × (m'.suspended_until ≡ none)
unfolding transition_state updated validate_transition
step_self now j s m e h =
    let kept =
      find-update_where (has_id j) (has_id j) (updated now active no_extra) s.memberships
        (λ a. refl) in
    (
      updated now active no_extra m,
      ground (arith, kept, find_sound (has_id j) s.memberships m e),
      ground arith,
      ground arith,
    )

-- An Active row refuses to become Active once more.
step_active_self :
    (now j : ℕ) (s : Db) (m : Membership)
    → find (has_id j) s.memberships ≡ some m
    → m.status ≡ active
    → (transition_state now j active none no_extra s).1 ≡ s
unfolding transition_state validate_transition
step_active_self now j s m e h = ground arith

-- An Active row is not touched by the job.
step_active :
    (now id j : ℕ) (s : Db) (m : Membership)
    → find (has_id j) s.memberships ≡ some m
    → m.status ≡ active
    → find (has_id j) (transition_state now id active none no_extra s).1.memberships ≡ some m
step_active now id j s m e h = elim (Bool-cases (id == j)) [
  | inl same ↦ let eq : id ≡ j = ground arith in rw eq (rw (step_active_self now j s m e h) e)
  | inr other ↦ step_other now id j active s other ∙ e
]

abbrev ids : List Membership → List ℕ
ids = map (λ m. m.id)

module _ (now j : ℕ) where
  -- The row of this id, as the database stands.
  abbrev row : Db → Option Membership
  row s = find (has_id j) s.memberships

  each_active :
      (ms : List Membership) (s : Db) (m : Membership)
      → row s ≡ some m
      → m.status ≡ active
      → row (reinstate_each now ms s).1 ≡ some m
  unfolding reinstate_each
  each_active [] s m e h = e
  each_active (x ∷ ms) s m e h = each_active ms _ m (step_active now x.id j s m e h) h

  each_suspended :
      (ms : List Membership) (s : Db) (m : Membership)
      → row s ≡ some m
      → m.status ≡ suspended
      → includes j (ids ms) ≡ true
      → (m' : Membership) × (row (reinstate_each now ms s).1 ≡ some m')
        × (m'.status ≡ active)
        × (m'.suspended_until ≡ none)
  unfolding reinstate_each includes
  each_suspended [] s m e h i = cc
  each_suspended (x ∷ ms) s m e h i = elim (Bool-cases (x.id == j)) [
    | inl same ↦
        let eq : x.id ≡ j = ground arith in
        let (m', found, is_now, free) = step_self now j s m e h in
        (m', rw eq (each_active ms _ m' found is_now), is_now, free)
    | inr other ↦ each_suspended ms _ m (step_other now x.id j active s other ∙ e) h (ground arith)
  ]

  each_other :
      (ms : List Membership) (s : Db)
      → includes j (ids ms) ≡ false
      → row (reinstate_each now ms s).1 ≡ row s
  unfolding reinstate_each includes
  each_other [] s i = refl
  each_other (x ∷ ms) s i =
      each_other ms _ (ground arith) ∙ step_other now x.id j active s (ground arith)

  select-includes :
      (q : Membership → Bool) (xs : List Membership) (m : Membership)
      → find (has_id j) xs ≡ some m
      → q m ≡ true
      → includes j (ids (select q xs)) ≡ true
  unfolding includes find select
  select-includes q [] m e h = cc
  select-includes q (x ∷ xs) m e h = ground (arith, select-includes q xs m)

  -- After the job, the membership of an id whose suspension had run out is Active, with no end
  -- date left.
  pub check_and_reinstate_expired :
      (s : Db) (m : Membership)
      → row s ≡ some m
      → is_expired_suspension now m ≡ true
      → (m' : Membership) × (row (check_and_reinstate_expired_suspensions now s).1 ≡ some m')
        × (m'.status ≡ active)
        × (m'.suspended_until ≡ none)
  unfolding check_and_reinstate_expired_suspensions
  check_and_reinstate_expired s m e h =
      each_suspended (select (is_expired_suspension now) s.memberships) s m e (ground arith)
        (select-includes (is_expired_suspension now) s.memberships m e h)

  -- An id that has no row with a suspension that has run out keeps its membership as it is.
  pub check_and_reinstate_other :
      (s : Db)
      → includes j (ids (select (is_expired_suspension now) s.memberships)) ≡ false
      → row (check_and_reinstate_expired_suspensions now s).1 ≡ row s
  unfolding check_and_reinstate_expired_suspensions
  check_and_reinstate_other s h = each_other (select (is_expired_suspension now) s.memberships) s h
