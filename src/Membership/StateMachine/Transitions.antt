-- ===== src/Membership/StateMachine/Transitions.antt =====
-- What `transitionState` does to the database.
use mahber_connect_backend.Prelude.{
  ℕ, true, Option, none, some, ◌≡◌, ◌≢◌, refl, arith, All, find, ◌⊎◌, find_sound, find-update_where,
  update_where, All-update_where, inl, inr,
}
use mahber_connect_backend.Db.{Db, Membership, MembershipStatus, active, suspended}
use mahber_connect_backend.Exec.{Error, ok, err}
use mahber_connect_backend.Membership.StateMachine.{
  ExtraData, validate_transition, transition_state, updated, has_id,
}

-- Every Active membership has an activation date, and only a Suspended one carries the data of a
-- suspension.
pub record IsConsistent (m : Membership) : Type 0 where
  pub dated : m.status ≡ active → m.activation_date ≢ none
  pub no_end : m.status ≢ suspended → m.suspended_until ≡ none
  pub no_reason : m.status ≢ suspended → m.suspension_reason ≡ none

updated-IsConsistent :
    (now : ℕ) (to : MembershipStatus) (extra : ExtraData) (m : Membership)
    → IsConsistent m
    → IsConsistent (updated now to extra m)
unfolding updated
updated-IsConsistent now to extra m c = record {
  dated = ground arith;
  no_end = ground arith;
  no_reason = ground arith;
}

module _ (now id : ℕ) (to : MembershipStatus) (actor : Option ℕ) (extra : ExtraData) (s : Db) where
  -- A transition that throws has changed nothing, neither the membership nor the audit trail.
  pub transition_state-err :
      (e : Error)
      → (transition_state now id to actor extra s).0 ≡ err e
      → (transition_state now id to actor extra s).1 ≡ s
  unfolding transition_state
  transition_state-err e h = ground arith

  -- A transition that returns found the membership, its diagram step is one that
  -- `validateTransition` accepts, and the rows of this id are the updated ones.
  pub transition_state-ok :
      (r : Membership)
      → (transition_state now id to actor extra s).0 ≡ ok r
      → (m : Membership) × (find (has_id id) s.memberships ≡ some m)
        × (validate_transition m.status to ≡ true)
        × (r ≡ updated now to extra m)
        × ((transition_state now id to actor extra s).1.memberships
            ≡ update_where (has_id id) (updated now to extra) s.memberships)
  unfolding transition_state
  transition_state-ok r h = ground arith

  transition_state-table :
      ((transition_state now id to actor extra s).1.memberships ≡ s.memberships)
      ⊎ ((transition_state now id to actor extra s).1.memberships
          ≡ update_where (has_id id) (updated now to extra) s.memberships)
  unfolding transition_state
  transition_state-table = ground arith

  -- If every Active membership has an activation date and only Suspended ones carry an end or a
  -- reason of a suspension, so it is after any transition, whether it returns or throws.
  pub transition_state-IsConsistent :
      All IsConsistent s.memberships
      → All IsConsistent (transition_state now id to actor extra s).1.memberships
  transition_state-IsConsistent c = elim transition_state-table [
    | inl same ↦ rw same c
    | inr new ↦ rw new (
        All-update_where IsConsistent (has_id id) (updated now to extra) s.memberships
          (λ m _. updated-IsConsistent now to extra m) c)
  ]

  -- Over a transition of any membership, a membership that is found before and after keeps its
  -- status or takes a step that `validateTransition` accepts.
  pub transition_state-diagram :
      (j : ℕ) (before after : Membership)
      → find (has_id j) s.memberships ≡ some before
      → find (has_id j) (transition_state now id to actor extra s).1.memberships ≡ some after
      → (after.status ≡ before.status) ⊎ (validate_transition before.status after.status ≡ true)
  unfolding updated transition_state
  transition_state-diagram j before after hb ha = ground (
    arith,
    find_sound (has_id j) s.memberships before,
    find-update_where (has_id j) (has_id id) (updated now to extra) s.memberships (λ a. refl),
  )
