-- ===== src/Membership/StateMachine.antt =====
-- src/membership/state-machine.service.ts
pub mod Diagram
pub mod Transitions
use mahber_connect_backend.Prelude.{
  ℕ, String, Bool, true, false, ◌||◌, not, Option, none, some, List, [], ◌∷◌, ◌==◌, find,
  update_where, if◌then◌else◌,
}
use mahber_connect_backend.Db.{Membership, MembershipStatus, is_active, is_suspended}
use mahber_connect_backend.Db.{
  pending, approved, payment_required, active, suspended, rejected, invalidated, banned,
}
use mahber_connect_backend.Exec.{
  Exec, bad_request, prisma_error, pure, gets, or_throw, throw_if, modify, ◌>>=◌, ◌>>◌,
}

abbrev index : MembershipStatus → ℕ
index pending = 0
index approved = 1
index payment_required = 2
index active = 3
index suspended = 4
index rejected = 5
index invalidated = 6
index banned = 7

-- `allowed.includes(to)`
abbrev includes_status : MembershipStatus → List MembershipStatus → Bool
includes_status to [] = false
includes_status to (s ∷ rest) = (index s == index to) || includes_status to rest

-- `VALID_TRANSITIONS`
unfoldable pub valid_transitions : MembershipStatus → List MembershipStatus
valid_transitions pending = approved ∷ rejected ∷ invalidated ∷ []
valid_transitions approved = payment_required ∷ []
valid_transitions payment_required = active ∷ invalidated ∷ []
valid_transitions active = suspended ∷ banned ∷ []
valid_transitions suspended = active ∷ banned ∷ []
valid_transitions banned = active ∷ []
valid_transitions rejected = []
valid_transitions invalidated = []

unfoldable pub validate_transition : MembershipStatus → MembershipStatus → Bool
unfolding valid_transitions
validate_transition from to = includes_status to (valid_transitions from)

-- The optional argument `extraData`. The outer `Option` is `undefined`, the inner one `null`.
pub record ExtraData : Type 0 where
  pub suspended_until : Option (Option ℕ)
  pub suspension_reason : Option (Option String)

abbrev pub no_extra : ExtraData
no_extra = record { suspended_until = none; suspension_reason = none }

abbrev given {ℓ} : {A : Type ℓ} → Option A → A → A
given none old = old
given (some new) old = new

-- `if (to === status && !date) date = new Date()`
abbrev stamp : Bool → ℕ → Option ℕ → Option ℕ
stamp reached now none = if reached then some now else none
stamp reached now (some date) = some date

abbrev is_approved : MembershipStatus → Bool
is_approved approved = true
is_approved _ = false

-- `updateData` applied to the row.
unfoldable pub updated : ℕ → MembershipStatus → ExtraData → Membership → Membership
updated now to extra m = record m {
  status = to;
  activation_date = stamp (is_active to) now m.activation_date;
  approval_date = stamp (is_approved to) now m.approval_date;
  suspended_until = if is_suspended to then given extra.suspended_until m.suspended_until else none;
  suspension_reason =
      if is_suspended to then given extra.suspension_reason m.suspension_reason else none;
}

abbrev pub has_id : ℕ → Membership → Bool
has_id id m = m.id == id

unfoldable pub transition_state : ℕ → ℕ → MembershipStatus → Option ℕ → ExtraData → Exec Membership
transition_state now id to actor extra = do
  m ← or_throw (← gets (λ s. find (has_id id) s.memberships)) (prisma_error "P2025")
  throw_if (not (validate_transition m.status to)) (bad_request "Invalid state transition")
  modify (λ s. record s {
    memberships = update_where (has_id id) (updated now to extra) s.memberships;
  })
  modify (λ s. record s {
    audit_trail =
        (record {
          mahber_id = m.mahber_id;
          entity_type = "membership";
          entity_id = id;
          action = "status_transition";
          actor_id = actor;
        })
        ∷ s.audit_trail;
  })
  pure (updated now to extra m)
