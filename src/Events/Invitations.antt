-- ===== src/Events/Invitations.antt =====
-- src/events/event.service.ts: answers to invitations, registrations and their cancellation.
pub mod Laws
use mahber_connect_backend.Prelude.{
  ℕ, String, Bool, true, false, not, ◌&&◌, ◌||◌, Option, none, some, List, ◌∷◌, leb, ◌==◌,
  if◌then◌else◌, ℤ, ◌-ℤ◌, pos, length, find, select, update_where, count,
}
use mahber_connect_backend.Db.{
  InvitationStatus, is_active, invitation_is_pending, invitation_is_accepted, EventInvitation,
}
use mahber_connect_backend.Exec.{
  Error, Exec, pure, throw, gets, or_throw, ◌>>=◌, ◌>>◌, throw_if, modify, bad_request, conflict,
  forbidden, not_found,
}
use mahber_connect_backend.Membership.Access.{active_membership_of}
use mahber_connect_backend.Events.Schedule.{find_one}

abbrev audit : ℕ → String → ℕ → String → ℕ → Exec (Unit {0})
audit mahber entity id action actor = modify (λ s. record s {
  audit_trail =
      (record {
        mahber_id = mahber;
        entity_type = entity;
        entity_id = id;
        action = action;
        actor_id = some actor;
      })
      ∷ s.audit_trail;
})

abbrev notify : ℕ → String → Exec (Unit {0})
notify user kind =
    modify (λ s. record s { notices = (record { user_id = user; kind = kind }) ∷ s.notices })

abbrev pub invitation_has_id : ℕ → EventInvitation → Bool
invitation_has_id id i = i.id == id

-- The unique key on event and member.
abbrev pub invitation_of : ℕ → ℕ → EventInvitation → Bool
invitation_of event member i = (i.event_id == event) && (i.member_id == member)

abbrev pub answered : ℕ → InvitationStatus → EventInvitation → EventInvitation
answered now status i = record i { status = status; responded_at = some now }

-- `accept`: whether the action is ACCEPT
unfoldable pub respond_to_invitation : ℕ → ℕ → ℕ → ℕ → ℕ → Bool → Exec EventInvitation
respond_to_invitation now mahber event id member accept = do
  i ←
      or_throw (← gets (λ s. find (invitation_has_id id) s.event_invitations))
        (not_found "Invitation not found")
  throw_if (not (i.event_id == event) || not (i.mahber_id == mahber))
      (not_found "Invitation not found")
  throw_if (not (i.member_id == member)) (forbidden "This invitation belongs to another member")
  throw_if (not (invitation_is_pending i.status))
      (bad_request "Invitation has already been responded to")
  let status = if accept then InvitationStatus.accepted else InvitationStatus.declined
  modify (λ s. record s {
    event_invitations =
        update_where (invitation_has_id id) (answered now status) s.event_invitations;
  })
  notify member "INVITATION_RESPONSE"
  audit mahber "event_invitation" id
      (if accept then "invitation_accepted" else "invitation_declined") member
  pure (answered now status i)

abbrev pub registered : ℕ → EventInvitation → EventInvitation
registered now i = record i {
  status = InvitationStatus.accepted;
  source = "self_register";
  responded_at = some now;
}

abbrev pub new_registration : ℕ → ℕ → ℕ → ℕ → ℕ → EventInvitation
new_registration now id mahber event member = record {
  id = id;
  event_id = event;
  mahber_id = mahber;
  member_id = member;
  status = InvitationStatus.accepted;
  source = "self_register";
  responded_at = some now;
}

-- What an invitation that is already there says to a registration.
unfoldable pub registration_error : Option EventInvitation → Option Error
registration_error none = none
registration_error (some i) = elim i.status [
  | InvitationStatus.pending ↦ none
  | InvitationStatus.accepted ↦ some (conflict "You are already registered for this event")
  | InvitationStatus.declined ↦ some (bad_request "You have previously declined this invitation")
]

abbrev refuse : Option Error → Exec (Unit {0})
refuse none = pure tt
refuse (some e) = throw e

-- `existing ? update : create`, with the row that it gives
abbrev pub registration_row : ℕ → ℕ → ℕ → ℕ → ℕ → Option EventInvitation → EventInvitation
registration_row now id mahber event member none = new_registration now id mahber event member
registration_row now id mahber event member (some i) = registered now i

abbrev pub store_registration :
    ℕ → ℕ → ℕ → ℕ → ℕ → Option EventInvitation → List EventInvitation → List EventInvitation
store_registration now id mahber event member none rows =
    new_registration now id mahber event member ∷ rows
store_registration now id mahber event member (some i) rows =
    update_where (invitation_has_id i.id) (registered now) rows

unfoldable pub register_for_event : ℕ → ℕ → ℕ → ℕ → ℕ → Exec EventInvitation
unfolding find_one registration_error
register_for_event now id mahber event member = do
  e ← find_one mahber event
  throw_if e.is_cancelled (bad_request "Cannot register for a cancelled event")
  throw_if (leb e.start_time now) (bad_request "Registration closed — event has already started")
  _ ←
      or_throw (← gets (active_membership_of mahber member))
        (forbidden "You must be an active member to register")
  existing ← gets (λ s. find (invitation_of event member) s.event_invitations)
  refuse (registration_error existing)
  modify (λ s. record s {
    event_invitations = store_registration now id mahber event member existing s.event_invitations;
  })
  notify member "EVENT_REGISTRATION"
  audit mahber "event_registration" (registration_row now id mahber event member existing).id
      "member_registered" member
  pure (registration_row now id mahber event member existing)

unfoldable pub cancel_registration : ℕ → ℕ → ℕ → Exec (Unit {0})
cancel_registration mahber event member = do
  i ←
      or_throw (← gets (λ s. find (invitation_of event member) s.event_invitations))
        (not_found "No active registration found for this event")
  throw_if (not (invitation_is_accepted i.status))
      (not_found "No active registration found for this event")
  modify
      (λ s. record s { event_invitations = select (λ j. not (j.id == i.id)) s.event_invitations })
  notify member "EVENT_REGISTRATION"
  audit mahber "event_registration" i.id "member_cancelled_registration" member

abbrev is_declined : InvitationStatus → Bool
is_declined InvitationStatus.declined = true
is_declined _ = false

-- The summary of `getRegistrations`; `no_response` may be negative.
pub record Summary : Type 0 where
  pub total_active_members : ℕ
  pub accepted : List EventInvitation
  pub declined : List EventInvitation
  pub pending : List EventInvitation
  pub no_response : ℤ

unfoldable pub get_registrations : ℕ → ℕ → Exec Summary
unfolding find_one
get_registrations mahber event = do
  find_one mahber event
  rows ←
      gets (λ s. select (λ i. (i.event_id == event) && (i.mahber_id == mahber)) s.event_invitations)
  members ← gets (λ s. count (λ m. (m.mahber_id == mahber) && is_active m.status) s.memberships)
  pure (record {
    total_active_members = members;
    accepted = select (λ i. invitation_is_accepted i.status) rows;
    declined = select (λ i. is_declined i.status) rows;
    pending = select (λ i. invitation_is_pending i.status) rows;
    no_response = pos members -ℤ pos (length rows);
  })
