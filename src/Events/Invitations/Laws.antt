-- ===== src/Events/Invitations/Laws.antt =====
-- Theorems on answers to invitations, registrations and their cancellation.
use mahber_connect_backend.Prelude.{
  ℕ, ◌≡◌, refl, inl, inr, Bool, true, false, not, ◌&&◌, none, some, List, [], ◌∷◌, arith, ltb, ◌==◌,
  if◌then◌else◌, Option-cases, ==-refl, is_some, find, select, find_sound, find-update_where,
  IsFresh,
}
use mahber_connect_backend.Db.{InvitationStatus, invitation_is_pending, EventInvitation, Db}
use mahber_connect_backend.Exec.{is_ok, is_ok, ok}
use mahber_connect_backend.Membership.Access.{active_membership_of}
use mahber_connect_backend.Events.Invitations.{
  invitation_has_id, invitation_of, answered, respond_to_invitation, register_for_event,
  cancel_registration,
}
use mahber_connect_backend.Events.Schedule.{event_in}

-- An answer that returns was given by the invited member while the invitation was pending, and a
-- second answer is refused.
pub respond_to_invitation_once :
    (now now' mahber event id member : ℕ) (accept accept' : Bool) (s : Db) (i : EventInvitation)
    → (respond_to_invitation now mahber event id member accept s).0 ≡ ok i
    → (i.member_id ≡ member)
      × (i.status ≡ (if accept then InvitationStatus.accepted else InvitationStatus.declined))
      × (is_ok
            (respond_to_invitation now' mahber event id member accept'
              (respond_to_invitation now mahber event id member accept s).1).0
          ≡ false)
unfolding respond_to_invitation
respond_to_invitation_once now now' mahber event id member accept accept' s i h =
    elim (Option-cases (find (invitation_has_id id) s.event_invitations)) [
      | inl missing ↦ ground arith
      | inr (old, found) ↦
          let status = if accept then InvitationStatus.accepted else InvitationStatus.declined in
          let kept =
            find-update_where (invitation_has_id id) (invitation_has_id id) (answered now status)
              s.event_invitations (λ a. refl) in
          let same = find_sound (invitation_has_id id) s.event_invitations old found in
          (ground arith, ground arith, ground arith)
    ]

abbrev invitation_id : EventInvitation → ℕ
invitation_id i = i.id

select-fresh :
    (id : ℕ) (rows : List EventInvitation)
    → IsFresh invitation_id id rows
    → select (λ j. not (j.id == id)) rows ≡ rows
unfolding select
select-fresh id [] h = refl
select-fresh id (r ∷ rows) h = ground (arith, h.0, select-fresh id rows h.1)

module _ (now id mahber event member : ℕ) (s : Db) where
  -- A registration that returns is for an event of the organization that stands and has not
  -- started, by an active member, who was not registered and had not declined.
  pub register_for_event-ok :
      (i : EventInvitation)
      → (register_for_event now id mahber event member s).0 ≡ ok i
      → (i.status ≡ InvitationStatus.accepted)
        × (is_some (active_membership_of mahber member s) ≡ true)
        × (elim (find (event_in mahber event) s.events) [
          | none ↦ false
          | some e ↦ not e.is_cancelled && ltb now e.start_time
        ]
            ≡ true)
        × (elim (find (invitation_of event member) s.event_invitations) [
          | none ↦ true
          | some old ↦ invitation_is_pending old.status
        ]
            ≡ true)
  unfolding register_for_event
  register_for_event-ok i h = ground arith

  -- After a registration that returned, under a new id and of a member that had no invitation, the
  -- cancellation returns and leaves the invitations as they were before the registration.
  pub cancel_registration-register :
      (i : EventInvitation)
      → IsFresh invitation_id id s.event_invitations
      → find (invitation_of event member) s.event_invitations ≡ none
      → (register_for_event now id mahber event member s).0 ≡ ok i
      → let (r, t) =
          cancel_registration mahber event member
            (register_for_event now id mahber event member s).1 in
        (r ≡ ok tt) × (t.event_invitations ≡ s.event_invitations)
  unfolding register_for_event cancel_registration find select
  cancel_registration-register i fresh no_row h =
      let rest = select-fresh id s.event_invitations fresh in
      (
        ground (arith, ==-refl event, ==-refl member),
        ground (arith, ==-refl event, ==-refl member, ==-refl id, rest),
      )
