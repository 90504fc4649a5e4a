-- ===== src/Events/Sending.antt =====
-- src/events/event.service.ts: sending invitations, and the listings of events and invitations.
pub mod Laws
use mahber_connect_backend.Prelude.{
  ℕ, Bool, not, ◌&&◌, Option, none, some, List, [], ◌∷◌, map, ◌==◌, if◌then◌else◌, Paged, paged, ℤ,
  ◌-ℤ◌, pos, length, select, any, includes,
}
use mahber_connect_backend.Db.{
  InvitationStatus, is_active, Membership, Event, EventInvitation, Notice, Db,
}
use mahber_connect_backend.Exec.{
  Exec, pure, gets, or_throw, ◌>>=◌, ◌>>◌, throw_if, modify, bad_request, conflict, prisma_error,
}
use mahber_connect_backend.Events.Schedule.{find_one, cancelled}
use mahber_connect_backend.Events.Invitations.{invitation_of}

-- The memberships of the named members that are Active.
abbrev pub invitable : ℕ → List ℕ → Db → List Membership
invitable mahber members s =
    select (λ m. (m.mahber_id == mahber) && includes m.member_id members && is_active m.status)
      s.memberships

abbrev pub has_invitation : ℕ → ℕ → Db → Bool
has_invitation event member s = any (invitation_of event member) s.event_invitations

-- `newMemberIds`: the valid members without an invitation to the event
unfoldable pub not_invited : ℕ → List ℕ → Db → List ℕ
not_invited event members s = select (λ u. not (has_invitation event u s)) members

abbrev pub new_invitation : ℕ → ℕ → ℕ → ℕ → EventInvitation
new_invitation id mahber event member = record {
  id = id;
  event_id = event;
  mahber_id = mahber;
  member_id = member;
  status = InvitationStatus.pending;
  source = "invited";
  responded_at = none;
}

-- The inserts; nothing where one meets the unique key on event and member.
unfoldable pub insert_invitations :
    (ℕ → ℕ) → ℕ → ℕ → List ℕ → List EventInvitation → Option (List EventInvitation)
insert_invitations ids mahber event [] rows = some rows
insert_invitations ids mahber event (u ∷ us) rows =
    let rest =
      insert_invitations ids mahber event us (new_invitation (ids u) mahber event u ∷ rows) in
    if any (invitation_of event u) rows then none else rest

unfoldable pub notices_to : List ℕ → List Notice → List Notice
notices_to [] rows = rows
notices_to (u ∷ us) rows = notices_to us (record { user_id = u; kind = "EVENT_INVITATION" } ∷ rows)

pub record SendResult : Type 0 where
  pub invited : ℕ
  pub already_invited : ℤ
  pub invalid_members : ℤ

-- `ids` gives the id of the invitation of a member.
unfoldable pub send_invitations : (ℕ → ℕ) → ℕ → ℕ → ℕ → List ℕ → Exec SendResult
unfolding find_one not_invited insert_invitations notices_to
send_invitations ids mahber event actor members = do
  e ← find_one mahber event
  throw_if e.is_cancelled (bad_request "Cannot send invitations for a cancelled event")
  valid ← gets (λ s. map (λ m. m.member_id) (invitable mahber members s))
  throw_if (length valid == 0) (bad_request "No valid active members found")
  new ← gets (not_invited event valid)
  throw_if (length new == 0) (conflict "All selected members have already been invited")
  rows ←
      or_throw (← gets (λ s. insert_invitations ids mahber event new s.event_invitations))
        (prisma_error "P2002")
  modify (λ s. record s {
    event_invitations = rows;
    notices = notices_to new s.notices;
    audit_trail =
        (record {
          mahber_id = mahber;
          entity_type = "event_invitation";
          entity_id = event;
          action = "invitations_sent";
          actor_id = some actor;
        })
        ∷ s.audit_trail;
  })
  pure (record {
    invited = length new;
    already_invited = pos (length valid) -ℤ pos (length new);
    invalid_members = pos (length members) -ℤ pos (length valid);
  })

-- `findAll`; the order by the time of the start is not modelled.
unfoldable pub find_all_events : ℕ → ℕ → ℕ → Db → Paged Event
find_all_events mahber page limit s =
    paged page limit (select (λ e. e.mahber_id == mahber) s.events)

unfoldable pub get_invitations_for_event : ℕ → ℕ → Exec (List EventInvitation)
unfolding find_one
get_invitations_for_event mahber event = do
  find_one mahber event
  gets (λ s. select (λ i. (i.event_id == event) && (i.mahber_id == mahber)) s.event_invitations)

unfoldable pub get_my_invitations : ℕ → ℕ → Db → List EventInvitation
get_my_invitations mahber member s =
    select (λ i. (i.mahber_id == mahber) && (i.member_id == member)) s.event_invitations
