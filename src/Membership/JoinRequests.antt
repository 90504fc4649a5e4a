-- ===== src/Membership/JoinRequests.antt =====
-- src/membership/join-request.service.ts and
-- src/automation/processors/join-request-expiry.processor.ts. The queries stand in Listings.
pub mod Invariant
pub mod Decisions
pub mod Batch
use mahber_connect_backend.Prelude.{
  ℕ, ◌+◌, ◌*◌, String, Bool, true, false, not, ◌&&◌, Option, none, some, [], ◌∷◌, str_eq, ltb, ◌==◌,
  if◌then◌else◌, is_some, find, update_where,
}
use mahber_connect_backend.Db.{
  JoinRequestStatus, request_is_pending, request_is_open, Role, Mahber, Membership, JoinRequest, Db,
  active, payment_required,
}
use mahber_connect_backend.Exec.{
  Exec, pure, throw, gets, or_throw, ◌>>=◌, ◌>>◌, throw_if, bad_request, conflict, not_found, ok,
}
use mahber_connect_backend.Membership.Access.{membership_of, assert_permission}

-- `{ name: 'Member', permissions: [] }`
abbrev pub member_role : Role
member_role = record { name = "Member"; permissions = [] }

-- `membership.create` on the approval of a request.
abbrev pub approved_membership : ℕ → ℕ → ℕ → ℕ → Membership
approved_membership now id mahber member = record {
  id = id;
  mahber_id = mahber;
  member_id = member;
  status = payment_required;
  role = member_role;
  has_won_current_cycle = false;
  approval_date = some now;
  activation_date = none;
  joined_at = none;
  next_payment_due = none;
  suspended_until = none;
  suspension_reason = none;
}

-- `status: { in: [Pending, Approved] }` for this organization and user
abbrev pub is_open_of : ℕ → ℕ → JoinRequest → Bool
is_open_of mahber user r =
    (r.mahber_id == mahber) && (r.user_id == user) && request_is_open r.status

abbrev pub request_has_id : ℕ → JoinRequest → Bool
request_has_id id r = r.id == id

-- `where: { id: requestId, mahber_id: mahberId }`
abbrev pub request_in : ℕ → ℕ → JoinRequest → Bool
request_in mahber request q = (q.id == request) && (q.mahber_id == mahber)

-- `where: { id: requestId, user_id: userId, is_invitation: true }`
abbrev pub invitation_to : ℕ → ℕ → JoinRequest → Bool
invitation_to user request q = (q.id == request) && (q.user_id == user) && q.is_invitation

abbrev mahber_by_id : ℕ → Db → Option Mahber
mahber_by_id id s = find (λ o. o.id == id) s.mahbers

abbrev pub add_request : JoinRequest → Exec JoinRequest
add_request r s = (ok r, record s { join_requests = r ∷ s.join_requests })

abbrev pub add_membership : Membership → Exec (Unit {0})
add_membership m s = (ok tt, record s { memberships = m ∷ s.memberships })

abbrev pub set_request : ℕ → (JoinRequest → JoinRequest) → Exec (Unit {0})
set_request id f s =
    (ok tt, record s { join_requests = update_where (request_has_id id) f s.join_requests })

-- The code of a private organization: it must be given and must be the organization's.
abbrev check_code : Option String → Option String → Exec (Unit {0})
check_code wanted none = throw (bad_request "Invitation code is required for private organizations")
check_code none (some code) = throw (bad_request "Invalid invitation code")
check_code (some wanted) (some code) =
    throw_if (not (str_eq wanted code)) (bad_request "Invalid invitation code")

-- `!dto.invitation_code`: the empty text counts as missing.
abbrev pub non_empty : Option String → Option String
non_empty none = none
non_empty (some t) = if str_eq t "" then none else some t

unfoldable pub create : ℕ → ℕ → ℕ → ℕ → Option String → Exec JoinRequest
create now id mahber user code = do
  o ← or_throw (← gets (mahber_by_id mahber)) (not_found "Organization not found")
  if o.is_public then pure tt else check_code o.invitation_code (non_empty code)
  existing ← gets (λ s. find (is_open_of mahber user) s.join_requests)
  throw_if (is_some existing)
      (conflict "You already have an active join request for this organization")
  add_request (record {
    id = id;
    mahber_id = mahber;
    user_id = user;
    status = JoinRequestStatus.pending;
    invitation_code = code;
    rejection_reason = none;
    is_invitation = false;
    created_at = now;
  })

-- ProcessJoinRequestDto: `action` is 'approve' or 'reject'.
pub data Action : Type 0 where
  approve reject : Action

-- `joinRequest.update`, by the action.
abbrev pub resolved : Action → Option String → JoinRequest → JoinRequest
resolved reject reason r = record r {
  status = JoinRequestStatus.rejected;
  rejection_reason = reason;
}
resolved approve reason r = record r { status = JoinRequestStatus.approved }

-- Rejection, or approval with the creation of a membership that is to be paid for.
unfoldable pub resolve : ℕ → ℕ → ℕ → Action → Option String → JoinRequest → Exec (Unit {0})
resolve now id mahber reject reason r = set_request r.id (resolved reject reason)
resolve now id mahber approve reason r = do
  set_request r.id (resolved approve reason)
  add_membership (approved_membership now id mahber r.user_id)

unfoldable pub process_request : ℕ → ℕ → ℕ → ℕ → ℕ → Action → Option String → Exec (Unit {0})
unfolding resolve assert_permission
process_request now id mahber request actor action reason = do
  assert_permission "manage_members" mahber actor
  r ←
      or_throw (← gets (λ s. find (request_in mahber request) s.join_requests))
        (not_found "Join request not found")
  throw_if (not (request_is_pending r.status))
      (bad_request "Only pending join requests can be processed")
  resolve now id mahber action reason r

unfoldable pub invite : ℕ → ℕ → ℕ → ℕ → String → Exec JoinRequest
unfolding assert_permission
invite now id mahber admin phone = do
  assert_permission "manage_members" mahber admin
  user ←
      or_throw (← gets (λ s. find (λ u. str_eq u.phone phone) s.users))
        (not_found "User with this phone number not found")
  member ← gets (membership_of mahber user.id)
  throw_if (is_some member) (conflict "User is already a member of this organization")
  existing ← gets (λ s. find (is_open_of mahber user.id) s.join_requests)
  throw_if (is_some existing)
      (conflict "An active join request or invitation already exists for this user")
  add_request (record {
    id = id;
    mahber_id = mahber;
    user_id = user.id;
    status = JoinRequestStatus.pending;
    invitation_code = none;
    rejection_reason = none;
    is_invitation = true;
    created_at = now;
  })

-- `respondToInvitation`; the update of a rejection leaves `rejection_reason` alone.
unfoldable pub respond_to_invitation : ℕ → ℕ → ℕ → ℕ → Action → Exec (Unit {0})
unfolding resolve
respond_to_invitation now id request user action = do
  r ←
      or_throw (← gets (λ s. find (invitation_to user request) s.join_requests))
        (not_found "Invitation not found")
  throw_if (not (request_is_pending r.status))
      (bad_request "Only pending invitations can be responded to")
  resolve now id r.mahber_id action r.rejection_reason r

abbrev expiry_ms : ℕ
expiry_ms = 7 * 24 * 60 * 60 * 1000

-- Pending and created more than `EXPIRY_DAYS` ago.
abbrev pub is_expired_request : ℕ → JoinRequest → Bool
is_expired_request now r = request_is_pending r.status && ltb (r.created_at + expiry_ms) now

-- `JoinRequestExpiryProcessor.process`
unfoldable pub expire_requests : ℕ → Db → Db
expire_requests now s = record s {
  join_requests =
      update_where (is_expired_request now)
        (λ r. record r { status = JoinRequestStatus.invalidated }) s.join_requests;
}
