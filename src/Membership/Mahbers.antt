-- ===== src/Membership/Mahbers.antt =====
-- src/membership/mahber.service.ts: creating, changing, removing and seeing an organization. The
-- column `type`, the cache and the tables without a record are left out; the queries
-- stand in Membership/Listings.
pub mod Laws
use mahber_connect_backend.Prelude.{
  ℕ, String, Bool, true, false, not, ◌&&◌, Option, none, some, List, [], ◌∷◌, str_eq, ltb, ◌==◌,
  or_default, or_else, is_some, find, select, update_where, count, any,
}
use mahber_connect_backend.Db.{
  MembershipStatus, is_suspended, request_is_pending, Role, Configuration, Mahber, Membership,
  JoinRequest, Announcement, AnnouncementRead, ChatMessage, ChatReadReceipt, Poll, Vote, Db,
}
use mahber_connect_backend.Exec.{
  Exec, pure, gets, or_throw, ◌>>=◌, ◌>>◌, throw_if, modify, conflict, forbidden, not_found,
  prisma_error,
}
use mahber_connect_backend.Membership.Access.{membership_of, assert_permission}

-- `ADMIN_ROLE`
abbrev pub founder_role : Role
founder_role = record {
  name = "Admin";
  permissions =
      "manage_members" ∷ "manage_finances" ∷ "create_events" ∷ "send_announcements" ∷ "view_reports"
      ∷ "manage_roles" ∷ [];
}

-- CreateMahberDto
pub record CreateMahber : Type 0 where
  pub name : String
  pub configuration : Configuration
  pub role_limits : Option (List (String × ℕ))
  pub is_public : Option Bool
  pub invitation_code : Option String

abbrev pub founded : ℕ → ℕ → CreateMahber → Mahber
founded now id dto = record {
  id = id;
  name = dto.name;
  configuration = record dto.configuration {
    role_limits = or_default dto.role_limits dto.configuration.role_limits;
  };
  is_public = or_default dto.is_public true;
  is_suspended = false;
  invitation_code = dto.invitation_code;
  created_at = now;
}

abbrev pub founder : ℕ → ℕ → ℕ → ℕ → Membership
founder now id mahber user = record {
  id = id;
  mahber_id = mahber;
  member_id = user;
  status = MembershipStatus.active;
  role = founder_role;
  has_won_current_cycle = false;
  approval_date = some now;
  activation_date = some now;
  joined_at = none;
  next_payment_due = none;
  suspended_until = none;
  suspension_reason = none;
}

abbrev pub has_name : String → Mahber → Bool
has_name name o = str_eq o.name name

-- `id` and `row` are the new organization's and membership's ids.
unfoldable pub create : ℕ → ℕ → ℕ → ℕ → CreateMahber → Exec Mahber
create now id row user dto = do
  existing ← gets (λ s. find (has_name dto.name) s.mahbers)
  throw_if (is_some existing) (conflict "Organization name already exists")
  modify (λ s. record s {
    mahbers = founded now id dto ∷ s.mahbers;
    memberships = founder now row id user ∷ s.memberships;
  })
  pure (founded now id dto)

abbrev pub is_pending_request : ℕ → ℕ → JoinRequest → Bool
is_pending_request mahber user r =
    (r.mahber_id == mahber) && (r.user_id == user) && request_is_pending r.status

-- The access rule of `findOne`.
unfoldable pub find_one : ℕ → ℕ → Exec Mahber
find_one mahber user = do
  o ←
      or_throw (← gets (λ s. find (λ o. o.id == mahber) s.mahbers))
        (not_found "Organization not found")
  membership ← gets (membership_of mahber user)
  request ← gets (λ s. find (is_pending_request mahber user) s.join_requests)
  throw_if (not o.is_public && not (is_some membership) && not (is_some request))
      (forbidden "You do not have access to this organization")
  pure o

-- UpdateMahberDto
pub record UpdateMahber : Type 0 where
  pub name : Option String
  pub configuration : Option Configuration
  pub is_public : Option Bool
  pub invitation_code : Option String

abbrev pub with_update : UpdateMahber → Mahber → Mahber
with_update dto o = record o {
  name = or_default dto.name o.name;
  configuration = or_default dto.configuration o.configuration;
  is_public = or_default dto.is_public o.is_public;
  invitation_code = or_else dto.invitation_code o.invitation_code;
}

-- `if (dto.name)` and another organization of that name
abbrev name_taken : ℕ → Option String → Db → Bool
name_taken mahber none s = false
name_taken mahber (some name) s =
    not (str_eq name "") && any (λ o. has_name name o && not (o.id == mahber)) s.mahbers

unfoldable pub update : ℕ → ℕ → UpdateMahber → Exec Mahber
unfolding assert_permission
update mahber user dto = do
  assert_permission "manage_members" mahber user
  taken ← gets (name_taken mahber dto.name)
  throw_if taken (conflict "Organization name already exists")
  o ← or_throw (← gets (λ s. find (λ o. o.id == mahber) s.mahbers)) (prisma_error "P2025")
  modify
      (λ s. record s { mahbers = update_where (λ x. x.id == mahber) (with_update dto) s.mahbers })
  pure (with_update dto o)

-- `vote.deleteMany({ where: { poll: { mahber_id } } })`
abbrev is_vote_in : ℕ → List Poll → Vote → Bool
is_vote_in mahber polls v = any (λ p. (p.id == v.poll_id) && (p.mahber_id == mahber)) polls

-- `announcementRead.deleteMany({ where: { announcement: { mahber_id } } })`
abbrev is_read_in : ℕ → List Announcement → AnnouncementRead → Bool
is_read_in mahber announcements r =
    any (λ a. (a.id == r.announcement_id) && (a.mahber_id == mahber)) announcements

-- The receipts of a message go with it: `onDelete: Cascade`.
abbrev is_receipt_in : ℕ → List ChatMessage → ChatReadReceipt → Bool
is_receipt_in mahber messages r =
    any (λ m. (m.id == r.message_id) && (m.mahber_id == mahber)) messages

-- The deletions of the transaction.
unfoldable pub without : ℕ → Db → Db
without mahber s = record s {
  votes = select (λ v. not (is_vote_in mahber s.polls v)) s.votes;
  announcement_reads = select (λ r. not (is_read_in mahber s.announcements r)) s.announcement_reads;
  event_invitations = select (λ r. not (r.mahber_id == mahber)) s.event_invitations;
  photos = select (λ r. not (r.mahber_id == mahber)) s.photos;
  attendance = select (λ r. not (r.mahber_id == mahber)) s.attendance;
  ledger = select (λ r. not (r.mahber_id == mahber)) s.ledger;
  fines = select (λ r. not (r.mahber_id == mahber)) s.fines;
  payments = select (λ r. not (r.mahber_id == mahber)) s.payments;
  events = select (λ r. not (r.mahber_id == mahber)) s.events;
  announcements = select (λ r. not (r.mahber_id == mahber)) s.announcements;
  polls = select (λ r. not (r.mahber_id == mahber)) s.polls;
  read_receipts = select (λ r. not (is_receipt_in mahber s.messages r)) s.read_receipts;
  messages = select (λ r. not (r.mahber_id == mahber)) s.messages;
  payouts = select (λ r. not (r.mahber_id == mahber)) s.payouts;
  expenses = select (λ r. not (r.mahber_id == mahber)) s.expenses;
  lotteries = select (λ r. not (r.mahber_id == mahber)) s.lotteries;
  pending_payments = select (λ r. not (r.mahber_id == mahber)) s.pending_payments;
  memberships = select (λ r. not (r.mahber_id == mahber)) s.memberships;
  join_requests = select (λ r. not (r.mahber_id == mahber)) s.join_requests;
  audit_trail = select (λ r. not (r.mahber_id == mahber)) s.audit_trail;
  mahbers = select (λ o. not (o.id == mahber)) s.mahbers;
}

-- `delete` by id throws, and rolls back, if there is no organization of this id.
unfoldable pub remove : ℕ → ℕ → Exec (Unit {0})
unfolding assert_permission without
remove mahber user = do
  assert_permission "manage_members" mahber user
  others ←
      gets (λ s. count (λ m. (m.mahber_id == mahber) && not (m.member_id == user)) s.memberships)
  throw_if (ltb 0 others) (conflict "Cannot delete organization with other members")
  _ ← or_throw (← gets (λ s. find (λ o. o.id == mahber) s.mahbers)) (prisma_error "P2025")
  modify (without mahber)
