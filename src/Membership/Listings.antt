-- ===== src/Membership/Listings.antt =====
-- The queries of src/membership: organizations, their members and their requests. The names and
-- phones that the source joins to the rows are left out, and so is the order by name.
pub mod Laws
use mahber_connect_backend.Prelude.{
  oldest_first, ℕ, String, Bool, true, not, ◌&&◌, ◌||◌, Option, none, some, List, [], ◌∷◌, str_eq,
  leb, ◌==◌, Paged, paged, take, find, select, count,
}
use mahber_connect_backend.Db.{
  is_active, request_is_pending, payment_is_completed, Mahber, Membership, JoinRequest, Db,
}
use mahber_connect_backend.Exec.{Exec, gets, or_throw, ◌>>=◌, ◌>>◌, not_found}
use mahber_connect_backend.Membership.Access.{membership_of, assert_member, assert_permission}

-- `MahberService.findAll`: the organizations of the user's memberships
unfoldable pub mahbers_of : List Membership → List Mahber → List Mahber
mahbers_of [] os = []
mahbers_of (m ∷ ms) os =
    let rest = mahbers_of ms os in
    elim (find (λ o. o.id == m.mahber_id) os) [ none ↦ rest | some o ↦ o ∷ rest ]

unfoldable pub find_all_mahbers_of : ℕ → Db → List Mahber
unfolding mahbers_of
find_all_mahbers_of user s = mahbers_of (select (λ m. m.member_id == user) s.memberships) s.mahbers

-- `query ? … : {}`; `insensitive` is the database's search, which does not look at the case.
abbrev pub matches_query : (String → String → Bool) → Option String → String → Bool
matches_query insensitive none name = true
matches_query insensitive (some q) name = str_eq q "" || insensitive q name

unfoldable pub search_public : (String → String → Bool) → Option String → Db → List Mahber
search_public insensitive query s =
    take 50 (select (λ o. o.is_public && matches_query insensitive query o.name) s.mahbers)

pub record Statistics : Type 0 where
  pub total_members : ℕ
  pub active_members : ℕ
  pub upcoming_events : ℕ
  pub total_payments : ℕ

unfoldable pub get_statistics : ℕ → ℕ → ℕ → Exec Statistics
unfolding assert_member
get_statistics now mahber user = do
  assert_member mahber user
  gets (λ s. record {
    total_members = count (λ m. m.mahber_id == mahber) s.memberships;
    active_members = count (λ m. (m.mahber_id == mahber) && is_active m.status) s.memberships;
    upcoming_events =
        count (λ e. (e.mahber_id == mahber) && not e.is_cancelled && leb now e.start_time) s.events;
    total_payments =
        count (λ p. (p.mahber_id == mahber) && payment_is_completed p.status) s.payments;
  })

-- `MemberService.findAll`
unfoldable pub find_all_members : ℕ → ℕ → ℕ → ℕ → Exec (Paged Membership)
unfolding assert_member oldest_first
find_all_members mahber user page limit = do
  assert_member mahber user
  gets (λ s. paged page limit (oldest_first (select (λ m. m.mahber_id == mahber) s.memberships)))

unfoldable pub find_one_member : ℕ → ℕ → ℕ → Exec Membership
unfolding assert_member
find_one_member mahber member user = do
  assert_member mahber user
  or_throw (← gets (membership_of mahber member)) (not_found "Member not found")

-- `JoinRequestService.findAll`
unfoldable pub find_all_requests : ℕ → ℕ → Exec (List JoinRequest)
unfolding assert_permission
find_all_requests mahber user = do
  assert_permission "manage_members" mahber user
  gets (λ s. select (λ r. r.mahber_id == mahber) s.join_requests)

abbrev pub is_open_invitation : ℕ → JoinRequest → Bool
is_open_invitation user r = (r.user_id == user) && r.is_invitation && request_is_pending r.status

unfoldable pub get_invitations_for_user : ℕ → Db → List JoinRequest
get_invitations_for_user user s = select (is_open_invitation user) s.join_requests
