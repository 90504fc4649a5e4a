-- ===== src/Membership/JoinRequests/Invariant.antt =====
-- Theorems on the open join requests of a user: those that are Pending or Approved.
use mahber_connect_backend.Prelude.{
  All-of, All-map, ℕ, ◌≤◌, String, ◌≡◌, refl, ◌⊎◌, inl, inr, Bool, true, Option, none, some, List,
  ◌∷◌, arith, Option-cases, find, count, find-eq_none_count, count-update_where_le, IsFresh, Unique,
  Unique-only, Unique-update_where,
}
use mahber_connect_backend.Db.{JoinRequestStatus, request_is_pending, JoinRequest, Db}
use mahber_connect_backend.Membership.JoinRequests.{
  invitation_to, request_in, resolved, is_open_of, request_has_id, add_request, set_request, create,
  Action, process_request, invite, respond_to_invitation, is_expired_request, expire_requests,
}

-- The primary key holds, and every user has at most one open request to an organization.
pub record IsSound (s : Db) : Type 0 where
  pub keys : Unique (λ r. r.id) s.join_requests
  pub one_open : (mahber user : ℕ) → count (is_open_of mahber user) s.join_requests ≤ 1

-- A request that is no longer Pending is not opened again by this change.
abbrev Keeps : (JoinRequest → JoinRequest) → JoinRequest → Type 0
Keeps f r = ((f r).id ≡ r.id) × ((f r).mahber_id ≡ r.mahber_id) × ((f r).user_id ≡ r.user_id)

-- Changing the row of a Pending request keeps the invariant, whatever its new status is.
set_request-IsSound :
    (p : JoinRequest → Bool) (f : JoinRequest → JoinRequest) (s : Db) (r : JoinRequest)
    → ((q : JoinRequest) → Keeps f q)
    → find p s.join_requests ≡ some r
    → request_is_pending r.status ≡ true
    → IsSound s
    → IsSound (set_request r.id f s).1
set_request-IsSound p f s r keep e pending_now v = record {
  keys =
      Unique-update_where (λ q. q.id) (request_has_id r.id) f s.join_requests (λ q. (keep q).0)
        v.keys;
  one_open = λ mahber user.
      let shrinks =
        count-update_where_le (is_open_of mahber user) (request_has_id r.id) f s.join_requests (
          All-map s.join_requests (Unique-only (λ q. q.id) p s.join_requests r v.keys e)
            λ q only same opened. let eq = only same in ground (arith, keep q)) in
      omega (arith, v.one_open mahber user);
}

-- The invariant speaks of the requests alone.
same_requests : (s t : Db) → t.join_requests ≡ s.join_requests → IsSound s → IsSound t
same_requests s t e v = record {
  keys = rw e v.keys;
  one_open = λ mahber user. rw e (v.one_open mahber user);
}

open_none :
    (xs : List JoinRequest) (m u mahber user : ℕ)
    → m ≡ mahber
    → u ≡ user
    → find (is_open_of m u) xs ≡ none
    → count (is_open_of mahber user) xs ≡ 0
open_none xs m u mahber user p q e = rw (← p, ← q) (find-eq_none_count (is_open_of m u) xs e)

-- A new request keeps the invariant, if its id is new and its user has no open one.
pub add_request-IsSound :
    (r : JoinRequest) (s : Db)
    → IsFresh (λ q. q.id) r.id s.join_requests
    → find (is_open_of r.mahber_id r.user_id) s.join_requests ≡ none
    → IsSound s
    → IsSound (add_request r s).1
unfolding count
add_request-IsSound r s fresh e v = record {
  keys = (fresh, v.keys);
  one_open = λ mahber user.
      let old = open_none s.join_requests r.mahber_id r.user_id mahber user in
      ground (arith, v.one_open mahber user, old);
}

module _ (now id : ℕ) (action : Action) (s : Db) where
  -- `Changes p reason t`: the operation changed no request, or it resolved a Pending one that `p`
  -- found.
  abbrev Changes : (JoinRequest → Bool) → (JoinRequest → Option String) → Db → Type 0
  Changes p reason t = elim (find p s.join_requests) [
    | none ↦ t.join_requests ≡ s.join_requests
    | some r ↦
        (t.join_requests ≡ s.join_requests)
        ⊎ ((request_is_pending r.status ≡ true)
            × (t.join_requests ≡ (set_request r.id (resolved action (reason r)) s).1.join_requests))
  ]

  resolved-Keeps : (reason : Option String) (q : JoinRequest) → Keeps (resolved action reason) q
  resolved-Keeps reason q = ground arith

  Changes-found :
      (p : JoinRequest → Bool) (reason : JoinRequest → Option String) (t : Db) (r : JoinRequest)
      → find p s.join_requests ≡ some r
      → ((t.join_requests ≡ s.join_requests)
          ⊎ ((request_is_pending r.status ≡ true)
              × (t.join_requests
                  ≡ (set_request r.id (resolved action (reason r)) s).1.join_requests)))
      → IsSound s
      → IsSound t
  Changes-found p reason t r e (inl same) v = same_requests s t same v
  Changes-found p reason t r e (inr (h, new)) v =
      same_requests (set_request r.id (resolved action (reason r)) s).1 t new
        (set_request-IsSound p (resolved action (reason r)) s r (resolved-Keeps (reason r)) e h v)

  Changes-IsSound :
      (p : JoinRequest → Bool) (reason : JoinRequest → Option String) (t : Db)
      → Changes p reason t
      → IsSound s
      → IsSound t
  Changes-IsSound p reason t c v = elim (Option-cases (find p s.join_requests)) [
    | inl e ↦ same_requests s t (rw (e, Changes) at c) v
    | inr (r, e) ↦ Changes-found p reason t r e (rw (e, Changes) at c) v
  ]

  process_request-Changes :
      (mahber request actor : ℕ) (reason : Option String)
      → Changes
          (request_in mahber request)
          (λ _. reason)
          (process_request now id mahber request actor action reason s).1
  unfolding process_request
  process_request-Changes mahber request actor reason = ground arith

  -- Processing a request keeps the ids of requests unique and keeps every user to at most one
  -- Pending or Approved request to an organization, whether it returns or throws.
  pub process_request-IsSound :
      (mahber request actor : ℕ) (reason : Option String)
      → IsSound s
      → IsSound (process_request now id mahber request actor action reason s).1
  process_request-IsSound mahber request actor reason =
      Changes-IsSound (request_in mahber request) (λ _. reason) _
        (process_request-Changes mahber request actor reason)

  respond_to_invitation-Changes :
      (request user : ℕ)
      → Changes
          (invitation_to user request)
          (λ r. r.rejection_reason)
          (respond_to_invitation now id request user action s).1
  unfolding respond_to_invitation
  respond_to_invitation-Changes request user = ground arith

  -- Answering an invitation keeps the invariant, on every branch.
  pub respond_to_invitation-IsSound :
      (request user : ℕ)
      → IsSound s
      → IsSound (respond_to_invitation now id request user action s).1
  respond_to_invitation-IsSound request user =
      Changes-IsSound (invitation_to user request) (λ r. r.rejection_reason) _
        (respond_to_invitation-Changes request user)

-- The requests of `t` are those of `s`, or one more that opens the only request of its user.
abbrev Opens : ℕ → Db → Db → Type 0
Opens id s t =
    (t.join_requests ≡ s.join_requests)
    ⊎ ((r : JoinRequest) × (r.id ≡ id)
        × (find (is_open_of r.mahber_id r.user_id) s.join_requests ≡ none)
        × (t.join_requests ≡ r ∷ s.join_requests))

Opens-IsSound :
    (id : ℕ) (s t : Db)
    → Opens id s t
    → IsFresh (λ q. q.id) id s.join_requests
    → IsSound s
    → IsSound t
Opens-IsSound id s t (inl same) fresh v = same_requests s t same v
Opens-IsSound id s t (inr (r, k, e, new)) fresh v =
    same_requests (add_request r s).1 t new (add_request-IsSound r s (rw k fresh) e v)

module _ (now id mahber : ℕ) (s : Db) (fresh : IsFresh (λ q. q.id) id s.join_requests) where
  create-Opens : (user : ℕ) (code : Option String) → Opens id s (create now id mahber user code s).1
  unfolding create
  create-Opens user code = ground arith

  -- With a new id, asking to join keeps the ids of requests unique and keeps every user to at most
  -- one Pending or Approved request to an organization, whether it returns or throws.
  pub create-IsSound :
      (user : ℕ) (code : Option String) → IsSound s → IsSound (create now id mahber user code s).1
  create-IsSound user code = Opens-IsSound id s _ (create-Opens user code) fresh

  invite-Opens : (admin : ℕ) (phone : String) → Opens id s (invite now id mahber admin phone s).1
  unfolding invite
  invite-Opens admin phone = ground arith

  -- Inviting keeps the invariant, on every branch.
  pub invite-IsSound :
      (admin : ℕ) (phone : String) → IsSound s → IsSound (invite now id mahber admin phone s).1
  invite-IsSound admin phone = Opens-IsSound id s _ (invite-Opens admin phone) fresh

-- The nightly expiry of old requests keeps the invariant.
pub expire_requests-IsSound : (now : ℕ) (s : Db) → IsSound s → IsSound (expire_requests now s)
unfolding expire_requests
expire_requests-IsSound now s v = record {
  keys =
      Unique-update_where (λ q. q.id) (is_expired_request now) _ s.join_requests (λ q. refl) v.keys;
  one_open = λ mahber user.
      let shrinks =
        count-update_where_le (is_open_of mahber user) (is_expired_request now)
          (λ r. record r { status = JoinRequestStatus.invalidated }) s.join_requests
          (All-of s.join_requests (λ q old opened. ground arith)) in
      omega (arith, v.one_open mahber user);
}
