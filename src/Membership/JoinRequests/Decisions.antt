-- ===== src/Membership/JoinRequests/Decisions.antt =====
-- What a decision on a join request does.
use mathlib.Core.Option
use mahber_connect_backend.Prelude.{
  ℕ, String, ◌≡◌, refl, ◌≢◌, inl, inr, true, false, Option, some, ◌∷◌, arith, Option-cases, find,
  find_sound, find-update_where,
}
use mahber_connect_backend.Db.{JoinRequestStatus, request_is_pending, JoinRequest, Db}
use mahber_connect_backend.Exec.{ok}
use mahber_connect_backend.Membership.Access.{holds}
use mahber_connect_backend.Membership.JoinRequests.{
  approve, reject, reject, approve, approved_membership, request_has_id, request_in, Action,
  resolved, process_request,
}

same_key :
    (action : Action) (reason : Option String) (mahber request : ℕ) (q : JoinRequest)
    → request_in mahber request (resolved action reason q) ≡ request_in mahber request q
same_key approve reason mahber request q = refl
same_key reject reason mahber request q = refl

module _ (now id mahber request actor : ℕ) (reason : Option String) (s : Db) where
  -- An approval that returns was made by a holder of `manage_members` on a Pending request of the
  -- organization, and creates one membership, of the requester, that waits for its payment.
  pub process_request-approve :
      (process_request now id mahber request actor approve reason s).0 ≡ ok tt
      → (holds "manage_members" mahber actor s ≡ true)
        × (Option.map (λ r. r.status) (find (request_in mahber request) s.join_requests)
            ≡ some JoinRequestStatus.pending)
        × (some (process_request now id mahber request actor approve reason s).1.memberships
            ≡ Option.map
                (λ r. approved_membership now id mahber r.user_id ∷ s.memberships)
                (find (request_in mahber request) s.join_requests))
  unfolding process_request
  process_request-approve h = ground arith

  -- A rejection creates no membership.
  pub process_request-reject :
      (process_request now id mahber request actor reject reason s).1.memberships ≡ s.memberships
  unfolding process_request
  process_request-reject = ground arith

  decided :
      (action : Action)
      → (process_request now id mahber request actor action reason s).0 ≡ ok tt
      → Option.map
          (λ r. request_is_pending r.status)
          (find
            (request_in mahber request)
            (process_request now id mahber request actor action reason s).1.join_requests)
        ≡ some false
  unfolding process_request
  decided action h = elim (Option-cases (find (request_in mahber request) s.join_requests)) [
    | inl e ↦ ground arith
    | inr (r, e) ↦
        let kept =
          find-update_where (request_in mahber request) (request_has_id r.id)
            (resolved action reason) s.join_requests in
        ground (
          arith,
          kept (λ q. same_key action reason mahber request q),
          find_sound (request_in mahber request) s.join_requests r e,
        )
  ]

-- A request that is not Pending is refused.
decided_refused :
    (now id mahber request actor : ℕ) (action : Action) (reason : Option String) (s : Db)
    → Option.map
        (λ r. request_is_pending r.status)
        (find (request_in mahber request) s.join_requests)
      ≡ some false
    → (process_request now id mahber request actor action reason s).0 ≢ ok tt
unfolding process_request
decided_refused now id mahber request actor action reason s h = ground arith

-- After a decision on a request that returned, no further decision on it returns, whoever tries
-- and whatever the action.
pub process_request_twice :
    (now id mahber request actor now' id' actor' : ℕ) (action action' : Action)
    (reason reason' : Option String) (s : Db)
    → (process_request now id mahber request actor action reason s).0 ≡ ok tt
    → (process_request now' id' mahber request actor' action' reason'
        (process_request now id mahber request actor action reason s).1).0
      ≢ ok tt
process_request_twice now id mahber request actor now' id' actor' action action' reason reason' s
      h =
    decided_refused now' id' mahber request actor' action' reason' _
      (decided now id mahber request actor reason s action h)
