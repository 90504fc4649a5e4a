-- ===== src/Membership/JoinRequests/Batch/Laws.antt =====
-- What a batch reports and creates.
use mahber_connect_backend.Prelude.{
  ℕ, ◌+◌, ◌≡◌, refl, true, none, some, List, [], ◌∷◌, ◌++◌, arith, length, find,
}
use mahber_connect_backend.Db.{JoinRequestStatus, JoinRequest, Db}
use mahber_connect_backend.Exec.{ok}
use mahber_connect_backend.Membership.Access.{holds}
use mahber_connect_backend.Membership.JoinRequests.{
  approve, approve, approved_membership, request_has_id,
}
use mahber_connect_backend.Membership.JoinRequests.Batch.{
  not_there, not_pending, not_pending, not_there, BatchItem, BatchResults, no_results,
  existing_requests, process_item, process_items, batch_process,
}

abbrev reported : BatchResults → ℕ
reported acc = acc.approved + acc.rejected + length acc.failed

length-snoc {ℓ} : {A : Type ℓ} (xs : List A) (x : A) → length (xs ++ (x ∷ [])) ≡ length xs + 1
length-snoc [] x = omega arith
length-snoc (y ∷ xs) x = omega (arith, length-snoc xs x)

module _ (now : ℕ) (uuid : ℕ → ℕ) (mahber : ℕ) (known : List JoinRequest) where
  process_item-reported :
      (item : BatchItem) (acc : BatchResults) (s : Db)
      → reported (process_item now uuid mahber known item acc s).0 ≡ reported acc + 1
  unfolding process_item
  process_item-reported item acc s = ground (
    arith,
    length-snoc acc.failed (item.request_id, not_there),
    length-snoc acc.failed (item.request_id, not_pending),
  )

  process_item-members :
      (item : BatchItem) (acc : BatchResults) (s : Db)
      → length (process_item now uuid mahber known item acc s).1.memberships + acc.approved
        ≡ length s.memberships + (process_item now uuid mahber known item acc s).0.approved
  unfolding process_item
  process_item-members item acc s = ground arith

  process_items-reported :
      (items : List BatchItem) (acc : BatchResults) (s : Db)
      → reported (process_items now uuid mahber known items acc s).0 ≡ reported acc + length items
  unfolding process_items
  process_items-reported [] acc s = omega arith
  process_items-reported (item ∷ items) acc s =
      let (acc', s') = process_item now uuid mahber known item acc s in
      omega (arith, process_items-reported items acc' s', process_item-reported item acc s)

  process_items-members :
      (items : List BatchItem) (acc : BatchResults) (s : Db)
      → length (process_items now uuid mahber known items acc s).1.memberships + acc.approved
        ≡ length s.memberships + (process_items now uuid mahber known items acc s).0.approved
  unfolding process_items
  process_items-members [] acc s = refl
  process_items-members (item ∷ items) acc s =
      let (acc', s') = process_item now uuid mahber known item acc s in
      omega (arith, process_items-members items acc' s', process_item-members item acc s)

-- A batch that returns reports every item once, as approved, rejected or failed, and creates one
-- membership for each item that it reports as approved.
pub batch_process-counts :
    (now : ℕ) (uuid : ℕ → ℕ) (mahber actor : ℕ) (items : List BatchItem) (s : Db)
    (acc : BatchResults)
    → (batch_process now uuid mahber actor items s).0 ≡ ok acc
    → (acc.approved + acc.rejected + length acc.failed ≡ length items)
      × (length (batch_process now uuid mahber actor items s).1.memberships
          ≡ length s.memberships + acc.approved)
unfolding batch_process
batch_process-counts now uuid mahber actor items s acc h =
    let known = existing_requests mahber items s in
    ground (
      arith,
      process_items-reported now uuid mahber known items no_results s,
      process_items-members now uuid mahber known items no_results s,
    )

-- The same request, to be approved, twice.
abbrev pub again : JoinRequest → List BatchItem
again r =
    record { request_id = r.id; action = approve; rejection_reason = none }
    ∷ record { request_id = r.id; action = approve; rejection_reason = none }
    ∷ []

-- If the caller holds `manage_members`, a Pending request that a batch names twice for approval is
-- approved twice, and two memberships of the same user come out of it.
pub batch_process_twice :
    (now : ℕ) (uuid : ℕ → ℕ) (mahber actor : ℕ) (r : JoinRequest) (s : Db)
    → holds "manage_members" mahber actor s ≡ true
    → find (request_has_id r.id) (existing_requests mahber (again r) s) ≡ some r
    → r.status ≡ JoinRequestStatus.pending
    → ((batch_process now uuid mahber actor (again r) s).0
        ≡ ok (record { approved = 2; rejected = 0; failed = [] }))
      × ((batch_process now uuid mahber actor (again r) s).1.memberships
          ≡ approved_membership now (uuid 1) mahber r.user_id
            ∷ approved_membership now (uuid 0) mahber r.user_id
            ∷ s.memberships)
unfolding batch_process process_items process_item
batch_process_twice now uuid mahber actor r s h e p = ground arith
