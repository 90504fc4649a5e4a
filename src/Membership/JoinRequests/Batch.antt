-- ===== src/Membership/JoinRequests/Batch.antt =====
-- `JoinRequestService.batchProcess`.
pub mod Laws
use mahber_connect_backend.Prelude.{
  ℕ, ◌+◌, String, not, ◌&&◌, Option, none, some, List, [], ◌∷◌, ◌++◌, map, ◌==◌, if◌then◌else◌,
  find, select, includes,
}
use mahber_connect_backend.Db.{request_is_pending, JoinRequest, Db}
use mahber_connect_backend.Exec.{Exec, gets, ◌>>=◌, ◌>>◌, ok}
use mahber_connect_backend.Membership.Access.{assert_permission}
use mahber_connect_backend.Membership.JoinRequests.{
  approve, reject, approved_membership, request_has_id, add_membership, set_request, Action,
  resolved, resolve,
}

-- An item of BatchProcessJoinRequestDto.
pub record BatchItem : Type 0 where
  pub request_id : ℕ
  pub action : Action
  pub rejection_reason : Option String

pub data Failure : Type 0 where
  not_there not_pending : Failure

pub record BatchResults : Type 0 where
  pub approved : ℕ
  pub rejected : ℕ
  pub failed : List (ℕ × Failure)

abbrev pub no_results : BatchResults
no_results = record { approved = 0; rejected = 0; failed = [] }

abbrev pub fail : ℕ → Failure → BatchResults → BatchResults
fail id why acc = record acc { failed = acc.failed ++ ((id, why) ∷ []) }

-- The requests that were read before the loop: `requestMap`.
unfoldable pub existing_requests : ℕ → List BatchItem → Db → List JoinRequest
existing_requests mahber items s =
    select (λ r. includes r.id (map (λ i. i.request_id) items) && (r.mahber_id == mahber))
      s.join_requests

-- The body of the loop on the entry of `requestMap`. `uuid` gives the id of the n-th membership
-- that the batch creates.
unfoldable pub process_found :
    ℕ → (ℕ → ℕ) → ℕ → BatchItem → JoinRequest → BatchResults → Db → BatchResults × Db
unfolding resolve
process_found now uuid mahber item r acc s =
    if not (request_is_pending r.status)
    then (fail item.request_id not_pending acc, s)
    else elim item.action [
      | reject ↦ (
        record acc { rejected = acc.rejected + 1 },
        (set_request item.request_id (resolved reject item.rejection_reason) s).1,
      )
      | approve ↦ (
        record acc { approved = acc.approved + 1 },
        (add_membership (approved_membership now (uuid acc.approved) mahber r.user_id)
            (set_request item.request_id (resolved approve item.rejection_reason) s).1).1,
      )
    ]

unfoldable pub process_item :
    ℕ → (ℕ → ℕ) → ℕ → List JoinRequest → BatchItem → BatchResults → Db → BatchResults × Db
unfolding process_found
process_item now uuid mahber known item acc s = elim (find (request_has_id item.request_id) known) [
  | none ↦ (fail item.request_id not_there acc, s)
  | some r ↦ process_found now uuid mahber item r acc s
]

unfoldable pub process_items :
    ℕ → (ℕ → ℕ) → ℕ → List JoinRequest → List BatchItem → BatchResults → Db → BatchResults × Db
process_items now uuid mahber known [] acc s = (acc, s)
process_items now uuid mahber known (item ∷ items) acc s =
    let (acc', s') = process_item now uuid mahber known item acc s in
    process_items now uuid mahber known items acc' s'

unfoldable pub batch_process : ℕ → (ℕ → ℕ) → ℕ → ℕ → List BatchItem → Exec BatchResults
unfolding assert_permission
batch_process now uuid mahber actor items = do
  assert_permission "manage_members" mahber actor
  known ← gets (existing_requests mahber items)
  λ s. let (acc, s') = process_items now uuid mahber known items no_results s in (ok acc, s')
