-- ===== src/System/Members.antt =====
-- The calls of src/membership that change the database.
use mahber_connect_backend.Prelude.{ap, ℕ, String, ◌≡◌, Option, arith, IsFresh}
use mahber_connect_backend.Db.{MembershipStatus, Db}
use mahber_connect_backend.System.Guarded.{
  guarded, IsIntact, same-IsIntact, join_requests-IsIntact, requests-IsSound,
}
use mahber_connect_backend.Membership.Mahbers.{
  CreateMahber, UpdateMahber, create as found_mahber, update,
}
use mahber_connect_backend.Membership.JoinRequests.{
  create, Action, resolve, process_request, invite, respond_to_invitation, expire_requests,
}
use mahber_connect_backend.Membership.JoinRequests.Invariant.{
  process_request-IsSound, respond_to_invitation-IsSound, create-IsSound, invite-IsSound,
  expire_requests-IsSound,
}
use mahber_connect_backend.Membership.StateMachine.{ExtraData, transition_state}
use mahber_connect_backend.Membership.Member.{SuspendMember, suspend, reinstate, unban}
use mahber_connect_backend.Membership.Roles.{AssignRole, assign_role}

module _ (s : Db) where
  ask-frame :
      (now : ℕ) (id : ℕ) (mahber : ℕ) (user : ℕ) (code : Option String)
      → guarded ((create now id mahber user code s).1) ≡ record (guarded s) {
        join_requests = ((create now id mahber user code s).1).join_requests;
      }
  unfolding create
  ask-frame now id mahber user code = ground arith

  process-frame :
      (now : ℕ) (id : ℕ) (mahber : ℕ) (request : ℕ) (actor : ℕ) (action : Action)
      (reason : Option String)
      → guarded ((process_request now id mahber request actor action reason s).1)
        ≡ record (guarded s) {
          join_requests =
              ((process_request now id mahber request actor action reason s).1).join_requests;
        }
  unfolding process_request resolve
  process-frame now id mahber request actor action reason = ground arith

  invite_user-frame :
      (now : ℕ) (id : ℕ) (mahber : ℕ) (admin : ℕ) (phone : String)
      → guarded ((invite now id mahber admin phone s).1) ≡ record (guarded s) {
        join_requests = ((invite now id mahber admin phone s).1).join_requests;
      }
  unfolding invite
  invite_user-frame now id mahber admin phone = ground arith

  answer-frame :
      (now : ℕ) (id : ℕ) (request : ℕ) (user : ℕ) (action : Action)
      → guarded ((respond_to_invitation now id request user action s).1) ≡ record (guarded s) {
        join_requests = ((respond_to_invitation now id request user action s).1).join_requests;
      }
  unfolding respond_to_invitation resolve
  answer-frame now id request user action = ground arith

  expire-frame :
      (now : ℕ)
      → guarded (expire_requests now s)
        ≡ record (guarded s) { join_requests = (expire_requests now s).join_requests }
  unfolding expire_requests
  expire-frame now = ground arith

  move-frame :
      (now : ℕ) (id : ℕ) (to : MembershipStatus) (actor : Option ℕ) (extra : ExtraData)
      → guarded ((transition_state now id to actor extra s).1) ≡ guarded s
  unfolding transition_state
  move-frame now id to actor extra = ground arith

  suspend_member-frame :
      (now : ℕ) (mahber : ℕ) (member : ℕ) (actor : ℕ) (dto : SuspendMember)
      → guarded ((suspend now mahber member actor dto s).1) ≡ guarded s
  unfolding suspend transition_state
  suspend_member-frame now mahber member actor dto = ground arith

  reinstate_member-frame :
      (now : ℕ) (mahber : ℕ) (member : ℕ) (actor : ℕ)
      → guarded ((reinstate now mahber member actor s).1) ≡ guarded s
  unfolding reinstate transition_state
  reinstate_member-frame now mahber member actor = ground arith

  unban_member-frame :
      (now : ℕ) (mahber : ℕ) (member : ℕ) (actor : ℕ)
      → guarded ((unban now mahber member actor s).1) ≡ guarded s
  unfolding unban transition_state
  unban_member-frame now mahber member actor = ground arith

  assign-frame :
      (mahber : ℕ) (member : ℕ) (actor : ℕ) (dto : AssignRole)
      → guarded ((assign_role mahber member actor dto s).1) ≡ guarded s
  unfolding assign_role
  assign-frame mahber member actor dto = ground arith

  found-frame :
      (now id membership user : ℕ) (dto : CreateMahber)
      → guarded (found_mahber now id membership user dto s).1 ≡ guarded s
  unfolding found_mahber
  found-frame now id membership user dto = ground arith

  change-frame :
      (mahber user : ℕ) (dto : UpdateMahber) → guarded (update mahber user dto s).1 ≡ guarded s
  unfolding update
  change-frame mahber user dto = ground arith

-- A call about memberships and requests, the ids of new requests being new, and the database that it leaves.
pub data MemberStep (s : Db) : Db → Type 0 where
  found :
      (now id membership user : ℕ) (dto : CreateMahber)
      → MemberStep s (found_mahber now id membership user dto s).1
  change : (mahber user : ℕ) (dto : UpdateMahber) → MemberStep s (update mahber user dto s).1
  ask :
      (now : ℕ) (id : ℕ) (mahber : ℕ) (user : ℕ) (code : Option String)
      → IsFresh (λ r. r.id) id s.join_requests
      → MemberStep s ((create now id mahber user code s).1)
  process :
      (now : ℕ) (id : ℕ) (mahber : ℕ) (request : ℕ) (actor : ℕ) (action : Action)
      (reason : Option String)
      → MemberStep s ((process_request now id mahber request actor action reason s).1)
  invite_user :
      (now : ℕ) (id : ℕ) (mahber : ℕ) (admin : ℕ) (phone : String)
      → IsFresh (λ r. r.id) id s.join_requests
      → MemberStep s ((invite now id mahber admin phone s).1)
  answer :
      (now : ℕ) (id : ℕ) (request : ℕ) (user : ℕ) (action : Action)
      → MemberStep s ((respond_to_invitation now id request user action s).1)
  expire : (now : ℕ) → MemberStep s (expire_requests now s)
  move :
      (now : ℕ) (id : ℕ) (to : MembershipStatus) (actor : Option ℕ) (extra : ExtraData)
      → MemberStep s ((transition_state now id to actor extra s).1)
  suspend_member :
      (now : ℕ) (mahber : ℕ) (member : ℕ) (actor : ℕ) (dto : SuspendMember)
      → MemberStep s ((suspend now mahber member actor dto s).1)
  reinstate_member :
      (now : ℕ) (mahber : ℕ) (member : ℕ) (actor : ℕ)
      → MemberStep s ((reinstate now mahber member actor s).1)
  unban_member :
      (now : ℕ) (mahber : ℕ) (member : ℕ) (actor : ℕ)
      → MemberStep s ((unban now mahber member actor s).1)
  assign :
      (mahber : ℕ) (member : ℕ) (actor : ℕ) (dto : AssignRole)
      → MemberStep s ((assign_role mahber member actor dto s).1)

-- Each keeps the invariants.
pub MemberStep-IsIntact : {s t : Db} → MemberStep s t → IsIntact (guarded s) → IsIntact (guarded t)
MemberStep-IsIntact {s = s} {t = t} (ask now id mahber user code fresh) h =
    join_requests-IsIntact s h t (ask-frame s now id mahber user code)
      (create-IsSound now id mahber s fresh user code (requests-IsSound s h))
MemberStep-IsIntact {s = s} {t = t} (process now id mahber request actor action reason) h =
    join_requests-IsIntact s h t (process-frame s now id mahber request actor action reason)
      (process_request-IsSound now id action s mahber request actor reason (requests-IsSound s h))
MemberStep-IsIntact {s = s} {t = t} (invite_user now id mahber admin phone fresh) h =
    join_requests-IsIntact s h t (invite_user-frame s now id mahber admin phone)
      (invite-IsSound now id mahber s fresh admin phone (requests-IsSound s h))
MemberStep-IsIntact {s = s} {t = t} (answer now id request user action) h =
    join_requests-IsIntact s h t (answer-frame s now id request user action)
      (respond_to_invitation-IsSound now id action s request user (requests-IsSound s h))
MemberStep-IsIntact {s = s} {t = t} (expire now) h =
    join_requests-IsIntact s h t (expire-frame s now)
      (expire_requests-IsSound now s (requests-IsSound s h))
MemberStep-IsIntact {s = s} {t = t} (move now id to actor extra) h =
    same-IsIntact s h t (move-frame s now id to actor extra)
MemberStep-IsIntact {s = s} {t = t} (suspend_member now mahber member actor dto) h =
    same-IsIntact s h t (suspend_member-frame s now mahber member actor dto)
MemberStep-IsIntact {s = s} {t = t} (reinstate_member now mahber member actor) h =
    same-IsIntact s h t (reinstate_member-frame s now mahber member actor)
MemberStep-IsIntact {s = s} {t = t} (unban_member now mahber member actor) h =
    same-IsIntact s h t (unban_member-frame s now mahber member actor)
MemberStep-IsIntact {s = s} {t = t} (assign mahber member actor dto) h =
    same-IsIntact s h t (assign-frame s mahber member actor dto)
MemberStep-IsIntact {s = s} {t = t} (found now id membership user dto) h =
    same-IsIntact s h t (found-frame s now id membership user dto)
MemberStep-IsIntact {s = s} {t = t} (change mahber user dto) h =
    same-IsIntact s h t (change-frame s mahber user dto)

-- The ledger is left alone.
pub MemberStep-ledger : {s t : Db} → MemberStep s t → t.ledger ≡ s.ledger
MemberStep-ledger {s = s} (ask now id mahber user code fresh) =
    ap (λ g. g.ledger) (ask-frame s now id mahber user code)
MemberStep-ledger {s = s} (process now id mahber request actor action reason) =
    ap (λ g. g.ledger) (process-frame s now id mahber request actor action reason)
MemberStep-ledger {s = s} (invite_user now id mahber admin phone fresh) =
    ap (λ g. g.ledger) (invite_user-frame s now id mahber admin phone)
MemberStep-ledger {s = s} (answer now id request user action) =
    ap (λ g. g.ledger) (answer-frame s now id request user action)
MemberStep-ledger {s = s} (expire now) = ap (λ g. g.ledger) (expire-frame s now)
MemberStep-ledger {s = s} (move now id to actor extra) =
    ap (λ g. g.ledger) (move-frame s now id to actor extra)
MemberStep-ledger {s = s} (suspend_member now mahber member actor dto) =
    ap (λ g. g.ledger) (suspend_member-frame s now mahber member actor dto)
MemberStep-ledger {s = s} (reinstate_member now mahber member actor) =
    ap (λ g. g.ledger) (reinstate_member-frame s now mahber member actor)
MemberStep-ledger {s = s} (unban_member now mahber member actor) =
    ap (λ g. g.ledger) (unban_member-frame s now mahber member actor)
MemberStep-ledger {s = s} (assign mahber member actor dto) =
    ap (λ g. g.ledger) (assign-frame s mahber member actor dto)
MemberStep-ledger {s = s} (found now id membership user dto) =
    ap (λ g. g.ledger) (found-frame s now id membership user dto)
MemberStep-ledger {s = s} (change mahber user dto) =
    ap (λ g. g.ledger) (change-frame s mahber user dto)
