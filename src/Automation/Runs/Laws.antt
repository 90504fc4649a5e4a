-- ===== src/Automation/Runs/Laws.antt =====
-- Theorems on the jobs that call a service.
use mahber_connect_backend.Prelude.{ℕ, ◌≡◌, refl, true, none, some, List, [], ◌∷◌, arith, find}
use mahber_connect_backend.Db.{MembershipStatus, Membership, Db}
use mahber_connect_backend.Membership.Member.{
  Reinstated, is_expired_suspension, check_and_reinstate_expired_suspensions,
}
use mahber_connect_backend.Membership.StateMachine.{has_id}
use mahber_connect_backend.Membership.Member.Laws.{check_and_reinstate_expired}
use mahber_connect_backend.Communication.Notifications.{send_to_user}
use mahber_connect_backend.Automation.Runs.{notify_one, notify_reinstated, process_suspensions}

notify_one-memberships :
    (ids : ℕ → ℕ) (r : Reinstated) (s : Db) → (notify_one ids r s).memberships ≡ s.memberships
unfolding notify_one send_to_user
notify_one-memberships ids r s = ground arith

notify_reinstated-memberships :
    (ids : ℕ → ℕ) (rs : List Reinstated) (s : Db)
    → (notify_reinstated ids rs s).memberships ≡ s.memberships
unfolding notify_reinstated
notify_reinstated-memberships ids [] s = refl
notify_reinstated-memberships ids (r ∷ rs) s = ground (
  arith,
  notify_reinstated-memberships ids rs s,
  notify_reinstated-memberships ids rs (notify_one ids r s),
  notify_one-memberships ids r s,
)

-- After a run of the job, a membership that its id finds and whose suspension had run out is Active
-- and has no end date left.
pub process_suspensions-active :
    (ids : ℕ → ℕ) (now id : ℕ) (s : Db) (m : Membership)
    → find (has_id id) s.memberships ≡ some m
    → is_expired_suspension now m ≡ true
    → (m' : Membership) × (find (has_id id) (process_suspensions ids now s).memberships ≡ some m')
      × (m'.status ≡ MembershipStatus.active)
      × (m'.suspended_until ≡ none)
unfolding process_suspensions
process_suspensions-active ids now id s m there expired =
    let run = check_and_reinstate_expired_suspensions now s in
    let (m', found, is_now, free) = check_and_reinstate_expired now id s m there expired in
    (m', rw (notify_reinstated-memberships ids run.0 run.1) found, is_now, free)
