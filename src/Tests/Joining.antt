-- ===== src/Tests/Joining.antt =====
-- Tests of join requests and batches.
use mahber_connect_backend.Prelude.{
  false, any, pos, not, ◌&&◌, ◌==◌, ℕ, ◌+◌, ◌≤◌, ◌≡◌, refl, true, none, [], ◌∷◌, arith, find,
  select, count, includes,
}
use mahber_connect_backend.Db.{Db}
use mahber_connect_backend.Exec.{ok}
use mahber_connect_backend.Membership.Mahbers.{remove}
use mahber_connect_backend.Membership.Mahbers.Laws.{remove-ok}
use mahber_connect_backend.Financial.Ledger.{current_balance}
use mahber_connect_backend.Membership.Access.{includes_text, holds}
use mahber_connect_backend.Membership.JoinRequests.{approved_membership, is_open_of, create}
use mahber_connect_backend.Membership.JoinRequests.Invariant.{IsSound, create-IsSound}
use mahber_connect_backend.Membership.JoinRequests.Batch.{existing_requests, batch_process}
use mahber_connect_backend.Membership.JoinRequests.Batch.Laws.{again, batch_process_twice}
use mahber_connect_backend.Tests.Samples.{entry, chair, applied, db}

one_open_at : (m u : ℕ) → count (is_open_of m u) (applied ∷ []) ≤ 1
unfolding count
one_open_at m u = ground arith

db-IsSound : IsSound db
db-IsSound = record { keys = (tt, tt); one_open = one_open_at }

create-IsSound_example : IsSound (create 20 30 1 9 none db).1
create-IsSound_example = create-IsSound 20 30 1 db (refl, tt) 9 none db-IsSound

batch_process_twice_example :
    ((batch_process 20 (λ i. 30 + i) 1 1 (again applied) db).0
      ≡ ok (record { approved = 2; rejected = 0; failed = [] }))
    × ((batch_process 20 (λ i. 30 + i) 1 1 (again applied) db).1.memberships
        ≡ approved_membership 20 31 1 9 ∷ approved_membership 20 30 1 9 ∷ db.memberships)
unfolding find select includes existing_requests includes_text
batch_process_twice_example = batch_process_twice 20 (λ i. 30 + i) 1 1 applied db refl refl refl

abbrev alone : Db
alone = record db {
  memberships = chair ∷ [];
  ledger = entry ∷ record entry { mahber_id = 2; running_balance = pos 100 } ∷ [];
}

remove-ok_example :
    (holds "manage_members" 1 1 alone ≡ true)
    × (count (λ m. (m.mahber_id == 1) && not (m.member_id == 1)) alone.memberships ≡ 0)
    × (any (λ o. o.id == 1) (remove 1 1 alone).1.mahbers ≡ false)
    × (any (λ m. m.mahber_id == 1) (remove 1 1 alone).1.memberships ≡ false)
    × (any (λ e. e.mahber_id == 1) (remove 1 1 alone).1.ledger ≡ false)
    × (any (λ p. p.mahber_id == 1) (remove 1 1 alone).1.payments ≡ false)
    × (current_balance 2 (remove 1 1 alone).1 ≡ current_balance 2 alone)
unfolding remove find count includes_text
remove-ok_example = remove-ok 1 1 alone 2 refl refl
