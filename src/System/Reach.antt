-- ===== src/System/Reach.antt =====
-- Every database that the calls can reach from the empty one, in any order and with any input.
use mahber_connect_backend.Prelude.{arith, count}
use mahber_connect_backend.Db.{Db, empty_db}
use mahber_connect_backend.System.Guarded.{guarded, IsIntact}
use mahber_connect_backend.System.Money.{MoneyStep, MoneyStep-IsIntact}
use mahber_connect_backend.System.Gatherings.{EventStep, EventStep-IsIntact}
use mahber_connect_backend.System.Talk.{TalkStep, TalkStep-IsIntact}
use mahber_connect_backend.System.Accounts.{AccountStep, AccountStep-IsIntact}
use mahber_connect_backend.System.Members.{MemberStep, MemberStep-IsIntact}

-- One call of any of the services.
pub data Step (s t : Db) : Type 0 where
  money : MoneyStep s t → Step s t
  gathering : EventStep s t → Step s t
  talk : TalkStep s t → Step s t
  account : AccountStep s t → Step s t
  member : MemberStep s t → Step s t

-- What is reached by a sequence of calls, errors included.
pub data Reach : Db → Type 0 where
  start : Reach empty_db
  next : {s t : Db} → Reach s → Step s t → Reach t

pub Step-IsIntact : {s t : Db} → Step s t → IsIntact (guarded s) → IsIntact (guarded t)
Step-IsIntact (money m) = MoneyStep-IsIntact m
Step-IsIntact (gathering g) = EventStep-IsIntact g
Step-IsIntact (talk k) = TalkStep-IsIntact k
Step-IsIntact (account a) = AccountStep-IsIntact a
Step-IsIntact (member m) = MemberStep-IsIntact m

empty-IsIntact : IsIntact (guarded empty_db)
unfolding count
empty-IsIntact = record {
  phones = λ phone. omega arith;
  request_keys = tt;
  one_open = λ mahber user. omega arith;
  books = tt;
  invitations = λ k l. omega arith;
  check_ins = λ k l. omega arith;
  ballots = λ k l. omega arith;
  quotas = λ mahber. ground arith;
  reads = λ k l. omega arith;
  receipts = λ k l. omega arith;
  devices = λ token. omega arith;
}

-- In every database that a sequence of the calls of `Step` reaches from the empty one, in any order,
-- with any input and whether they return or throw, a phone has one user, a user has one Pending or
-- Approved request to an organization, a running balance differs from the sum of the member's amounts
-- up to it by at most one cent for each fine, draw and payout among them, an event
-- has one invitation and one check-in of a member, a poll has one vote of a member, an organization's
-- photos keep to the quota, an announcement and a message are marked as read by a member once, and a
-- device has one owner. The id of a new join request is fresh.
pub Reach-IsIntact : (s : Db) → Reach s → IsIntact (guarded s)
Reach-IsIntact _ start = empty-IsIntact
Reach-IsIntact _ (next r step) = Step-IsIntact step (Reach-IsIntact _ r)
