-- ===== src/Financial/Joining.antt =====
-- src/financial/mahber-finance.controller.ts: joining an organization without a request, and the
-- wallet. The provider's page is a parameter; the user's names go to the provider only.
pub mod Laws
use mahber_connect_backend.Prelude.{
  ℕ, String, Bool, true, false, not, ◌&&◌, Option, none, some, List, ◌∷◌, ◌==◌, if◌then◌else◌,
  or_default, is_some, sum_where, paged, ℤ, ltb_ℤ, pos, find, select, update_where,
}
use mahber_connect_backend.Db.{
  MembershipStatus, is_active, Configuration, Mahber, Membership, PendingStatus, PendingPayment,
  LedgerEntry, Db,
}
use mahber_connect_backend.Exec.{
  Error, Result, Exec, pure, throw, gets, or_throw, ◌>>=◌, ◌>>◌, modify, bad_request, forbidden,
  not_found, prisma_error,
}
use mahber_connect_backend.Dates.{parse_frequency, get_next_payment_due_date, Calendar}
use mahber_connect_backend.Membership.Access.{membership_of}
use mahber_connect_backend.Membership.JoinRequests.{member_role}

-- The new rows' ids, the clock, the runtime's calendar and the answer of `chapa.initializePayment`.
pub record Outside : Type 0 where
  pub now : ℕ
  pub pending_id : ℕ
  pub membership_id : ℕ
  pub calendar : Calendar
  pub initialize : PendingPayment → Result String

pub data Joined : Type 0 where
  payment_required : ℤ → String → ℕ → Joined
  joined : Joined

abbrev is_banned : MembershipStatus → Bool
is_banned MembershipStatus.banned = true
is_banned _ = false

-- The checks on a membership that is there or not.
unfoldable pub join_error : Mahber → Option Membership → Option Error
join_error o none =
    if o.is_public
    then none
    else some
        (forbidden "This is a private Mahber. You must be invited or approved by an admin first.")
join_error o (some m) =
    if is_active m.status
    then some (bad_request "You are already an active member of this Mahber.")
    else if is_banned m.status
    then some (forbidden "You have been banned from this Mahber.")
    else none

abbrev refuse : Option Error → Exec (Unit {0})
refuse none = pure tt
refuse (some e) = throw e

abbrev pub new_member : ℕ → ℕ → ℕ → MembershipStatus → Option ℕ → Option ℕ → Membership
new_member id mahber user status since due = record {
  id = id;
  mahber_id = mahber;
  member_id = user;
  status = status;
  role = member_role;
  has_won_current_cycle = false;
  approval_date = none;
  activation_date = since;
  joined_at = since;
  next_payment_due = due;
  suspended_until = none;
  suspension_reason = none;
}

-- The fee, if one is required and positive.
unfoldable pub join_fee : Configuration → Option ℤ
join_fee c =
    let amount = or_default c.join_fee_amount (pos 0) in
    if or_default c.join_fee_required false && ltb_ℤ (pos 0) amount then some amount else none

unfoldable pub due_after : Outside → Configuration → ℕ → ℕ
unfolding get_next_payment_due_date parse_frequency
due_after x c from = x.calendar.timestamp (
    get_next_payment_due_date (x.calendar.fields from) (parse_frequency c.payment_frequency)
      c.payment_day)

abbrev pub new_pending : ℕ → ℕ → ℕ → ℤ → PendingPayment
new_pending id mahber user amount = record {
  id = id;
  mahber_id = mahber;
  member_id = user;
  amount = amount;
  status = PendingStatus.pending;
}

-- The branch of a join fee.
unfoldable pub join_with_fee : Outside → ℕ → ℕ → Option Membership → ℤ → Exec Joined
join_with_fee x mahber user membership amount = do
  let pending = new_pending x.pending_id mahber user amount
  modify (λ s. record s { pending_payments = pending ∷ s.pending_payments })
  _ ← or_throw (← gets (λ s. find (λ u. u.id == user) s.users)) (prisma_error "P2025")
  url ← λ s. (x.initialize pending, s)
  modify (λ s. record s {
    memberships =
        if is_some membership
        then s.memberships
        else new_member x.membership_id mahber user MembershipStatus.payment_required none none
          ∷ s.memberships;
  })
  pure (payment_required amount url x.pending_id)

abbrev pub joined_now : ℕ → ℕ → Membership → Membership
joined_now now due m = record m {
  status = MembershipStatus.active;
  joined_at = some now;
  activation_date = some now;
  next_payment_due = some due;
}

-- The memberships after joining without a fee.
unfoldable pub store_member :
    Outside → ℕ → ℕ → ℕ → Option Membership → List Membership → List Membership
store_member x mahber user due none rows =
    new_member x.membership_id mahber user MembershipStatus.active (some x.now) (some due) ∷ rows
store_member x mahber user due (some m) rows =
    update_where (λ r. r.id == m.id) (joined_now x.now due) rows

unfoldable pub join_mahber : Outside → ℕ → ℕ → Exec Joined
unfolding join_error join_fee due_after join_with_fee store_member
join_mahber x mahber user = do
  o ← or_throw (← gets (λ s. find (λ o. o.id == mahber) s.mahbers)) (not_found "Mahber not found")
  membership ← gets (membership_of mahber user)
  refuse (join_error o membership)
  elim (join_fee o.configuration) [
    | some amount ↦ join_with_fee x mahber user membership amount
    | none ↦
        modify (λ s. record s {
          memberships =
              store_member x mahber user (due_after x o.configuration x.now) membership
                s.memberships;
        })
        >> pure joined
  ]

pub record Wallet : Type 0 where
  pub entries : List LedgerEntry
  pub balance : ℤ

abbrev in_wallet : ℕ → Option ℕ → LedgerEntry → Bool
in_wallet mahber member e =
    (e.mahber_id == mahber) && elim member [ none ↦ true | some m ↦ e.member_id == m ]

-- `getWallet`: a page of the entries, and the sum of all of them
unfoldable pub get_wallet : ℕ → Option ℕ → ℕ → ℕ → Db → Wallet
get_wallet mahber member page limit s = record {
  entries = (paged page limit (select (in_wallet mahber member) s.ledger)).rows;
  balance = sum_where (in_wallet mahber member) (λ e. e.amount) s.ledger;
}
