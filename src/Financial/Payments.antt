-- ===== src/Financial/Payments.antt =====
-- src/financial/payment.service.ts: what a member owes, and the lookups that its operations share.
-- The operations are in the modules below.
pub mod Initiate
pub mod Webhook
pub mod Retry
pub mod Amounts
pub mod Queries
use mathlib.Core.List.{reverse}
use mahber_connect_backend.Prelude.{
  ℕ, String, Bool, true, false, not, ◌&&◌, Option, none, some, List, [], ◌∷◌, map, leb, ◌==◌,
  if◌then◌else◌, or_default, is_some, sum_where, ℤ, ◌+ℤ◌, ltb_ℤ, pos, find, select, update_where,
  count,
}
use mahber_connect_backend.Db.{
  PaymentType, is_active, is_payment_required, payment_is_pending, is_missed_payment, Mahber,
  Membership, Payment, Fine, Db,
}
use mahber_connect_backend.Exec.{
  Exec, pure, gets, or_throw, ◌>>=◌, ◌>>◌, throw_if, modify, bad_request, not_found,
}
use mahber_connect_backend.Membership.Access.{membership_of}

abbrev pub mahber_has_id : ℕ → Mahber → Bool
mahber_has_id id o = o.id == id

abbrev pub payment_has_id : ℕ → Payment → Bool
payment_has_id id p = p.id == id

-- `getMembershipContext`: the organization is looked for first.
unfoldable pub get_membership_context : ℕ → ℕ → Exec (Membership × Mahber)
get_membership_context mahber member = do
  membership ← gets (membership_of mahber member)
  o ← or_throw (← gets (λ s. find (mahber_has_id mahber) s.mahbers)) (not_found "Mahber not found")
  m ← or_throw membership (not_found "Membership not found")
  pure (m, o)

-- `getPendingPayments`, the newest first.
abbrev pub is_pending_of : ℕ → ℕ → Payment → Bool
is_pending_of mahber member p =
    (p.mahber_id == mahber) && (p.member_id == member) && payment_is_pending p.status

unfoldable pub get_pending_payments : ℕ → ℕ → Db → List Payment
get_pending_payments mahber member s = select (is_pending_of mahber member) s.payments

-- Neither waived nor paid.
abbrev pub is_outstanding : ℕ → ℕ → Fine → Bool
is_outstanding mahber member f =
    (f.mahber_id == mahber) && (f.member_id == member) && not f.is_waived && not (is_some f.paid_at)

-- The oldest first.
unfoldable pub outstanding_fines : ℕ → ℕ → Db → List Fine
outstanding_fines mahber member s = reverse (select (is_outstanding mahber member) s.fines)

abbrev pub owed : Fine → ℤ
owed f = f.amount

abbrev pub fine_total : List Fine → ℤ
fine_total fines = sum_where (λ _. true) owed fines

abbrev pub contribution_amount : Mahber → ℤ
contribution_amount o = or_default o.configuration.contribution_amount (pos 0)

abbrev pub join_fee_amount : Mahber → ℤ
join_fee_amount o = or_default o.configuration.join_fee_amount (pos 0)

abbrev pub join_fee_required : Mahber → Bool
join_fee_required o = or_default o.configuration.join_fee_required false

-- `contributionDue`
unfoldable pub contribution_is_due : ℕ → Membership → Mahber → Bool
contribution_is_due now m o =
    is_active m.status
    && ltb_ℤ (pos 0) (contribution_amount o)
    && elim m.next_payment_due [ none ↦ false | some due ↦ leb due now ]

-- `joinFeeDue` of `initiatePayment`
unfoldable pub join_fee_is_due : Membership → Mahber → Bool
join_fee_is_due m o =
    is_payment_required m.status && join_fee_required o && ltb_ℤ (pos 0) (join_fee_amount o)

pub record OutstandingFine : Type 0 where
  pub id : ℕ
  pub amount : ℤ
  pub reason : String
  pub issued_at : ℕ

pub record Obligations : Type 0 where
  pub contribution_due : Option ℤ
  pub contribution_due_date : Option ℕ
  pub pending_fines : List OutstandingFine
  pub total_outstanding : ℤ
  pub has_pending_payment : Bool
  pub pending_payment_id : Option ℕ
  pub pending_payment_amount : Option ℤ
  pub pending_payment_type : Option PaymentType

abbrev pub outstanding_fine : Fine → OutstandingFine
outstanding_fine f = record {
  id = f.id;
  amount = f.amount;
  reason = if is_missed_payment f.violation_type then "Missed payment" else "Missed attendance";
  issued_at = f.created_at;
}

abbrev when {ℓ} : {A : Type ℓ} → Bool → Option A → Option A
when true o = o
when false o = none

abbrev latest : List Payment → Option Payment
latest [] = none
latest (p ∷ ps) = some p

abbrev on {ℓ κ} : {A : Type ℓ} {B : Type κ} → Option A → (A → B) → Option B
on none f = none
on (some a) f = some (f a)

abbrev pub fines_amount : OutstandingFine → ℤ
fines_amount f = f.amount

unfoldable pub build_outstanding_obligations :
    ℕ → Membership → Mahber → List Payment → List Fine → Obligations
unfolding contribution_is_due
build_outstanding_obligations now m o pending fines =
    let due = contribution_is_due now m o in
    let pending_fines = map outstanding_fine fines in
    record {
      contribution_due = when due (some (contribution_amount o));
      contribution_due_date = when due m.next_payment_due;
      pending_fines = pending_fines;
      total_outstanding =
          (if due then contribution_amount o else pos 0)
          +ℤ (if is_payment_required m.status && join_fee_required o
              then join_fee_amount o
              else pos 0)
          +ℤ sum_where (λ _. true) fines_amount pending_fines;
      has_pending_payment = is_some (latest pending);
      pending_payment_id = on (latest pending) (λ p. p.id);
      pending_payment_amount = on (latest pending) (λ p. p.amount);
      pending_payment_type = on (latest pending) (λ p. p.payment_type);
    }

unfoldable pub get_outstanding_obligations : ℕ → ℕ → ℕ → Exec Obligations
unfolding get_membership_context outstanding_fines get_pending_payments
    build_outstanding_obligations
get_outstanding_obligations now mahber member = do
  context ← get_membership_context mahber member
  fines ← gets (outstanding_fines mahber member)
  pending ← gets (get_pending_payments mahber member)
  pure (build_outstanding_obligations now context.0 context.1 pending fines)

-- `initiatePaymentRound`: every Active member is due at `due`, which is now if the request names
-- no date.
unfoldable pub initiate_payment_round : ℕ → ℕ → ℕ → Option ℕ → Exec (ℕ × ℕ)
initiate_payment_round now mahber executed_by due_date = do
  let due = or_default due_date now
  active_count ←
      gets (λ s. count (λ m. (m.mahber_id == mahber) && is_active m.status) s.memberships)
  throw_if (active_count == 0) (bad_request "No active members to initiate a payment round")
  modify (λ s. record s {
    memberships =
        update_where (λ m. (m.mahber_id == mahber) && is_active m.status)
          (λ m. record m { next_payment_due = some due }) s.memberships;
    audit_trail =
        (record {
          mahber_id = mahber;
          entity_type = "payment";
          entity_id = mahber;
          action = "payment_round_initiated";
          actor_id = some executed_by;
        })
        ∷ s.audit_trail;
  })
  pure (active_count, due)
