-- ===== src/Financial/Payments/Initiate.antt =====
-- `PaymentService.initiatePayment`.
pub mod Laws
use mahber_connect_backend.Prelude.{
  ℕ, ◌+◌, ◌*◌, String, Bool, true, not, ◌&&◌, ◌||◌, Option, none, some, List, [], ◌∷◌, map, ◌==◌,
  if◌then◌else◌, or_else, ℤ, ◌+ℤ◌, leb_ℤ, pos, length, select, update_where, any, includes,
}
use mahber_connect_backend.Db.{
  MembershipStatus, PaymentStatus, PaymentType, is_active, is_payment_required, is_contribution,
  is_join_fee, Mahber, Membership, Payment, Fine,
}
use mahber_connect_backend.Exec.{
  Result, Exec, pure, gets, ◌>>=◌, ◌>>◌, throw_if, modify, bad_request, ok, err,
}
use mahber_connect_backend.Dates.{Calendar, add_frequency}
use mahber_connect_backend.Financial.Payments.{
  payment_has_id, get_membership_context, get_pending_payments, outstanding_fines, fine_total,
  contribution_amount, join_fee_amount, contribution_is_due, join_fee_is_due,
}

-- What the method takes from outside: the clock, the id and the reference of the new payment, the
-- calendar of the runtime, and the answer of `chapa.initializePayment` to a payment.
pub record Outside : Type 0 where
  pub now : ℕ
  pub id : ℕ
  pub tx_ref : ℕ
  pub calendar : Calendar
  pub initialize : Payment → Result String

-- `filter((fineId, index, self) => self.indexOf(fineId) === index)`
unfoldable pub dedupe : List ℕ → List ℕ → List ℕ
dedupe seen [] = []
dedupe seen (x ∷ xs) = let rest = dedupe (x ∷ seen) xs in if includes x seen then rest else x ∷ rest

abbrev pub fine_id : Fine → ℕ
fine_id f = f.id

-- `dto.fine_ids && dto.fine_ids.length > 0 ? dto.fine_ids : all outstanding`
abbrev wanted_fines : Option (List ℕ) → List Fine → List ℕ
wanted_fines none fines = map fine_id fines
wanted_fines (some []) fines = map fine_id fines
wanted_fines (some (x ∷ xs)) fines = x ∷ xs

unfoldable pub select_fines : Option (List ℕ) → List Fine → Result (List Fine)
unfolding dedupe
select_fines ids fines =
    let wanted = dedupe [] (wanted_fines ids fines) in
    let selected = select (λ f. includes f.id wanted) fines in
    if length selected == length wanted
    then ok selected
    else err (bad_request "One or more fines are invalid or already resolved")

abbrev some_fine : List ℕ → List Fine → Bool
some_fine ids fines = any (λ id. any (λ f. f.id == id) fines) ids

-- The dates and tests that the loop over the pending payments uses.
pub record Plan : Type 0 where
  pub contribution_due : Bool
  pub join_fee_due : Bool
  pub contribution_cycle_end : Option ℕ
  pub selected : List Fine

abbrev same_end : Option ℕ → Option ℕ → Bool
same_end none end = true
same_end (some a) none = true
same_end (some a) (some b) = a == b

-- `sameCycleContribution || sameJoinFee || sameFines`
unfoldable pub overlaps : Plan → Payment → Bool
overlaps plan p =
    (plan.contribution_due
      && is_contribution p.payment_type
      && same_end plan.contribution_cycle_end p.period_end)
    || (plan.join_fee_due && is_join_fee p.payment_type)
    || some_fine p.fine_ids plan.selected

abbrev pub expired : Payment → Payment
expired p = record p { status = PaymentStatus.expired }

-- The loop: each overlapping payment that was pending is expired by its id.
unfoldable pub expire_overlapping : Plan → List Payment → List Payment → List Payment
unfolding overlaps
expire_overlapping plan [] payments = payments
expire_overlapping plan (p ∷ pending) payments =
    expire_overlapping plan pending
      (if overlaps plan p then update_where (payment_has_id p.id) expired payments else payments)

abbrev pub minutes_30 : ℕ
minutes_30 = 30 * 60 * 1000

abbrev may_pay : MembershipStatus → Bool
may_pay status = is_active status || is_payment_required status

abbrev pub amount_due : Plan → Mahber → ℤ
amount_due plan o =
    (if plan.contribution_due then contribution_amount o else pos 0)
    +ℤ (if plan.join_fee_due then join_fee_amount o else pos 0)
    +ℤ fine_total plan.selected

abbrev pub cycle_end : Outside → Mahber → Option ℕ → Option ℕ
cycle_end x o none = none
cycle_end x o (some due) = some (add_frequency x.calendar due o.configuration.payment_frequency)

unfoldable pub plan_of : Outside → Membership → Mahber → List Fine → Plan
unfolding contribution_is_due join_fee_is_due add_frequency
plan_of x m o selected = record {
  contribution_due = contribution_is_due x.now m o;
  join_fee_due = join_fee_is_due m o;
  contribution_cycle_end = cycle_end x o m.next_payment_due;
  selected = selected;
}

unfoldable pub new_payment : Outside → ℕ → ℕ → Membership → Mahber → Plan → Payment
unfolding add_frequency
new_payment x mahber member m o plan = record {
  id = x.id;
  mahber_id = mahber;
  member_id = member;
  amount = amount_due plan o;
  payment_type =
      if plan.contribution_due
      then PaymentType.contribution
      else if plan.join_fee_due
      then PaymentType.join_fee
      else PaymentType.contribution;
  status = PaymentStatus.pending;
  tx_ref = x.tx_ref;
  chapa_reference = none;
  checkout_url = none;
  fine_ids = map fine_id plan.selected;
  period_start = or_else m.next_payment_due (if plan.join_fee_due then some x.now else none);
  period_end =
      or_else plan.contribution_cycle_end
        (if plan.join_fee_due then cycle_end x o (some x.now) else none);
  expires_at = some (x.now + minutes_30);
  completed_at = none;
  created_at = x.now;
}

unfoldable pub initiate_payment : Outside → ℕ → ℕ → Option (List ℕ) → Exec (String × ℕ)
unfolding get_membership_context get_pending_payments expire_overlapping plan_of new_payment
initiate_payment x mahber member fine_ids = do
  context ← get_membership_context mahber member
  throw_if (not (may_pay context.0.status))
      (bad_request "Only active members can initiate payments")
  fines ← gets (outstanding_fines mahber member)
  selected ← λ s. (select_fines fine_ids fines, s)
  let plan = plan_of x context.0 context.1 selected
  modify (λ s. record s {
    payments = expire_overlapping plan (get_pending_payments mahber member s) s.payments;
  })
  throw_if (leb_ℤ (amount_due plan context.1) (pos 0))
      (bad_request "You have no outstanding payments at this time.")
  let payment = new_payment x mahber member context.0 context.1 plan
  modify (λ s. record s { payments = payment ∷ s.payments })
  url ← λ s. (x.initialize payment, s)
  modify (λ s. record s {
    payments =
        update_where (payment_has_id x.id) (λ p. record p { checkout_url = some url }) s.payments;
    audit_trail =
        (record {
          mahber_id = mahber;
          entity_type = "payment";
          entity_id = x.id;
          action = "payment_initiated";
          actor_id = some member;
        })
        ∷ s.audit_trail;
  })
  pure (url, x.tx_ref)
