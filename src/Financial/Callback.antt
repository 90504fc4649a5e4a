-- ===== src/Financial/Callback.antt =====
-- src/financial/payment-callback.controller.ts: the provider's message on a payment that
-- `joinMahber` has started. The check of the signature is a parameter.
pub mod Laws
use mahber_connect_backend.Prelude.{
  ℕ, String, Bool, true, false, not, Option, none, some, [], ◌∷◌, ◌==◌, if◌then◌else◌, or_default,
  or_else, find, update_where,
}
use mahber_connect_backend.Db.{
  MembershipStatus, PaymentStatus, PaymentType, TransactionType, is_payment_required, Configuration,
  Membership, Payment, PendingStatus, PendingPayment,
}
use mahber_connect_backend.Db.Decimals.{cents}
use mahber_connect_backend.Exec.{
  Exec, pure, gets, or_throw, ◌>>=◌, ◌>>◌, throw_if, modify, transaction, bad_request, not_found,
  prisma_error,
}
use mahber_connect_backend.Dates.{lower_is, parse_frequency, get_next_payment_due_date, Calendar}
use mahber_connect_backend.Membership.Access.{membership_of}
use mahber_connect_backend.Financial.Ledger.{LedgerData, create_ledger_entry}

-- What the method reads of the request.
pub record Message : Type 0 where
  pub signature : Option String
  pub tx_ref : Option ℕ
  pub status : Option String

pub data Answer : Type 0 where
  already_done : PendingStatus → Answer
  succeeded : Answer
  payment_expired payment_failed : Answer

abbrev pub is_waiting : PendingStatus → Bool
is_waiting PendingStatus.pending = true
is_waiting _ = false

abbrev pub pending_has_id : ℕ → PendingPayment → Bool
pending_has_id id p = p.id == id

abbrev pub with_status : PendingStatus → PendingPayment → PendingPayment
with_status status p = record p { status = status }

abbrev type_of : MembershipStatus → PaymentType
type_of status =
    if is_payment_required status then PaymentType.join_fee else PaymentType.contribution

abbrev pub paid_row : ℕ → ℕ → PendingPayment → MembershipStatus → Payment
paid_row now id p status = record {
  id = id;
  mahber_id = p.mahber_id;
  member_id = p.member_id;
  amount = p.amount;
  payment_type = type_of status;
  status = PaymentStatus.completed;
  tx_ref = p.id;
  chapa_reference = none;
  checkout_url = none;
  fine_ids = [];
  period_start = none;
  period_end = none;
  expires_at = none;
  completed_at = some now;
  created_at = now;
}

abbrev pub paid_entry : ℕ → PendingPayment → LedgerData
paid_entry id p = record {
  mahber_id = p.mahber_id;
  member_id = p.member_id;
  transaction_type = TransactionType.contribution;
  amount = cents p.amount;
  description = "payment via Chapa callback";
  payment_id = some id;
  fine_id = none;
  lottery_id = none;
  expense_id = none;
  payout_id = none;
}

abbrev pub membership_has_id : ℕ → Membership → Bool
membership_has_id id m = m.id == id

-- The membership after the payment; its next date is counted from the one that it has.
unfoldable pub paid_member : Calendar → ℕ → Configuration → Membership → Membership
unfolding get_next_payment_due_date parse_frequency
paid_member cal now c m = record m {
  status = MembershipStatus.active;
  joined_at = or_else m.joined_at (some now);
  activation_date = or_else m.activation_date (some now);
  next_payment_due = some (
      cal.timestamp (
        get_next_payment_due_date (cal.fields (or_default m.next_payment_due now))
          (parse_frequency c.payment_frequency) c.payment_day));
}

-- The transaction. `id` and `entry` are the ids of the payment and of its entry in the ledger.
unfoldable pub settle_pending : Calendar → ℕ → ℕ → ℕ → PendingPayment → Exec (Unit {0})
unfolding paid_member
settle_pending cal now id entry p = transaction do
  m ← or_throw (← gets (membership_of p.mahber_id p.member_id)) (prisma_error "P2025")
  modify (λ s. record s {
    pending_payments =
        update_where (pending_has_id p.id) (with_status PendingStatus.completed) s.pending_payments;
    payments = paid_row now id p m.status ∷ s.payments;
  })
  create_ledger_entry now entry (paid_entry id p)
  o ← or_throw (← gets (λ s. find (λ o. o.id == p.mahber_id) s.mahbers)) (prisma_error "P2025")
  modify (λ s. record s {
    memberships =
        update_where (membership_has_id m.id) (paid_member cal now o.configuration) s.memberships;
  })

-- The end of the payment by another status.
abbrev close_pending : PendingPayment → PendingStatus → Exec (Unit {0})
close_pending p status = modify (λ s. record s {
  pending_payments = update_where (pending_has_id p.id) (with_status status) s.pending_payments;
})

-- `status.toLowerCase()`, the empty text where the status is no text
abbrev pub says : String → Option String → Bool
says expected none = false
says expected (some t) = lower_is t expected

abbrev pub settle : Calendar → ℕ → ℕ → ℕ → PendingPayment → Option String → Exec Answer
settle cal now id entry p status =
    if says "success" status
    then settle_pending cal now id entry p >> pure succeeded
    else if says "expired" status
    then close_pending p PendingStatus.expired >> pure payment_expired
    else close_pending p PendingStatus.failed >> pure payment_failed

-- `valid` is `verifyWebhookSignature` on the body of the request.
unfoldable pub handle_chapa_callback :
    (String → Bool) → Calendar → ℕ → ℕ → ℕ → Message → Exec Answer
unfolding settle_pending
handle_chapa_callback valid cal now id entry message = do
  signature ← or_throw message.signature (bad_request "Missing signature")
  throw_if (not (valid signature)) (bad_request "Invalid signature")
  tx_ref ← or_throw message.tx_ref (bad_request "Missing tx_ref")
  p ←
      or_throw (← gets (λ s. find (pending_has_id tx_ref) s.pending_payments))
        (not_found "Pending payment not found")
  (if is_waiting p.status
      then settle cal now id entry p message.status
      else pure (already_done p.status))
