-- ===== src/Financial/Payments/Webhook.antt =====
-- `PaymentService.processWebhook`: what a message of the payment provider does.
pub mod Credit
pub mod Replays
pub mod Effects
use mahber_connect_backend.Prelude.{
  ℕ, String, Bool, not, ◌&&◌, ◌||◌, Option, none, some, ◌∷◌, ◌==◌, if◌then◌else◌, or_else, is_some,
  find, update_where, includes,
}
use mahber_connect_backend.Db.{
  MembershipStatus, PaymentStatus, TransactionType, is_payment_required, payment_is_completed,
  payment_is_failed, is_join_fee, Membership, Payment, Fine, Db,
}
use mahber_connect_backend.Db.Decimals.{cents}
use mahber_connect_backend.Exec.{
  Exec, pure, gets, or_throw, ◌>>=◌, ◌>>◌, modify, transaction, prisma_error, ok,
}
use mahber_connect_backend.Dates.{lower_is, Calendar, add_frequency}
use mahber_connect_backend.Financial.Ledger.{LedgerData, create_ledger_entry}
use mahber_connect_backend.Financial.Payments.{payment_has_id}

-- The keys of the payload that the method reads.
pub record Payload : Type 0 where
  pub tx_ref : Option ℕ
  pub status : Option String
  pub reference : Option ℕ

abbrev pub has_tx_ref : ℕ → Payment → Bool
has_tx_ref ref p = p.tx_ref == ref

abbrev pub completed : ℕ → Option ℕ → Payment → Payment
completed now reference p = record p {
  status = PaymentStatus.completed;
  chapa_reference = reference;
  completed_at = some now;
}

-- `fine.updateMany`: the fines of the payment that are not paid yet.
abbrev pub is_covered : Payment → Fine → Bool
is_covered p f =
    includes f.id p.fine_ids
    && (f.mahber_id == p.mahber_id)
    && (f.member_id == p.member_id)
    && not (is_some f.paid_at)

abbrev pub settled : ℕ → Payment → Fine → Fine
settled now p f = record f { paid_at = some now; payment_id = some p.id }

-- The ledger entry of a completed payment.
abbrev pub payment_entry : Payment → LedgerData
payment_entry p = record {
  mahber_id = p.mahber_id;
  member_id = p.member_id;
  transaction_type = TransactionType.contribution;
  amount = cents p.amount;
  description = "payment via Chapa";
  payment_id = some p.id;
  fine_id = none;
  lottery_id = none;
  expense_id = none;
  payout_id = none;
}

abbrev pub membership_has_id : ℕ → Membership → Bool
membership_has_id id m = m.id == id

abbrev pub activated : ℕ → Option ℕ → Membership → Membership
activated now due m = record m {
  status = MembershipStatus.active;
  activation_date = or_else m.activation_date (some now);
  joined_at = or_else m.joined_at (some now);
  next_payment_due = due;
}

-- The change of the membership that was found: by the end of the paid period, or on a join fee
-- that was waited for.
abbrev pub next_membership : Calendar → ℕ → Payment → Membership → Membership
next_membership cal now p m = elim p.period_end [
  | some end ↦ activated now (some end) m
  | none ↦
      if is_payment_required m.status && is_join_fee p.payment_type
      then activated now
          (or_else m.next_payment_due (some (add_frequency cal now (some "Monthly")))) m
      else m
]

-- The transaction of the success path. `entry` is the id of the new ledger entry.
unfoldable pub complete_payment : Calendar → ℕ → ℕ → Option ℕ → Payment → Exec (Unit {0})
unfolding add_frequency
complete_payment cal now entry reference p = transaction do
  modify (λ s. record s {
    payments = update_where (payment_has_id p.id) (completed now reference) s.payments;
    fines = update_where (is_covered p) (settled now p) s.fines;
  })
  create_ledger_entry now entry (payment_entry p)
  m ←
      or_throw
        (← gets (λ s.
          find (λ m. (m.mahber_id == p.mahber_id) && (m.member_id == p.member_id)) s.memberships))
        (prisma_error "P2025")
  modify (λ s. record s {
    memberships = update_where (membership_has_id m.id) (next_membership cal now p) s.memberships;
  })

abbrev audit : Payment → String → Db → Db
audit p action s = record s {
  audit_trail =
      (record {
        mahber_id = p.mahber_id;
        entity_type = "payment";
        entity_id = p.id;
        action = action;
        actor_id = none;
      })
      ∷ s.audit_trail;
}

abbrev set_status : PaymentStatus → Payment → Payment
set_status status p = record p { status = status }

abbrev close_payment : Payment → PaymentStatus → String → Exec (Unit {0})
close_payment p status action s = (
  ok tt,
  audit p action
      (record s { payments = update_where (payment_has_id p.id) (set_status status) s.payments }),
)

-- `status.toLowerCase()`; a status that is no text counts as the empty text.
pub data Outcome : Type 0 where
  success failed expired unknown : Outcome

unfoldable pub outcome_of : Option String → Outcome
outcome_of none = unknown
outcome_of (some t) =
    if lower_is t "success"
    then success
    else if lower_is t "failed"
    then failed
    else if lower_is t "expired"
    then expired
    else unknown

-- Already Completed or Failed: a duplicate is skipped.
abbrev pub is_final : PaymentStatus → Bool
is_final status = payment_is_completed status || payment_is_failed status

unfoldable pub apply_outcome : Calendar → ℕ → ℕ → Option ℕ → Payment → Outcome → Exec (Unit {0})
unfolding complete_payment
apply_outcome cal now entry reference p success = do
  complete_payment cal now entry reference p
  modify (audit p "payment_completed")
apply_outcome cal now entry reference p failed =
    close_payment p PaymentStatus.failed "payment_failed"
apply_outcome cal now entry reference p expired =
    close_payment p PaymentStatus.expired "payment_expired"
apply_outcome cal now entry reference p unknown = pure tt

abbrev pub payment_of : ℕ → Db → Option Payment
payment_of ref s = find (has_tx_ref ref) s.payments

abbrev handle : Calendar → ℕ → ℕ → Payload → Option Payment → Exec (Unit {0})
handle cal now entry payload none = pure tt
handle cal now entry payload (some p) =
    if is_final p.status
    then pure tt
    else apply_outcome cal now entry payload.reference p (outcome_of payload.status)

-- The payment that the message names.
abbrev pub named : Payload → Db → Option Payment
named payload s = elim payload.tx_ref [ none ↦ none | some ref ↦ payment_of ref s ]

unfoldable pub process_webhook : Calendar → ℕ → ℕ → Payload → Exec (Unit {0})
unfolding apply_outcome
process_webhook cal now entry payload s = elim payload.tx_ref [
  | none ↦ (ok tt, s)
  | some ref ↦ handle cal now entry payload (payment_of ref s) s
]
