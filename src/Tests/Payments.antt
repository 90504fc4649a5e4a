-- ===== src/Tests/Payments.antt =====
-- Tests of payments: initiation, the provider's messages, retries.
use mathlib.Core.Option
use mahber_connect_backend.Prelude.{
  ◌*◌, ◌≡◌, refl, inl, false, none, some, [], ◌∷◌, arith, sum_where, ◌+ℤ◌, pos, find, select,
  update_where, includes,
}
use mahber_connect_backend.Db.{MembershipStatus, PaymentStatus, Db}
use mahber_connect_backend.Exec.{ok}
use mahber_connect_backend.Membership.Access.{is_of, membership_of}
use mahber_connect_backend.Financial.Ledger.{create_ledger_entry, get_member_balance}
use mahber_connect_backend.Financial.Payments.{
  outstanding_fines, fine_total, Obligations, get_outstanding_obligations,
}
use mahber_connect_backend.Financial.Payments.Initiate.{
  Outside, select_fines, cycle_end, initiate_payment,
}
use mahber_connect_backend.Financial.Payments.Amounts.{
  initiate_payment-amount, fines_payment-advances,
}
use mahber_connect_backend.Financial.Payments.Retry.{retry_payment}
use mahber_connect_backend.Financial.Payments.Retry.Laws.{retry_payment-forgets}
use mahber_connect_backend.Financial.Payments.Webhook.Credit.{process_webhook-credits}
use mahber_connect_backend.Financial.Payments.Webhook.Replays.{process_webhook_once}
use mahber_connect_backend.Financial.Payments.Webhook.Effects.{process_webhook-activates}
use mahber_connect_backend.Tests.Samples.{
  day, calendar, value, member, club, late_fine, payment, db,
}
use mahber_connect_backend.Dates.{lower_is}
use mahber_connect_backend.Financial.Payments.Webhook.{
  Payload, process_webhook, outcome_of, has_tx_ref,
}

abbrev message : Payload
message = record { tx_ref = some 60; status = some "Success"; reference = some 600 }

process_webhook-credits_example :
    get_member_balance 1 3 (process_webhook calendar 30 2 message db).1
    ≡ pos 120 +ℤ get_member_balance 1 3 db
unfolding process_webhook create_ledger_entry find update_where outcome_of lower_is
process_webhook-credits_example =
    process_webhook-credits calendar 30 2 message db payment refl refl refl refl

abbrev repeat : Payload
repeat = record { tx_ref = some 60; status = some "failed"; reference = none }

process_webhook_once_example :
    process_webhook calendar 31 3 repeat (process_webhook calendar 30 2 message db).1
    ≡ (ok tt, (process_webhook calendar 30 2 message db).1)
unfolding process_webhook create_ledger_entry find update_where outcome_of lower_is
process_webhook_once_example =
    process_webhook_once calendar 30 2 60 message db payment 31 3 repeat refl refl (inl refl) refl
      refl

-- The member was suspended after the payment was begun.
abbrev suspended_db : Db
suspended_db = record db {
  memberships =
      record member { status = MembershipStatus.suspended; suspended_until = some 50 } ∷ [];
}

process_webhook-activates_example :
    (Option.map
        (λ m. m.status)
        (find (is_of 1 3) (process_webhook calendar 30 2 message suspended_db).1.memberships)
      ≡ some MembershipStatus.active)
    × (Option.map
          (λ m. m.next_payment_due)
          (find (is_of 1 3) (process_webhook calendar 30 2 message suspended_db).1.memberships)
        ≡ some (some (131 * day)))
    × (Option.map
          (λ m. m.suspended_until)
          (find (is_of 1 3) (process_webhook calendar 30 2 message suspended_db).1.memberships)
        ≡ some (some 50))
unfolding find outcome_of lower_is
process_webhook-activates_example =
    process_webhook-activates calendar 30 2 message suspended_db payment refl refl refl (131 * day)
      (record member { status = MembershipStatus.suspended; suspended_until = some 50 }) refl refl

abbrev outside : Outside
outside = record {
  now = 40;
  id = 16;
  tx_ref = 61;
  calendar = calendar;
  initialize = λ p. ok "https://checkout";
}

abbrev nothing_owed : Obligations
nothing_owed = value (get_outstanding_obligations 40 1 3 db).0 (record {
  contribution_due = none;
  contribution_due_date = none;
  pending_fines = [];
  has_pending_payment = false;
  pending_payment_id = none;
  pending_payment_amount = none;
  pending_payment_type = none;
  total_outstanding = pos 0;
})

initiate_payment-amount_example :
    Option.map
      (λ p. p.amount)
      (find (has_tx_ref 61) (initiate_payment outside 1 3 none db).1.payments)
    ≡ some nothing_owed.total_outstanding
unfolding initiate_payment find update_where get_outstanding_obligations select_fines select
    includes ◌+ℤ◌ sum_where
initiate_payment-amount_example =
    initiate_payment-amount outside 1 3 db member club refl refl nothing_owed "https://checkout" 61
      refl refl (omega arith)

abbrev success_61 : Payload
success_61 = record { tx_ref = some 61; status = some "success"; reference = none }

fines_payment-advances_example :
    (Option.map
        (λ p. p.amount)
        (find (has_tx_ref 61) (initiate_payment outside 1 3 none db).1.payments)
      ≡ some (pos 0 +ℤ pos 0 +ℤ fine_total (late_fine ∷ [])))
    × (Option.map
          (λ m. m.next_payment_due)
          (membership_of 1 3
            (process_webhook calendar 41 3 success_61 (initiate_payment outside 1 3 none db).1).1)
        ≡ some (cycle_end outside club (some (100 * day))))
unfolding initiate_payment find update_where outcome_of lower_is select_fines select
    outstanding_fines includes ◌+ℤ◌ sum_where
fines_payment-advances_example =
    fines_payment-advances outside 1 3 db member club refl refl 41 3 (100 * day) none
      (late_fine ∷ []) success_61 "https://checkout" 61 refl refl refl refl refl refl refl

abbrev failed_db : Db
failed_db = record db { payments = record payment { status = PaymentStatus.failed } ∷ [] }

retry_payment-forgets_example :
    (get_member_balance 1 3
        (process_webhook calendar 41 3 success_61 (retry_payment outside 1 6 3 failed_db).1).1
      ≡ pos 120 +ℤ get_member_balance 1 3 failed_db)
    × ((process_webhook calendar 41 3 success_61 (retry_payment outside 1 6 3 failed_db).1).1.fines
        ≡ failed_db.fines)
    × (find
          (is_of 1 3)
          (process_webhook calendar 41 3 success_61
            (retry_payment outside 1 6 3 failed_db).1).1.memberships
        ≡ some member)
unfolding retry_payment find update_where outcome_of lower_is
retry_payment-forgets_example =
    retry_payment-forgets outside 1 6 3 failed_db calendar 41 3 success_61 "https://checkout" 16 61
      (record payment { status = PaymentStatus.failed }) member refl refl refl refl refl refl
