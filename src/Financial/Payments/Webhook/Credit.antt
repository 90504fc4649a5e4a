-- ===== src/Financial/Payments/Webhook/Credit.antt =====
-- What the success of a payment does to the books.
use mahber_connect_backend.Prelude.{
  refl, ℕ, ◌≡◌, ◌⊎◌, inl, inr, false, none, some, arith, Option-cases, ==-refl, sum_where, ◌+ℤ◌,
  find,
}
use mahber_connect_backend.Db.{Payment, Db}
use mahber_connect_backend.Exec.{prisma_error, ok, err}
use mahber_connect_backend.Dates.{Calendar}
use mahber_connect_backend.Membership.Access.{is_of}
use mahber_connect_backend.Financial.Ledger.{create_ledger_entry, get_member_balance}
use mahber_connect_backend.Financial.Ledger.Balance.{IsBalanced, write-IsBalanced}
use mahber_connect_backend.Financial.Payments.Webhook.{
  named, Payload, payment_entry, outcome_of, is_final, process_webhook, success,
}

module _ (cal : Calendar) (now entry : ℕ) (payload : Payload) (s : Db) (p : Payment)
    (known : named payload s ≡ some p) where
  -- A success message for a payment that is not final, processed without an exception, raises the
  -- member's balance by the amount of the payment.
  pub process_webhook-credits :
      is_final p.status ≡ false
      → outcome_of payload.status ≡ success
      → (process_webhook cal now entry payload s).0 ≡ ok tt
      → get_member_balance p.mahber_id p.member_id (process_webhook cal now entry payload s).1
        ≡ p.amount +ℤ get_member_balance p.mahber_id p.member_id s
  unfolding process_webhook create_ledger_entry get_member_balance sum_where
  process_webhook-credits open_now won h = ground (arith, ==-refl p.mahber_id, ==-refl p.member_id)

  -- If the member has no membership any more, the whole success is rolled back.
  pub process_webhook-rolls_back :
      is_final p.status ≡ false
      → outcome_of payload.status ≡ success
      → find (is_of p.mahber_id p.member_id) s.memberships ≡ none
      → process_webhook cal now entry payload s ≡ (err (prisma_error "P2025"), s)
  unfolding process_webhook create_ledger_entry
  process_webhook-rolls_back open_now won gone = ground arith

  process_webhook-writes :
      ((process_webhook cal now entry payload s).1.ledger ≡ s.ledger)
      ⊎ ((process_webhook cal now entry payload s).1.ledger
          ≡ (create_ledger_entry now entry (payment_entry p) s).1.ledger)
  unfolding process_webhook create_ledger_entry
  process_webhook-writes = ground arith

-- A message that names no payment of ours changes nothing.
pub process_webhook-unknown :
    (cal : Calendar) (now entry : ℕ) (payload : Payload) (s : Db)
    → named payload s ≡ none
    → process_webhook cal now entry payload s ≡ (ok tt, s)
unfolding process_webhook
process_webhook-unknown cal now entry payload s h = ground arith

-- If every entry of the ledger carries the sum of its member's amounts up to itself, so it does
-- after any message, whether its processing returns or throws.
pub process_webhook-IsBalanced :
    (cal : Calendar) (now entry : ℕ) (payload : Payload) (s : Db)
    → IsBalanced s.ledger
    → IsBalanced (process_webhook cal now entry payload s).1.ledger
process_webhook-IsBalanced cal now entry payload s b = elim (Option-cases (named payload s)) [
  | inl unknown_ref ↦ rw (process_webhook-unknown cal now entry payload s unknown_ref) b
  | inr (p, e) ↦
      write-IsBalanced now entry (payment_entry p) s _ (inr refl)
        (process_webhook-writes cal now entry payload s p e) b
]
