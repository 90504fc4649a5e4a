-- ===== src/Financial/Payments/Retry.antt =====
-- `PaymentService.retryPayment`. The backoff that the method computes is only logged.
pub mod Laws
use mahber_connect_backend.Prelude.{
  ℕ, String, Bool, not, ◌&&◌, Option, none, some, [], ◌∷◌, ◌==◌, find,
}
use mahber_connect_backend.Db.{PaymentStatus, payment_is_pending, payment_is_completed, Payment}
use mahber_connect_backend.Exec.{
  Exec, pure, gets, or_throw, ◌>>=◌, ◌>>◌, throw_if, modify, bad_request, conflict, not_found,
}
use mahber_connect_backend.Financial.Payments.Initiate.{Outside}

-- `where: { id, mahber_id, member_id }`
abbrev pub own_payment : ℕ → ℕ → ℕ → Payment → Bool
own_payment mahber id member p = (p.id == id) && (p.mahber_id == mahber) && (p.member_id == member)

-- `payment.create` of a retry: the amount and the type of the original.
abbrev pub retried : Outside → ℕ → ℕ → Payment → Option String → Payment
retried x mahber member p url = record {
  id = x.id;
  mahber_id = mahber;
  member_id = member;
  amount = p.amount;
  payment_type = p.payment_type;
  status = PaymentStatus.pending;
  tx_ref = x.tx_ref;
  chapa_reference = none;
  checkout_url = url;
  fine_ids = [];
  period_start = none;
  period_end = none;
  expires_at = none;
  completed_at = none;
  created_at = x.now;
}

-- Chapa is asked before the payment is stored.
unfoldable pub retry_payment : Outside → ℕ → ℕ → ℕ → Exec (String × ℕ × ℕ)
retry_payment x mahber id member = do
  p ←
      or_throw (← gets (λ s. find (own_payment mahber id member) s.payments))
        (not_found "Payment not found")
  throw_if (payment_is_completed p.status) (bad_request "Payment is already completed")
  throw_if (payment_is_pending p.status) (conflict "Payment is still pending")
  url ← λ s. (x.initialize (retried x mahber member p none), s)
  modify (λ s. record s { payments = retried x mahber member p (some url) ∷ s.payments })
  pure (url, x.id, x.tx_ref)
