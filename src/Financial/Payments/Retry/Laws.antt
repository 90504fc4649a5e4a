-- ===== src/Financial/Payments/Retry/Laws.antt =====
-- When a payment may be retried, and what the retry forgets.
use mahber_connect_backend.Prelude.{
  update_where-none, ℕ, String, ◌≡◌, refl, ◌⊎◌, some, ◌∷◌, arith, ==-refl, sum_where, ◌+ℤ◌, find,
  includes, find-update_where,
}
use mahber_connect_backend.Db.{MembershipStatus, PaymentStatus, Membership, Payment, Db}
use mahber_connect_backend.Exec.{Error, ok, err}
use mahber_connect_backend.Dates.{Calendar}
use mahber_connect_backend.Membership.Access.{is_of}
use mahber_connect_backend.Financial.Ledger.{create_ledger_entry, get_member_balance}
use mahber_connect_backend.Financial.Payments.Initiate.{Outside}
use mahber_connect_backend.Financial.Payments.Retry.{own_payment, retried, retry_payment}
use mahber_connect_backend.Financial.Payments.Webhook.Effects.{next-same}
use mahber_connect_backend.Financial.Payments.Webhook.{
  Payload, is_covered, settled, membership_has_id, next_membership, outcome_of, process_webhook,
  success,
}

module _ (x : Outside) (mahber id member : ℕ) (s : Db) where
  -- A retry that throws has changed nothing.
  pub retry_payment-err :
      (e : Error)
      → (retry_payment x mahber id member s).0 ≡ err e
      → (retry_payment x mahber id member s).1 ≡ s
  unfolding retry_payment
  retry_payment-err e h = ground arith

  -- A retry that returns was of the member's own payment that had Failed or Expired, and adds one
  -- Pending payment of the same amount.
  pub retry_payment-ok :
      (url : String) (new ref : ℕ) (p : Payment)
      → find (own_payment mahber id member) s.payments ≡ some p
      → (retry_payment x mahber id member s).0 ≡ ok (url, new, ref)
      → ((p.status ≡ PaymentStatus.failed) ⊎ (p.status ≡ PaymentStatus.expired))
        × ((retry_payment x mahber id member s).1.payments
            ≡ retried x mahber member p (some url) ∷ s.payments)
  unfolding retry_payment
  retry_payment-ok url new ref p found h = ground arith

  -- The retry of a payment forgets its fines and its period. When the retry succeeds, the amount is
  -- credited, but every fine stays as it was, so the fines of the original are still owed, and the
  -- membership of an Active member, with the day on which the next contribution is due, stays as
  -- it was too.
  pub retry_payment-forgets :
      (cal : Calendar) (now entry : ℕ) (payload : Payload) (url : String) (new ref : ℕ)
      (p : Payment) (m : Membership)
      → find (own_payment mahber id member) s.payments ≡ some p
      → (retry_payment x mahber id member s).0 ≡ ok (url, new, ref)
      → payload.tx_ref ≡ some x.tx_ref
      → outcome_of payload.status ≡ success
      → find (is_of mahber member) s.memberships ≡ some m
      → m.status ≡ MembershipStatus.active
      → let t = (process_webhook cal now entry payload (retry_payment x mahber id member s).1).1 in
        (get_member_balance mahber member t ≡ p.amount +ℤ get_member_balance mahber member s)
        × (t.fines ≡ s.fines)
        × (find (is_of mahber member) t.memberships ≡ some m)
  unfolding retry_payment process_webhook create_ledger_entry get_member_balance sum_where find
      includes
  retry_payment-forgets cal now entry payload url new ref p m own h names won found active_now =
      let r = retried x mahber member p (some url) in
      ground (
        arith,
        ==-refl x.tx_ref,
        ==-refl mahber,
        ==-refl member,
        update_where-none (is_covered r) (settled now r) s.fines (λ f. refl),
        find-update_where (is_of mahber member) (membership_has_id m.id) (next_membership cal now r)
            s.memberships (next-same cal now r mahber member),
      )
