-- ===== src/Financial/Payments/Queries.antt =====
-- src/financial/payment.service.ts: who sees which payments, and the two ways on which the
-- provider's word on a payment arrives, src/financial/webhook.controller.ts and `reconcile`. The
-- listing's order other than by creation is not modelled.
pub mod Laws
use mahber_connect_backend.Prelude.{
  ℕ, String, Bool, true, false, not, ◌&&◌, ◌||◌, Option, none, some, List, [], ◌∷◌, str_eq, leb,
  ◌==◌, if◌then◌else◌, Paged, paged, length, find, select,
}
use mahber_connect_backend.Db.{
  PaymentStatus, PaymentType, payment_is_pending, Membership, Payment, Db,
}
use mahber_connect_backend.Exec.{
  Result, Exec, pure, gets, or_throw, ◌>>=◌, ◌>>◌, throw_if, bad_request, forbidden, not_found,
  other_error, ok, err,
}
use mahber_connect_backend.Dates.{Calendar}
use mahber_connect_backend.Membership.Access.{includes_text, membership_of}
use mahber_connect_backend.Financial.Payments.Webhook.{
  Payload, has_tx_ref, completed, process_webhook, failed, expired,
}

unfoldable pub has_finance_access : Membership → Bool
has_finance_access m =
    str_eq m.role.name "Admin" || includes_text "manage_finances" m.role.permissions

-- The optional filters of `findAll`. `insensitive` is the database's `contains`, which does not
-- look at the case, and `ref_text` the text of a reference.
pub record Filters : Type 0 where
  pub status : Option PaymentStatus
  pub kind : Option PaymentType
  pub search : Option String
  pub start : Option ℕ
  pub end : Option ℕ

abbrev same_status : PaymentStatus → PaymentStatus → Bool
same_status PaymentStatus.pending PaymentStatus.pending = true
same_status PaymentStatus.completed PaymentStatus.completed = true
same_status PaymentStatus.failed PaymentStatus.failed = true
same_status PaymentStatus.expired PaymentStatus.expired = true
same_status _ _ = false

abbrev same_type : PaymentType → PaymentType → Bool
same_type PaymentType.contribution PaymentType.contribution = true
same_type PaymentType.join_fee PaymentType.join_fee = true
same_type PaymentType.fine PaymentType.fine = true
same_type _ _ = false

abbrev unless_given {ℓ} : {A : Type ℓ} → Option A → (A → Bool) → Bool
unless_given none test = true
unless_given (some a) test = test a

unfoldable pub passes : (String → String → Bool) → (ℕ → String) → Filters → Payment → Bool
passes insensitive ref_text f p =
    unless_given f.status (same_status p.status)
    && unless_given f.kind (same_type p.payment_type)
    && unless_given f.search (λ t. str_eq t "" || insensitive t (ref_text p.tx_ref))
    && unless_given f.start (λ t. leb t p.created_at)
    && unless_given f.end (λ t. leb p.created_at t)

-- `where.mahber_id`, and `where.member_id` for a viewer without access to the finances
abbrev pub is_seen : ℕ → ℕ → Membership → Payment → Bool
is_seen mahber viewer m p =
    (p.mahber_id == mahber) && (has_finance_access m || (p.member_id == viewer))

unfoldable pub find_all_payments :
    (String → String → Bool) → (ℕ → String) → ℕ → ℕ → ℕ → ℕ → Filters → Exec (Paged Payment)
unfolding has_finance_access passes
find_all_payments insensitive ref_text mahber viewer page limit filters = do
  m ← or_throw (← gets (membership_of mahber viewer)) (not_found "Membership not found")
  gets (λ s.
      paged page limit (
        select (λ p. is_seen mahber viewer m p && passes insensitive ref_text filters p)
          s.payments))

abbrev pub payment_in : ℕ → ℕ → Payment → Bool
payment_in mahber id p = (p.id == id) && (p.mahber_id == mahber)

-- `!membership || (!hasFinanceAccess(membership) && payment.member_id !== viewerId)`
abbrev may_not_see : ℕ → Payment → Option Membership → Bool
may_not_see viewer p none = true
may_not_see viewer p (some m) = not (has_finance_access m) && not (p.member_id == viewer)

unfoldable pub find_one_payment : ℕ → ℕ → Option ℕ → Exec Payment
unfolding has_finance_access
find_one_payment mahber id viewer = do
  v ← or_throw viewer (forbidden "Insufficient permissions")
  membership ← gets (membership_of mahber v)
  p ←
      or_throw (← gets (λ s. find (payment_in mahber id) s.payments))
        (not_found "Payment not found")
  throw_if (may_not_see v p membership) (forbidden "Insufficient permissions")
  pure p

unfoldable pub find_by_tx_ref : ℕ → Exec Payment
find_by_tx_ref ref = do
  p ← gets (λ s. find (has_tx_ref ref) s.payments)
  or_throw p (not_found "Payment not found")

-- What `chapa.verifyPayment` answers.
pub record Verification : Type 0 where
  pub tx_ref : ℕ
  pub status : String

-- `reconcilePaymentByTxRef`; `verify` is the provider.
unfoldable pub reconcile_payment :
    (ℕ → Result Verification) → Calendar → ℕ → ℕ → ℕ → Exec (Unit {0})
unfolding process_webhook
reconcile_payment verify cal now entry ref = do
  v ← λ s. (verify ref, s)
  process_webhook cal now entry
      (record { tx_ref = some ref; status = some v.status; reference = some v.tx_ref })

unfoldable pub same_bytes : List ℕ → List ℕ → Bool
same_bytes [] [] = true
same_bytes [] (y ∷ ys) = false
same_bytes (x ∷ xs) [] = false
same_bytes (x ∷ xs) (y ∷ ys) = (x == y) && same_bytes xs ys

-- The bytes of the digest of a body under a secret, and those of a text in hexadecimal.
pub record Crypto : Type 0 where
  pub hmac : String → String → List ℕ
  pub from_hex : String → List ℕ

-- `timingSafeEqual` throws where the lengths differ.
unfoldable pub verify_webhook_signature : Crypto → String → String → String → Result Bool
unfolding same_bytes
verify_webhook_signature crypto body signature secret =
    let computed = crypto.hmac secret body in
    let sent = crypto.from_hex signature in
    if length computed == length sent
    then ok (same_bytes computed sent)
    else err (other_error "Input buffers must have the same byte length")

-- `handleChapaWebhook`; `parse` is `JSON.parse`.
unfoldable pub handle_chapa_webhook :
    Crypto
    → (String → Payload)
    → String
    → Calendar
    → ℕ
    → ℕ
    → Option String
    → String
    → Exec (Unit {0})
unfolding verify_webhook_signature process_webhook
handle_chapa_webhook crypto parse secret cal now entry signature body = do
  sent ← or_throw signature (bad_request "Missing webhook signature")
  valid ← λ s. (verify_webhook_signature crypto body sent secret, s)
  throw_if (not valid) (bad_request "Invalid webhook signature")
  process_webhook cal now entry (parse body)

-- The redirect of src/financial/payment-browser-callback.controller.ts with a reference and a
-- status: a Pending payment is reconciled, and every failure is passed over.
unfoldable pub handle_callback : (ℕ → Result Verification) → Calendar → ℕ → ℕ → ℕ → Db → Db
unfolding reconcile_payment find_by_tx_ref
handle_callback verify cal now entry ref s = elim (find_by_tx_ref ref s).0 [
  | err e ↦ s
  | ok p ↦
      if payment_is_pending p.status then (reconcile_payment verify cal now entry ref s).1 else s
]
