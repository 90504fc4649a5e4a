-- ===== src/Financial/Payments/Webhook/Replays.antt =====
-- Theorems on repeated messages of the payment provider.
use mathlib.Core.Option
use mahber_connect_backend.Prelude.{
  ℕ, ◌≡◌, refl, ◌⊎◌, Bool, true, Option, some, arith, ==-refl, find-update_where,
}
use mahber_connect_backend.Db.{PaymentStatus, Payment, Db}
use mahber_connect_backend.Exec.{ok}
use mahber_connect_backend.Dates.{Calendar}
use mahber_connect_backend.Financial.Ledger.{create_ledger_entry}
use mahber_connect_backend.Financial.Payments.{payment_has_id}
use mahber_connect_backend.Financial.Payments.Webhook.{
  set_status, Payload, has_tx_ref, completed, outcome_of, is_final, payment_of, named,
  process_webhook, success, failed,
}

-- A message about a payment that is Completed or Failed changes nothing.
pub process_webhook-final :
    (cal : Calendar) (now entry : ℕ) (payload : Payload) (s : Db) (p : Payment)
    → named payload s ≡ some p
    → is_final p.status ≡ true
    → process_webhook cal now entry payload s ≡ (ok tt, s)
unfolding process_webhook
process_webhook-final cal now entry payload s p known final = ground arith

abbrev final_ref : ℕ → Db → Option Bool
final_ref ref s = Option.map (λ p. is_final p.status) (payment_of ref s)

-- A message that names a final payment by its reference changes nothing.
final_refused :
    (cal : Calendar) (now entry ref : ℕ) (payload : Payload) (s : Db)
    → payload.tx_ref ≡ some ref
    → final_ref ref s ≡ some true
    → process_webhook cal now entry payload s ≡ (ok tt, s)
unfolding process_webhook
final_refused cal now entry ref payload s names final = ground arith

module _ (cal : Calendar) (now entry ref : ℕ) (payload : Payload) (s : Db) where
  -- Once a success or a failure of a reference was processed, its payment is final.
  final_after :
      (p : Payment)
      → payload.tx_ref ≡ some ref
      → payment_of ref s ≡ some p
      → (outcome_of payload.status ≡ success) ⊎ (outcome_of payload.status ≡ failed)
      → (process_webhook cal now entry payload s).0 ≡ ok tt
      → final_ref ref (process_webhook cal now entry payload s).1 ≡ some true
  unfolding process_webhook create_ledger_entry
  final_after p names known outcome h = ground (
    arith,
    find-update_where (has_tx_ref ref) (payment_has_id p.id) (completed now payload.reference)
        s.payments (λ a. refl),
    find-update_where (has_tx_ref ref) (payment_has_id p.id) (set_status PaymentStatus.failed)
        s.payments (λ a. refl),
    ==-refl p.id,
  )

  -- A message of success or failure is processed once: after one that went through, no further
  -- message about the reference changes anything, whatever its status.
  pub process_webhook_once :
      (p : Payment) (now' entry' : ℕ) (payload' : Payload)
      → payload.tx_ref ≡ some ref
      → payment_of ref s ≡ some p
      → (outcome_of payload.status ≡ success) ⊎ (outcome_of payload.status ≡ failed)
      → (process_webhook cal now entry payload s).0 ≡ ok tt
      → payload'.tx_ref ≡ some ref
      → process_webhook cal now' entry' payload' (process_webhook cal now entry payload s).1
        ≡ (ok tt, (process_webhook cal now entry payload s).1)
  process_webhook_once p now' entry' payload' names known outcome h again =
      final_refused cal now' entry' ref payload' _ again (final_after p names known outcome h)
