-- ===== src/Financial/Callback/Laws.antt =====
-- Theorems on the provider's message on a joining payment.
use mahber_connect_backend.Prelude.{
  ℕ, String, ◌≡◌, refl, ap, ◌∙◌, ◌⊎◌, inl, inr, Bool, true, false, not, ◌&&◌, Option, none, some,
  arith, Bool-cases, Option-cases, find, update_where, find_sound, find-update_where,
}
use mahber_connect_backend.Db.{PendingStatus, PendingPayment, Db}
use mahber_connect_backend.Exec.{Error, Result, is_ok, ok, err}
use mahber_connect_backend.Dates.{Calendar}
use mahber_connect_backend.Financial.Ledger.{create_ledger_entry}
use mahber_connect_backend.Financial.Ledger.Balance.{IsBalanced, write-IsBalanced}
use mahber_connect_backend.Financial.Callback.{
  Message, Answer, is_waiting, pending_has_id, with_status, paid_entry, settle_pending, says,
  settle, handle_chapa_callback,
}

-- The payment of this id is there and no longer waiting.
abbrev pub is_done : ℕ → Db → Bool
is_done ref s = elim (find (pending_has_id ref) s.pending_payments) [
  | none ↦ false
  | some p ↦ not (is_waiting p.status)
]

module _ (cal : Calendar) (now id entry ref : ℕ) (p : PendingPayment) (s : Db) where
  settled-is_done :
      (status : PendingStatus)
      → is_waiting status ≡ false
      → find (pending_has_id ref) s.pending_payments ≡ some p
      → (t : Db)
      → t.pending_payments
        ≡ update_where (pending_has_id p.id) (with_status status) s.pending_payments
      → is_done ref t ≡ true
  settled-is_done status over found t after =
      let kept =
        find-update_where (pending_has_id ref) (pending_has_id p.id) (with_status status)
          s.pending_payments (λ a. refl) in
      let key = find_sound (pending_has_id ref) s.pending_payments p found in
      rw after (ground arith)

  -- A settlement that returns has updated the payment, and writes one entry.
  settle_pending-writes :
      (settle_pending cal now id entry p s).0 ≡ ok tt
      → let t = (settle_pending cal now id entry p s).1 in
        (t.pending_payments
          ≡ update_where
              (pending_has_id p.id)
              (with_status PendingStatus.completed)
              s.pending_payments)
        × (t.ledger ≡ (create_ledger_entry now entry (paid_entry id p) s).1.ledger)
  unfolding settle_pending create_ledger_entry
  settle_pending-writes h = (ground arith, ground arith)

  settle_pending-rolls_back :
      (e : Error)
      → (settle_pending cal now id entry p s).0 ≡ err e
      → (settle_pending cal now id entry p s).1 ≡ s
  unfolding settle_pending
  settle_pending-rolls_back e h = ground arith

  Result-cases : (r : Result (Unit {0})) → (r ≡ ok tt) ⊎ ((e : Error) × (r ≡ err e))
  Result-cases (ok tt) = inl refl
  Result-cases (err e) = inr (e, refl)

  settle-is_done :
      (status : Option String) (a : Answer)
      → find (pending_has_id ref) s.pending_payments ≡ some p
      → (settle cal now id entry p status s).0 ≡ ok a
      → is_done ref (settle cal now id entry p status s).1 ≡ true
  settle-is_done status a found h = elim (Bool-cases (says "success" status)) [
    | inl success ↦ elim (Result-cases (settle_pending cal now id entry p s).0) [
      | inl done ↦
          let (updated, _) = settle_pending-writes done in
          let over =
            settled-is_done PendingStatus.completed refl found
              (settle_pending cal now id entry p s).1 updated in
          ground arith
      | inr (e, failed) ↦ ground arith
    ]
    | inr no_success ↦ elim (Bool-cases (says "expired" status)) [
      | inl late ↦ ground (
        arith,
        settled-is_done PendingStatus.expired refl found (settle cal now id entry p status s).1,
      )
      | inr neither ↦ ground (
        arith,
        settled-is_done PendingStatus.failed refl found (settle cal now id entry p status s).1,
      )
    ]
  ]

  settle-ledger :
      (status : Option String)
      → ((settle cal now id entry p status s).1.ledger ≡ s.ledger)
        ⊎ ((settle cal now id entry p status s).1.ledger
            ≡ (create_ledger_entry now entry (paid_entry id p) s).1.ledger)
  settle-ledger status = elim (Bool-cases (says "success" status)) [
    | inl success ↦ elim (Result-cases (settle_pending cal now id entry p s).0) [
      | inl done ↦ let (_, wrote) = settle_pending-writes done in inr (ground arith)
      | inr (e, failed) ↦ let back = settle_pending-rolls_back e failed in inl (ground arith)
    ]
    | inr no_success ↦ elim (Bool-cases (says "expired" status)) [
      | inl late ↦ inl (ground arith)
      | inr neither ↦ inl (ground arith)
    ]
  ]

-- A message on a payment that is no longer waiting changes nothing.
handle-idle :
    (valid : String → Bool) (cal : Calendar) (now id entry ref : ℕ) (message : Message) (s : Db)
    → message.tx_ref ≡ some ref
    → is_done ref s ≡ true
    → (handle_chapa_callback valid cal now id entry message s).1 ≡ s
unfolding handle_chapa_callback
handle-idle valid cal now id entry ref message s named done = ground arith

module _ (valid : String → Bool) (cal : Calendar) (now id entry : ℕ) (message : Message)
    (s : Db) where
  abbrev handled : Result Answer × Db
  handled = handle_chapa_callback valid cal now id entry message s

  handled-is_done :
      (ref : ℕ) (a : Answer)
      → message.tx_ref ≡ some ref
      → handled.0 ≡ ok a
      → is_done ref handled.1 ≡ true
  unfolding handle_chapa_callback
  handled-is_done ref a named h =
      elim (Option-cases (find (pending_has_id ref) s.pending_payments)) [
        | inl missing ↦ ground arith
        | inr (p, found) ↦ elim (Bool-cases (is_waiting p.status)) [
          | inl waiting ↦
              ground (arith, settle-is_done cal now id entry ref p s message.status a found)
          | inr over ↦ ground arith
        ]
      ]

  unnamed_refused : message.tx_ref ≡ none → is_ok handled.0 ≡ false
  unfolding handle_chapa_callback
  unnamed_refused unnamed = ground arith

  handled-cases :
      (ref : ℕ) (p : PendingPayment)
      → message.tx_ref ≡ some ref
      → find (pending_has_id ref) s.pending_payments ≡ some p
      → (handled.1 ≡ s) ⊎ (handled.1 ≡ (settle cal now id entry p message.status s).1)
  unfolding handle_chapa_callback
  handled-cases ref p named found = elim (Option-cases message.signature) [
    | inl missing ↦ inl (ground arith)
    | inr (signature, given) ↦ elim (Bool-cases (valid signature && is_waiting p.status)) [
      | inl waiting ↦ inr (ground arith)
      | inr refused ↦ inl (ground arith)
    ]
  ]

  handled-writes :
      (ref : ℕ) (p : PendingPayment)
      → message.tx_ref ≡ some ref
      → find (pending_has_id ref) s.pending_payments ≡ some p
      → (handled.1.ledger ≡ s.ledger)
        ⊎ (handled.1.ledger ≡ (create_ledger_entry now entry (paid_entry id p) s).1.ledger)
  handled-writes ref p named found = elim (handled-cases ref p named found) [
    | inl same ↦ inl (ap (λ t. t.ledger) same)
    | inr settles ↦ rw settles (settle-ledger cal now id entry ref p s message.status)
  ]

  -- After a message that was answered, another one for the same payment changes nothing, whatever
  -- it says.
  pub handle_chapa_callback_once :
      (now' id' entry' : ℕ) (again : Message) (a : Answer)
      → again.tx_ref ≡ message.tx_ref
      → handled.0 ≡ ok a
      → (handle_chapa_callback valid cal now' id' entry' again handled.1).1 ≡ handled.1
  handle_chapa_callback_once now' id' entry' again a same h = elim (Option-cases message.tx_ref) [
    | inl unnamed ↦ let refused = unnamed_refused unnamed in ground arith
    | inr (ref, named) ↦
        handle-idle valid cal now' id' entry' ref again handled.1 (same ∙ named)
          (handled-is_done ref a named h)
  ]

  -- If every entry of the ledger carries the sum of its member's amounts up to itself, so it does
  -- after a message.
  pub handle_chapa_callback-IsBalanced : IsBalanced s.ledger → IsBalanced handled.1.ledger
  unfolding handle_chapa_callback
  handle_chapa_callback-IsBalanced b = elim (Option-cases message.tx_ref) [
    | inl unnamed ↦ ground (arith, b)
    | inr (ref, named) ↦ elim (Option-cases (find (pending_has_id ref) s.pending_payments)) [
      | inl missing ↦ ground (arith, b)
      | inr (p, found) ↦
          write-IsBalanced now entry (paid_entry id p) s handled.1.ledger (inr refl)
            (handled-writes ref p named found) b
    ]
  ]
