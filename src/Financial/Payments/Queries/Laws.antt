-- ===== src/Financial/Payments/Queries/Laws.antt =====
-- Theorems on who sees a payment and on the ways of the provider's messages.
use mathlib.Core.Path.{subst}
use mahber_connect_backend.Prelude.{
  inr, eq_iff, inl, Bool-cases, ℕ, zero, suc, ◌-◌, ◌*◌, String, ◌≡◌, refl, ◌⊎◌, Bool, true, false,
  ◌&&◌, ◌||◌, none, some, List, [], ◌∷◌, arith, ◌==◌, Paged, paged, All, take, drop, find, select,
}
use mahber_connect_backend.Db.{Membership, Payment, Db}
use mahber_connect_backend.Exec.{Result, is_ok, ok}
use mahber_connect_backend.Dates.{Calendar}
use mahber_connect_backend.Membership.Access.{membership_of}
use mahber_connect_backend.Financial.Payments.Webhook.{
  Payload, outcome_of, payment_of, process_webhook, success, failed,
}
use mahber_connect_backend.Financial.Payments.Webhook.Replays.{process_webhook_once}
use mahber_connect_backend.Financial.Payments.Queries.{
  str_eq, includes_text, has_finance_access, Filters, passes, is_seen, find_all_payments,
  payment_in, find_one_payment, Verification, reconcile_payment, same_bytes, Crypto,
  verify_webhook_signature, handle_chapa_webhook,
}

All-select {κ} :
    (P : Payment → Type κ) (p : Payment → Bool) (xs : List Payment)
    → ((a : Payment) → p a ≡ true → P a)
    → All P (select p xs)
unfolding select
All-select P p [] h = tt
All-select P p (x ∷ xs) h = ground (arith, h x, All-select P p xs h)

All-take {κ} : (P : Payment → Type κ) (n : ℕ) (xs : List Payment) → All P xs → All P (take n xs)
All-take P zero xs h = tt
All-take P (suc n) [] h = tt
All-take P (suc n) (x ∷ xs) h = (h.0, All-take P n xs h.1)

All-drop {κ} : (P : Payment → Type κ) (n : ℕ) (xs : List Payment) → All P xs → All P (drop n xs)
All-drop P zero xs h = h
All-drop P (suc n) [] h = tt
All-drop P (suc n) (x ∷ xs) h = All-drop P n xs h.1

seen_facts :
    (mahber viewer : ℕ) (m : Membership) (p : Payment)
    → is_seen mahber viewer m p ≡ true
    → (p.mahber_id ≡ mahber)
      × ((m.role.name ≡ "Admin")
          ⊎ (includes_text "manage_finances" m.role.permissions ≡ true)
          ⊎ (p.member_id ≡ viewer))
unfolding has_finance_access
seen_facts mahber viewer m p h = (
  ground arith,
  elim (Bool-cases (str_eq m.role.name "Admin")) [
    | inl admin ↦ inl ((eq_iff m.role.name "Admin").0 admin)
    | inr plain ↦ elim (Bool-cases (includes_text "manage_finances" m.role.permissions)) [
      | inl holder ↦ inr (inl holder)
      | inr none_held ↦ inr (inr (ground arith))
    ]
  ],
)

-- Every payment in a page that a viewer gets is of the organization, and the viewer's own unless
-- the viewer's role there is called Admin or holds `manage_finances`.
pub find_all_payments-seen :
    (insensitive : String → String → Bool) (ref_text : ℕ → String) (mahber viewer page limit : ℕ)
    (filters : Filters) (s : Db) (m : Membership) (found : Paged Payment)
    → membership_of mahber viewer s ≡ some m
    → (find_all_payments insensitive ref_text mahber viewer page limit filters s).0 ≡ ok found
    → All
        (λ p.
          (p.mahber_id ≡ mahber)
          × ((m.role.name ≡ "Admin")
              ⊎ (includes_text "manage_finances" m.role.permissions ≡ true)
              ⊎ (p.member_id ≡ viewer)))
        found.rows
unfolding find_all_payments
find_all_payments-seen insensitive ref_text mahber viewer page limit filters s m found there h =
    let Shown : Payment → Type 0 = λ p.
      (p.mahber_id ≡ mahber)
      × ((m.role.name ≡ "Admin")
          ⊎ (includes_text "manage_finances" m.role.permissions ≡ true)
          ⊎ (p.member_id ≡ viewer)) in
    let test : Payment → Bool =
      λ p. is_seen mahber viewer m p && passes insensitive ref_text filters p in
    let eq : paged page limit (select test s.payments) ≡ found = ground arith in
    subst (λ f. All Shown f.rows) eq
      (All-take Shown limit _ (
        All-drop Shown ((page - 1) * limit) _ (
          All-select Shown test s.payments
            (λ a ok_a. seen_facts mahber viewer m a (ground arith)))))

-- A payment is shown exactly if it is of the organization and the viewer has a membership there,
-- with access to the finances or as the payer.
pub find_one_payment_iff :
    (mahber id viewer : ℕ) (s : Db)
    → is_ok (find_one_payment mahber id (some viewer) s).0
      ≡ elim (find (payment_in mahber id) s.payments) [
        | none ↦ false
        | some p ↦ elim (membership_of mahber viewer s) [
          | none ↦ false
          | some m ↦ has_finance_access m || (p.member_id == viewer)
        ]
      ]
unfolding find_one_payment
find_one_payment_iff mahber id viewer s = ground arith

-- A message whose signature is not the digest of its body changes nothing, and is answered with an
-- error.
pub handle_chapa_webhook-forged :
    (crypto : Crypto) (parse : String → Payload) (secret : String) (cal : Calendar) (now entry : ℕ)
    (signature body : String) (s : Db)
    → same_bytes (crypto.hmac secret body) (crypto.from_hex signature) ≡ false
    → let (r, t) = handle_chapa_webhook crypto parse secret cal now entry (some signature) body s in
      (is_ok r ≡ false) × (t ≡ s)
unfolding handle_chapa_webhook verify_webhook_signature
handle_chapa_webhook-forged crypto parse secret cal now entry signature body s forged =
    (ground arith, ground arith)

-- Where a reconciliation returns, for a payment that is stored and whose success or failure the
-- provider reports, a later message about the same reference returns and changes nothing.
pub reconcile_payment-process_webhook :
    (verify : ℕ → Result Verification) (cal : Calendar) (now entry now' entry' ref : ℕ)
    (payload : Payload) (v : Verification) (p : Payment) (s : Db)
    → verify ref ≡ ok v
    → payment_of ref s ≡ some p
    → (outcome_of (some v.status) ≡ success) ⊎ (outcome_of (some v.status) ≡ failed)
    → (reconcile_payment verify cal now entry ref s).0 ≡ ok tt
    → payload.tx_ref ≡ some ref
    → let t = (reconcile_payment verify cal now entry ref s).1 in
      process_webhook cal now' entry' payload t ≡ (ok tt, t)
unfolding reconcile_payment
reconcile_payment-process_webhook verify cal now entry now' entry' ref payload v p s answers known
      outcome h names =
    let message : Payload = record {
      tx_ref = some ref;
      status = some v.status;
      reference = some v.tx_ref;
    } in
    let run : (process_webhook cal now entry message s).0 ≡ ok tt = ground arith in
    rw answers (
      process_webhook_once cal now entry ref message s p now' entry' payload refl known outcome run
        names)
