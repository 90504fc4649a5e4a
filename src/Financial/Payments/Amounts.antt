-- ===== src/Financial/Payments/Amounts.antt =====
-- What a member is shown as owed against what a payment asks for, and what paying it moves.
use mathlib.Core.Option
use mahber_connect_backend.Prelude.{
  ℕ, String, ◌≡◌, refl, ◌⊎◌, inl, inr, false, Option, none, some, List, arith, ℤ, ◌+ℤ◌, ◌≤ℤ◌, ltb_ℤ,
  pos, find,
}
use mahber_connect_backend.Db.{MembershipStatus, Mahber, Membership, Fine, Db}
use mahber_connect_backend.Exec.{Error, Result, ok, err}
use mahber_connect_backend.Dates.{add_frequency}
use mahber_connect_backend.Membership.Access.{membership_of}
use mahber_connect_backend.Financial.Payments.{
  mahber_has_id, outstanding_fines, fine_total, join_fee_amount, contribution_is_due,
  join_fee_is_due, Obligations, get_outstanding_obligations,
}
use mahber_connect_backend.Financial.Payments.Initiate.{
  Outside, select_fines, Plan, amount_due, cycle_end, plan_of, new_payment, initiate_payment,
}
use mahber_connect_backend.Financial.Payments.Initiate.Laws.{
  initiate_payment-keeps, sum-outstanding, select_fines-all, initiate_payment-stored,
}
use mahber_connect_backend.Financial.Payments.Webhook.{
  Payload, has_tx_ref, outcome_of, named, process_webhook, success,
}
use mahber_connect_backend.Financial.Payments.Webhook.Effects.{process_webhook-activates}

Result-cases {ℓ} :
    {A : Type ℓ} (r : Result A) → ((a : A) × (r ≡ ok a)) ⊎ ((e : Error) × (r ≡ err e))
Result-cases (ok a) = inl (a, refl)
Result-cases (err e) = inr (e, refl)

new_payment-amount :
    (x : Outside) (mahber member : ℕ) (m : Membership) (o : Mahber) (plan : Plan)
    → (new_payment x mahber member m o plan).amount ≡ amount_due plan o
unfolding new_payment
new_payment-amount x mahber member m o plan = refl

-- A join fee that is neither positive nor negative is nothing.
non_negative_fee : (fee : ℤ) → pos 0 ≤ℤ fee → ltb_ℤ (pos 0) fee ≡ false → fee ≡ pos 0
non_negative_fee fee h n = ground arith

module _ (x : Outside) (mahber member : ℕ) (s : Db) (m : Membership) (o : Mahber)
    (found : membership_of mahber member s ≡ some m)
    (known : find (mahber_has_id mahber) s.mahbers ≡ some o) where
  selection_refused :
      (ids : Option (List ℕ)) (e : Error) (r : String × ℕ)
      → select_fines ids (outstanding_fines mahber member s) ≡ err e
      → (initiate_payment x mahber member ids s).0 ≡ ok r
      → ⊥
  unfolding initiate_payment
  selection_refused ids e r refused h = ground arith

  obligations_total :
      (b : Obligations)
      → (get_outstanding_obligations x.now mahber member s).0 ≡ ok b
      → pos 0 ≤ℤ join_fee_amount o
      → b.total_outstanding ≡ amount_due (plan_of x m o (outstanding_fines mahber member s)) o
  unfolding get_outstanding_obligations plan_of
  obligations_total b h fee = ground (
    arith,
    sum-outstanding (outstanding_fines mahber member s),
    non_negative_fee (join_fee_amount o),
  )

  -- For a member and an organization that are found, where the join fee is not negative and both
  -- calls return, a payment that names no fines asks for exactly the total that the member is
  -- shown as outstanding.
  pub initiate_payment-amount :
      (b : Obligations) (url : String) (ref : ℕ)
      → (get_outstanding_obligations x.now mahber member s).0 ≡ ok b
      → (initiate_payment x mahber member none s).0 ≡ ok (url, ref)
      → pos 0 ≤ℤ join_fee_amount o
      → Option.map
          (λ p. p.amount)
          (find (has_tx_ref x.tx_ref) (initiate_payment x mahber member none s).1.payments)
        ≡ some b.total_outstanding
  initiate_payment-amount b url ref shown h fee =
      elim (Result-cases (select_fines none (outstanding_fines mahber member s))) [
        | inr (e, refused) ↦ absurd (selection_refused none e (url, ref) refused h)
        | inl (selected, chosen) ↦ ground (
          arith,
          initiate_payment-stored x mahber member s none url ref m o selected h found known chosen,
          select_fines-all (outstanding_fines mahber member s) selected chosen,
          obligations_total b shown fee,
          new_payment-amount x mahber member m o (plan_of x m o selected),
        )
      ]

  -- A payment of an Active member whose contribution is not yet due asks for the selected fines
  -- alone. When it succeeds, the next contribution is due one period later than it was, though no
  -- contribution was paid.
  pub fines_payment-advances :
      (now entry due : ℕ) (ids : Option (List ℕ)) (selected : List Fine) (payload : Payload)
      (url : String) (ref : ℕ)
      → m.status ≡ MembershipStatus.active
      → m.next_payment_due ≡ some due
      → contribution_is_due x.now m o ≡ false
      → select_fines ids (outstanding_fines mahber member s) ≡ ok selected
      → (initiate_payment x mahber member ids s).0 ≡ ok (url, ref)
      → payload.tx_ref ≡ some x.tx_ref
      → outcome_of payload.status ≡ success
      → let t = (initiate_payment x mahber member ids s).1 in
        (Option.map (λ p. p.amount) (find (has_tx_ref x.tx_ref) t.payments)
          ≡ some (pos 0 +ℤ pos 0 +ℤ fine_total selected))
        × (Option.map
              (λ a. a.next_payment_due)
              (membership_of mahber member (process_webhook x.calendar now entry payload t).1)
            ≡ some (cycle_end x o (some due)))
  unfolding plan_of new_payment join_fee_is_due
  fines_payment-advances now entry due ids selected payload url ref active_now due_at not_due chosen
        h names won =
      let stored =
        initiate_payment-stored x mahber member s ids url ref m o selected h found known chosen in
      let p = record (new_payment x mahber member m o (plan_of x m o selected)) {
        checkout_url = some url;
      } in
      let t = (initiate_payment x mahber member ids s).1 in
      let is_named : named payload t ≡ some p = ground arith in
      let same : membership_of mahber member t ≡ some m =
        rw (initiate_payment-keeps x mahber member s ids).0 found in
      (
        ground (arith, stored),
        (process_webhook-activates x.calendar now entry payload t p is_named refl won
            (add_frequency x.calendar due o.configuration.payment_frequency) m (ground arith)
            same).1,
      )
