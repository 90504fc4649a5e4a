-- ===== src/Financial/Payments/Webhook/Effects.antt =====
-- What the success of a payment does to the fines and to the membership.
use mathlib.Core.Option
use mahber_connect_backend.Prelude.{
  ℕ, ◌≡◌, refl, false, some, List, [], ◌∷◌, arith, ==-refl, find, update_where, any,
  find-update_where,
}
use mahber_connect_backend.Db.{MembershipStatus, Membership, Payment, Fine, Db}
use mahber_connect_backend.Exec.{ok}
use mahber_connect_backend.Dates.{Calendar}
use mahber_connect_backend.Membership.Access.{is_of}
use mahber_connect_backend.Financial.Ledger.{create_ledger_entry}
use mahber_connect_backend.Financial.Payments.Webhook.{
  Payload, is_covered, settled, membership_has_id, next_membership, outcome_of, is_final, named,
  process_webhook, success,
}

pub next-same :
    (cal : Calendar) (now : ℕ) (p : Payment) (mahber member : ℕ) (m : Membership)
    → is_of mahber member (next_membership cal now p m) ≡ is_of mahber member m
next-same cal now p mahber member m = ground arith

not_covered_after :
    (now : ℕ) (p : Payment) (fines : List Fine)
    → any (is_covered p) (update_where (is_covered p) (settled now p) fines) ≡ false
unfolding any update_where
not_covered_after now p [] = refl
not_covered_after now p (f ∷ fines) = ground (arith, not_covered_after now p fines)

module _ (cal : Calendar) (now entry : ℕ) (payload : Payload) (s : Db) (p : Payment)
    (known : named payload s ≡ some p) (open_now : is_final p.status ≡ false)
    (won : outcome_of payload.status ≡ success) where
  -- After a success message for a payment that was not final, processed without an exception, no
  -- fine of the payment is left unpaid.
  pub process_webhook-settles :
      (process_webhook cal now entry payload s).0 ≡ ok tt
      → any (is_covered p) (process_webhook cal now entry payload s).1.fines ≡ false
  unfolding process_webhook create_ledger_entry
  process_webhook-settles h = ground (arith, not_covered_after now p s.fines)

  -- A success message for a payment that is not final and has a period, of a member who has a
  -- membership, makes the membership Active until the end of the period, whatever its status was,
  -- and leaves an end of suspension in place.
  pub process_webhook-activates :
      (end : ℕ) (m : Membership)
      → p.period_end ≡ some end
      → find (is_of p.mahber_id p.member_id) s.memberships ≡ some m
      → let t = (process_webhook cal now entry payload s).1 in
        let after = find (is_of p.mahber_id p.member_id) t.memberships in
        (Option.map (λ x. x.status) after ≡ some MembershipStatus.active)
        × (Option.map (λ x. x.next_payment_due) after ≡ some (some end))
        × (Option.map (λ x. x.suspended_until) after ≡ some m.suspended_until)
  unfolding process_webhook create_ledger_entry
  process_webhook-activates end m period found =
      let kept =
        find-update_where (is_of p.mahber_id p.member_id) (membership_has_id m.id)
          (next_membership cal now p) s.memberships (next-same cal now p p.mahber_id p.member_id) in
      ground (arith, kept, ==-refl m.id)
