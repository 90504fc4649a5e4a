-- ===== src/Financial/Joining/Laws.antt =====
-- Theorems on joining: who is let in, and the way from the fee to an active membership.
use mathlib.Core.Option
use mahber_connect_backend.Prelude.{
  ℕ, String, ◌≡◌, refl, inl, inr, Bool, true, false, none, some, ◌∷◌, arith, ◌==◌, Option-cases,
  ==-refl, sum_where, ℤ, ◌+ℤ◌, find, update_where, find-update_where,
}
use mahber_connect_backend.Db.{MembershipStatus, Mahber, Membership, Db}
use mahber_connect_backend.Exec.{forbidden, ok, err}
use mahber_connect_backend.Dates.{Calendar}
use mahber_connect_backend.Membership.Access.{is_of, membership_of}
use mahber_connect_backend.Financial.Ledger.{create_ledger_entry, get_member_balance}
use mahber_connect_backend.Financial.Callback.{
  Message, paid_member, settle_pending, handle_chapa_callback, succeeded,
}
use mahber_connect_backend.Financial.Joining.{
  new_pending, Outside, join_error, new_member, join_fee, due_after, join_with_fee, joined_now,
  store_member, join_mahber, payment_required, joined,
}

module _ (x : Outside) (mahber user : ℕ) (s : Db) where
  -- A Suspended member of an organization without a fee who joins is Active at once, without an
  -- administrator and with a new date of joining, and the end and the reason of the suspension stay
  -- in the row.
  pub join_mahber-reinstates :
      (o : Mahber) (m : Membership)
      → find (λ o. o.id == mahber) s.mahbers ≡ some o
      → membership_of mahber user s ≡ some m
      → m.status ≡ MembershipStatus.suspended
      → join_fee o.configuration ≡ none
      → let (r, t) = join_mahber x mahber user s in
        (m' : Membership) × (r ≡ ok joined)
        × (membership_of mahber user t ≡ some m')
        × (m'.status ≡ MembershipStatus.active)
        × (m'.suspended_until ≡ m.suspended_until)
        × (m'.suspension_reason ≡ m.suspension_reason)
        × (m'.joined_at ≡ some x.now)
  unfolding join_mahber join_error store_member
  join_mahber-reinstates o m found there suspended free =
      let due = due_after x o.configuration x.now in
      let kept =
        find-update_where (is_of mahber user) (λ r. r.id == m.id) (joined_now x.now due)
          s.memberships (λ a. refl) in
      (joined_now x.now due m, ground arith, ground (arith, ==-refl m.id), refl, refl, refl, refl)

  -- A user without a membership does not get into a private organization: the call is refused and
  -- changes nothing.
  pub join_mahber-private :
      (o : Mahber)
      → find (λ o. o.id == mahber) s.mahbers ≡ some o
      → membership_of mahber user s ≡ none
      → o.is_public ≡ false
      → join_mahber x mahber user s ≡ (
        err (
            forbidden
              "This is a private Mahber. You must be invited or approved by an admin first."),
        s,
      )
  unfolding join_mahber join_error
  join_mahber-private o found missing private = ground arith

  -- A newcomer who joins an organization with a fee has a membership that waits for the payment.
  join_mahber-waits :
      (o : Mahber) (amount : ℤ) (url : String) (token : ℕ)
      → find (λ o. o.id == mahber) s.mahbers ≡ some o
      → membership_of mahber user s ≡ none
      → (join_mahber x mahber user s).0 ≡ ok (payment_required amount url token)
      → let t = (join_mahber x mahber user s).1 in
        (token ≡ x.pending_id)
        × (t.pending_payments ≡ new_pending x.pending_id mahber user amount ∷ s.pending_payments)
        × (t.memberships
            ≡ new_member x.membership_id mahber user MembershipStatus.payment_required none none
              ∷ s.memberships)
        × (t.ledger ≡ s.ledger)
        × (t.mahbers ≡ s.mahbers)
  unfolding join_mahber join_with_fee
  join_mahber-waits o amount url token found missing h =
      elim (Option-cases (join_fee o.configuration)) [
        | inl free ↦ ground arith
        | inr (fee, asked) ↦ (ground arith, ground arith, ground arith, ground arith, ground arith)
      ]

  -- A newcomer who joins an organization with a fee and whose payment then succeeds is an Active
  -- member, and the fee stands in the ledger as the member's.
  pub join_mahber-callback :
      (valid : String → Bool) (cal : Calendar) (now id entry : ℕ) (signature : String) (o : Mahber)
      (amount : ℤ) (url : String) (token : ℕ)
      → find (λ o. o.id == mahber) s.mahbers ≡ some o
      → membership_of mahber user s ≡ none
      → valid signature ≡ true
      → (join_mahber x mahber user s).0 ≡ ok (payment_required amount url token)
      → let message : Message = record {
        signature = some signature;
        tx_ref = some token;
        status = some "success";
      } in
        let (r, t) =
          handle_chapa_callback valid cal now id entry message (join_mahber x mahber user s).1 in
        (r ≡ ok succeeded)
        × (Option.map (λ m. m.status) (membership_of mahber user t) ≡ some MembershipStatus.active)
        × (get_member_balance mahber user t ≡ amount +ℤ get_member_balance mahber user s)
  unfolding handle_chapa_callback settle_pending create_ledger_entry get_member_balance sum_where
      find update_where paid_member
  join_mahber-callback valid cal now id entry signature o amount url token found missing good h =
      let (same, pending, members, entries, mahbers) =
        join_mahber-waits o amount url token found missing h in
      let token_eq = ==-refl token in
      let user_eq = ==-refl user in
      let mahber_eq = ==-refl mahber in
      let row_eq = ==-refl x.membership_id in (ground arith, ground arith, ground arith)
