-- ===== src/Tests/Joins.antt =====
-- Tests of joining, its payment, and the provider's messages.
use mathlib.Core.Option
use mahber_connect_backend.Prelude.{
  ◌⊎◌, ℕ, String, ◌≡◌, refl, inl, Bool, true, none, some, [], ◌∷◌, str_eq, Paged, paged, ◌+ℤ◌, pos,
  All, find, update_where, contains,
}
use mahber_connect_backend.Db.{Membership, MembershipStatus, Mahber, Payment, Db}
use mahber_connect_backend.Exec.{Result, ok}
use mahber_connect_backend.Membership.Access.{includes_text, membership_of}
use mahber_connect_backend.Financial.Ledger.{create_ledger_entry, get_member_balance}
use mahber_connect_backend.Financial.Joining.{
  Outside, join_error, join_fee, join_with_fee, join_mahber, joined,
}
use mahber_connect_backend.Financial.Joining.Laws.{join_mahber-reinstates, join_mahber-callback}
use mahber_connect_backend.Financial.Callback.{
  Message, settle_pending, handle_chapa_callback, succeeded,
}
use mahber_connect_backend.Financial.Callback.Laws.{handle_chapa_callback_once}
use mahber_connect_backend.Financial.Payments.Queries.{
  Filters, find_all_payments, Verification, reconcile_payment,
}
use mahber_connect_backend.Financial.Payments.Queries.Laws.{
  find_all_payments-seen, reconcile_payment-process_webhook,
}
use mahber_connect_backend.Dates.{lower_is}
use mahber_connect_backend.Financial.Payments.Webhook.{Payload, process_webhook, outcome_of}
use mahber_connect_backend.Tests.Samples.{
  calendar, value, member, away, configuration, club, payment, db,
}

abbrev with_fee : Mahber
with_fee = record club {
  configuration = record configuration {
    join_fee_required = some true;
    join_fee_amount = some (pos 50);
  };
}

abbrev fee_db : Db
fee_db = record db { mahbers = with_fee ∷ [] }

abbrev outside : Outside
outside = record {
  now = 20;
  pending_id = 80;
  membership_id = 81;
  calendar = calendar;
  initialize = λ p. ok "https://pay";
}

abbrev accept : String → Bool
accept signature = str_eq signature "signed"

abbrev paid_message : Message
paid_message = record { signature = some "signed"; tx_ref = some 80; status = some "success" }

join_mahber-callback_example :
    let (r, t) =
      handle_chapa_callback accept calendar 30 90 91 paid_message
        (join_mahber outside 1 9 fee_db).1 in
    (r ≡ ok succeeded)
    × (Option.map (λ m. m.status) (membership_of 1 9 t) ≡ some MembershipStatus.active)
    × (get_member_balance 1 9 t ≡ pos 50 +ℤ get_member_balance 1 9 fee_db)
unfolding join_mahber join_error join_fee join_with_fee find
join_mahber-callback_example =
    join_mahber-callback outside 1 9 fee_db accept calendar 30 90 91 "signed" with_fee (pos 50)
      "https://pay" 80 refl refl refl refl

join_mahber-reinstates_example :
    let (r, t) = join_mahber outside 1 4 db in
    (m' : Membership) × (r ≡ ok joined)
    × (membership_of 1 4 t ≡ some m')
    × (m'.status ≡ MembershipStatus.active)
    × (m'.suspended_until ≡ away.suspended_until)
    × (m'.suspension_reason ≡ away.suspension_reason)
    × (m'.joined_at ≡ some 20)
unfolding join_mahber join_fee find
join_mahber-reinstates_example = join_mahber-reinstates outside 1 4 db club away refl refl refl refl

abbrev waiting_db : Db
waiting_db = (join_mahber outside 1 9 fee_db).1

abbrev late_message : Message
late_message = record { signature = some "signed"; tx_ref = some 80; status = some "failed" }

handle_chapa_callback_once_example :
    (handle_chapa_callback accept calendar 40 92 93 late_message
      (handle_chapa_callback accept calendar 30 90 91 paid_message waiting_db).1).1
    ≡ (handle_chapa_callback accept calendar 30 90 91 paid_message waiting_db).1
unfolding join_mahber join_error join_fee join_with_fee find handle_chapa_callback settle_pending
    update_where lower_is create_ledger_entry
handle_chapa_callback_once_example =
    handle_chapa_callback_once accept calendar 30 90 91 paid_message waiting_db 40 92 93
      late_message succeeded refl refl

abbrev no_filters : Filters
no_filters = record { status = none; kind = none; start = none; end = none; search = none }

abbrev found_page : Paged Payment
found_page =
    value (find_all_payments contains (λ n. "ref") 1 3 1 10 no_filters db).0 (paged 1 10 [])

find_all_payments-seen_example :
    All
      (λ p.
        (p.mahber_id ≡ 1)
        × ((member.role.name ≡ "Admin")
            ⊎ (includes_text "manage_finances" member.role.permissions ≡ true)
            ⊎ (p.member_id ≡ 3)))
      found_page.rows
unfolding find_all_payments find
find_all_payments-seen_example =
    find_all_payments-seen contains (λ n. "ref") 1 3 1 10 no_filters db member found_page refl refl

abbrev answer : ℕ → Result Verification
answer ref = ok (record { tx_ref = ref; status = "success" })

abbrev repeat : Payload
repeat = record { tx_ref = some 60; status = some "failed"; reference = none }

reconcile_payment-process_webhook_example :
    process_webhook calendar 40 3 repeat (reconcile_payment answer calendar 30 2 60 db).1
    ≡ (ok tt, (reconcile_payment answer calendar 30 2 60 db).1)
unfolding reconcile_payment process_webhook create_ledger_entry find update_where outcome_of
    lower_is
reconcile_payment-process_webhook_example =
    reconcile_payment-process_webhook answer calendar 30 2 40 3 60 repeat
      (record { tx_ref = 60; status = "success" }) payment db refl refl (inl refl) refl refl
