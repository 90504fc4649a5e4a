-- ===== src/Tests/Reach.antt =====
-- Databases that some calls reach.
use mahber_connect_backend.Prelude.{◌≤◌, ◌==◌, count, some, none}
use mahber_connect_backend.Db.{Db, empty_db}
use mahber_connect_backend.Auth.Accounts.{Register, register as enroll}
use mahber_connect_backend.System.Guarded.{guarded, IsIntact}
use mahber_connect_backend.System.Accounts.{enter}
use mahber_connect_backend.Communication.Notifications.{register_device}
use mahber_connect_backend.System.Talk.{register}
use mahber_connect_backend.System.Money.{webhook}
use mahber_connect_backend.System.Growth.{same, after, Later-ledger}
use mahber_connect_backend.Financial.Payments.Webhook.{Payload, process_webhook}
use mahber_connect_backend.Tests.Samples.{calendar, db}
use mahber_connect_backend.System.Reach.{money, start, next, account, talk, Reach-IsIntact}

abbrev form : Register
form = record { phone = "+251911111111"; password = "secret"; name = "A"; email = none; bio = none }

abbrev entered : Db
entered = (enroll (λ p. p) 1 form empty_db).1

abbrev equipped : Db
equipped = register_device 1 "token" "ios" entered

Reach-IsIntact_example : IsIntact (guarded equipped)
Reach-IsIntact_example =
    Reach-IsIntact equipped
      (next (next start (account (enter (λ p. p) 1 form))) (talk (register 1 "token" "ios")))

abbrev paid : Payload
paid = record { tx_ref = some 60; status = some "success"; reference = none }

Later-ledger_example :
    count (λ e. e.member_id == 3) db.ledger
    ≤ count (λ e. e.member_id == 3) (process_webhook calendar 30 2 paid db).1.ledger
Later-ledger_example =
    Later-ledger db (process_webhook calendar 30 2 paid db).1
      (after same (money (webhook calendar 30 2 paid))) (λ e. e.member_id == 3)
