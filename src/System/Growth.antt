-- ===== src/System/Growth.antt =====
-- The ledger over sequences of calls: no entry is lost or changed.
use mahber_connect_backend.Prelude.{◌≤◌, ◌≡◌, ap, Bool, arith, count}
use mahber_connect_backend.Db.{LedgerEntry, Db}
use mahber_connect_backend.System.Money.{
  MoneyStep, webhook, callback, join, initiate, retry, payout, propose, approve, reject, waive,
  draw, fine_job, absences, join-frame, initiate-frame, retry-frame, create_expense-frame,
  reject-frame, waive-frame,
}
use mahber_connect_backend.System.Gatherings.{EventStep-ledger}
use mahber_connect_backend.System.Talk.{TalkStep-ledger}
use mahber_connect_backend.System.Accounts.{AccountStep-ledger}
use mahber_connect_backend.System.Members.{MemberStep-ledger}
use mahber_connect_backend.System.Reach.{Step, money, gathering, talk, account, member}
use mahber_connect_backend.System.History.{
  entries, process_webhook-entries, handle_chapa_callback-entries, create_payout-entries,
  approve_expense-entries, execute_lottery-entries, process-entries,
  process_event_attendance-entries,
}

module _ (q : LedgerEntry → Bool) where
  same-entries : (s t : Db) → t.ledger ≡ s.ledger → entries q s ≤ entries q t
  same-entries s t same = let e = ap (count q) same in omega (arith, e)

  MoneyStep-entries : {s t : Db} → MoneyStep s t → entries q s ≤ entries q t
  MoneyStep-entries {s = s} (webhook cal now entry payload) =
      process_webhook-entries q s cal now entry payload
  MoneyStep-entries {s = s} (callback valid cal now id entry message) =
      handle_chapa_callback-entries q s valid cal now id entry message
  MoneyStep-entries {s = s} {t = t} (join x mahber user) =
      same-entries s t (ap (λ g. g.ledger) (join-frame s x mahber user))
  MoneyStep-entries {s = s} {t = t} (initiate x mahber who fines) =
      same-entries s t (ap (λ g. g.ledger) (initiate-frame s x mahber who fines))
  MoneyStep-entries {s = s} {t = t} (retry x mahber payment who) =
      same-entries s t (ap (λ g. g.ledger) (retry-frame s x mahber payment who))
  MoneyStep-entries {s = s} (payout now id entry mahber dto by) =
      create_payout-entries q s now id entry mahber dto by
  MoneyStep-entries {s = s} {t = t} (propose id mahber dto by) =
      same-entries s t (ap (λ g. g.ledger) (create_expense-frame s id mahber dto by))
  MoneyStep-entries {s = s} (approve is_number transfer now entry id mahber by) =
      approve_expense-entries q s is_number transfer now entry id mahber by
  MoneyStep-entries {s = s} {t = t} (reject now id mahber by reason) =
      same-entries s t (ap (λ g. g.ledger) (reject-frame s now id mahber by reason))
  MoneyStep-entries {s = s} {t = t} (waive now id mahber by reason) =
      same-entries s t (ap (λ g. g.ledger) (waive-frame s now id mahber by reason))
  MoneyStep-entries {s = s} (draw percent now ids seed mahber cost threshold by) =
      execute_lottery-entries q s percent now ids seed mahber cost threshold by
  MoneyStep-entries {s = s} (fine_job percent now new_ids) = process-entries q percent now new_ids s
  MoneyStep-entries {s = s} (absences percent id_text now new_ids mahber event) =
      process_event_attendance-entries q percent now new_ids id_text mahber event s

  Step-entries : (s t : Db) → Step s t → entries q s ≤ entries q t
  Step-entries s t (money m) = MoneyStep-entries m
  Step-entries s t (gathering g) = same-entries s t (EventStep-ledger g)
  Step-entries s t (talk k) = same-entries s t (TalkStep-ledger k)
  Step-entries s t (account a) = same-entries s t (AccountStep-ledger a)
  Step-entries s t (member m) = same-entries s t (MemberStep-ledger m)

-- What any number of calls leave of a database.
pub data Later (s : Db) : Db → Type 0 where
  same : Later s s
  after : {t u : Db} → Later s t → Step t u → Later s u

-- The calls of `Step` never remove or change a ledger entry, in any number and order and whether
-- they return or throw: for every test on entries, at least as many entries pass it later.
pub Later-ledger :
    (s t : Db) → Later s t → (q : LedgerEntry → Bool) → count q s.ledger ≤ count q t.ledger
Later-ledger s _ same q = omega arith
Later-ledger s _ (after {t = t} {u = u} l step) q =
    let before = Later-ledger s t l q in
    let last = Step-entries q t u step in omega (arith, before, last)
