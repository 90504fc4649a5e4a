-- ===== src/Financial/Ledger.antt =====
-- src/financial/ledger.service.ts: the writes, the balance and the paged listing. The CSV and PDF
-- exports are not modelled.
pub mod Balance
use mahber_connect_backend.Prelude.{
  ℕ, ◌+◌, ◌-◌, ◌*◌, ◌/◌, String, Bool, true, ◌&&◌, Option, none, some, List, ◌∷◌, leb, ◌==◌,
  sum_where, ℤ, pos, length, take, drop, find, select,
}
use mahber_connect_backend.Db.{TransactionType, LedgerEntry, Db}
use mahber_connect_backend.Db.Decimals.{Decimal, rounded, add_to}
use mahber_connect_backend.Exec.{Exec, ok}

-- CreateLedgerEntryData; the amount is not yet rounded to the column.
pub record LedgerData : Type 0 where
  pub mahber_id : ℕ
  pub member_id : ℕ
  pub transaction_type : TransactionType
  pub amount : Decimal
  pub description : String
  pub payment_id : Option ℕ
  pub fine_id : Option ℕ
  pub lottery_id : Option ℕ
  pub expense_id : Option ℕ
  pub payout_id : Option ℕ

-- `where: { mahber_id, member_id }`
abbrev pub entry_of : ℕ → ℕ → LedgerEntry → Bool
entry_of mahber member e = (e.mahber_id == mahber) && (e.member_id == member)

abbrev pub entry_amount : LedgerEntry → ℤ
entry_amount e = e.amount

-- `lastEntry?.running_balance ?? 0`; the newest entry of the member comes first.
abbrev pub previous_balance : Option LedgerEntry → ℤ
previous_balance none = pos 0
previous_balance (some e) = e.running_balance

-- The two columns are rounded each for itself.
abbrev pub new_entry : ℕ → ℕ → LedgerData → ℤ → LedgerEntry
new_entry now id d previous = record {
  id = id;
  mahber_id = d.mahber_id;
  member_id = d.member_id;
  transaction_type = d.transaction_type;
  amount = rounded d.amount;
  running_balance = rounded (add_to previous d.amount);
  payment_id = d.payment_id;
  fine_id = d.fine_id;
  lottery_id = d.lottery_id;
  expense_id = d.expense_id;
  payout_id = d.payout_id;
  description = d.description;
  created_at = now;
}

unfoldable pub create_ledger_entry : ℕ → ℕ → LedgerData → Exec LedgerEntry
create_ledger_entry now id d s =
    let last_entry = find (entry_of d.mahber_id d.member_id) s.ledger in
    let entry = new_entry now id d (previous_balance last_entry) in
    (ok entry, record s { ledger = entry ∷ s.ledger })

-- `getMemberBalance`: the sum over all entries of the member.
unfoldable pub get_member_balance : ℕ → ℕ → Db → ℤ
get_member_balance mahber member s = sum_where (entry_of mahber member) entry_amount s.ledger

abbrev pub entry_in : ℕ → LedgerEntry → Bool
entry_in mahber e = e.mahber_id == mahber

-- The aggregate of expense.service.ts, payout.service.ts and lottery.service.ts: what the
-- organization holds.
unfoldable pub current_balance : ℕ → Db → ℤ
current_balance mahber s = sum_where (entry_in mahber) entry_amount s.ledger

-- The date range of `getLedgerEntries`.
abbrev pub in_range : Option ℕ → Option ℕ → ℕ → Bool
in_range start end t =
    elim start [ none ↦ true | some a ↦ leb a t ] && elim end [ none ↦ true | some b ↦ leb t b ]

pub record Page : Type 0 where
  pub rows : List LedgerEntry
  pub total : ℕ
  pub page : ℕ
  pub limit : ℕ
  pub total_pages : ℕ

-- `skip` and `take`, and `Math.ceil(total / limit)`.
unfoldable pub get_ledger_entries : ℕ → ℕ → ℕ → ℕ → Option ℕ → Option ℕ → Db → Page
get_ledger_entries mahber member page limit start end s =
    let found =
      select (λ e. entry_of mahber member e && in_range start end e.created_at) s.ledger in
    record {
      rows = take limit (drop ((page - 1) * limit) found);
      total = length found;
      page = page;
      limit = limit;
      total_pages = (length found + limit - 1) / limit;
    }
