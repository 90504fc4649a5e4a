-- ===== src/Financial/Payouts.antt =====
-- src/financial/payout.service.ts. The listings stand in Financial/Reports.
pub mod Laws
use mahber_connect_backend.Prelude.{
  ℕ, String, Bool, not, ◌&&◌, none, some, ◌∷◌, ◌==◌, is_some, find, update_where,
}
use mahber_connect_backend.Db.{
  TransactionType, PayoutCategory, is_active, Membership, Payout, AuditEntry,
}
use mahber_connect_backend.Db.Decimals.{Decimal, rounded, less_than}
use mahber_connect_backend.Exec.{Exec, pure, gets, ◌>>=◌, ◌>>◌, throw_if, modify, bad_request}
use mahber_connect_backend.Financial.Ledger.{LedgerData, create_ledger_entry, current_balance}

-- CreatePayoutDto
pub record CreatePayout : Type 0 where
  pub member_id : ℕ
  pub amount : Decimal
  pub category : PayoutCategory
  pub reason : String

unfoldable pub map_category_to_transaction_type : PayoutCategory → TransactionType
map_category_to_transaction_type PayoutCategory.iddir_benefit = TransactionType.iddir_payout
map_category_to_transaction_type _ = TransactionType.payout

-- `status: 'Active'` and of this organization and member
abbrev pub is_recipient : ℕ → ℕ → Membership → Bool
is_recipient mahber member m =
    (m.mahber_id == mahber) && (m.member_id == member) && is_active m.status

abbrev pub payout_has_id : ℕ → Payout → Bool
payout_has_id id p = p.id == id

abbrev audit_payout : ℕ → ℕ → ℕ → AuditEntry
audit_payout mahber id actor = record {
  mahber_id = mahber;
  entity_type = "payout";
  entity_id = id;
  action = "payout_created";
  actor_id = some actor;
}

-- The ledger entry of a payout.
abbrev pub payout_entry : ℕ → ℕ → CreatePayout → LedgerData
payout_entry id mahber dto = record {
  mahber_id = mahber;
  member_id = dto.member_id;
  transaction_type = map_category_to_transaction_type dto.category;
  amount = dto.amount;
  description = dto.reason;
  payment_id = none;
  fine_id = none;
  lottery_id = none;
  expense_id = none;
  payout_id = some id;
}

-- `id` and `entry` are the ids of the new payout and of its ledger entry.
unfoldable pub create_payout : ℕ → ℕ → ℕ → ℕ → CreatePayout → ℕ → Exec Payout
create_payout now id entry mahber dto approved_by = do
  recipient ← gets (λ s. find (is_recipient mahber dto.member_id) s.memberships)
  throw_if (not (is_some recipient))
      (bad_request "Recipient must be an active member of this mahber")
  balance ← gets (current_balance mahber)
  throw_if (less_than balance dto.amount) (bad_request "Insufficient balance")
  let payout : Payout = record {
    id = id;
    mahber_id = mahber;
    member_id = dto.member_id;
    amount = rounded dto.amount;
    category = dto.category;
    reason = dto.reason;
    approved_by = approved_by;
    paid_at = none;
  }
  modify (λ s. record s { payouts = payout ∷ s.payouts })
  create_ledger_entry now entry (payout_entry id mahber dto)
  modify (λ s. record s {
    payouts = update_where (payout_has_id id) (λ p. record p { paid_at = some now }) s.payouts;
    audit_trail = audit_payout mahber id approved_by ∷ s.audit_trail;
  })
  pure payout
