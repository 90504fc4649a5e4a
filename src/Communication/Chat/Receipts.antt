-- ===== src/Communication/Chat/Receipts.antt =====
-- Theorems on read receipts and the count of unread messages.
use mahber_connect_backend.Prelude.{
  ℕ, ◌+◌, ◌≡◌, ◌∙◌, inl, inr, List, [], ◌∷◌, arith, Bool-cases, Option-cases, IsOnePair,
  IsOnePair-new, any-eq_false-count, length, any,
}
use mahber_connect_backend.Db.{ChatMessage, ChatReadReceipt, Db}
use mahber_connect_backend.Membership.Access.{active_membership_of}
use mahber_connect_backend.Communication.Chat.{
  receipt_of, add_receipts, to_mark, mark_messages_read,
}

-- No member has two receipts for one message: the table's unique key.
abbrev pub IsOneReceipt : List ChatReadReceipt → Type 0
IsOneReceipt rows = IsOnePair (λ r. r.message_id) (λ r. r.member_id) rows

add_receipts-IsOneReceipt :
    (now member : ℕ) (ms : List ChatMessage) (rows : List ChatReadReceipt)
    → IsOneReceipt rows
    → IsOneReceipt (add_receipts now member ms rows).1
unfolding add_receipts
add_receipts-IsOneReceipt now member [] rows h = h
add_receipts-IsOneReceipt now member (m ∷ ms) rows h =
    elim (Bool-cases (any (receipt_of m.id member) rows)) [
      | inl known ↦ rw known (add_receipts-IsOneReceipt now member ms rows h)
      | inr new ↦ rw new (
          add_receipts-IsOneReceipt now member ms _ (
            IsOnePair-new (λ r. r.message_id) (λ r. r.member_id)
              (record { message_id = m.id; member_id = member; read_at = now }) rows
              (any-eq_false-count (receipt_of m.id member) rows new) h))
    ]

add_receipts-count :
    (now member : ℕ) (ms : List ChatMessage) (rows : List ChatReadReceipt)
    → length (add_receipts now member ms rows).1 ≡ (add_receipts now member ms rows).0 + length rows
unfolding add_receipts
add_receipts-count now member [] rows = omega arith
add_receipts-count now member (m ∷ ms) rows =
    elim (Bool-cases (any (receipt_of m.id member) rows)) [
      | inl known ↦ rw known (add_receipts-count now member ms rows)
      | inr new ↦ rw new (add_receipts-count now member ms _ ∙ omega arith)
    ]

module _ (now mahber member : ℕ) (ids : List ℕ) (s : Db) where
  -- If no member has two receipts for one message, none has after a call of `markMessagesRead`.
  pub mark_messages_read-IsOneReceipt :
      IsOneReceipt s.read_receipts
      → IsOneReceipt (mark_messages_read now mahber member ids s).1.read_receipts
  unfolding mark_messages_read
  mark_messages_read-IsOneReceipt h = elim (Option-cases (active_membership_of mahber member s)) [
    | inl none_active ↦ rw none_active h
    | inr (m, active) ↦
        rw active
          (add_receipts-IsOneReceipt now member (to_mark mahber member ids s) s.read_receipts h)
  ]
