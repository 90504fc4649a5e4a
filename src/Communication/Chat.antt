-- ===== src/Communication/Chat.antt =====
-- src/communication/chat.service.ts: messages and read receipts. The socket events are not
-- modelled.
pub mod Laws
pub mod Receipts
use mahber_connect_backend.Prelude.{
  ℕ, suc, ◌-◌, ◌*◌, String, concat, Bool, true, false, not, ◌&&◌, Option, none, some, List, [], ◌∷◌,
  map, str_eq, ltb, ◌==◌, if◌then◌else◌, find, select, update_where, count, any, includes, Paged,
  paged,
}
use mahber_connect_backend.Db.{User, ChatMessage, ChatReadReceipt, Db}
use mahber_connect_backend.Exec.{
  Exec, pure, gets, or_throw, ◌>>=◌, ◌>>◌, throw_if, modify, forbidden, not_found, ok, err,
}
use mahber_connect_backend.Membership.Access.{includes_text, membership_of, active_membership_of}
use mahber_connect_backend.Communication.Notifications.{
  NotificationType, send_to_mahber_members, info,
}

-- `EDIT_WINDOW_MS`
abbrev pub edit_window_ms : ℕ
edit_window_ms = 5 * 60 * 1000

abbrev user_of : ℕ → Db → Option User
user_of user s = find (λ u. u.id == user) s.users

-- `sender?.name || 'A member'`
abbrev sender_name : Option User → String
sender_name none = "A member"
sender_name (some u) = if str_eq u.name "" then "A member" else u.name

abbrev pub new_message : ℕ → ℕ → ℕ → ℕ → String → ChatMessage
new_message now id mahber sender content = record {
  id = id;
  mahber_id = mahber;
  sender_id = sender;
  content = content;
  edited_at = none;
  is_deleted = false;
  created_at = now;
}

-- `ids` gives the ids of the new notifications.
unfoldable pub send_message : ℕ → ℕ → (ℕ → ℕ) → ℕ → ℕ → String → Exec ChatMessage
unfolding send_to_mahber_members
send_message now id ids mahber sender content = do
  _ ←
      or_throw (← gets (active_membership_of mahber sender))
        (forbidden "Only Active members can send messages in this organization")
  modify (λ s. record s { messages = new_message now id mahber sender content ∷ s.messages })
  user ← gets (user_of sender)
  send_to_mahber_members ids mahber "New message in chat"
      (concat (sender_name user) (concat ": " content)) (some "CHAT") NotificationType.info
      (some sender)
  pure (new_message now id mahber sender content)

abbrev pub message_in : ℕ → ℕ → ChatMessage → Bool
message_in mahber id m = (m.id == id) && (m.mahber_id == mahber)

abbrev pub message_has_id : ℕ → ChatMessage → Bool
message_has_id id m = m.id == id

-- `!message || message.is_deleted`
unfoldable pub find_message : ℕ → ℕ → Exec ChatMessage
find_message mahber id = do
  m ←
      or_throw (← gets (λ s. find (message_in mahber id) s.messages))
        (not_found "Message not found")
  throw_if m.is_deleted (not_found "Message not found")
  pure m

abbrev pub edited : ℕ → String → ChatMessage → ChatMessage
edited now content m = record m { content = content; edited_at = some now }

unfoldable pub edit_message : ℕ → ℕ → ℕ → ℕ → String → Exec ChatMessage
unfolding find_message
edit_message now mahber id sender content = do
  m ← find_message mahber id
  throw_if (not (m.sender_id == sender)) (forbidden "You can only edit your own messages")
  throw_if (ltb edit_window_ms (now - m.created_at))
      (forbidden "Messages can only be edited within 5 minutes of sending")
  modify (λ s. record s {
    messages = update_where (message_has_id id) (edited now content) s.messages;
  })
  pure (edited now content m)

abbrev pub deleted : ChatMessage → ChatMessage
deleted m = record m { is_deleted = true }

-- The check on an actor who is not the sender.
unfoldable pub assert_may_delete : ℕ → ℕ → ChatMessage → Exec (Unit {0})
assert_may_delete mahber actor m s =
    if m.sender_id == actor then (ok tt, s) else elim (membership_of mahber actor s) [
      | none ↦ (err (forbidden "You are not a member of this organization"), s)
      | some membership ↦
          if includes_text "manage_members" membership.role.permissions
          then (ok tt, s)
          else (err (forbidden "Only the sender or an admin can delete messages"), s)
    ]

unfoldable pub delete_message : ℕ → ℕ → ℕ → Exec ChatMessage
unfolding find_message assert_may_delete
delete_message mahber id actor = do
  m ← find_message mahber id
  assert_may_delete mahber actor m
  modify (λ s. record s { messages = update_where (message_has_id id) deleted s.messages })
  pure (deleted m)

-- The unique key on message and member.
abbrev pub receipt_of : ℕ → ℕ → ChatReadReceipt → Bool
receipt_of message member r = (r.message_id == message) && (r.member_id == member)

-- A message that another member sent to the organization and that is not deleted.
abbrev pub is_message_for : ℕ → ℕ → ChatMessage → Bool
is_message_for mahber member m =
    (m.mahber_id == mahber) && not m.is_deleted && not (m.sender_id == member)

-- The loop of inserts, which passes over a receipt that is there already (P2002), with the number
-- of those that it made.
unfoldable pub add_receipts :
    ℕ → ℕ → List ChatMessage → List ChatReadReceipt → ℕ × List ChatReadReceipt
add_receipts now member [] rows = (0, rows)
add_receipts now member (m ∷ ms) rows =
    let known = any (receipt_of m.id member) rows in
    let rest = add_receipts now member ms (
      if known
      then rows
      else record { message_id = m.id; member_id = member; read_at = now } ∷ rows) in
    (if known then rest.0 else suc rest.0, rest.1)

-- The messages among the given ids that get a receipt.
abbrev pub to_mark : ℕ → ℕ → List ℕ → Db → List ChatMessage
to_mark mahber member ids s =
    select (λ m. includes m.id ids && is_message_for mahber member m) s.messages

unfoldable pub mark_messages_read : ℕ → ℕ → ℕ → List ℕ → Exec ℕ
unfolding add_receipts
mark_messages_read now mahber member ids = do
  _ ←
      or_throw (← gets (active_membership_of mahber member))
        (forbidden "You must be an active member to mark messages as read")
  run ← gets (λ s. add_receipts now member (to_mark mahber member ids s) s.read_receipts)
  modify (λ s. record s { read_receipts = run.1 })
  pure run.0

abbrev pub is_unread : ℕ → ℕ → List ChatReadReceipt → ChatMessage → Bool
is_unread mahber member receipts m =
    is_message_for mahber member m && not (any (receipt_of m.id member) receipts)

unfoldable pub get_unread_count : ℕ → ℕ → Db → ℕ
get_unread_count mahber member s = count (is_unread mahber member s.read_receipts) s.messages

pub record MessageView : Type 0 where
  pub message : ChatMessage
  pub read_by_count : ℕ
  pub is_read_by_me : Bool

abbrev pub view_of : Option ℕ → List ChatReadReceipt → ChatMessage → MessageView
view_of user receipts m = record {
  message = m;
  read_by_count = count (λ r. r.message_id == m.id) receipts;
  is_read_by_me = elim user [ none ↦ false | some u ↦ any (receipt_of m.id u) receipts ];
}

-- The rows of a table in the order of their creation.
unfoldable pub reverse_onto : List ChatMessage → List ChatMessage → List ChatMessage
reverse_onto [] acc = acc
reverse_onto (m ∷ ms) acc = reverse_onto ms (m ∷ acc)

-- The messages that a listing shows, the oldest first.
unfoldable pub visible_messages : ℕ → Db → List ChatMessage
unfolding reverse_onto
visible_messages mahber s =
    reverse_onto (select (λ m. (m.mahber_id == mahber) && not m.is_deleted) s.messages) []

-- `findAll`
unfoldable pub find_all_messages : ℕ → ℕ → ℕ → Option ℕ → Db → Paged MessageView
unfolding visible_messages
find_all_messages mahber page limit user s =
    paged page limit (map (view_of user s.read_receipts) (visible_messages mahber s))

pub record ReceiptView : Type 0 where
  pub member_id : ℕ
  pub member_name : String
  pub read_at : ℕ

abbrev receipt_view : List User → ChatReadReceipt → ReceiptView
receipt_view users r = record {
  member_id = r.member_id;
  member_name = elim (find (λ u. u.id == r.member_id) users) [ none ↦ "Unknown" | some u ↦ u.name ];
  read_at = r.read_at;
}

-- `getReadReceipts`, without the order by time
unfoldable pub get_read_receipts : ℕ → ℕ → Exec (List ReceiptView)
get_read_receipts mahber message = do
  _ ←
      or_throw (← gets (λ s. find (message_in mahber message) s.messages))
        (not_found "Message not found")
  gets (λ s. map (receipt_view s.users) (select (λ r. r.message_id == message) s.read_receipts))
