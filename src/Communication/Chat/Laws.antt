-- ===== src/Communication/Chat/Laws.antt =====
-- Theorems on messages: who may send, change and delete one.
use mahber_connect_backend.Prelude.{
  ◌*◌, [], update_where, List, ℕ, ◌+◌, ◌≤◌, String, ◌≡◌, refl, inl, inr, false, not, ◌&&◌, ◌||◌,
  none, some, ◌∷◌, arith, ◌==◌, if◌then◌else◌, Option-cases, is_some, find, find_sound,
  find-update_where,
}
use mahber_connect_backend.Db.{ChatMessage, Db}
use mahber_connect_backend.Exec.{is_ok, not_found, ok, err}
use mahber_connect_backend.Membership.Access.{active_membership_of, holds}
use mahber_connect_backend.Communication.Notifications.{send_to_mahber_members}
use mahber_connect_backend.Communication.Chat.{
  new_message, send_message, message_in, message_has_id, find_message, edited, edit_message,
  deleted, assert_may_delete, delete_message,
}

find-other :
    (mahber other id now : ℕ) (content : String) (ms : List ChatMessage)
    → (other == id) ≡ false
    → find (message_in mahber other) (update_where (message_has_id id) (edited now content) ms)
      ≡ find (message_in mahber other) ms
unfolding find update_where
find-other mahber other id now content [] differ = refl
find-other mahber other id now content (m ∷ ms) differ =
    ground (arith, find-other mahber other id now content ms differ)

-- An edit returns only where the id finds a message of the organization that the caller has sent,
-- that is not deleted and was created at most five minutes ago. The id then finds that message with
-- the new content and the time of the edit, and nothing else of it changed. Every other id finds what
-- it found.
pub edit_message-ok :
    (now mahber id sender other : ℕ) (content : String) (s : Db) (m : ChatMessage)
    → (other == id) ≡ false
    → (edit_message now mahber id sender content s).0 ≡ ok m
    → (old : ChatMessage) × (find (message_in mahber id) s.messages ≡ some old)
      × (old.sender_id ≡ sender)
      × (old.is_deleted ≡ false)
      × (now ≤ old.created_at + 5 * 60 * 1000)
      × (find (message_in mahber id) (edit_message now mahber id sender content s).1.messages
          ≡ some (record old { content = content; edited_at = some now }))
      × (find (message_in mahber other) (edit_message now mahber id sender content s).1.messages
          ≡ find (message_in mahber other) s.messages)
unfolding edit_message find_message
edit_message-ok now mahber id sender other content s m differ h =
    elim (Option-cases (find (message_in mahber id) s.messages)) [
      | inl missing ↦ ground arith
      | inr (old, found) ↦
          let same = find_sound (message_in mahber id) s.messages old found in
          let kept =
            find-update_where (message_in mahber id) (message_has_id id) (edited now content)
              s.messages (λ a. refl) in
          let others = find-other mahber other id now content s.messages differ in
          (old, found, ground arith, ground arith, ground arith, ground arith, ground arith)
    ]

-- A deleted message stays deleted: after a deletion that returned, an edit and a further deletion
-- of the message by anyone are refused.
pub delete_message-final :
    (mahber id actor now sender other : ℕ) (content : String) (s : Db) (m : ChatMessage)
    → (delete_message mahber id actor s).0 ≡ ok m
    → let t = (delete_message mahber id actor s).1 in
      (edit_message now mahber id sender content t ≡ (err (not_found "Message not found"), t))
      × (delete_message mahber id other t ≡ (err (not_found "Message not found"), t))
unfolding delete_message find_message edit_message assert_may_delete
delete_message-final mahber id actor now sender other content s m h =
    elim (Option-cases (find (message_in mahber id) s.messages)) [
      | inl missing ↦ ground arith
      | inr (old, found) ↦
          let same = find_sound (message_in mahber id) s.messages old found in
          let kept =
            find-update_where (message_in mahber id) (message_has_id id) deleted s.messages
              (λ a. refl) in
          (ground arith, ground arith)
    ]

-- A deletion returns exactly for a message that is there, not deleted, and whose sender is the
-- actor, or else the actor's membership holds `manage_members`.
pub delete_message_iff :
    (mahber id actor : ℕ) (s : Db)
    → is_ok (delete_message mahber id actor s).0 ≡ elim (find (message_in mahber id) s.messages) [
      | none ↦ false
      | some m ↦
          not m.is_deleted && ((m.sender_id == actor) || holds "manage_members" mahber actor s)
    ]
unfolding delete_message find_message assert_may_delete
delete_message_iff mahber id actor s = ground arith

-- A message is sent exactly by an Active member. It is then the first of the messages, and no
-- older message changes.
pub send_message_iff :
    (now id : ℕ) (ids : ℕ → ℕ) (mahber sender : ℕ) (content : String) (s : Db)
    → let (r, t) = send_message now id ids mahber sender content s in
      (is_ok r ≡ is_some (active_membership_of mahber sender s))
      × (t.messages
          ≡ (if is_ok r then new_message now id mahber sender content ∷ s.messages else s.messages))
unfolding send_message send_to_mahber_members
send_message_iff now id ids mahber sender content s = ground arith
