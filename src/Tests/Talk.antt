-- ===== src/Tests/Talk.antt =====
-- Tests of chat.
use mahber_connect_backend.Prelude.{◌*◌, ◌+◌, ◌≤◌, ◌≡◌, refl, false, none, some, [], ◌∷◌, find}
use mahber_connect_backend.Db.{ChatMessage, Db}
use mahber_connect_backend.Communication.Chat.{message_in, find_message, edit_message}
use mahber_connect_backend.Communication.Chat.Laws.{edit_message-ok}
use mahber_connect_backend.Tests.Samples.{value, db}

abbrev greeting : ChatMessage
greeting = record {
  id = 31;
  mahber_id = 1;
  sender_id = 1;
  content = "hello";
  edited_at = none;
  is_deleted = false;
  created_at = 10;
}

abbrev talk_db : Db
talk_db = record db { messages = record greeting { id = 32 } ∷ greeting ∷ [] }

edit_message-ok_example :
    (old : ChatMessage) × (find (message_in 1 31) talk_db.messages ≡ some old)
    × (old.sender_id ≡ 1)
    × (old.is_deleted ≡ false)
    × (20 ≤ old.created_at + 5 * 60 * 1000)
    × (find (message_in 1 31) (edit_message 20 1 31 1 "good day" talk_db).1.messages
        ≡ some (record old { content = "good day"; edited_at = some 20 }))
    × (find (message_in 1 32) (edit_message 20 1 31 1 "good day" talk_db).1.messages
        ≡ find (message_in 1 32) talk_db.messages)
unfolding edit_message find_message find
edit_message-ok_example =
    edit_message-ok 20 1 31 1 32 "good day" talk_db
      (value (edit_message 20 1 31 1 "good day" talk_db).0 greeting) refl refl
