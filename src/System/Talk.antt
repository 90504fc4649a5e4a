-- ===== src/System/Talk.antt =====
-- The calls of src/communication that change the database.
use mahber_connect_backend.Prelude.{ap, ℕ, String, ◌≡◌, List, arith}
use mahber_connect_backend.Db.{Db}
use mahber_connect_backend.System.Guarded.{
  guarded, IsIntact, same-IsIntact, votes-IsIntact, announcement_reads-IsIntact,
  read_receipts-IsIntact, device_tokens-IsIntact,
}
use mahber_connect_backend.Communication.Polls.{CreatePoll, create_poll, cast_vote, edit_vote}
use mahber_connect_backend.Communication.Polls.Laws.{cast_vote-IsOneEach, edit_vote-IsOneEach}
use mahber_connect_backend.Communication.Chat.{
  send_message, find_message, edit_message, assert_may_delete, delete_message, mark_messages_read,
}
use mahber_connect_backend.Communication.Chat.Receipts.{mark_messages_read-IsOneReceipt}
use mahber_connect_backend.Communication.Announcements.{
  CreateAnnouncement, create_announcement, mark_announcement_read,
}
use mahber_connect_backend.Communication.Announcements.Laws.{mark_announcement_read-IsOneRead}
use mahber_connect_backend.Communication.Notifications.{
  send_to_mahber_members, register_device, unregister_device, mark_as_read, mark_all_as_read,
}
use mahber_connect_backend.Communication.Notifications.Laws.{register_device-IsOneDevice}
use mahber_connect_backend.System.Rows.{unregister_device-IsOneDevice}

module _ (s : Db) where
  vote-frame :
      (now : ℕ) (mahber : ℕ) (poll : ℕ) (member : ℕ) (choices : List ℕ)
      → guarded ((cast_vote now mahber poll member choices s).1)
        ≡ record (guarded s) { votes = ((cast_vote now mahber poll member choices s).1).votes }
  unfolding cast_vote
  vote-frame now mahber poll member choices = ground arith

  revote-frame :
      (now : ℕ) (mahber : ℕ) (poll : ℕ) (member : ℕ) (choices : List ℕ)
      → guarded ((edit_vote now mahber poll member choices s).1)
        ≡ record (guarded s) { votes = ((edit_vote now mahber poll member choices s).1).votes }
  unfolding edit_vote
  revote-frame now mahber poll member choices = ground arith

  send-frame :
      (now : ℕ) (id : ℕ) (ids : ℕ → ℕ) (mahber : ℕ) (member : ℕ) (content : String)
      → guarded ((send_message now id ids mahber member content s).1) ≡ guarded s
  unfolding send_message send_to_mahber_members
  send-frame now id ids mahber member content = ground arith

  edit-frame :
      (now : ℕ) (mahber : ℕ) (message : ℕ) (member : ℕ) (content : String)
      → guarded ((edit_message now mahber message member content s).1) ≡ guarded s
  unfolding edit_message find_message
  edit-frame now mahber message member content = ground arith

  delete-frame :
      (mahber : ℕ) (message : ℕ) (member : ℕ)
      → guarded ((delete_message mahber message member s).1) ≡ guarded s
  unfolding delete_message find_message assert_may_delete
  delete-frame mahber message member = ground arith

  mark-frame :
      (now : ℕ) (mahber : ℕ) (member : ℕ) (ids : List ℕ)
      → guarded ((mark_messages_read now mahber member ids s).1) ≡ record (guarded s) {
        read_receipts = ((mark_messages_read now mahber member ids s).1).read_receipts;
      }
  unfolding mark_messages_read
  mark-frame now mahber member ids = ground arith

  announce-frame :
      (now : ℕ) (id : ℕ) (ids : ℕ → ℕ) (mahber : ℕ) (actor : ℕ) (dto : CreateAnnouncement)
      → guarded ((create_announcement now id ids mahber actor dto s).1) ≡ guarded s
  unfolding create_announcement send_to_mahber_members
  announce-frame now id ids mahber actor dto = ground arith

  read-frame :
      (announcement : ℕ) (member : ℕ)
      → guarded ((mark_announcement_read announcement member s).1) ≡ record (guarded s) {
        announcement_reads = ((mark_announcement_read announcement member s).1).announcement_reads;
      }
  unfolding mark_announcement_read
  read-frame announcement member = ground arith

  register-frame :
      (user : ℕ) (token : String) (platform : String)
      → guarded (register_device user token platform s) ≡ record (guarded s) {
        device_tokens = (register_device user token platform s).device_tokens;
      }
  unfolding register_device
  register-frame user token platform = ground arith

  unregister-frame :
      (user : ℕ) (token : String)
      → guarded (unregister_device user token s)
        ≡ record (guarded s) { device_tokens = (unregister_device user token s).device_tokens }
  unfolding unregister_device
  unregister-frame user token = ground arith

  see-frame :
      (notification : ℕ) (user : ℕ) → guarded ((mark_as_read notification user s).1) ≡ guarded s
  unfolding mark_as_read
  see-frame notification user = ground arith

  see_all-frame : (user : ℕ) → guarded (mark_all_as_read user s) ≡ guarded s
  unfolding mark_all_as_read
  see_all-frame user = ground arith

  pose-frame :
      (id mahber actor : ℕ) (dto : CreatePoll)
      → guarded (create_poll id mahber actor dto s).1 ≡ guarded s
  unfolding create_poll
  pose-frame id mahber actor dto = ground arith

-- A call to polls, chat, announcements or devices, and the database that it leaves.
pub data TalkStep (s : Db) : Db → Type 0 where
  pose : (id mahber actor : ℕ) (dto : CreatePoll) → TalkStep s (create_poll id mahber actor dto s).1
  vote :
      (now : ℕ) (mahber : ℕ) (poll : ℕ) (member : ℕ) (choices : List ℕ)
      → TalkStep s ((cast_vote now mahber poll member choices s).1)
  revote :
      (now : ℕ) (mahber : ℕ) (poll : ℕ) (member : ℕ) (choices : List ℕ)
      → TalkStep s ((edit_vote now mahber poll member choices s).1)
  send :
      (now : ℕ) (id : ℕ) (ids : ℕ → ℕ) (mahber : ℕ) (member : ℕ) (content : String)
      → TalkStep s ((send_message now id ids mahber member content s).1)
  edit :
      (now : ℕ) (mahber : ℕ) (message : ℕ) (member : ℕ) (content : String)
      → TalkStep s ((edit_message now mahber message member content s).1)
  delete :
      (mahber : ℕ) (message : ℕ) (member : ℕ)
      → TalkStep s ((delete_message mahber message member s).1)
  mark :
      (now : ℕ) (mahber : ℕ) (member : ℕ) (ids : List ℕ)
      → TalkStep s ((mark_messages_read now mahber member ids s).1)
  announce :
      (now : ℕ) (id : ℕ) (ids : ℕ → ℕ) (mahber : ℕ) (actor : ℕ) (dto : CreateAnnouncement)
      → TalkStep s ((create_announcement now id ids mahber actor dto s).1)
  read :
      (announcement : ℕ) (member : ℕ)
      → TalkStep s ((mark_announcement_read announcement member s).1)
  register :
      (user : ℕ) (token : String) (platform : String)
      → TalkStep s (register_device user token platform s)
  unregister : (user : ℕ) (token : String) → TalkStep s (unregister_device user token s)
  see : (notification : ℕ) (user : ℕ) → TalkStep s ((mark_as_read notification user s).1)
  see_all : (user : ℕ) → TalkStep s (mark_all_as_read user s)

-- Each keeps the invariants.
pub TalkStep-IsIntact : {s t : Db} → TalkStep s t → IsIntact (guarded s) → IsIntact (guarded t)
TalkStep-IsIntact {s = s} {t = t} (vote now mahber poll member choices) h =
    votes-IsIntact s h t (vote-frame s now mahber poll member choices)
      (cast_vote-IsOneEach now mahber poll member choices s h.ballots)
TalkStep-IsIntact {s = s} {t = t} (revote now mahber poll member choices) h =
    votes-IsIntact s h t (revote-frame s now mahber poll member choices)
      (edit_vote-IsOneEach now mahber poll member choices s h.ballots)
TalkStep-IsIntact {s = s} {t = t} (send now id ids mahber member content) h =
    same-IsIntact s h t (send-frame s now id ids mahber member content)
TalkStep-IsIntact {s = s} {t = t} (edit now mahber message member content) h =
    same-IsIntact s h t (edit-frame s now mahber message member content)
TalkStep-IsIntact {s = s} {t = t} (delete mahber message member) h =
    same-IsIntact s h t (delete-frame s mahber message member)
TalkStep-IsIntact {s = s} {t = t} (mark now mahber member ids) h =
    read_receipts-IsIntact s h t (mark-frame s now mahber member ids)
      (mark_messages_read-IsOneReceipt now mahber member ids s h.receipts)
TalkStep-IsIntact {s = s} {t = t} (announce now id ids mahber actor dto) h =
    same-IsIntact s h t (announce-frame s now id ids mahber actor dto)
TalkStep-IsIntact {s = s} {t = t} (read announcement member) h =
    announcement_reads-IsIntact s h t (read-frame s announcement member)
      (mark_announcement_read-IsOneRead announcement member s h.reads)
TalkStep-IsIntact {s = s} {t = t} (register user token platform) h =
    device_tokens-IsIntact s h t (register-frame s user token platform)
      (register_device-IsOneDevice user token platform s h.devices)
TalkStep-IsIntact {s = s} {t = t} (unregister user token) h =
    device_tokens-IsIntact s h t (unregister-frame s user token)
      (unregister_device-IsOneDevice user token s h.devices)
TalkStep-IsIntact {s = s} {t = t} (see notification user) h =
    same-IsIntact s h t (see-frame s notification user)
TalkStep-IsIntact {s = s} {t = t} (see_all user) h = same-IsIntact s h t (see_all-frame s user)
TalkStep-IsIntact {s = s} {t = t} (pose id mahber actor dto) h =
    same-IsIntact s h t (pose-frame s id mahber actor dto)

-- The ledger is left alone.
pub TalkStep-ledger : {s t : Db} → TalkStep s t → t.ledger ≡ s.ledger
TalkStep-ledger {s = s} (vote now mahber poll member choices) =
    ap (λ g. g.ledger) (vote-frame s now mahber poll member choices)
TalkStep-ledger {s = s} (revote now mahber poll member choices) =
    ap (λ g. g.ledger) (revote-frame s now mahber poll member choices)
TalkStep-ledger {s = s} (send now id ids mahber member content) =
    ap (λ g. g.ledger) (send-frame s now id ids mahber member content)
TalkStep-ledger {s = s} (edit now mahber message member content) =
    ap (λ g. g.ledger) (edit-frame s now mahber message member content)
TalkStep-ledger {s = s} (delete mahber message member) =
    ap (λ g. g.ledger) (delete-frame s mahber message member)
TalkStep-ledger {s = s} (mark now mahber member ids) =
    ap (λ g. g.ledger) (mark-frame s now mahber member ids)
TalkStep-ledger {s = s} (announce now id ids mahber actor dto) =
    ap (λ g. g.ledger) (announce-frame s now id ids mahber actor dto)
TalkStep-ledger {s = s} (read announcement member) =
    ap (λ g. g.ledger) (read-frame s announcement member)
TalkStep-ledger {s = s} (register user token platform) =
    ap (λ g. g.ledger) (register-frame s user token platform)
TalkStep-ledger {s = s} (unregister user token) = ap (λ g. g.ledger) (unregister-frame s user token)
TalkStep-ledger {s = s} (see notification user) = ap (λ g. g.ledger) (see-frame s notification user)
TalkStep-ledger {s = s} (see_all user) = ap (λ g. g.ledger) (see_all-frame s user)
TalkStep-ledger {s = s} (pose id mahber actor dto) =
    ap (λ g. g.ledger) (pose-frame s id mahber actor dto)
