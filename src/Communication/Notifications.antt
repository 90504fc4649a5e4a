-- ===== src/Communication/Notifications.antt =====
-- src/communication/notification.service.ts: the devices and the notifications of a user and the
-- channels on which a message goes out. What Firebase and the mail and SMS services do with it and
-- the columns `type` and `link` are not modelled.
pub mod Laws
use mahber_connect_backend.Prelude.{
  ℕ, String, Bool, true, false, not, ◌&&◌, Option, none, some, List, [], ◌∷◌, ◌++◌, map, str_eq,
  ◌==◌, if◌then◌else◌, find, select, update_where, any, includes,
}
use mahber_connect_backend.Db.{is_active, Prefs, User, DeviceToken, Notification, Db}
use mahber_connect_backend.Exec.{Exec, gets, or_throw, ◌>>=◌, ◌>>◌, throw_if, modify, not_found, ok}
use mahber_connect_backend.Membership.Access.{includes_text}

-- The schema's enum.
pub data NotificationType : Type 0 where
  info success warning error payment event : NotificationType

-- `prefs.key !== false`
abbrev is_on : Option Bool → Bool
is_on none = true
is_on (some b) = b

unfoldable pub is_enabled_for : Option String → Prefs → Bool
is_enabled_for none prefs = true
is_enabled_for (some custom) prefs =
    if str_eq custom "ANNOUNCEMENT"
    then is_on prefs.announcements
    else if str_eq custom "CHAT"
    then is_on prefs.chat
    else true

unfoldable pub is_notification_enabled : NotificationType → Option String → Option Prefs → Bool
unfolding is_enabled_for
is_notification_enabled kind custom none = true
is_notification_enabled kind custom (some prefs) = elim kind [
  | NotificationType.payment ↦ is_on prefs.payments
  | NotificationType.event ↦ is_on prefs.events
  | _ ↦ is_enabled_for custom prefs
]

unfoldable pub is_email_enabled : Option Prefs → Bool
is_email_enabled none = true
is_email_enabled (some prefs) = is_on prefs.email

unfoldable pub is_sms_enabled : Option Prefs → Bool
is_sms_enabled none = true
is_sms_enabled (some prefs) = is_on prefs.sms

-- `BROADCAST_EMAIL_SMS_TYPES`
abbrev pub broadcast_types : List String
broadcast_types =
    "PAYMENT_REMINDER" ∷ "PAYMENT_OVERDUE" ∷ "EVENT_CREATED" ∷ "EVENT_CANCELLED"
    ∷ "EVENT_INVITATION" ∷ "EVENT_REGISTRATION" ∷ "ANNOUNCEMENT" ∷ "LOTTERY_RESULT" ∷ []

abbrev pub is_broadcast : Option String → Bool
is_broadcast none = false
is_broadcast (some custom) = includes_text custom broadcast_types

-- A text that is there and not empty.
abbrev given : Option String → Option String
given none = none
given (some t) = if str_eq t "" then none else some t

-- A call of a delivery service. A push goes to all tokens at once.
pub data Delivery : Type 0 where
  socket : ℕ → Delivery
  push : List String → Delivery
  mail : String → Delivery
  text_message : String → Delivery

abbrev has_token : String → DeviceToken → Bool
has_token token d = str_eq d.token token

abbrev registered : ℕ → String → DeviceToken → DeviceToken
registered user platform d = record d { user_id = user; platform = platform; is_active = true }

-- `upsert` by the unique token
unfoldable pub register_device : ℕ → String → String → Db → Db
register_device user token platform s = record s {
  device_tokens =
      if any (has_token token) s.device_tokens
      then update_where (has_token token) (registered user platform) s.device_tokens
      else record { user_id = user; token = token; platform = platform; is_active = true }
        ∷ s.device_tokens;
}

unfoldable pub unregister_device : ℕ → String → Db → Db
unregister_device user token s = record s {
  device_tokens =
      update_where (λ d. (d.user_id == user) && has_token token d)
        (λ d. record d { is_active = false }) s.device_tokens;
}

-- `getActiveTokensForUser`
unfoldable pub active_tokens : ℕ → Db → List String
active_tokens user s =
    map (λ d. d.token) (select (λ d. (d.user_id == user) && d.is_active) s.device_tokens)

abbrev user_of : ℕ → Db → Option User
user_of user s = find (λ u. u.id == user) s.users

abbrev prefs_of : Option User → Option Prefs
prefs_of none = none
prefs_of (some u) = u.notification_prefs

abbrev pub new_notification : ℕ → ℕ → String → String → Notification
new_notification id user title body = record {
  id = id;
  user_id = user;
  title = title;
  message = body;
  is_read = false;
}

-- The mail of a user who has an address and has not switched mails off.
unfoldable pub mail_to : Option User → List Delivery
unfolding is_email_enabled
mail_to none = []
mail_to (some u) =
    if is_email_enabled u.notification_prefs
    then elim (given u.email) [ none ↦ [] | some address ↦ mail address ∷ [] ]
    else []

unfoldable pub sms_to : Option User → List Delivery
unfolding is_sms_enabled
sms_to none = []
sms_to (some u) =
    if is_sms_enabled u.notification_prefs
    then elim (given (some u.phone)) [ none ↦ [] | some phone ↦ text_message phone ∷ [] ]
    else []

abbrev push_to : List String → List Delivery
push_to [] = []
push_to (t ∷ ts) = push (t ∷ ts) ∷ []

-- `sendToUser`, with the calls of the delivery services in their order; `custom` is `data?.type`.
unfoldable pub send_to_user :
    ℕ → ℕ → String → String → Option String → NotificationType → Exec (List Delivery)
unfolding is_notification_enabled active_tokens mail_to sms_to
send_to_user id user title body custom kind s =
    let u = user_of user s in
    if is_notification_enabled kind custom (prefs_of u)
    then (
      ok (
          socket user ∷ push_to (active_tokens user s)
          ++ mail_to u
          ++ (if is_broadcast custom then sms_to u else [])),
      record s { notifications = new_notification id user title body ∷ s.notifications },
    )
    else (ok [], s)

-- The members that `sendToMahberMembers` reaches: Active, not the excluded one, and not switched off.
unfoldable pub receivers : ℕ → Option String → NotificationType → Option ℕ → Db → List ℕ
unfolding is_notification_enabled
receivers mahber custom kind exclude s =
    map (λ m. m.member_id)
      (select
        (λ m.
          (m.mahber_id == mahber)
          && is_active m.status
          && not (elim exclude [ none ↦ false | some x ↦ m.member_id == x ])
          && is_notification_enabled kind custom (prefs_of (user_of m.member_id s)))
        s.memberships)

-- `notification.createMany`; `ids` gives the id of a user's notification.
unfoldable pub notify_all :
    (ℕ → ℕ) → List ℕ → String → String → List Notification → List Notification
notify_all ids [] title body rows = rows
notify_all ids (u ∷ us) title body rows =
    new_notification (ids u) u title body ∷ notify_all ids us title body rows

unfoldable pub mails_and_texts : List ℕ → Db → List Delivery
unfolding mail_to sms_to
mails_and_texts [] s = []
mails_and_texts (u ∷ us) s =
    let user = user_of u s in mail_to user ++ sms_to user ++ mails_and_texts us s

unfoldable pub sockets : List ℕ → List Delivery
sockets [] = []
sockets (u ∷ us) = socket u ∷ sockets us

unfoldable pub send_to_mahber_members :
    (ℕ → ℕ)
    → ℕ
    → String
    → String
    → Option String
    → NotificationType
    → Option ℕ
    → Exec (List Delivery)
unfolding receivers notify_all mails_and_texts sockets
send_to_mahber_members ids mahber title body custom kind exclude s =
    let users = receivers mahber custom kind exclude s in
    (
      ok (
          sockets users
          ++ push_to (
              map (λ d. d.token)
                (select (λ d. includes d.user_id users && d.is_active) s.device_tokens))
          ++ (if is_broadcast custom then mails_and_texts users s else [])),
      record s { notifications = notify_all ids users title body s.notifications },
    )

-- `getUserNotifications`, the newest first
unfoldable pub get_user_notifications : ℕ → Db → List Notification
get_user_notifications user s = select (λ n. n.user_id == user) s.notifications

abbrev pub read : Notification → Notification
read n = record n { is_read = true }

unfoldable pub mark_as_read : ℕ → ℕ → Exec (Unit {0})
mark_as_read user id = do
  n ←
      or_throw (← gets (λ s. find (λ n. n.id == id) s.notifications))
        (not_found "Notification not found")
  throw_if (not (n.user_id == user)) (not_found "Notification not found")
  modify (λ s. record s { notifications = update_where (λ n. n.id == id) read s.notifications })

unfoldable pub mark_all_as_read : ℕ → Db → Db
mark_all_as_read user s = record s {
  notifications = update_where (λ n. (n.user_id == user) && not n.is_read) read s.notifications;
}
