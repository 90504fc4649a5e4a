-- ===== src/Communication/Notifications/Laws.antt =====
-- Theorems on devices and notifications.
use mahber_connect_backend.Prelude.{
  ℕ, ◌+◌, ◌≤◌, String, ◌≡◌, refl, inl, inr, Bool, true, false, not, ◌&&◌, Option, List, [], ◌∷◌,
  arith, str_eq, eq_iff, ◌==◌, if◌then◌else◌, Bool-cases, update_where, count, any,
}
use mahber_connect_backend.Db.{DeviceToken, Notification, Db}
use mahber_connect_backend.Communication.Notifications.{
  NotificationType, register_device, receivers, notify_all, send_to_mahber_members, read,
  mark_all_as_read,
}
use mathlib.Core.Path.{subst}

abbrev pub is_unread : ℕ → Notification → Bool
is_unread user n = (n.user_id == user) && not n.is_read

count-read :
    (user other : ℕ) (rows : List Notification)
    → count (is_unread other) (update_where (is_unread user) read rows)
      ≡ (if other == user then 0 else count (is_unread other) rows)
unfolding count update_where
count-read user other [] = ground arith
count-read user other (n ∷ ns) = ground (arith, count-read user other ns)

-- After `markAllAsRead` its user has no unread notification, and every other user has as many as
-- before.
pub mark_all_as_read-unread :
    (user other : ℕ) (s : Db)
    → count (is_unread other) (mark_all_as_read user s).notifications
      ≡ (if other == user then 0 else count (is_unread other) s.notifications)
unfolding mark_all_as_read
mark_all_as_read-unread user other s = count-read user other s.notifications

notify_all-count :
    (ids : ℕ → ℕ) (us : List ℕ) (title body : String) (user : ℕ) (rows : List Notification)
    → count (is_unread user) (notify_all ids us title body rows)
      ≡ count (λ u. u == user) us + count (is_unread user) rows
unfolding notify_all count
notify_all-count ids [] title body user rows = omega arith
notify_all-count ids (u ∷ us) title body user rows =
    ground (arith, notify_all-count ids us title body user rows)

-- A message to the members adds, for each user, one unread notification for each time that the
-- user is among its receivers.
pub send_to_mahber_members-unread :
    (ids : ℕ → ℕ) (mahber : ℕ) (title body : String) (custom : Option String)
    (kind : NotificationType) (exclude : Option ℕ) (user : ℕ) (s : Db)
    → count
        (is_unread user)
        (send_to_mahber_members ids mahber title body custom kind exclude s).1.notifications
      ≡ count (λ u. u == user) (receivers mahber custom kind exclude s)
        + count (is_unread user) s.notifications
unfolding send_to_mahber_members
send_to_mahber_members-unread ids mahber title body custom kind exclude user s =
    notify_all-count ids (receivers mahber custom kind exclude s) title body user s.notifications

-- No token stands in two rows: the table's unique key.
abbrev pub IsOneDevice : List DeviceToken → Type 0
IsOneDevice rows = (token : String) → count (λ d. str_eq d.token token) rows ≤ 1

count-update_device :
    (token other : String) (user : ℕ) (platform : String) (rows : List DeviceToken)
    → count
        (λ d. str_eq d.token other)
        (update_where
          (λ d. str_eq d.token token)
          (λ d. record d { user_id = user; platform = platform; is_active = true })
          rows)
      ≡ count (λ d. str_eq d.token other) rows
unfolding count update_where
count-update_device token other user platform [] = refl
count-update_device token other user platform (d ∷ ds) =
    ground (arith, count-update_device token other user platform ds)

any-count :
    (p : DeviceToken → Bool) (rows : List DeviceToken) → any p rows ≡ false → count p rows ≡ 0
unfolding any count
any-count p [] h = refl
any-count p (d ∷ ds) h = ground (arith, any-count p ds)

IsOneDevice-new :
    (d : DeviceToken) (rows : List DeviceToken)
    → any (λ x. str_eq x.token d.token) rows ≡ false
    → IsOneDevice rows
    → IsOneDevice (d ∷ rows)
unfolding count
IsOneDevice-new d rows none_yet h token = elim (Bool-cases (str_eq d.token token)) [
  | inl same ↦
      let eq : d.token ≡ token = (eq_iff d.token token).0 same in
      let zero_yet =
        any-count (λ x. str_eq x.token token) rows
          (subst (λ t. any (λ x. str_eq x.token t) rows ≡ false) eq none_yet) in
      ground arith
  | inr other ↦ ground (arith, h token)
]

-- If no token stands in two rows, none does after a device is registered.
pub register_device-IsOneDevice :
    (user : ℕ) (token platform : String) (s : Db)
    → IsOneDevice s.device_tokens
    → IsOneDevice (register_device user token platform s).device_tokens
unfolding register_device
register_device-IsOneDevice user token platform s h other =
    elim (Bool-cases (any (λ d. str_eq d.token token) s.device_tokens)) [
      | inl known ↦
          ground (arith, h other, count-update_device token other user platform s.device_tokens)
      | inr new ↦ ground (
        arith,
        h other,
        IsOneDevice-new
            (record { user_id = user; token = token; platform = platform; is_active = true })
            s.device_tokens new h other,
      )
    ]

update-owner :
    (token : String) (user other : ℕ) (platform : String) (rows : List DeviceToken)
    → (user == other) ≡ false
    → any
        (λ d. (d.user_id == other) && str_eq d.token token)
        (update_where
          (λ d. str_eq d.token token)
          (λ d. record d { user_id = user; platform = platform; is_active = true })
          rows)
      ≡ false
unfolding any update_where
update-owner token user other platform [] h = refl
update-owner token user other platform (d ∷ ds) h =
    ground (arith, update-owner token user other platform ds h)

any-weaken :
    (p q : DeviceToken → Bool) (rows : List DeviceToken)
    → any p rows ≡ false
    → ((d : DeviceToken) → p d ≡ false → q d ≡ false)
    → any q rows ≡ false
unfolding any
any-weaken p q [] h k = refl
any-weaken p q (d ∷ ds) h k = ground (arith, k d, any-weaken p q ds)

-- After a registration of a token no other user has it.
pub register_device-owner :
    (user other : ℕ) (token platform : String) (s : Db)
    → (user == other) ≡ false
    → any
        (λ d. (d.user_id == other) && str_eq d.token token)
        (register_device user token platform s).device_tokens
      ≡ false
unfolding register_device any
register_device-owner user other token platform s h =
    elim (Bool-cases (any (λ d. str_eq d.token token) s.device_tokens)) [
      | inl known ↦ ground (arith, update-owner token user other platform s.device_tokens h)
      | inr new ↦ ground (
        arith,
        any-weaken (λ d. str_eq d.token token) (λ d. (d.user_id == other) && str_eq d.token token)
            s.device_tokens new (λ d e. ground arith),
      )
    ]
