-- ===== src/System/Rows.antt =====
-- Changes of rows that keep the unique keys: the rows that a call removes or rewrites, without
-- touching the key.
use mahber_connect_backend.Prelude.{
  ℕ, ◌≤◌, String, ◌≡◌, refl, inl, inr, Bool, false, not, ◌&&◌, List, [], ◌∷◌, arith, str_eq, ◌==◌,
  Option-cases, has_pair, IsOnePair-new, find, select, update_where, count, find-eq_none_count,
}
use mahber_connect_backend.Db.{InvitationStatus, Db}
use mahber_connect_backend.Events.Invitations.{
  invitation_has_id, invitation_of, answered, respond_to_invitation, registered, new_registration,
  registration_error, register_for_event, cancel_registration,
}
use mahber_connect_backend.Events.Sending.Laws.{IsOneInvitation}
use mahber_connect_backend.Events.Photos.{storage_quota, delete_photo}
use mahber_connect_backend.Events.Photos.Laws.{photos_of}
use mahber_connect_backend.Events.Schedule.{find_one}
use mahber_connect_backend.Communication.Notifications.{unregister_device}
use mahber_connect_backend.Communication.Notifications.Laws.{IsOneDevice}
use mahber_connect_backend.Auth.Accounts.{has_phone, user_has_id}
use mahber_connect_backend.Auth.Accounts.Laws.{IsOnePhone}
use mahber_connect_backend.Auth.Passwords.{with_password, change_password, reset_password}
use mahber_connect_backend.Administration.SuperAdmin.{update_user_status, promote_user}

module _ {ℓ} {A : Type ℓ} (q : A → Bool) where
  count-select : (p : A → Bool) (xs : List A) → count q (select p xs) ≤ count q xs
  unfolding count select
  count-select p [] = omega arith
  count-select p (x ∷ xs) = ground (arith, count-select p xs)

  count-rewrite :
      (p : A → Bool) (f : A → A)
      → ((a : A) → q (f a) ≡ q a)
      → (xs : List A) → count q (update_where p f xs) ≡ count q xs
  unfolding count update_where
  count-rewrite p f keep [] = refl
  count-rewrite p f keep (x ∷ xs) = ground (arith, keep x, count-rewrite p f keep xs)

pub unregister_device-IsOneDevice :
    (user : ℕ) (token : String) (s : Db)
    → IsOneDevice s.device_tokens
    → IsOneDevice (unregister_device user token s).device_tokens
unfolding unregister_device
unregister_device-IsOneDevice user token s h other =
    rw
      (count-rewrite (λ d. str_eq d.token other) (λ d. (d.user_id == user) && str_eq d.token token)
        (λ d. record d { is_active = false }) (λ d. refl) s.device_tokens)
      (h other)

pub respond_to_invitation-IsOneInvitation :
    (now mahber event id member : ℕ) (accept : Bool) (s : Db)
    → IsOneInvitation s.event_invitations
    → IsOneInvitation
        (respond_to_invitation now mahber event id member accept s).1.event_invitations
unfolding respond_to_invitation
respond_to_invitation-IsOneInvitation now mahber event id member accept s h k l = ground (
  arith,
  h k l,
  count-rewrite (has_pair (λ i. i.event_id) (λ i. i.member_id) k l) (invitation_has_id id)
      (answered now InvitationStatus.accepted) (λ i. refl) s.event_invitations,
  count-rewrite (has_pair (λ i. i.event_id) (λ i. i.member_id) k l) (invitation_has_id id)
      (answered now InvitationStatus.declined) (λ i. refl) s.event_invitations,
)

pub cancel_registration-IsOneInvitation :
    (mahber event member : ℕ) (s : Db)
    → IsOneInvitation s.event_invitations
    → IsOneInvitation (cancel_registration mahber event member s).1.event_invitations
unfolding cancel_registration
cancel_registration-IsOneInvitation mahber event member s h k l =
    elim (Option-cases (find (invitation_of event member) s.event_invitations)) [
      | inl missing ↦ ground (arith, h k l)
      | inr (i, found) ↦ ground (
        arith,
        h k l,
        count-select (has_pair (λ i. i.event_id) (λ i. i.member_id) k l) (λ j. not (j.id == i.id))
            s.event_invitations,
      )
    ]

pub register_for_event-IsOneInvitation :
    (now id mahber event member : ℕ) (s : Db)
    → IsOneInvitation s.event_invitations
    → IsOneInvitation (register_for_event now id mahber event member s).1.event_invitations
unfolding register_for_event find_one registration_error
register_for_event-IsOneInvitation now id mahber event member s h k l =
    elim (Option-cases (find (invitation_of event member) s.event_invitations)) [
      | inl new ↦ ground (
        arith,
        h k l,
        IsOnePair-new (λ i. i.event_id) (λ i. i.member_id)
            (new_registration now id mahber event member) s.event_invitations
            (find-eq_none_count (invitation_of event member) s.event_invitations new) h k l,
      )
      | inr (i, found) ↦ ground (
        arith,
        h k l,
        count-rewrite (has_pair (λ i. i.event_id) (λ i. i.member_id) k l) (invitation_has_id i.id)
            (registered now) (λ i. refl) s.event_invitations,
      )
    ]

pub delete_photo-quota :
    (mahber event id actor other : ℕ) (s : Db)
    → photos_of other s.photos ≤ storage_quota
    → photos_of other (delete_photo mahber event id actor s).1.photos ≤ storage_quota
unfolding delete_photo
delete_photo-quota mahber event id actor other s h =
    ground (arith, count-select (λ p. p.mahber_id == other) (λ p. not (p.id == id)) s.photos)

pub change_password-IsOnePhone :
    (hash : String → String) (compare : String → String → Bool) (id : ℕ) (current new : String)
    (s : Db)
    → IsOnePhone s.users
    → IsOnePhone (change_password hash compare id current new s).1.users
unfolding change_password
change_password-IsOnePhone hash compare id current new s h phone = ground (
  arith,
  h phone,
  count-rewrite (has_phone phone) (user_has_id id) (with_password (hash new)) (λ u. refl) s.users,
)

pub reset_password-IsOnePhone :
    (hash : String → String) (compare : String → String → Bool) (now : ℕ) (phone code new : String)
    (s : Db)
    → IsOnePhone s.users
    → IsOnePhone (reset_password hash compare now phone code new s).1.users
unfolding reset_password
reset_password-IsOnePhone hash compare now phone code new s h other =
    elim (Option-cases (find (has_phone phone) s.users)) [
      | inl missing ↦ ground (arith, h other)
      | inr (u, found) ↦ ground (
        arith,
        h other,
        count-rewrite (has_phone other) (user_has_id u.id) (with_password (hash new)) (λ u. refl)
            s.users,
      )
    ]

pub update_user_status-IsOnePhone :
    (id : ℕ) (suspended : Bool) (s : Db)
    → IsOnePhone s.users
    → IsOnePhone (update_user_status id suspended s).1.users
unfolding update_user_status
update_user_status-IsOnePhone id suspended s h phone = ground (
  arith,
  h phone,
  count-rewrite (has_phone phone) (user_has_id id) (λ x. record x { is_suspended = suspended })
      (λ u. refl) s.users,
)

pub promote_user-IsOnePhone :
    (id : ℕ) (super : Bool) (s : Db)
    → IsOnePhone s.users
    → IsOnePhone (promote_user id super s).1.users
unfolding promote_user
promote_user-IsOnePhone id super s h phone = ground (
  arith,
  h phone,
  count-rewrite (has_phone phone) (user_has_id id) (λ x. record x { is_super_admin = super })
      (λ u. refl) s.users,
)
