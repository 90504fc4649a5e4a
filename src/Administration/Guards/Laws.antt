-- ===== src/Administration/Guards/Laws.antt =====
-- Theorems on the guards, and on what they do after a change of a user or of an event.
use mahber_connect_backend.Prelude.{
  ℕ, String, ◌≡◌, refl, inl, inr, Bool, true, false, Option, none, some, List, [], ◌∷◌, arith,
  Option-cases, is_some, find, find_sound, find-update_where,
}
use mahber_connect_backend.Db.{User, Membership, Db}
use mahber_connect_backend.Exec.{is_ok, forbidden, ok, err}
use mahber_connect_backend.Membership.Access.{
  is_of, is_active_of, membership_of, active_membership_of,
}
use mahber_connect_backend.Auth.Accounts.{has_phone, user_has_id, JwtPayload, login}
use mahber_connect_backend.Administration.SuperAdmin.{update_user_status, promote_user}
use mahber_connect_backend.Administration.Guards.{
  validate_payload, super_admin_guard, nothing_required, role_guard, tenant_guard,
  has_event_permission, is_host, event_access_guard,
}

-- After a suspension that returned, every token of the user is refused and so is a login with the
-- user's phone, whatever the password, where the phone finds this user.
pub update_user_status-locks_out :
    (compare : String → String → Bool) (sign : JwtPayload → String) (password : String)
    (payload : JwtPayload) (s : Db) (u : User)
    → find (user_has_id payload.sub) s.users ≡ some u
    → find (has_phone u.phone) s.users ≡ some u
    → is_ok (update_user_status payload.sub true s).0 ≡ true
    → let t = (update_user_status payload.sub true s).1 in
      (is_ok (validate_payload payload t).0 ≡ false)
      × (is_ok (login compare sign u.phone password t).0 ≡ false)
unfolding update_user_status validate_payload login
update_user_status-locks_out compare sign password payload s u by_id by_phone h =
    let suspend : User → User = λ x. record x { is_suspended = true } in
    let key = find_sound (user_has_id payload.sub) s.users u by_id in
    let after_id =
      find-update_where (user_has_id payload.sub) (user_has_id payload.sub) suspend s.users
        (λ a. refl) in
    let after_phone =
      find-update_where (has_phone u.phone) (user_has_id payload.sub) suspend s.users (λ a. refl) in
    (ground arith, ground arith)

-- A token's claim to be a super administrator does not count: after a demotion that returned, the
-- guard refuses what the strategy makes of any token of the user.
pub promote_user-demotes :
    (payload checked : JwtPayload) (s : Db)
    → is_ok (promote_user payload.sub false s).0 ≡ true
    → (validate_payload payload (promote_user payload.sub false s).1).0 ≡ ok checked
    → (super_admin_guard (some checked) (promote_user payload.sub false s).1).0
      ≡ err (forbidden "Access denied: Super Admin privileges required")
unfolding promote_user validate_payload super_admin_guard
promote_user-demotes payload checked s h valid =
    elim (Option-cases (find (user_has_id payload.sub) s.users)) [
      | inl missing ↦ ground arith
      | inr (u, found) ↦
          let demote : User → User = λ x. record x { is_super_admin = false } in
          let key = find_sound (user_has_id payload.sub) s.users u found in
          let after =
            find-update_where (user_has_id payload.sub) (user_has_id payload.sub) demote s.users
              (λ a. refl) in
          ground arith
    ]

-- Where a route requires a permission and does not let hosts pass, the guard of events lets the
-- same requests pass as the guard of roles.
pub event_access_guard-role_guard :
    (required : Option String) (any_of : List String) (user mahber event : Option ℕ) (s : Db)
    → nothing_required required any_of ≡ false
    → is_ok (event_access_guard required any_of false user mahber event s).0
      ≡ is_ok (role_guard required any_of user mahber s).0
unfolding event_access_guard role_guard has_event_permission is_host
event_access_guard-role_guard required any_of none mahber event s h = ground arith
event_access_guard-role_guard required any_of (some u) none event s h = ground arith
event_access_guard-role_guard required any_of (some u) (some o) none s h = ground arith
event_access_guard-role_guard required any_of (some u) (some o) (some e) s h = ground arith

no-active :
    (mahber user : ℕ) (ms : List Membership)
    → find (is_of mahber user) ms ≡ none
    → find (is_active_of mahber user) ms ≡ none
unfolding find
no-active mahber user [] h = refl
no-active mahber user (m ∷ ms) h = ground (arith, no-active mahber user ms)

-- A request that passes the guard of roles on a route that requires a permission comes from an
-- Active member of the organization of the route, and passes the guard of tenants there too.
pub role_guard-tenant :
    (required : Option String) (any_of : List String) (user mahber : ℕ) (s : Db)
    → nothing_required required any_of ≡ false
    → (role_guard required any_of (some user) (some mahber) s).0 ≡ ok tt
    → (is_some (active_membership_of mahber user s) ≡ true)
      × ((tenant_guard (some user) none (some mahber) s).0 ≡ ok mahber)
unfolding role_guard tenant_guard
role_guard-tenant required any_of user mahber s h passes =
    elim (Option-cases (active_membership_of mahber user s)) [
      | inl missing ↦ ground arith
      | inr (m, found) ↦ elim (Option-cases (membership_of mahber user s)) [
        | inl no_row ↦ ground (arith, no-active mahber user s.memberships no_row)
        | inr (row, there) ↦ (ground arith, ground arith)
      ]
    ]
