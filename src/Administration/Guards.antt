-- ===== src/Administration/Guards.antt =====
-- The checks before a request reaches a service: src/auth/strategies/jwt.strategy.ts,
-- src/auth/guards/super-admin.guard.ts, src/membership/guards and src/events/guards. The decorators'
-- values, the token's claims and the route's parameters are arguments; a missing one is none.
pub mod Laws
use mahber_connect_backend.Prelude.{
  ℕ, String, Bool, false, not, ◌&&◌, ◌||◌, Option, none, some, List, ◌==◌, if◌then◌else◌, or_else,
  is_some, length, find,
}
use mahber_connect_backend.Db.{is_suspended, Db}
use mahber_connect_backend.Exec.{
  Exec, pure, gets, or_throw, ◌>>=◌, ◌>>◌, throw_if, forbidden, unauthorized, ok,
}
use mahber_connect_backend.Membership.Access.{
  membership_of, active_membership_of, membership_has_required_permissions,
}
use mahber_connect_backend.Events.Schedule.{event_in}
use mahber_connect_backend.Auth.Accounts.{user_has_id, JwtPayload}

-- `validate` of the JWT strategy, on a token whose signature and expiry the library has checked.
unfoldable pub validate_payload : JwtPayload → Exec JwtPayload
validate_payload payload = do
  u ←
      or_throw (← gets (λ s. find (user_has_id payload.sub) s.users))
        (unauthorized "User no longer exists")
  throw_if u.is_suspended (unauthorized "Your account has been suspended")
  pure (record payload { is_super_admin = u.is_super_admin })

unfoldable pub super_admin_guard : Option JwtPayload → Exec (Unit {0})
super_admin_guard payload = do
  user ← or_throw payload (forbidden "Authentication required")
  throw_if (not user.is_super_admin) (forbidden "Access denied: Super Admin privileges required")

-- `!requiredPermission && !requiredAny?.length`
abbrev pub nothing_required : Option String → List String → Bool
nothing_required required any_of = not (is_some required) && (length any_of == 0)

unfoldable pub role_guard : Option String → List String → Option ℕ → Option ℕ → Exec (Unit {0})
unfolding membership_has_required_permissions
role_guard required any_of user mahber s =
    if nothing_required required any_of
    then (ok tt, s)
    else (do
      u ← or_throw user (forbidden "Insufficient permissions")
      o ← or_throw mahber (forbidden "Insufficient permissions")
      m ← or_throw (← gets (active_membership_of o u)) (forbidden "Insufficient permissions")
      throw_if (not (membership_has_required_permissions m.role.permissions required any_of))
          (forbidden "Permission is required"))
        s

-- `claimed` is the organization of the token, `param` that of the route. The organization that is
-- returned is attached to the request.
unfoldable pub tenant_guard : Option ℕ → Option ℕ → Option ℕ → Exec ℕ
tenant_guard user claimed param = do
  u ← or_throw user (forbidden "Tenant context is missing")
  o ← or_throw (or_else claimed param) (forbidden "Tenant context is missing")
  _ ← or_throw (← gets (membership_of o u)) (forbidden "You are not a member of this organization")
  pure o

-- The part of the event guard that looks at permissions.
unfoldable pub has_event_permission : Option String → List String → ℕ → ℕ → Db → Bool
unfolding membership_has_required_permissions
has_event_permission required any_of user mahber s =
    not (nothing_required required any_of) && elim (active_membership_of mahber user s) [
      | none ↦ false
      | some m ↦ membership_has_required_permissions m.role.permissions required any_of
    ]

-- The part that lets the host of the event pass.
unfoldable pub is_host : Bool → ℕ → ℕ → Option ℕ → Db → Bool
is_host allow_host user mahber none s = false
is_host allow_host user mahber (some event) s =
    allow_host && elim (find (event_in mahber event) s.events) [
      | none ↦ false
      | some e ↦ elim e.host_id [ none ↦ false | some h ↦ h == user ]
    ]

unfoldable pub event_access_guard :
    Option String → List String → Bool → Option ℕ → Option ℕ → Option ℕ → Exec (Unit {0})
unfolding has_event_permission is_host
event_access_guard required any_of allow_host user mahber event = do
  u ← or_throw user (forbidden "Insufficient permissions")
  o ← or_throw mahber (forbidden "Insufficient permissions")
  permitted ← gets (has_event_permission required any_of u o)
  host ← gets (is_host allow_host u o event)
  throw_if (not (permitted || host)) (forbidden "Insufficient permissions")
