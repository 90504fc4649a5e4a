-- ===== src/Membership/Roles.antt =====
-- src/membership/role.service.ts, with the tables of src/membership/rbac. The cache of
-- `getUserRole` is not modelled: it returns what its loader returned within the last half hour.
pub mod Laws
use mahber_connect_backend.Prelude.{
  ℕ, String, Bool, true, false, not, ◌&&◌, Option, none, some, List, [], ◌∷◌, ◌++◌, str_eq, ltb,
  leb, ◌==◌, if◌then◌else◌, or_default, find, select, update_where, count,
}
use mahber_connect_backend.Db.{is_active, Role, Mahber, Membership, Db}
use mahber_connect_backend.Exec.{
  Exec, pure, gets, or_throw, ◌>>=◌, ◌>>◌, throw_if, modify, bad_request, not_found,
}
use mahber_connect_backend.Membership.Access.{includes_text, membership_of, assert_permission}
use mahber_connect_backend.Membership.StateMachine.{has_id}

-- AssignRoleDto; a missing list and an empty one are treated alike.
pub record AssignRole : Type 0 where
  pub role_name : String
  pub custom_permissions : List String

-- `Object.values(PERMISSIONS)`
unfoldable pub all_permissions : List String
all_permissions =
    "manage_members" ∷ "manage_finances" ∷ "create_events" ∷ "send_announcements" ∷ "view_reports"
    ∷ "manage_roles" ∷ "create_expense" ∷ "approve_expense" ∷ []

-- `DEFAULT_ROLES[name]?.permissions`
unfoldable pub default_permissions : String → Option (List String)
default_permissions name =
    if str_eq name "Admin"
    then some (
        "manage_members" ∷ "manage_finances" ∷ "create_events" ∷ "send_announcements"
        ∷ "view_reports" ∷ "manage_roles" ∷ "approve_expense" ∷ [])
    else if str_eq name "Treasurer"
    then some ("manage_finances" ∷ "view_reports" ∷ "create_expense" ∷ [])
    else if str_eq name "Secretary"
    then some ("create_events" ∷ "send_announcements" ∷ [])
    else if str_eq name "Member"
    then some []
    else if str_eq name "Advisor"
    then some ("view_reports" ∷ [])
    else none

abbrev pub role_permissions : AssignRole → List String
role_permissions dto = elim dto.custom_permissions [
  | [] ↦ or_default (default_permissions dto.role_name) []
  | p ∷ ps ↦ p ∷ ps
]

abbrev pub role_of : AssignRole → Role
role_of dto = record { name = dto.role_name; permissions = role_permissions dto }

abbrev pub is_nonempty {ℓ} : {A : Type ℓ} → List A → Bool
is_nonempty [] = false
is_nonempty (x ∷ xs) = true

-- `status: Active, role: { path: ['name'], equals: name }`
unfoldable pub has_active_role : ℕ → String → Membership → Bool
has_active_role mahber name m =
    (m.mahber_id == mahber) && is_active m.status && str_eq m.role.name name

abbrev pub membership_in : ℕ → ℕ → Membership → Bool
membership_in mahber id m = (m.id == id) && (m.mahber_id == mahber)

abbrev pub mahber_has_id : ℕ → Mahber → Bool
mahber_has_id id m = m.id == id

-- `roleLimits[name]`
unfoldable pub limit_of : String → List (String × ℕ) → Option ℕ
limit_of name [] = none
limit_of name ((n, k) ∷ rest) = if str_eq n name then some k else limit_of name rest

-- The configured limit of a role, if the organization exists.
abbrev pub role_limit : ℕ → String → Db → Option ℕ
role_limit mahber name s = elim (find (mahber_has_id mahber) s.mahbers) [
  | none ↦ none
  | some m ↦ limit_of name m.configuration.role_limits
]

-- `limit !== undefined && limit > 0` and `currentCount >= limit`
abbrev is_full : Option ℕ → ℕ → Bool
is_full none n = false
is_full (some limit) n = ltb 0 limit && leb limit n

abbrev pub with_role : Role → Membership → Membership
with_role role m = record m { role = role }

unfoldable pub assign_role : ℕ → ℕ → ℕ → AssignRole → Exec Membership
unfolding assert_permission
assign_role mahber member actor dto = do
  assert_permission "manage_roles" mahber actor
  target ←
      or_throw (← gets (λ s. find (membership_in mahber member) s.memberships))
        (not_found "Member not found")
  throw_if (str_eq dto.role_name "Advisor" && is_nonempty dto.custom_permissions)
      (bad_request "Advisor is a fixed read-only role and cannot have custom permissions")
  throw_if (not (is_active target.status))
      (bad_request "Role can only be assigned to members with Active status")
  admins ← gets (λ s. count (has_active_role mahber "Admin") s.memberships)
  throw_if (str_eq target.role.name "Admin" && not (str_eq dto.role_name "Admin") && leb admins 1)
      (bad_request "Cannot remove the last admin from the organization")
  limit ← gets (role_limit mahber dto.role_name)
  holders ← gets (λ s. count (has_active_role mahber dto.role_name) s.memberships)
  throw_if (not (str_eq target.role.name dto.role_name) && is_full limit holders)
      (bad_request "Role limit exceeded")
  modify (λ s. record s {
    memberships = update_where (has_id member) (with_role (role_of dto)) s.memberships;
  })
  modify (λ s. record s {
    audit_trail =
        (record {
          mahber_id = mahber;
          entity_type = "membership";
          entity_id = member;
          action = "role_assigned";
          actor_id = some actor;
        })
        ∷ s.audit_trail;
  })
  pure (with_role (role_of dto) target)

-- `getUserRole`, without its cache
unfoldable pub get_user_role : ℕ → ℕ → Db → Option Role
get_user_role mahber user s = elim (membership_of mahber user s) [
  | none ↦ none
  | some m ↦ some m.role
]

-- `dto.permissions.filter((p) => !VALID_PERMISSIONS.includes(p))`
unfoldable pub invalid_permissions : List String → List String
unfolding all_permissions
invalid_permissions ps = select (λ p. not (includes_text p all_permissions)) ps

abbrev pub with_custom_role : Role → Mahber → Mahber
with_custom_role role m = record m {
  configuration = record m.configuration {
    custom_roles = m.configuration.custom_roles ++ (role ∷ []);
  };
}

-- CreateCustomRoleDto is the `Role`.
unfoldable pub create_custom_role : ℕ → ℕ → Role → Exec Mahber
unfolding assert_permission invalid_permissions
create_custom_role mahber actor role = do
  assert_permission "manage_roles" mahber actor
  throw_if (is_nonempty (invalid_permissions role.permissions)) (bad_request "Invalid permissions")
  m ←
      or_throw (← gets (λ s. find (mahber_has_id mahber) s.mahbers))
        (not_found "Organization not found")
  modify (λ s. record s {
    mahbers = update_where (mahber_has_id mahber) (with_custom_role role) s.mahbers;
  })
  pure (with_custom_role role m)
