-- ===== src/Membership/Access.antt =====
-- The lookups and permission checks that the membership services share: `assertMember` and
-- `assertAdmin` of member.service.ts, join-request.service.ts and mahber.service.ts, and
-- src/membership/rbac/check-permissions.ts.
use mahber_connect_backend.Prelude.{
  ◌↔◌, ℕ, String, Bool, true, false, ◌&&◌, ◌||◌, not, Option, none, some, List, [], ◌∷◌, ◌==◌, find,
  ◌≡◌, arith, str_eq,
}
use mahber_connect_backend.Db.{Db, Membership, is_active}
use mahber_connect_backend.Exec.{Exec, ok, forbidden, gets, or_throw, throw_if, ◌>>=◌}

-- `Array.includes` on texts
unfoldable pub includes_text : String → List String → Bool
includes_text t [] = false
includes_text t (x ∷ xs) = str_eq x t || includes_text t xs

-- `where: { mahber_id: mahberId, member_id: userId }`
abbrev pub is_of : ℕ → ℕ → Membership → Bool
is_of mahber user m = (m.mahber_id == mahber) && (m.member_id == user)

-- The same with `status: 'Active'`.
abbrev pub is_active_of : ℕ → ℕ → Membership → Bool
is_active_of mahber user m = (m.mahber_id == mahber) && (m.member_id == user) && is_active m.status

abbrev pub membership_of : ℕ → ℕ → Db → Option Membership
membership_of mahber user s = find (is_of mahber user) s.memberships

abbrev pub active_membership_of : ℕ → ℕ → Db → Option Membership
active_membership_of mahber user s = find (is_active_of mahber user) s.memberships

unfoldable pub assert_member : ℕ → ℕ → Exec (Unit {0})
assert_member mahber user = do
  membership ← gets (membership_of mahber user)
  throw_if (elim membership [ none ↦ true | some m ↦ false ])
      (forbidden "You are not a member of this organization")

-- `assertAdmin`, and the check of `assignRole` and `createCustomRole` with 'manage_roles'.
unfoldable pub assert_permission : String → ℕ → ℕ → Exec (Unit {0})
assert_permission permission mahber user = do
  membership ←
      or_throw (← gets (membership_of mahber user))
        (forbidden "You are not a member of this organization")
  throw_if (not (includes_text permission membership.role.permissions))
      (forbidden "Admin role required")

-- The first membership row of the user in the organization holds the permission.
abbrev pub holds : String → ℕ → ℕ → Db → Bool
holds permission mahber user s = elim (membership_of mahber user s) [
  | none ↦ false
  | some m ↦ includes_text permission m.role.permissions
]

-- The check passes exactly the holders of the permission, and never changes the database.
pub assert_permission_lem :
    (permission : String) (mahber user : ℕ) (s : Db)
    → ((assert_permission permission mahber user s).1 ≡ s)
      × (((assert_permission permission mahber user s).0 ≡ ok tt)
          ↔ (holds permission mahber user s ≡ true))
unfolding assert_permission
assert_permission_lem permission mahber user s =
    (ground arith, (λ h. ground arith, λ h. ground arith))

-- `membershipHasRequiredPermissions`; an empty `requiredAny` counts as absent.
unfoldable pub any_included : List String → List String → Bool
any_included [] held = false
any_included (p ∷ ps) held = includes_text p held || any_included ps held

unfoldable pub membership_has_required_permissions :
    List String → Option String → List String → Bool
membership_has_required_permissions held none [] = true
membership_has_required_permissions held (some p) [] = includes_text p held
membership_has_required_permissions held required (p ∷ ps) = any_included (p ∷ ps) held
