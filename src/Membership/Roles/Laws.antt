-- ===== src/Membership/Roles/Laws.antt =====
-- Theorems on `assignRole`: who may make it, administrators, role limits.
use mathlib.Core.Option
use mahber_connect_backend.Prelude.{
  ℕ, ◌≤◌, ◌≡◌, inl, inr, true, false, not, ◌&&◌, some, arith, str_eq, ◌==◌, Bool-cases,
  Option-cases, find, count, find_sound, All-map, count-update_where_ge, count-update_row, Unique,
  Unique-only,
}
use mahber_connect_backend.Db.{Membership, Db}
use mahber_connect_backend.Exec.{Error, ok, err}
use mahber_connect_backend.Membership.Access.{holds}
use mahber_connect_backend.Membership.StateMachine.{has_id}
use mahber_connect_backend.Membership.Roles.{
  AssignRole, role_of, is_nonempty, has_active_role, membership_in, role_limit, with_role,
  assign_role,
}
use mahber_connect_backend.Prelude.{count-update_where_ge, count-update_row}
use mahber_connect_backend.Db.{active}

abbrev member_id_of : Membership → ℕ
member_id_of m = m.id

abbrev pub active_admins : ℕ → Db → ℕ
active_admins mahber s = count (has_active_role mahber "Admin") s.memberships

module _ (mahber member actor : ℕ) (dto : AssignRole) (s : Db) where
  -- An assignment that returns was made by a holder of `manage_roles`, on an Active membership of
  -- the organization, with no permissions of its own for an Advisor, and gives the role asked for.
  pub assign_role-ok :
      (r : Membership)
      → (assign_role mahber member actor dto s).0 ≡ ok r
      → (holds "manage_roles" mahber actor s ≡ true)
        × (Option.map (λ m. m.status) (find (membership_in mahber member) s.memberships)
            ≡ some active)
        × ((str_eq dto.role_name "Advisor" && is_nonempty dto.custom_permissions) ≡ false)
        × (r.role ≡ role_of dto)
  unfolding assign_role
  assign_role-ok r h = ground arith

  -- An assignment that throws changes nothing.
  pub assign_role-err :
      (e : Error)
      → (assign_role mahber member actor dto s).0 ≡ err e
      → (assign_role mahber member actor dto s).1 ≡ s
  unfolding assign_role
  assign_role-err e h = ground arith
      -- A row of this id that is an active administrator stays one, if the assignment takes nothing.

  stays_admin :
      (m a : Membership)
      → ((a.id == m.id) ≡ true → a ≡ m)
      → has_id member a ≡ true
      → has_active_role mahber "Admin" a ≡ true
      → membership_in mahber member m ≡ true
      → (str_eq m.role.name "Admin" && not (str_eq dto.role_name "Admin")) ≡ false
      → has_active_role mahber "Admin" (with_role (role_of dto) a) ≡ true
  unfolding has_active_role
  stays_admin m a only p q i stays = let eq : a ≡ m = only (ground arith) in ground arith

  -- If the ids of memberships are unique, an organization that has an active administrator still
  -- has one after any assignment of a role in it, whether it returns or throws.
  pub assign_role-keeps_admin :
      Unique member_id_of s.memberships
      → 1 ≤ active_admins mahber s
      → 1 ≤ active_admins mahber (assign_role mahber member actor dto s).1
  unfolding assign_role has_active_role
  assign_role-keeps_admin u h =
      let step =
        count-update_row member_id_of (has_active_role mahber "Admin") (with_role (role_of dto))
          member s.memberships u in
      elim (Option-cases (find (membership_in mahber member) s.memberships)) [
        | inl e ↦ ground arith
        | inr (m, e) ↦
            elim (Bool-cases (str_eq m.role.name "Admin" && not (str_eq dto.role_name "Admin"))) [
              | inl leaves ↦ ground (arith, step)
              | inr stays ↦
                  let kept =
                    count-update_where_ge (has_active_role mahber "Admin") (has_id member)
                      (with_role (role_of dto)) s.memberships
                      (All-map s.memberships
                        (Unique-only member_id_of (membership_in mahber member) s.memberships m u e)
                        (λ a only p q.
                          stays_admin m a only p q
                            (find_sound (membership_in mahber member) s.memberships m e) stays)) in
                  ground (arith, kept)
            ]
      ]

  -- If the ids of memberships are unique, an assignment that returns and changes the role of a
  -- member leaves at most as many active holders of the new role as the positive limit of that
  -- role.
  pub assign_role-limit :
      (r m : Membership) (limit : ℕ)
      → Unique member_id_of s.memberships
      → (assign_role mahber member actor dto s).0 ≡ ok r
      → find (membership_in mahber member) s.memberships ≡ some m
      → str_eq m.role.name dto.role_name ≡ false
      → role_limit mahber dto.role_name s ≡ some limit
      → 1 ≤ limit
      → count
          (has_active_role mahber dto.role_name)
          (assign_role mahber member actor dto s).1.memberships
        ≤ limit
  unfolding assign_role
  assign_role-limit r m limit u h found changed e positive =
      let step =
        count-update_row member_id_of (has_active_role mahber dto.role_name)
          (with_role (role_of dto)) member s.memberships u in
      ground arith
