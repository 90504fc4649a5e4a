-- ===== src/Tests/Membership.antt =====
-- Tests of the membership components.
use mahber_connect_backend.Prelude.{
  ◌≤◌, ◌≡◌, refl, ◌⊎◌, true, none, [], arith, find, update_where, count, Unique,
}
use mahber_connect_backend.Db.{MembershipStatus}
use mahber_connect_backend.Membership.Access.{includes_text}
use mahber_connect_backend.Membership.StateMachine.{
  validate_transition, no_extra, updated, transition_state,
}
use mahber_connect_backend.Membership.StateMachine.Transitions.{
  IsConsistent, transition_state-diagram,
}
use mahber_connect_backend.Membership.Roles.{
  AssignRole, default_permissions, has_active_role, limit_of, assign_role,
}
use mahber_connect_backend.Membership.Roles.Laws.{
  active_admins, assign_role-keeps_admin, assign_role-limit,
}
use mahber_connect_backend.Tests.Samples.{value, chair, member, db}

chair-IsConsistent : IsConsistent chair
chair-IsConsistent = record {
  dated = ground arith;
  no_end = ground arith;
  no_reason = ground arith;
}

transition_state-diagram_example :
    (MembershipStatus.banned ≡ MembershipStatus.active)
    ⊎ (validate_transition MembershipStatus.active MembershipStatus.banned ≡ true)
unfolding transition_state updated find update_where validate_transition
transition_state-diagram_example =
    transition_state-diagram 20 3 MembershipStatus.banned none no_extra db 3 member
      (updated 20 MembershipStatus.banned no_extra member) refl refl

abbrev to_member : AssignRole
to_member = record { role_name = "Member"; custom_permissions = [] }

abbrev to_treasurer : AssignRole
to_treasurer = record { role_name = "Treasurer"; custom_permissions = [] }

distinct_ids : Unique (λ m. m.id) db.memberships
distinct_ids = ((refl, (refl, (refl, tt))), ((refl, (refl, tt)), ((refl, tt), (tt, tt))))

assign_role-keeps_admin_example : 1 ≤ active_admins 1 (assign_role 1 2 1 to_member db).1
unfolding count has_active_role
assign_role-keeps_admin_example =
    assign_role-keeps_admin 1 2 1 to_member db distinct_ids (omega arith)

assign_role-limit_example :
    count (has_active_role 1 "Treasurer") (assign_role 1 3 1 to_treasurer db).1.memberships ≤ 1
unfolding assign_role find update_where count has_active_role includes_text limit_of
    default_permissions
assign_role-limit_example =
    assign_role-limit 1 3 1 to_treasurer db (value (assign_role 1 3 1 to_treasurer db).0 member)
      member 1 distinct_ids refl refl refl refl (omega arith)
