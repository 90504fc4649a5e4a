-- ===== src/Membership/Member.antt =====
-- src/membership/member.service.ts: suspension and reinstatement. The listing queries are not
-- modelled.
pub mod Laws
use mahber_connect_backend.Prelude.{
  ℕ, ◌+◌, ◌*◌, String, Bool, true, false, ◌&&◌, Option, none, some, List, [], ◌∷◌, leb, zero, suc,
  str_eq, select, if◌then◌else◌,
}
use mahber_connect_backend.Db.{Db, Membership, active, suspended, is_suspended}
use mahber_connect_backend.Exec.{Exec, Result, ok, err, not_found, gets, or_throw, ◌>>=◌, ◌>>◌}
use mahber_connect_backend.Membership.Access.{membership_of, assert_permission}
use mahber_connect_backend.Membership.StateMachine.{transition_state, no_extra}

abbrev pub day_ms : ℕ
day_ms = 24 * 60 * 60 * 1000

-- SuspendMemberDto
pub record SuspendMember : Type 0 where
  pub duration_days : Option ℕ
  pub reason : Option String

-- `dto.duration_days ? new Date(now + days) : null`: zero days count as none.
abbrev pub suspension_end : ℕ → Option ℕ → Option ℕ
suspension_end now none = none
suspension_end now (some zero) = none
suspension_end now (some (suc d)) = some (now + suc d * day_ms)

-- `dto.reason || 'Suspended by admin'`
abbrev suspension_text : Option String → String
suspension_text none = "Suspended by admin"
suspension_text (some t) = if str_eq t "" then "Suspended by admin" else t

unfoldable pub suspend : ℕ → ℕ → ℕ → ℕ → SuspendMember → Exec Membership
unfolding transition_state assert_permission
suspend now mahber member actor dto = do
  assert_permission "manage_members" mahber actor
  m ← or_throw (← gets (membership_of mahber member)) (not_found "Member not found")
  transition_state now m.id suspended (some actor) (record {
    suspended_until = some (suspension_end now dto.duration_days);
    suspension_reason = some (some (suspension_text dto.reason));
  })

unfoldable pub reinstate : ℕ → ℕ → ℕ → ℕ → Exec Membership
unfolding transition_state assert_permission
reinstate now mahber member actor = do
  assert_permission "manage_members" mahber actor
  m ← or_throw (← gets (membership_of mahber member)) (not_found "Member not found")
  transition_state now m.id active (some actor) no_extra

unfoldable pub unban : ℕ → ℕ → ℕ → ℕ → Exec Membership
unfolding transition_state assert_permission
unban now mahber member actor = do
  assert_permission "manage_members" mahber actor
  m ← or_throw (← gets (membership_of mahber member)) (not_found "Member not found")
  transition_state now m.id active (some actor) no_extra

-- One line of the report of `checkAndReinstateExpiredSuspensions`.
pub record Reinstated : Type 0 where
  pub id : ℕ
  pub member_id : ℕ
  pub success : Bool

-- `status: Suspended, suspended_until: { lte: now }`
abbrev pub is_expired_suspension : ℕ → Membership → Bool
is_expired_suspension now m =
    is_suspended m.status && elim m.suspended_until [ none ↦ false | some t ↦ leb t now ]

abbrev report : Membership → Result Membership → Reinstated
report m (ok _) = record { id = m.id; member_id = m.member_id; success = true }
report m (err _) = record { id = m.id; member_id = m.member_id; success = false }

-- The loop over the rows that were found before it started; a failure is reported and skipped.
unfoldable pub reinstate_each : ℕ → List Membership → Db → List Reinstated × Db
reinstate_each now [] s = ([], s)
reinstate_each now (m ∷ ms) s =
    let (r, s') = transition_state now m.id active none no_extra s in
    let (rs, s'') = reinstate_each now ms s' in (report m r ∷ rs, s'')

unfoldable pub check_and_reinstate_expired_suspensions : ℕ → Db → List Reinstated × Db
unfolding reinstate_each
check_and_reinstate_expired_suspensions now s =
    reinstate_each now (select (is_expired_suspension now) s.memberships) s
