-- ===== src/Automation/FineCalculation/Laws.antt =====
-- Theorems on src/automation/processors/fine-calculation.processor.ts: fines, bans and the ledger.
use mahber_connect_backend.Prelude.{
  ℕ, ◌≤◌, ◌≡◌, refl, ◌&&◌, some, List, [], ◌∷◌, arith, ◌==◌, if◌then◌else◌, ==-refl, or_default, ℤ,
  pos, find, select, find_sound, find-update_where,
}
use mahber_connect_backend.Db.{
  MembershipStatus, ViolationType, is_active, Configuration, Mahber, Membership, LedgerEntry, Db,
}
use mahber_connect_backend.Membership.StateMachine.{has_id}
use mahber_connect_backend.Financial.Ledger.{create_ledger_entry}
use mahber_connect_backend.Financial.Ledger.Balance.{IsBalanced}
use mahber_connect_backend.Financial.Fines.{apply_fine}
use mahber_connect_backend.Financial.Fines.Laws.{apply_fine-IsBalanced}
use mahber_connect_backend.Automation.FineCalculation.{
  get_overdue_date, parse_interval_to_ms, is_recent_contribution, overdue, is_due, fine_member,
  exceeds, banned_row, ban_member, process_members, process_mahber, process_mahbers, process,
}

module _ (percent : ℤ → ℤ → ℤ) (now : ℕ) (new_ids : ℕ → ℕ × ℕ) where
  module _ (mahber : ℕ) (config : Configuration) where
    -- Where the interval between fines is positive, looking at a member a second time at the same
    -- moment changes nothing.
    pub fine_member_twice :
        (m : Membership) (s : Db)
        → 1 ≤ parse_interval_to_ms config.penalty_interval
        → let t = fine_member percent now new_ids mahber config m s in
          fine_member percent now new_ids mahber config m t ≡ t
    unfolding fine_member apply_fine create_ledger_entry find is_due get_overdue_date
    fine_member_twice m s h = ground (arith, ==-refl mahber, ==-refl m.member_id)

    -- A member with a contribution since the overdue date is not fined.
    pub fine_member-paid :
        (m : Membership) (s : Db) (e : LedgerEntry)
        → find
            (is_recent_contribution mahber m.member_id (overdue percent now new_ids mahber config))
            s.ledger
          ≡ some e
        → fine_member percent now new_ids mahber config m s ≡ s
    unfolding fine_member is_due
    fine_member-paid m s e h = ground arith

    -- The look at a membership's fines bans it exactly when they exceed a positive limit.
    pub ban_member_lem :
        (m row : Membership) (s : Db)
        → find (has_id m.id) s.memberships ≡ some row
        → find (has_id m.id) (ban_member percent now new_ids mahber config m s).memberships
          ≡ some (
              if exceeds percent now new_ids mahber config m.member_id s
              then record row { status = MembershipStatus.banned }
              else row)
    unfolding ban_member
    ban_member_lem m row s h =
        let kept =
          find-update_where (has_id m.id) (has_id m.id)
            (banned_row percent now new_ids mahber config) s.memberships (λ a. refl) in
        let same = find_sound (has_id m.id) s.memberships row h in ground arith

    fine_member-IsBalanced :
        (m : Membership) (s : Db)
        → IsBalanced s.ledger
        → IsBalanced (fine_member percent now new_ids mahber config m s).ledger
    unfolding fine_member
    fine_member-IsBalanced m s h =
        let step =
          apply_fine-IsBalanced percent now (new_ids m.id).0 (new_ids m.id).1 mahber m.member_id
            ViolationType.missed_payment (or_default config.penalty_rate (pos 0))
            (or_default config.contribution_amount (pos 0)) (or_default config.penalty_mode "fixed")
            "Missed contribution payment" s h in
        ground arith

    ban_member-ledger :
        (m : Membership) (s : Db)
        → (ban_member percent now new_ids mahber config m s).ledger ≡ s.ledger
    unfolding ban_member
    ban_member-ledger m s = ground arith

    process_members-IsBalanced :
        (ms : List Membership) (s : Db)
        → IsBalanced s.ledger
        → IsBalanced (process_members percent now new_ids mahber config ms s).ledger
    unfolding process_members
    process_members-IsBalanced [] s h = h
    process_members-IsBalanced (m ∷ ms) s h =
        let fined = fine_member percent now new_ids mahber config m s in
        process_members-IsBalanced ms (ban_member percent now new_ids mahber config m fined)
          (rw (ban_member-ledger m fined) (fine_member-IsBalanced m s h))

  process_mahbers-IsBalanced :
      (ms : List Mahber) (s : Db)
      → IsBalanced s.ledger
      → IsBalanced (process_mahbers percent now new_ids ms s).ledger
  unfolding process_mahbers process_mahber
  process_mahbers-IsBalanced [] s h = h
  process_mahbers-IsBalanced (m ∷ ms) s h =
      process_mahbers-IsBalanced ms (process_mahber percent now new_ids m s) (
        process_members-IsBalanced m.id m.configuration
          (select (λ r. (r.mahber_id == m.id) && is_active r.status) s.memberships) s h)

  -- If every entry of the ledger carries the sum of its member's amounts up to itself, so it does
  -- after a run of the job.
  pub process-IsBalanced :
      (s : Db) → IsBalanced s.ledger → IsBalanced (process percent now new_ids s).ledger
  unfolding process
  process-IsBalanced s h = process_mahbers-IsBalanced s.mahbers s h
