-- ===== src/Administration/SuperAdmin/Laws.antt =====
-- Theorems on the administration: no user is suspended and super administrator, and the listings.
use mathlib.Core.Path.{subst}
use mahber_connect_backend.Prelude.{
  ℕ, ◌+◌, ◌≤◌, ◌≡◌, sym, inl, inr, Bool, true, false, ◌&&◌, some, List, [], ◌∷◌, arith, ◌==◌,
  Bool-cases, Option-cases, first_pages, first_pages-all, All, length, find, update_where, count,
  find_sound, Unique, Unique-only,
}
use mahber_connect_backend.Db.{payment_is_completed, payment_is_failed, User, Payment, Db}
use mahber_connect_backend.Auth.Accounts.{user_has_id}
use mahber_connect_backend.Administration.SuperAdmin.{
  update_user_status, promote_user, get_dashboard_stats, find_all_audit_logs,
}

-- No user is both suspended and a super administrator.
abbrev pub IsGoverned : List User → Type 0
IsGoverned users = All (λ u. (u.is_suspended && u.is_super_admin) ≡ false) users

IsGoverned-rows :
    (id : ℕ) (f : User → User) (u : User) (users : List User)
    → ((f u).is_suspended && (f u).is_super_admin) ≡ false
    → All (λ x. (x.id == u.id) ≡ true → x ≡ u) users
    → IsGoverned users
    → IsGoverned (update_where (user_has_id u.id) f users)
unfolding update_where
IsGoverned-rows id f u [] fine only h = tt
IsGoverned-rows id f u (x ∷ xs) fine only h = (
  elim (Bool-cases (x.id == u.id)) [
    | inl same ↦
        rw same (
          subst (λ y. ((f y).is_suspended && (f y).is_super_admin) ≡ false) (sym (only.0 same))
            fine)
    | inr other ↦ rw other h.0
  ],
  IsGoverned-rows id f u xs fine only.1 h.1,
)

-- With unique ids the row that is updated is the one that was found.
IsGoverned-update :
    (id : ℕ) (f : User → User) (users : List User) (u : User)
    → Unique (λ x. x.id) users
    → find (user_has_id id) users ≡ some u
    → ((f u).is_suspended && (f u).is_super_admin) ≡ false
    → IsGoverned users
    → IsGoverned (update_where (user_has_id id) f users)
IsGoverned-update id f users u unique found fine h =
    let key = find_sound (user_has_id id) users u found in
    let eq : u.id ≡ id = ground arith in
    subst (λ k. IsGoverned (update_where (user_has_id k) f users)) eq
      (IsGoverned-rows id f u users fine
        (Unique-only (λ x. x.id) (user_has_id id) users u unique found) h)

module _ (id : ℕ) (flag : Bool) (s : Db) where
  -- If no user is both suspended and a super administrator, and no id stands in two rows, none is
  -- after a change of a user's status, whether it returns or throws.
  pub update_user_status-IsGoverned :
      Unique (λ u. u.id) s.users
      → IsGoverned s.users
      → IsGoverned (update_user_status id flag s).1.users
  unfolding update_user_status
  update_user_status-IsGoverned unique h = elim (Option-cases (find (user_has_id id) s.users)) [
    | inl missing ↦ rw missing h
    | inr (u, found) ↦ elim (Bool-cases (u.is_super_admin && flag)) [
      | inl refused ↦ rw (found, refused) h
      | inr fine ↦
          rw (found, fine)
            (IsGoverned-update id (λ x. record x { is_suspended = flag }) s.users u unique found
              (ground arith) h)
    ]
  ]

  -- The same for a promotion or a demotion.
  pub promote_user-IsGoverned :
      Unique (λ u. u.id) s.users → IsGoverned s.users → IsGoverned (promote_user id flag s).1.users
  unfolding promote_user
  promote_user-IsGoverned unique h = elim (Option-cases (find (user_has_id id) s.users)) [
    | inl missing ↦ rw missing h
    | inr (u, found) ↦ elim (Bool-cases (u.is_suspended && flag)) [
      | inl refused ↦ rw (found, refused) h
      | inr fine ↦
          rw (found, fine)
            (IsGoverned-update id (λ x. record x { is_super_admin = flag }) s.users u unique found
              (ground arith) h)
    ]
  ]

count-governed :
    (users : List User)
    → IsGoverned users
    → count (λ u. u.is_suspended) users + count (λ u. u.is_super_admin) users ≤ length users
unfolding count
count-governed [] h = omega arith
count-governed (u ∷ us) h = ground (arith, h.0, count-governed us h.1)

count-status :
    (rows : List Payment)
    → count (λ p. payment_is_completed p.status) rows + count (λ p. payment_is_failed p.status) rows
      ≤ length rows
unfolding count
count-status [] = omega arith
count-status (p ∷ ps) = ground (arith, count-status ps)

-- On the dashboard the suspended users and the super administrators are together at most all the
-- users, where no user is both, and the completed and the failed payments at most all payments.
pub get_dashboard_stats-bounds :
    (s : Db)
    → IsGoverned s.users
    → let d = get_dashboard_stats s in
      (d.users.suspended + d.users.super_admins ≤ d.users.total)
      × (d.payments.completed + d.payments.failed ≤ d.payments.total)
unfolding get_dashboard_stats
get_dashboard_stats-bounds s h = (count-governed s.users h, count-status s.payments)

-- With a positive limit, the pages of the list of audit entries are together all the entries.
pub find_all_audit_logs-all :
    (limit : ℕ) (s : Db)
    → 1 ≤ limit
    → first_pages
        (find_all_audit_logs 1 limit s).total_pages
        (λ page. (find_all_audit_logs page limit s).rows)
      ≡ s.audit_trail
unfolding find_all_audit_logs
find_all_audit_logs-all limit s h = first_pages-all limit s.audit_trail h
