-- ===== src/Administration/SuperAdmin.antt =====
-- src/super-admin/super-admin.service.ts: the state of users and organizations, the dashboard and
-- the listings, all the newest first. The column `type` of an organization is not modelled.
pub mod Laws
use mahber_connect_backend.Prelude.{
  ℕ, String, Bool, true, not, ◌&&◌, ◌||◌, Option, none, some, List, [], ◌∷◌, map, str_eq, ◌==◌,
  sum_where, Paged, paged, ℤ, ◌-ℤ◌, pos, length, take, find, select, update_where, count, any,
}
use mahber_connect_backend.Db.{
  is_suspended, payment_is_completed, payment_is_failed, User, Mahber, Membership, Payment,
  AuditEntry, Db,
}
use mahber_connect_backend.Exec.{
  Exec, pure, gets, or_throw, ◌>>=◌, ◌>>◌, throw_if, modify, bad_request, not_found,
}
use mahber_connect_backend.Auth.Accounts.{Profile, profile_of, user_has_id}

unfoldable pub update_user_status : ℕ → Bool → Exec User
update_user_status id suspended = do
  u ← or_throw (← gets (λ s. find (user_has_id id) s.users)) (not_found "User not found")
  throw_if (u.is_super_admin && suspended)
      (bad_request "Cannot suspend a Super Admin. Demote them first.")
  modify (λ s. record s {
    users = update_where (user_has_id id) (λ x. record x { is_suspended = suspended }) s.users;
  })
  pure (record u { is_suspended = suspended })

unfoldable pub promote_user : ℕ → Bool → Exec User
promote_user id super = do
  u ← or_throw (← gets (λ s. find (user_has_id id) s.users)) (not_found "User not found")
  throw_if (u.is_suspended && super) (bad_request "Cannot promote a suspended user.")
  modify (λ s. record s {
    users = update_where (user_has_id id) (λ x. record x { is_super_admin = super }) s.users;
  })
  pure (record u { is_super_admin = super })

unfoldable pub update_mahber_status : ℕ → Bool → Exec Mahber
update_mahber_status id suspended = do
  o ← or_throw (← gets (λ s. find (λ o. o.id == id) s.mahbers)) (not_found "Mahber not found")
  modify (λ s. record s {
    mahbers = update_where (λ o. o.id == id) (λ o. record o { is_suspended = suspended }) s.mahbers;
  })
  pure (record o { is_suspended = suspended })

pub record UserStats : Type 0 where
  pub total : ℕ
  pub active : ℤ
  pub suspended : ℕ
  pub super_admins : ℕ

pub record PaymentStats : Type 0 where
  pub total : ℕ
  pub completed : ℕ
  pub failed : ℕ
  pub total_volume_etb : ℤ

pub record Dashboard : Type 0 where
  pub users : UserStats
  pub mahbers : UserStats
  pub payments : PaymentStats

abbrev payment_amount : Payment → ℤ
payment_amount p = p.amount

abbrev pub is_completed : Payment → Bool
is_completed p = payment_is_completed p.status

-- `getDashboardStats` without the breakdown by type; the organizations have no administrators.
unfoldable pub get_dashboard_stats : Db → Dashboard
get_dashboard_stats s =
    let suspended_users = count (λ u. u.is_suspended) s.users in
    let suspended_mahbers = count (λ o. o.is_suspended) s.mahbers in
    record {
      users = record {
        total = length s.users;
        active = pos (length s.users) -ℤ pos suspended_users;
        suspended = suspended_users;
        super_admins = count (λ u. u.is_super_admin) s.users;
      };
      mahbers = record {
        total = length s.mahbers;
        active = pos (length s.mahbers) -ℤ pos suspended_mahbers;
        suspended = suspended_mahbers;
        super_admins = 0;
      };
      payments = record {
        total = length s.payments;
        completed = count is_completed s.payments;
        failed = count (λ p. payment_is_failed p.status) s.payments;
        total_volume_etb = sum_where is_completed payment_amount s.payments;
      };
    }

-- A search text that is there and not empty; `insensitive` is the database's `contains`, which
-- does not look at the case.
abbrev matches : (String → String → Bool) → Option String → List String → Bool
matches insensitive none fields = true
matches insensitive (some t) fields = str_eq t "" || any (insensitive t) fields

abbrev texts_of : Option String → List String
texts_of none = []
texts_of (some t) = t ∷ []

unfoldable pub find_all_users :
    (String → String → Bool) → ℕ → ℕ → Option String → Db → Paged Profile
find_all_users insensitive page limit search s = paged page limit (
    map profile_of
      (select (λ u. matches insensitive search (u.name ∷ u.phone ∷ texts_of u.email)) s.users))

-- The memberships that the source adds to the user are left out.
unfoldable pub find_one_user : ℕ → Exec Profile
find_one_user id = do
  u ← or_throw (← gets (λ s. find (user_has_id id) s.users)) (not_found "User not found")
  pure (profile_of u)

pub record MahberView : Type 0 where
  pub id : ℕ
  pub name : String
  pub is_public : Bool
  pub is_suspended : Bool
  pub created_at : ℕ
  pub member_count : ℕ

abbrev pub mahber_view : List Membership → Mahber → MahberView
mahber_view memberships o = record {
  id = o.id;
  name = o.name;
  is_public = o.is_public;
  is_suspended = o.is_suspended;
  created_at = o.created_at;
  member_count = count (λ m. m.mahber_id == o.id) memberships;
}

unfoldable pub find_all_mahbers :
    (String → String → Bool) → ℕ → ℕ → Option String → Db → Paged MahberView
find_all_mahbers insensitive page limit search s = paged page limit (
    map (mahber_view s.memberships)
      (select (λ o. matches insensitive search (o.name ∷ [])) s.mahbers))

-- The members without their names and phones.
pub record MahberDetails : Type 0 where
  pub mahber : Mahber
  pub members : List Membership
  pub recent_payments : List Payment

unfoldable pub find_one_mahber : ℕ → Exec MahberDetails
find_one_mahber id = do
  o ← or_throw (← gets (λ s. find (λ o. o.id == id) s.mahbers)) (not_found "Mahber not found")
  members ← gets (λ s. select (λ m. m.mahber_id == id) s.memberships)
  payments ← gets (λ s. take 10 (select (λ p. p.mahber_id == id) s.payments))
  pure (record { mahber = o; members = members; recent_payments = payments })

-- `id_text` is the text of a reference.
unfoldable pub find_all_payments :
    (String → String → Bool) → (ℕ → String) → ℕ → ℕ → Option String → Db → Paged Payment
find_all_payments insensitive id_text page limit search s =
    paged page limit (select (λ p. matches insensitive search (id_text p.tx_ref ∷ [])) s.payments)

unfoldable pub find_all_audit_logs : ℕ → ℕ → Db → Paged AuditEntry
find_all_audit_logs page limit s = paged page limit s.audit_trail
