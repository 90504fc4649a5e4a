-- ===== src/Membership/Listings/Laws.antt =====
-- Theorems on the queries of memberships.
use mahber_connect_backend.Prelude.{
  ℕ, ◌≤◌, ◌≡◌, Bool, ◌&&◌, List, [], ◌∷◌, arith, ◌==◌, is_some, count,
}
use mahber_connect_backend.Db.{is_active, Db}
use mahber_connect_backend.Exec.{is_ok, ok}
use mahber_connect_backend.Membership.Access.{membership_of, assert_member}
use mahber_connect_backend.Membership.Listings.{Statistics, get_statistics, find_all_members}

-- The members of an organization are listed for exactly those who have a membership in it, and a
-- listing changes nothing.
pub find_all_members_iff :
    (mahber user page limit : ℕ) (s : Db)
    → ((find_all_members mahber user page limit s).1 ≡ s)
      × (is_ok (find_all_members mahber user page limit s).0
          ≡ is_some (membership_of mahber user s))
unfolding find_all_members assert_member
find_all_members_iff mahber user page limit s = (ground arith, ground arith)

count-both {ℓ} :
    {A : Type ℓ} (p q : A → Bool) (xs : List A) → count (λ a. p a && q a) xs ≤ count p xs
unfolding count
count-both p q [] = omega arith
count-both p q (x ∷ xs) = ground (arith, count-both p q xs)

-- No more members are active than there are.
pub get_statistics-bounds :
    (now mahber user : ℕ) (s : Db) (r : Statistics)
    → (get_statistics now mahber user s).0 ≡ ok r
    → r.active_members ≤ r.total_members
unfolding get_statistics assert_member
get_statistics-bounds now mahber user s r h =
    ground (arith, count-both (λ m. m.mahber_id == mahber) (λ m. is_active m.status) s.memberships)
