-- ===== src/Auth/Accounts/Laws.antt =====
-- Theorems on registration and login.
use mathlib.Core.Path.{subst}
use mahber_connect_backend.Prelude.{
  ℕ, ◌≤◌, String, ◌≡◌, refl, inl, inr, Bool, true, false, none, List, [], ◌∷◌, arith, str_eq,
  eq_iff, Bool-cases, Option-cases, find, update_where, count, find_sound, find-update_where,
  find-eq_none_count,
}
use mahber_connect_backend.Db.{User, Db}
use mahber_connect_backend.Exec.{ok}
use mahber_connect_backend.Auth.Accounts.{
  Register, Profile, has_phone, user_has_id, register, JwtPayload, login, get_profile,
  UpdateProfile, with_profile, update_profile,
}

-- Who registers can log in with the same phone and password, where bcrypt accepts a password
-- against its own hash.
pub register-login :
    (hash : String → String) (compare : String → String → Bool) (sign : JwtPayload → String)
    (id : ℕ) (dto : Register) (s : Db) (r : Profile)
    → ((p : String) → compare p (hash p) ≡ true)
    → (register hash id dto s).0 ≡ ok r
    → (login compare sign dto.phone dto.password (register hash id dto s).1).0
      ≡ ok (record {
        access_token = sign (record { sub = id; phone = dto.phone; is_super_admin = false });
        id = id;
        phone = dto.phone;
        name = dto.name;
        is_super_admin = false;
      })
unfolding register login find
register-login hash compare sign id dto s r accepts h =
    let same = (eq_iff dto.phone dto.phone).1 refl in ground (arith, accepts dto.password)

-- No phone belongs to two users: the table's unique key.
abbrev pub IsOnePhone : List User → Type 0
IsOnePhone users = (phone : String) → count (has_phone phone) users ≤ 1

-- If no phone belongs to two users, none does after a registration, whether it returns or throws.
pub register-IsOnePhone :
    (hash : String → String) (id : ℕ) (dto : Register) (s : Db)
    → IsOnePhone s.users
    → IsOnePhone (register hash id dto s).1.users
unfolding register count
register-IsOnePhone hash id dto s h phone =
    elim (Option-cases (find (has_phone dto.phone) s.users)) [
      | inr (u, taken) ↦ ground (arith, h phone)
      | inl free ↦ elim (Bool-cases (str_eq dto.phone phone)) [
        | inl same ↦
            let eq : dto.phone ≡ phone = (eq_iff dto.phone phone).0 same in
            let free_there : find (has_phone phone) s.users ≡ none =
              subst (λ p. find (has_phone p) s.users ≡ none) eq free in
            ground (arith, find-eq_none_count (has_phone phone) s.users free_there)
        | inr other ↦ ground (arith, h phone)
      ]
    ]

count-phone :
    (id : ℕ) (dto : UpdateProfile) (phone : String) (users : List User)
    → count (has_phone phone) (update_where (user_has_id id) (with_profile dto) users)
      ≡ count (has_phone phone) users
unfolding count update_where
count-phone id dto phone [] = refl
count-phone id dto phone (u ∷ us) = ground (arith, count-phone id dto phone us)

pub update_profile-IsOnePhone :
    (id : ℕ) (dto : UpdateProfile) (s : Db)
    → IsOnePhone s.users
    → IsOnePhone (update_profile id dto s).1.users
unfolding update_profile
update_profile-IsOnePhone id dto s h phone =
    ground (arith, h phone, count-phone id dto phone s.users)

-- What `updateProfile` returns is what `getProfile` then reports.
pub update_profile-get_profile :
    (id : ℕ) (dto : UpdateProfile) (s : Db) (p : Profile)
    → (update_profile id dto s).0 ≡ ok p
    → get_profile id (update_profile id dto s).1 ≡ (ok p, (update_profile id dto s).1)
unfolding update_profile get_profile
update_profile-get_profile id dto s p h = elim (Option-cases (find (user_has_id id) s.users)) [
  | inl missing ↦ ground arith
  | inr (u, found) ↦ ground (
    arith,
    find_sound (user_has_id id) s.users u found,
    find-update_where (user_has_id id) (user_has_id id) (with_profile dto) s.users (λ a. refl),
  )
]
