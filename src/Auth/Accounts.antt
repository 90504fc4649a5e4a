-- ===== src/Auth/Accounts.antt =====
-- src/auth/auth.service.ts: registration, login and profile. bcrypt and the JWT library are
-- parameters; the welcome message and logging are not modelled.
pub mod Laws
use mahber_connect_backend.Prelude.{
  ℕ, String, Bool, false, not, Option, none, ◌∷◌, str_eq, ◌==◌, or_default, or_else, is_some, find,
  update_where,
}
use mahber_connect_backend.Db.{is_suspended, Prefs, User}
use mahber_connect_backend.Exec.{
  Exec, pure, gets, or_throw, ◌>>=◌, ◌>>◌, throw_if, modify, conflict, not_found, unauthorized,
}

-- RegisterDto
pub record Register : Type 0 where
  pub phone : String
  pub password : String
  pub name : String
  pub email : Option String
  pub bio : Option String

-- A user without the password.
pub record Profile : Type 0 where
  pub id : ℕ
  pub phone : String
  pub name : String
  pub email : Option String
  pub bio : Option String
  pub is_super_admin : Bool
  pub is_suspended : Bool
  pub notification_prefs : Option Prefs

abbrev pub profile_of : User → Profile
profile_of u = record {
  id = u.id;
  phone = u.phone;
  name = u.name;
  email = u.email;
  bio = u.bio;
  is_super_admin = u.is_super_admin;
  is_suspended = u.is_suspended;
  notification_prefs = u.notification_prefs;
}

abbrev pub has_phone : String → User → Bool
has_phone phone u = str_eq u.phone phone

abbrev pub user_has_id : ℕ → User → Bool
user_has_id id u = u.id == id

abbrev pub new_user : ℕ → String → Register → User
new_user id hashed dto = record {
  id = id;
  phone = dto.phone;
  password = hashed;
  name = dto.name;
  email = dto.email;
  bio = dto.bio;
  is_super_admin = false;
  is_suspended = false;
  notification_prefs = none;
}

-- `hash` is bcrypt's, with the salt of this call.
unfoldable pub register : (String → String) → ℕ → Register → Exec Profile
register hash id dto = do
  existing ← gets (λ s. find (has_phone dto.phone) s.users)
  throw_if (is_some existing) (conflict "A user with this phone number already exists")
  modify (λ s. record s { users = new_user id (hash dto.password) dto ∷ s.users })
  pure (profile_of (new_user id (hash dto.password) dto))

-- JwtPayload; the claims of an organization and a role are not set by `login`.
pub record JwtPayload : Type 0 where
  pub sub : ℕ
  pub phone : String
  pub is_super_admin : Bool

abbrev pub payload_of : User → JwtPayload
payload_of u = record { sub = u.id; phone = u.phone; is_super_admin = u.is_super_admin }

pub record LoginResult : Type 0 where
  pub access_token : String
  pub id : ℕ
  pub phone : String
  pub name : String
  pub is_super_admin : Bool

-- `compare` is bcrypt's, on a password and a hash; `sign` is the JWT library.
unfoldable pub login :
    (String → String → Bool) → (JwtPayload → String) → String → String → Exec LoginResult
login compare sign phone password = do
  u ← or_throw (← gets (λ s. find (has_phone phone) s.users)) (unauthorized "Invalid credentials")
  throw_if u.is_suspended (unauthorized "Your account has been suspended")
  throw_if (not (compare password u.password)) (unauthorized "Invalid credentials")
  pure (record {
    access_token = sign (payload_of u);
    id = u.id;
    phone = u.phone;
    name = u.name;
    is_super_admin = u.is_super_admin;
  })

unfoldable pub get_profile : ℕ → Exec Profile
get_profile id = do
  u ← or_throw (← gets (λ s. find (user_has_id id) s.users)) (not_found "User not found")
  pure (profile_of u)

-- UpdateProfileDto
pub record UpdateProfile : Type 0 where
  pub name : Option String
  pub email : Option String
  pub bio : Option String
  pub notification_prefs : Option Prefs

abbrev pub with_profile : UpdateProfile → User → User
with_profile dto u = record u {
  name = or_default dto.name u.name;
  email = or_else dto.email u.email;
  bio = or_else dto.bio u.bio;
  notification_prefs = or_else dto.notification_prefs u.notification_prefs;
}

unfoldable pub update_profile : ℕ → UpdateProfile → Exec Profile
update_profile id dto = do
  u ← or_throw (← gets (λ s. find (user_has_id id) s.users)) (not_found "User not found")
  modify (λ s. record s { users = update_where (user_has_id id) (with_profile dto) s.users })
  pure (profile_of (with_profile dto u))

pub record Found : Type 0 where
  pub id : ℕ
  pub name : String
  pub phone : String

unfoldable pub search_by_phone : String → Exec Found
search_by_phone phone = do
  u ←
      or_throw (← gets (λ s. find (has_phone phone) s.users))
        (not_found "User with this phone number not found")
  pure (record { id = u.id; name = u.name; phone = u.phone })
