-- ===== src/System/Accounts.antt =====
-- The calls of src/auth and src/super-admin that change the database.
use mahber_connect_backend.Prelude.{ap, ℕ, String, ◌≡◌, Bool, arith}
use mahber_connect_backend.Db.{Db}
use mahber_connect_backend.System.Guarded.{guarded, IsIntact, same-IsIntact, users-IsIntact}
use mahber_connect_backend.Auth.Accounts.{Register, register, UpdateProfile, update_profile}
use mahber_connect_backend.Auth.Accounts.Laws.{register-IsOnePhone, update_profile-IsOnePhone}
use mahber_connect_backend.Auth.Passwords.{change_password, forgot_password, reset_password}
use mahber_connect_backend.Administration.SuperAdmin.{
  update_user_status, promote_user, update_mahber_status,
}
use mahber_connect_backend.System.Rows.{
  change_password-IsOnePhone, reset_password-IsOnePhone, update_user_status-IsOnePhone,
  promote_user-IsOnePhone,
}

module _ (s : Db) where
  enter-frame :
      (hash : String → String) (id : ℕ) (dto : Register)
      → guarded ((register hash id dto s).1)
        ≡ record (guarded s) { users = ((register hash id dto s).1).users }
  unfolding register
  enter-frame hash id dto = ground arith

  update-frame :
      (id : ℕ) (dto : UpdateProfile)
      → guarded ((update_profile id dto s).1)
        ≡ record (guarded s) { users = ((update_profile id dto s).1).users }
  unfolding update_profile
  update-frame id dto = ground arith

  change-frame :
      (hash : String → String) (compare : String → String → Bool) (id : ℕ) (current : String)
      (new : String)
      → guarded ((change_password hash compare id current new s).1)
        ≡ record (guarded s) { users = ((change_password hash compare id current new s).1).users }
  unfolding change_password
  change-frame hash compare id current new = ground arith

  forget-frame :
      (hash : String → String) (now : ℕ) (id : ℕ) (code : String) (phone : String)
      → guarded ((forgot_password hash now id code phone s).1) ≡ guarded s
  unfolding forgot_password
  forget-frame hash now id code phone = ground arith

  reset-frame :
      (hash : String → String) (compare : String → String → Bool) (now : ℕ) (phone : String)
      (code : String) (new : String)
      → guarded ((reset_password hash compare now phone code new s).1) ≡ record (guarded s) {
        users = ((reset_password hash compare now phone code new s).1).users;
      }
  unfolding reset_password
  reset-frame hash compare now phone code new = ground arith

  status-frame :
      (id : ℕ) (suspended : Bool)
      → guarded ((update_user_status id suspended s).1)
        ≡ record (guarded s) { users = ((update_user_status id suspended s).1).users }
  unfolding update_user_status
  status-frame id suspended = ground arith

  promote-frame :
      (id : ℕ) (super : Bool)
      → guarded ((promote_user id super s).1)
        ≡ record (guarded s) { users = ((promote_user id super s).1).users }
  unfolding promote_user
  promote-frame id super = ground arith

  close-frame :
      (id : ℕ) (suspended : Bool) → guarded ((update_mahber_status id suspended s).1) ≡ guarded s
  unfolding update_mahber_status
  close-frame id suspended = ground arith

-- A call about accounts, and the database that it leaves.
pub data AccountStep (s : Db) : Db → Type 0 where
  enter :
      (hash : String → String) (id : ℕ) (dto : Register)
      → AccountStep s ((register hash id dto s).1)
  update : (id : ℕ) (dto : UpdateProfile) → AccountStep s ((update_profile id dto s).1)
  change :
      (hash : String → String) (compare : String → String → Bool) (id : ℕ) (current : String)
      (new : String)
      → AccountStep s ((change_password hash compare id current new s).1)
  forget :
      (hash : String → String) (now : ℕ) (id : ℕ) (code : String) (phone : String)
      → AccountStep s ((forgot_password hash now id code phone s).1)
  reset :
      (hash : String → String) (compare : String → String → Bool) (now : ℕ) (phone : String)
      (code : String) (new : String)
      → AccountStep s ((reset_password hash compare now phone code new s).1)
  status : (id : ℕ) (suspended : Bool) → AccountStep s ((update_user_status id suspended s).1)
  promote : (id : ℕ) (super : Bool) → AccountStep s ((promote_user id super s).1)
  close : (id : ℕ) (suspended : Bool) → AccountStep s ((update_mahber_status id suspended s).1)

-- Each keeps the invariants.
pub AccountStep-IsIntact :
    {s t : Db} → AccountStep s t → IsIntact (guarded s) → IsIntact (guarded t)
AccountStep-IsIntact {s = s} {t = t} (enter hash id dto) h =
    users-IsIntact s h t (enter-frame s hash id dto) (register-IsOnePhone hash id dto s h.phones)
AccountStep-IsIntact {s = s} {t = t} (update id dto) h =
    users-IsIntact s h t (update-frame s id dto) (update_profile-IsOnePhone id dto s h.phones)
AccountStep-IsIntact {s = s} {t = t} (change hash compare id current new) h =
    users-IsIntact s h t (change-frame s hash compare id current new)
      (change_password-IsOnePhone hash compare id current new s h.phones)
AccountStep-IsIntact {s = s} {t = t} (forget hash now id code phone) h =
    same-IsIntact s h t (forget-frame s hash now id code phone)
AccountStep-IsIntact {s = s} {t = t} (reset hash compare now phone code new) h =
    users-IsIntact s h t (reset-frame s hash compare now phone code new)
      (reset_password-IsOnePhone hash compare now phone code new s h.phones)
AccountStep-IsIntact {s = s} {t = t} (status id suspended) h =
    users-IsIntact s h t (status-frame s id suspended)
      (update_user_status-IsOnePhone id suspended s h.phones)
AccountStep-IsIntact {s = s} {t = t} (promote id super) h =
    users-IsIntact s h t (promote-frame s id super) (promote_user-IsOnePhone id super s h.phones)
AccountStep-IsIntact {s = s} {t = t} (close id suspended) h =
    same-IsIntact s h t (close-frame s id suspended)

-- The ledger is left alone.
pub AccountStep-ledger : {s t : Db} → AccountStep s t → t.ledger ≡ s.ledger
AccountStep-ledger {s = s} (enter hash id dto) = ap (λ g. g.ledger) (enter-frame s hash id dto)
AccountStep-ledger {s = s} (update id dto) = ap (λ g. g.ledger) (update-frame s id dto)
AccountStep-ledger {s = s} (change hash compare id current new) =
    ap (λ g. g.ledger) (change-frame s hash compare id current new)
AccountStep-ledger {s = s} (forget hash now id code phone) =
    ap (λ g. g.ledger) (forget-frame s hash now id code phone)
AccountStep-ledger {s = s} (reset hash compare now phone code new) =
    ap (λ g. g.ledger) (reset-frame s hash compare now phone code new)
AccountStep-ledger {s = s} (status id suspended) = ap (λ g. g.ledger) (status-frame s id suspended)
AccountStep-ledger {s = s} (promote id super) = ap (λ g. g.ledger) (promote-frame s id super)
AccountStep-ledger {s = s} (close id suspended) = ap (λ g. g.ledger) (close-frame s id suspended)
