-- ===== src/Auth/Passwords.antt =====
-- src/auth/auth.service.ts: changing a password and resetting a forgotten one with a code. bcrypt
-- is a parameter and so is the code that `forgotPassword` draws; the SMS and logging are left out.
pub mod Laws
use mahber_connect_backend.Prelude.{
  ℕ, ◌+◌, ◌*◌, String, Bool, not, ◌&&◌, none, some, ◌∷◌, ltb, ◌==◌, is_some, find, select,
  update_where,
}
use mahber_connect_backend.Db.{User, PasswordResetToken}
use mahber_connect_backend.Exec.{
  Exec, gets, or_throw, ◌>>=◌, ◌>>◌, throw_if, modify, bad_request, not_found, unauthorized, ok,
}
use mahber_connect_backend.Auth.Accounts.{has_phone, user_has_id}

-- `RESET_CODE_EXPIRY_MS`
abbrev pub reset_code_expiry_ms : ℕ
reset_code_expiry_ms = 10 * 60 * 1000

abbrev pub with_password : String → User → User
with_password hashed u = record u { password = hashed }

unfoldable pub change_password :
    (String → String) → (String → String → Bool) → ℕ → String → String → Exec (Unit {0})
change_password hash compare id current new = do
  u ← or_throw (← gets (λ s. find (user_has_id id) s.users)) (not_found "User not found")
  throw_if (not (compare current u.password)) (unauthorized "Current password is incorrect")
  modify
      (λ s. record s { users = update_where (user_has_id id) (with_password (hash new)) s.users })

-- `where: { user_id, used_at: null, expires_at: { gt: now } }`
abbrev pub is_usable : ℕ → ℕ → PasswordResetToken → Bool
is_usable now user t = (t.user_id == user) && not (is_some t.used_at) && ltb now t.expires_at

-- The same without the time.
abbrev pub is_unused : ℕ → PasswordResetToken → Bool
is_unused user t = (t.user_id == user) && not (is_some t.used_at)

abbrev pub new_token : ℕ → ℕ → ℕ → String → PasswordResetToken
new_token now id user code_hash = record {
  id = id;
  user_id = user;
  code_hash = code_hash;
  expires_at = now + reset_code_expiry_ms;
  used_at = none;
}

-- `code` is the text of the six digits that are drawn. The answer does not tell whether there is a
-- user of this phone.
unfoldable pub forgot_password : (String → String) → ℕ → ℕ → String → String → Exec (Unit {0})
forgot_password hash now id code phone s = elim (find (has_phone phone) s.users) [
  | none ↦ (ok tt, s)
  | some u ↦ (
    ok tt,
    record s {
      reset_tokens =
          new_token now id u.id (hash code)
          ∷ select (λ t. not (is_usable now u.id t)) s.reset_tokens;
    },
  )
]

abbrev pub used : ℕ → PasswordResetToken → PasswordResetToken
used now t = record t { used_at = some now }

unfoldable pub reset_password :
    (String → String) → (String → String → Bool) → ℕ → String → String → String → Exec (Unit {0})
reset_password hash compare now phone code new = do
  u ←
      or_throw (← gets (λ s. find (has_phone phone) s.users))
        (bad_request "Invalid or expired reset code")
  token ←
      or_throw (← gets (λ s. find (is_usable now u.id) s.reset_tokens))
        (bad_request "Invalid or expired reset code")
  throw_if (not (compare code token.code_hash)) (bad_request "Invalid or expired reset code")
  modify (λ s. record s {
    users = update_where (user_has_id u.id) (with_password (hash new)) s.users;
    reset_tokens = update_where (λ t. t.id == token.id) (used now) s.reset_tokens;
  })
  modify (λ s. record s { reset_tokens = update_where (is_unused u.id) (used now) s.reset_tokens })
