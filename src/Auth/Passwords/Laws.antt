-- ===== src/Auth/Passwords/Laws.antt =====
-- Theorems on changed and forgotten passwords.
use mahber_connect_backend.Prelude.{
  ℕ, ◌+◌, ◌≤◌, ◌<◌, String, ◌≡◌, refl, inl, inr, Bool, true, false, not, none, some, List, [], ◌∷◌,
  arith, ◌==◌, Option-cases, ==-refl, find, select, update_where, find_sound, find-update_where,
}
use mahber_connect_backend.Db.{User, PasswordResetToken, Db}
use mahber_connect_backend.Exec.{is_ok, bad_request, ok, err}
use mahber_connect_backend.Auth.Accounts.{has_phone, user_has_id, JwtPayload, login}
use mahber_connect_backend.Auth.Passwords.{
  reset_code_expiry_ms, with_password, change_password, is_usable, is_unused, forgot_password, used,
  reset_password,
}

module _ (hash : String → String) (compare : String → String → Bool)
    (sign : JwtPayload → String) where
  -- After a change of the password that returned, the user's phone logs in with exactly the
  -- passwords that bcrypt accepts for the new one, where the phone finds this user and the account
  -- is not suspended.
  pub change_password-login :
      (id : ℕ) (current new tried : String) (s : Db) (u : User)
      → find (user_has_id id) s.users ≡ some u
      → find (has_phone u.phone) s.users ≡ some u
      → u.is_suspended ≡ false
      → (change_password hash compare id current new s).0 ≡ ok tt
      → is_ok (login compare sign u.phone tried (change_password hash compare id current new s).1).0
        ≡ compare tried (hash new)
  unfolding change_password login
  change_password-login id current new tried s u by_id by_phone live h = ground (
    arith,
    find_sound (user_has_id id) s.users u by_id,
    find-update_where (has_phone u.phone) (user_has_id id) (with_password (hash new)) s.users
        (λ a. refl),
  )

find-update_none :
    (p q : PasswordResetToken → Bool) (f : PasswordResetToken → PasswordResetToken)
    (xs : List PasswordResetToken)
    → ((t : PasswordResetToken) → p (f t) ≡ false)
    → ((t : PasswordResetToken) → q t ≡ false → p t ≡ false)
    → find p (update_where q f xs) ≡ none
unfolding find update_where
find-update_none p q f [] new old = refl
find-update_none p q f (x ∷ xs) new old =
    ground (arith, new x, old x, find-update_none p q f xs new old)

-- Tokens that were not usable are not usable later.
find-later :
    (now later user : ℕ) (xs : List PasswordResetToken)
    → now ≤ later
    → find (is_usable later user) (select (λ t. not (is_usable now user t)) xs) ≡ none
unfolding find select
find-later now later user [] h = refl
find-later now later user (x ∷ xs) h = ground (arith, find-later now later user xs h)

-- The user's row after a reset.
module _ (hash : String → String) (compare : String → String → Bool) (sign : JwtPayload → String)
    (now : ℕ) (phone code new : String) (s : Db) where
  abbrev after : Db
  after = (reset_password hash compare now phone code new s).1

  -- A reset uses up every code of its user: after one that returned, no code is accepted for the
  -- phone at any time until another one is asked for.
  pub reset_password_once :
      (later : ℕ) (code' new' : String)
      → (reset_password hash compare now phone code new s).0 ≡ ok tt
      → reset_password hash compare later phone code' new' after
        ≡ (err (bad_request "Invalid or expired reset code"), after)
  unfolding reset_password
  reset_password_once later code' new' h = elim (Option-cases (find (has_phone phone) s.users)) [
    | inl missing ↦ ground arith
    | inr (u, found) ↦ elim (Option-cases (find (is_usable now u.id) s.reset_tokens)) [
      | inl no_token ↦ ground arith
      | inr (t, usable) ↦
          let kept =
            find-update_where (has_phone phone) (user_has_id u.id) (with_password (hash new))
              s.users (λ a. refl) in
          let gone =
            find-update_none (is_usable later u.id) (is_unused u.id) (used now)
              (update_where (λ x. x.id == t.id) (used now) s.reset_tokens) (λ x. ground arith)
              (λ x unused. ground arith) in
          ground (arith, ==-refl u.id)
    ]
  ]

-- A forgotten password can be reset: with the code that was drawn, in less than ten minutes, for a
-- phone that finds a user who is not suspended, the reset returns and the user then logs in with
-- the new password, where bcrypt accepts a text against either of its hashes.
pub forgot_password-login :
    (hash hash' : String → String) (compare : String → String → Bool) (sign : JwtPayload → String)
    (now later id : ℕ) (phone code new : String) (s : Db) (u : User)
    → ((p : String) → compare p (hash p) ≡ true)
    → ((p : String) → compare p (hash' p) ≡ true)
    → later < now + reset_code_expiry_ms
    → find (has_phone phone) s.users ≡ some u
    → u.is_suspended ≡ false
    → let asked = (forgot_password hash now id code phone s).1 in
      let (r, t) = reset_password hash' compare later phone code new asked in
      (r ≡ ok tt) × (is_ok (login compare sign phone new t).0 ≡ true)
unfolding forgot_password reset_password login find
forgot_password-login hash hash' compare sign now later id phone code new s u accepts accepts' soon
      found live =
    let kept =
      find-update_where (has_phone phone) (user_has_id u.id) (with_password (hash' new)) s.users
        (λ a. refl) in
    (
      ground (arith, ==-refl u.id, accepts code),
      ground (arith, ==-refl u.id, accepts code, accepts' new),
    )

-- Ten minutes after a code was asked for, no code is accepted for the phone.
pub forgot_password-expires :
    (hash : String → String) (compare : String → String → Bool) (now later id : ℕ)
    (phone code tried new : String) (s : Db)
    → now + reset_code_expiry_ms ≤ later
    → let asked = (forgot_password hash now id code phone s).1 in
      reset_password hash compare later phone tried new asked
      ≡ (err (bad_request "Invalid or expired reset code"), asked)
unfolding forgot_password reset_password find
forgot_password-expires hash compare now later id phone code tried new s late =
    elim (Option-cases (find (has_phone phone) s.users)) [
      | inl missing ↦ ground arith
      | inr (u, found) ↦
          let gone = find-later now later u.id s.reset_tokens (omega arith) in ground arith
    ]
