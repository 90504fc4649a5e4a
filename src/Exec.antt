-- ===== src/Exec.antt =====
-- Service methods: they read and write the database and may throw an HTTP exception. What was
-- written before a throw stays written, so the state comes back beside the exception too;
-- `transaction` is Prisma's `$transaction`, which rolls back.
use mahber_connect_backend.Prelude.{String, Bool, true, false, Option, none, some, if◌then◌else◌}
use mahber_connect_backend.Db.{Db}

-- The exception classes of @nestjs/common, Prisma's own (`P2025` and the like) and those of other
-- libraries, with the message; values that the source interpolates
-- into a message are left out of it.
pub data Error : Type 0 where
  bad_request conflict forbidden not_found unauthorized prisma_error other_error : String → Error

pub data Result {ℓ} (A : Type ℓ) : Type ℓ where
  ok : A → Result A
  err : Error → Result A

abbrev pub Exec {ℓ} : Type ℓ → Type ℓ
Exec A = Db → Result A × Db

module _ {ℓ} {A : Type ℓ} where
  abbrev pub pure : A → Exec A
  pure a s = (ok a, s)

  abbrev pub throw : Error → Exec A
  throw e s = (err e, s)

  abbrev pub gets : (Db → A) → Exec A
  gets f s = (ok (f s), s)

  -- `if (!row) throw e`
  abbrev pub or_throw : Option A → Error → Exec A
  or_throw none e = throw e
  or_throw (some a) _ = pure a

infixl 5 ◌>>=◌ ◌>>◌
abbrev pub ◌>>=◌ {ℓ κ} : {A : Type ℓ} {B : Type κ} → Exec A → (A → Exec B) → Exec B
◌>>=◌ m f s = let (r, s') = m s in elim r [ ok a ↦ f a s' | err e ↦ throw e s' ]

abbrev pub ◌>>◌ {ℓ κ} : {A : Type ℓ} {B : Type κ} → Exec A → Exec B → Exec B
m >> k = m >>= λ _. k

-- `if (test) throw e`
abbrev pub throw_if : Bool → Error → Exec (Unit {0})
throw_if c e s = (if c then err e else ok tt, s)

abbrev pub modify : (Db → Db) → Exec (Unit {0})
modify f s = (ok tt, f s)

-- `prisma.$transaction(async (tx) => m)`
abbrev pub transaction {ℓ} : {A : Type ℓ} → Exec A → Exec A
transaction m s = let (r, s') = m s in elim r [ ok a ↦ (ok a, s') | err e ↦ (err e, s) ]

module _ {ℓ} {A : Type ℓ} where
  -- The call returned.
  abbrev pub is_ok : Result A → Bool
  is_ok (ok a) = true
  is_ok (err e) = false
