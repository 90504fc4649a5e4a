-- ===== src/Db/Decimals.antt =====
-- Amounts before and after they are stored in a column `Decimal(10, 2)` of prisma/schema.prisma.
pub mod Laws
use mahber_connect_backend.Prelude.{
  suc, ◌+◌, ◌*◌, ◌/◌, Bool, true, false, ℤ, pos, negsuc, pos_part, neg_part, sub_ℕ, ◌+ℤ◌, neg,
  ltb_ℤ,
}

-- A value of decimal.js: whole cents, or ten-thousandths of a cent, which hold a product of two
-- amounts of two places divided by 100.
pub data Decimal : Type 0 where
  cents : ℤ → Decimal
  parts : ℤ → Decimal

abbrev pub is_whole : Decimal → Bool
is_whole (cents n) = true
is_whole (parts n) = false

-- Whole cents in ten-thousandths of a cent.
unfoldable pub scale : ℤ → ℤ
scale a = sub_ℕ (pos_part a * 10000) (neg_part a * 10000)

-- The rounding of the column: to the nearest cent, half a cent away from zero.
unfoldable pub round_parts : ℤ → ℤ
round_parts (pos n) = pos ((n + 5000) / 10000)
round_parts (negsuc n) = neg (pos ((suc n + 5000) / 10000))

abbrev pub rounded : Decimal → ℤ
rounded (cents n) = n
rounded (parts n) = round_parts n

abbrev pub negated : Decimal → Decimal
negated (cents n) = cents (neg n)
negated (parts n) = parts (neg n)

-- `previous.add(d)` for a stored amount
abbrev pub add_to : ℤ → Decimal → Decimal
add_to a (cents n) = cents (a +ℤ n)
add_to a (parts n) = parts (scale a +ℤ n)

-- `a.sub(d)` for a stored amount
abbrev pub sub_from : ℤ → Decimal → Decimal
sub_from a d = add_to a (negated d)

-- The value in ten-thousandths of a cent.
abbrev pub in_parts : Decimal → ℤ
in_parts (cents n) = scale n
in_parts (parts n) = n

-- `a.lessThan(d)` for a stored amount
abbrev pub less_than : ℤ → Decimal → Bool
less_than a (cents n) = ltb_ℤ a n
less_than a (parts n) = ltb_ℤ (scale a) n

-- `greaterThan(0)`
abbrev pub is_positive : Decimal → Bool
is_positive d = ltb_ℤ (pos 0) (in_parts d)
