-- ===== src/Db/Decimals/Laws.antt =====
-- How far rounding goes.
use mahber_connect_backend.Prelude.{
  ℕ, suc, ◌+◌, ◌*◌, ◌/◌, ◌≤◌, ◌≡◌, refl, true, arith, ℤ, pos, negsuc, pos_part, neg_part, ◌+ℤ◌, neg,
  int_laws,
}
use mahber_connect_backend.Db.Decimals.{
  Decimal, cents, parts, is_whole, scale, round_parts, rounded, negated, add_to,
}

-- The two amounts are at most `k` cents apart.
abbrev pub Within : ℕ → ℤ → ℤ → Type 0
Within k a b =
    (pos_part a + neg_part b ≤ pos_part b + neg_part a + k)
    × (pos_part b + neg_part a ≤ pos_part a + neg_part b + k)

nearest :
    (n : ℕ) → (n ≤ (n + 5000) / 10000 * 10000 + 5000) × ((n + 5000) / 10000 * 10000 ≤ n + 5000)
nearest n = (omega arith, omega arith)

round_near :
    (z : ℤ)
    → let r = round_parts z in
      (pos_part z + neg_part r * 10000 ≤ neg_part z + pos_part r * 10000 + 5000)
      × (neg_part z + pos_part r * 10000 ≤ pos_part z + neg_part r * 10000 + 5000)
unfolding round_parts neg
round_near (pos n) = let near = nearest n in ground (arith, near)
round_near (negsuc n) = let near = nearest (suc n) in ground (arith, near)

scale_parts :
    (a : ℤ) → pos_part (scale a) + neg_part a * 10000 ≡ neg_part (scale a) + pos_part a * 10000
unfolding scale
scale_parts a = ground arith

-- Rounding the sum with a stored amount, and adding the rounded value, are at most one cent apart.
pub add_to-Within : (a : ℤ) (d : Decimal) → Within 1 (rounded (add_to a d)) (a +ℤ rounded d)
add_to-Within a (cents n) = (omega int_laws, omega int_laws)
add_to-Within a (parts n) =
    let one = round_near n in
    let both = round_near (scale a +ℤ n) in
    let whole = scale_parts a in
    (omega (int_laws, one, both, whole), omega (int_laws, one, both, whole))

pub add_to-rounded :
    (a : ℤ) (d : Decimal) → is_whole d ≡ true → rounded (add_to a d) ≡ a +ℤ rounded d
add_to-rounded a (cents n) h = refl
add_to-rounded a (parts n) h = cc

pub rounded-negated : (d : Decimal) → rounded (negated d) ≡ neg (rounded d)
unfolding round_parts neg
rounded-negated (cents n) = refl
rounded-negated (parts n) = ground arith
