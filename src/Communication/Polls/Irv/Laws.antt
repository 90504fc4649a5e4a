-- ===== src/Communication/Polls/Irv/Laws.antt =====
-- Theorems on the instant runoff of `getResults`.
use mathlib.Core.Path.{subst}
use mahber_connect_backend.Prelude.{
  ℕ, zero, suc, ◌+◌, ◌*◌, ◌≤◌, ◌<◌, ◌≡◌, refl, sym, inl, inr, Bool, true, false, not, some, List,
  [], ◌∷◌, arith, leb, ◌==◌, Bool-cases, Option-cases, ==-refl, is_some, length, select, count, any,
  includes,
}
use mahber_connect_backend.Communication.Polls.Irv.{
  is_first, is_used, first_count, restrict, round_winner, min_votes, irv_rounds,
}

length-select_le : (p : ℕ → Bool) (xs : List ℕ) → length (select p xs) ≤ length xs
unfolding select
length-select_le p [] = omega arith
length-select_le p (x ∷ xs) = ground (arith, length-select_le p xs)

length-select_lt :
    (p : ℕ → Bool) (xs : List ℕ) → any p xs ≡ true → length (select (λ o. not (p o)) xs) < length xs
unfolding select any
length-select_lt p [] h = cc
length-select_lt p (x ∷ xs) h =
    ground (arith, length-select_le (λ o. not (p o)) xs, length-select_lt p xs)

met_later :
    (ballots : List (List ℕ)) (k o : ℕ) (os : List ℕ)
    → any (λ q. first_count q ballots == k) os ≡ true
    → any (λ q. first_count q ballots == k) (o ∷ os) ≡ true
unfolding any
met_later ballots k o os h = ground arith

-- Some option has the least count.
least_is_met :
    (ballots : List (List ℕ)) (o : ℕ) (os : List ℕ)
    → any (λ p. first_count p ballots == min_votes ballots (o ∷ os)) (o ∷ os) ≡ true
unfolding any min_votes
least_is_met ballots o [] = ground (arith, ==-refl (first_count o ballots))
least_is_met ballots o (p ∷ os) =
    elim (Bool-cases (leb (first_count o ballots) (min_votes ballots (p ∷ os)))) [
      | inl le ↦ ground (arith, ==-refl (first_count o ballots))
      | inr gt ↦
          let eq : min_votes ballots (o ∷ p ∷ os) ≡ min_votes ballots (p ∷ os) = ground arith in
          subst (λ k. any (λ q. first_count q ballots == k) (o ∷ p ∷ os) ≡ true) (sym eq)
            (met_later ballots (min_votes ballots (p ∷ os)) o (p ∷ os) (least_is_met ballots p os))
    ]

-- On more fuel than there are options, the rounds of the runoff come to an end.
pub irv_rounds-ends :
    (fuel : ℕ) (options : List ℕ) (ballots : List (List ℕ))
    → length options < fuel
    → is_some (irv_rounds fuel options ballots) ≡ true
unfolding irv_rounds
irv_rounds-ends zero options ballots h = ground arith
irv_rounds-ends (suc fuel) [] ballots h = refl
irv_rounds-ends (suc fuel) (o ∷ os) ballots h =
    let least = min_votes ballots (o ∷ os) in
    let left = select (λ p. not (first_count p ballots == least)) (o ∷ os) in
    let fewer =
      length-select_lt (λ p. first_count p ballots == least) (o ∷ os) (least_is_met ballots o os) in
    let rest = irv_rounds-ends fuel left (restrict left ballots) (omega arith) in
    ground (arith, rest)

-- Two options share the used ballots.
first_counts_le :
    (o p : ℕ) (ballots : List (List ℕ))
    → (o == p) ≡ false
    → first_count o ballots + first_count p ballots ≤ count is_used ballots
unfolding first_count is_first count
first_counts_le o p [] h = omega arith
first_counts_le o p ([] ∷ bs) h = ground (arith, first_counts_le o p bs)
first_counts_le o p ((c ∷ cs) ∷ bs) h = ground (arith, first_counts_le o p bs)

-- What wins a round is put first by more than half of the ballots that still name an option.
pub round_winner-majority :
    (ballots : List (List ℕ)) (options : List ℕ) (w : ℕ)
    → round_winner ballots options ≡ some w
    → count is_used ballots < 2 * first_count w ballots
unfolding round_winner
round_winner-majority ballots [] w h = cc
round_winner-majority ballots (o ∷ os) w h = elim (Option-cases (round_winner ballots os)) [
  | inl e ↦ ground arith
  | inr (v, e) ↦ ground (arith, round_winner-majority ballots os v e)
]

-- An option of the round that more than half of the used ballots put first wins the round.
pub majority_wins :
    (ballots : List (List ℕ)) (options : List ℕ) (o : ℕ)
    → includes o options ≡ true
    → count is_used ballots < 2 * first_count o ballots
    → round_winner ballots options ≡ some o
unfolding round_winner includes
majority_wins ballots [] o i h = cc
majority_wins ballots (x ∷ xs) o i h = elim (Option-cases (round_winner ballots xs)) [
  | inl e ↦ ground (arith, majority_wins ballots xs o)
  | inr (w, e) ↦
      let more = round_winner-majority ballots xs w e in
      let shared = first_counts_le o w ballots in ground (arith, shared)
]
