-- ===== src/Communication/Polls/Irv.antt =====
-- The counting of `getResults` in src/communication/poll.service.ts: plain counts, and the rounds
-- of a ranked-choice poll (instant runoff).
pub mod Laws
use mathlib.Core.Option
use mahber_connect_backend.Prelude.{
  ℕ, zero, suc, ◌+◌, ◌*◌, min, Bool, true, false, not, ◌&&◌, Option, none, some, List, [], ◌∷◌, map,
  ltb, ◌==◌, if◌then◌else◌, or_else, length, select, count, includes,
}

-- The occurrences of a choice in a ballot.
unfoldable pub occurrences : ℕ → List ℕ → ℕ
occurrences o [] = 0
occurrences o (c ∷ cs) = (if c == o then 1 else 0) + occurrences o cs

-- `counts[option]` of a single- or multiple-choice poll.
unfoldable pub plain_count : ℕ → List (List ℕ) → ℕ
unfolding occurrences
plain_count o [] = 0
plain_count o (b ∷ bs) = occurrences o b + plain_count o bs

-- `if (prefs.length > 0) counts[prefs[0]]++`
unfoldable pub is_first : ℕ → List ℕ → Bool
is_first o [] = false
is_first o (c ∷ cs) = c == o

abbrev pub is_used : List ℕ → Bool
is_used [] = false
is_used (c ∷ cs) = true

unfoldable pub first_count : ℕ → List (List ℕ) → ℕ
unfolding is_first
first_count o ballots = count (is_first o) ballots

-- `filter(c => activeOptions.has(c))`
unfoldable pub restrict : List ℕ → List (List ℕ) → List (List ℕ)
restrict options [] = []
restrict options (b ∷ bs) = select (λ c. includes c options) b ∷ restrict options bs

-- The last option, in the order of the set, that more than half of the used ballots put first.
unfoldable pub round_winner : List (List ℕ) → List ℕ → Option ℕ
unfolding first_count
round_winner ballots [] = none
round_winner ballots (o ∷ os) =
    let rest = round_winner ballots os in
    or_else rest (if ltb (count is_used ballots) (2 * first_count o ballots) then some o else none)

-- `minVotes`; of no options it is `Infinity` in the source, and is not used.
unfoldable pub min_votes : List (List ℕ) → List ℕ → ℕ
unfolding first_count
min_votes ballots [] = 0
min_votes ballots (o ∷ []) = first_count o ballots
min_votes ballots (o ∷ p ∷ os) = min (first_count o ballots) (min_votes ballots (p ∷ os))

pub record Round : Type 0 where
  pub counts : List (ℕ × ℕ)
  pub eliminated : List ℕ
  pub winner : Option ℕ

abbrev counts_of : List (List ℕ) → List ℕ → List (ℕ × ℕ)
counts_of ballots = map (λ o. (o, first_count o ballots))

-- `while (activeOptions.size > 0 && !winner)`, on fuel: a round that goes on drops an option.
unfoldable pub irv_rounds : ℕ → List ℕ → List (List ℕ) → Option (List Round)
unfolding round_winner min_votes restrict first_count
irv_rounds zero options ballots = none
irv_rounds (suc fuel) options ballots =
    let least = min_votes ballots options in
    let lost = select (λ o. first_count o ballots == least) options in
    let left = select (λ o. not (first_count o ballots == least)) options in
    let rest = irv_rounds fuel left (restrict left ballots) in
    if length options == 0 then some [] else elim (round_winner ballots options) [
      | some w ↦
          some
            (record { counts = counts_of ballots options; eliminated = []; winner = some w } ∷ [])
      | none ↦
          if (least == 0) && (count is_used ballots == 0)
          then some []
          else Option.map
              (λ rs.
                record { counts = counts_of ballots options; eliminated = lost; winner = none }
                ∷ rs)
              rest
    ]

-- `new Set(options.map((o) => o.id))`, in its order
unfoldable pub to_set : List ℕ → List ℕ
to_set [] = []
to_set (o ∷ os) = o ∷ select (λ p. not (p == o)) (to_set os)

-- The rounds of a poll: one unit of fuel for each option and one more.
unfoldable pub count_ranked : List ℕ → List (List ℕ) → Option (List Round)
unfolding irv_rounds restrict to_set
count_ranked ids ballots =
    let options = to_set ids in irv_rounds (suc (length options)) options (restrict options ballots)
