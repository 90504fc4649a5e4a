-- ===== src/Tests/Voting.antt =====
-- Tests of polls.
use mathlib.Core.Option
use mahber_connect_backend.Prelude.{
  ℕ, ◌≤◌, ◌≡◌, refl, true, none, some, List, [], ◌∷◌, map, arith, is_some, select, count, includes,
}
use mahber_connect_backend.Communication.Polls.{vote_of, cast_vote}
use mahber_connect_backend.Communication.Polls.Irv.{irv_rounds, count_ranked}
use mahber_connect_backend.Communication.Polls.Irv.Laws.{irv_rounds-ends}
use mahber_connect_backend.Communication.Polls.Laws.{IsOneEach, cast_vote-IsOneEach}
use mahber_connect_backend.Tests.Samples.{db}

one_vote_at : (p m : ℕ) → count (vote_of p m) db.votes ≤ 1
unfolding count
one_vote_at p m = ground arith

cast_vote-IsOneEach_example : IsOneEach (cast_vote 20 1 4 3 (12 ∷ 11 ∷ []) db).1.votes
cast_vote-IsOneEach_example = cast_vote-IsOneEach 20 1 4 3 (12 ∷ 11 ∷ []) db one_vote_at

abbrev ballots : List (List ℕ)
ballots = (11 ∷ []) ∷ (12 ∷ 13 ∷ []) ∷ (13 ∷ 12 ∷ []) ∷ (12 ∷ []) ∷ (11 ∷ 12 ∷ []) ∷ []

irv_rounds-ends_example : is_some (irv_rounds 4 (11 ∷ 12 ∷ 13 ∷ []) ballots) ≡ true
irv_rounds-ends_example = irv_rounds-ends 4 (11 ∷ 12 ∷ 13 ∷ []) ballots (omega arith)

-- Nobody has a majority at first; the last option is dropped and its ballot goes to the second.
runoff :
    Option.map (map (λ r. r.winner)) (count_ranked (11 ∷ 12 ∷ 13 ∷ []) ballots)
    ≡ some (none ∷ some 12 ∷ [])
unfolding count_ranked select count includes
runoff = refl
