-- ===== src/Communication/Polls/Results.antt =====
-- `getResults` of src/communication/poll.service.ts.
use mahber_connect_backend.Prelude.{
  ℕ, Bool, true, false, not, Option, none, some, List, [], ◌∷◌, map, ◌==◌, if◌then◌else◌, length,
  find,
}
use mahber_connect_backend.Db.{PollType, PollOption, Poll, Vote}
use mahber_connect_backend.Exec.{
  Exec, pure, gets, or_throw, ◌>>=◌, ◌>>◌, throw_if, forbidden, not_found,
}
use mahber_connect_backend.Membership.Access.{active_membership_of}
use mahber_connect_backend.Communication.Polls.{
  poll_has_id, votes_for, close_expired_poll, option_ids,
}
use mahber_connect_backend.Communication.Polls.Irv.{plain_count, Round, count_ranked}

-- The answer; `irv_rounds` is there for ranked-choice polls only.
pub record PollResults : Type 0 where
  pub poll : Poll
  pub total_votes : ℕ
  pub results : List (PollOption × ℕ)
  pub rounds : Option (List Round)

-- `counts[opt.id] ?? 0`
unfoldable pub counted : ℕ → List (ℕ × ℕ) → ℕ
counted o [] = 0
counted o ((p, n) ∷ rest) = if p == o then n else counted o rest

-- `irvRounds.length > 0 ? irvRounds[0].counts[opt.id] ?? 0 : 0`
abbrev pub first_round_count : List Round → ℕ → ℕ
first_round_count [] o = 0
first_round_count (r ∷ rs) o = counted o r.counts

abbrev pub ballots_of : List Vote → List (List ℕ)
ballots_of = map (λ v. v.choices)

abbrev pub is_ranked : PollType → Bool
is_ranked PollType.ranked_choice = true
is_ranked _ = false

-- The answer for a poll and its votes; nothing if the rounds ran out of fuel.
unfoldable pub results_of : Poll → List Vote → Option PollResults
unfolding count_ranked plain_count counted
results_of p votes =
    let ballots = ballots_of votes in
    if is_ranked p.poll_type
    then elim (count_ranked (option_ids p.options) ballots) [
      | none ↦ none
      | some rounds ↦ some (record {
        poll = p;
        total_votes = length votes;
        results = map (λ o. (o, first_round_count rounds o.id)) p.options;
        rounds = some rounds;
      })
    ]
    else some (record {
      poll = p;
      total_votes = length votes;
      results = map (λ o. (o, plain_count o.id ballots)) p.options;
      rounds = none;
    })

unfoldable pub get_results : ℕ → ℕ → ℕ → ℕ → Exec (Option PollResults)
unfolding results_of close_expired_poll
get_results now mahber poll actor = do
  p ← or_throw (← gets (λ s. find (poll_has_id poll) s.polls)) (not_found "Poll not found")
  throw_if (not (p.mahber_id == mahber)) (not_found "Poll not found")
  closed_poll ← close_expired_poll now p
  _ ← or_throw (← gets (active_membership_of mahber actor)) (forbidden "Access denied")
  votes ← gets (votes_for poll)
  pure (results_of closed_poll votes)
