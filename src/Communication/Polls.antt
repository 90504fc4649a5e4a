-- ===== src/Communication/Polls.antt =====
-- src/communication/poll.service.ts. The WebSocket events that the methods emit are not modelled.
pub mod Irv
pub mod Results
pub mod Laws
use mahber_connect_backend.Db.{single_choice, multiple_choice, ranked_choice}
use mahber_connect_backend.Prelude.{
  paged, Paged, ℕ, String, Bool, true, false, not, ◌&&◌, ◌||◌, Option, none, some, List, [], ◌∷◌,
  map, str_eq, ltb, ◌==◌, if◌then◌else◌, length, find, select, update_where, any, all, includes,
}
use mahber_connect_backend.Db.{PollType, Membership, PollOption, Poll, Vote, Db}
use mahber_connect_backend.Exec.{
  Error, Exec, pure, throw, gets, or_throw, ◌>>=◌, ◌>>◌, throw_if, modify, bad_request, conflict,
  forbidden, not_found,
}
use mahber_connect_backend.Membership.Access.{active_membership_of}

abbrev pub poll_has_id : ℕ → Poll → Bool
poll_has_id id p = p.id == id

abbrev pub vote_of : ℕ → ℕ → Vote → Bool
vote_of poll member v = (v.poll_id == poll) && (v.member_id == member)

abbrev pub votes_for : ℕ → Db → List Vote
votes_for poll s = select (λ v. v.poll_id == poll) s.votes

abbrev pub closed : Poll → Poll
closed p = record p { is_closed = true }

-- CreatePollDto
pub record CreatePoll : Type 0 where
  pub question : String
  pub options : List PollOption
  pub poll_type : PollType
  pub voting_deadline : ℕ
  pub eligibility_criteria : Option String

abbrev pub new_poll : ℕ → ℕ → ℕ → CreatePoll → Poll
new_poll id mahber actor dto = record {
  id = id;
  mahber_id = mahber;
  question = dto.question;
  options = dto.options;
  poll_type = dto.poll_type;
  voting_deadline = dto.voting_deadline;
  eligibility_criteria = dto.eligibility_criteria;
  is_closed = false;
  created_by = actor;
}

unfoldable pub create_poll : ℕ → ℕ → ℕ → CreatePoll → Exec Poll
create_poll id mahber actor dto = do
  modify (λ s. record s { polls = new_poll id mahber actor dto ∷ s.polls })
  pure (new_poll id mahber actor dto)

-- `findAll`, without the votes and the creator that the source joins to the rows
unfoldable pub find_all_polls : ℕ → ℕ → ℕ → Db → Paged Poll
find_all_polls mahber page limit s = paged page limit (select (λ p. p.mahber_id == mahber) s.polls)

-- The votes that the source brings along are read from the table where they are used.
unfoldable pub close_expired_poll : ℕ → Poll → Exec Poll
close_expired_poll now poll =
    let expired = not poll.is_closed && ltb poll.voting_deadline now in
    do
      modify (λ s.
          if expired
          then record s { polls = update_where (poll_has_id poll.id) closed s.polls }
          else s)
      pure (if expired then closed poll else poll)

-- `if (poll.eligibility_criteria)`: an empty text counts as none.
unfoldable pub eligibility_error : Option String → Option Membership → Option String
eligibility_error none none = some "You must be an active member to vote"
eligibility_error none (some m) = none
eligibility_error (some role) none =
    if str_eq role ""
    then some "You must be an active member to vote"
    else some "You are not eligible to vote"
eligibility_error (some role) (some m) =
    if str_eq role "" || str_eq m.role.name role
    then none
    else some "You are not eligible to vote in this poll"

abbrev pub option_ids : List PollOption → List ℕ
option_ids = map (λ o. o.id)

-- `new Set(choices).size !== choices.length`
unfoldable pub has_duplicates : List ℕ → Bool
has_duplicates [] = false
has_duplicates (c ∷ cs) = includes c cs || has_duplicates cs

-- What a poll of this type says of the choices.
unfoldable pub choices_error : PollType → List ℕ → Option String
choices_error single_choice choices =
    if length choices == 1 then none else some "Single-choice poll requires exactly one choice"
choices_error multiple_choice choices = none
choices_error ranked_choice choices =
    if length choices == 0
    then some "Ranked choice poll requires at least one choice"
    else if has_duplicates choices
    then some "Ranked choice votes cannot contain duplicate options"
    else none

abbrev refuse : (String → Error) → Option String → Exec (Unit {0})
refuse kind none = pure tt
refuse kind (some message) = throw (kind message)

-- `validatePollAndVoteRequest`
unfoldable pub validate_poll_and_vote_request : ℕ → ℕ → ℕ → ℕ → List ℕ → Exec Poll
validate_poll_and_vote_request now mahber poll member choices = do
  p ← or_throw (← gets (λ s. find (poll_has_id poll) s.polls)) (not_found "Poll not found")
  throw_if (not (p.mahber_id == mahber)) (not_found "Poll not found")
  closed_poll ← close_expired_poll now p
  throw_if closed_poll.is_closed (bad_request "Poll is closed")
  membership ← gets (active_membership_of mahber member)
  refuse forbidden (eligibility_error p.eligibility_criteria membership)
  throw_if (not (all (λ c. includes c (option_ids p.options)) choices))
      (bad_request "Invalid option id")
  refuse bad_request (choices_error p.poll_type choices)
  pure p

abbrev pub new_vote : ℕ → ℕ → List ℕ → Vote
new_vote poll member choices = record { poll_id = poll; member_id = member; choices = choices }

-- The unique key of the table on poll and member gives P2002 for a second vote.
unfoldable pub cast_vote : ℕ → ℕ → ℕ → ℕ → List ℕ → Exec Vote
unfolding validate_poll_and_vote_request close_expired_poll
cast_vote now mahber poll member choices = do
  validate_poll_and_vote_request now mahber poll member choices
  voted ← gets (λ s. any (vote_of poll member) s.votes)
  throw_if voted (conflict "You have already voted in this poll")
  modify (λ s. record s { votes = new_vote poll member choices ∷ s.votes })
  pure (new_vote poll member choices)

abbrev pub with_choices : List ℕ → Vote → Vote
with_choices choices v = record v { choices = choices }

-- `upsert` by poll and member
abbrev pub upsert_vote : ℕ → ℕ → List ℕ → List Vote → List Vote
upsert_vote poll member choices votes =
    if any (vote_of poll member) votes
    then update_where (vote_of poll member) (with_choices choices) votes
    else new_vote poll member choices ∷ votes

unfoldable pub edit_vote : ℕ → ℕ → ℕ → ℕ → List ℕ → Exec Vote
unfolding validate_poll_and_vote_request close_expired_poll
edit_vote now mahber poll member choices = do
  validate_poll_and_vote_request now mahber poll member choices
  modify (λ s. record s { votes = upsert_vote poll member choices s.votes })
  pure (new_vote poll member choices)
