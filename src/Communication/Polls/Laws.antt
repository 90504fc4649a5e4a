-- ===== src/Communication/Polls/Laws.antt =====
-- Theorems on voting: `validatePollAndVoteRequest`, `castVote` and `editVote`.
use mathlib.Core.Path.{subst}
use mahber_connect_backend.Exec.{is_ok}
use mahber_connect_backend.Prelude.{
  ℕ, ◌≤◌, ◌<◌, ◌≡◌, refl, inl, inr, Bool, true, false, Option, none, some, List, [], ◌∷◌, arith,
  Bool-cases, Option-cases, ==-refl, is_some, find, update_where, count, any, all, includes,
  find_sound, find-eq_none, any-find, find-update_where,
}
use mahber_connect_backend.Db.{Poll, Vote, Db}
use mahber_connect_backend.Exec.{ok}
use mahber_connect_backend.Membership.Access.{active_membership_of}
use mahber_connect_backend.Communication.Polls.{
  poll_has_id, vote_of, close_expired_poll, eligibility_error, option_ids, choices_error,
  validate_poll_and_vote_request, new_vote, cast_vote, with_choices, edit_vote,
}

-- No member has two votes in one poll: the table's unique key.
abbrev pub IsOneEach : List Vote → Type 0
IsOneEach votes = (poll member : ℕ) → count (vote_of poll member) votes ≤ 1

any-count : (p : Vote → Bool) (votes : List Vote) → any p votes ≡ false → count p votes ≡ 0
unfolding any count
any-count p [] h = refl
any-count p (v ∷ vs) h = ground (arith, any-count p vs)

count-with_choices :
    (p q : Vote → Bool) (choices : List ℕ) (votes : List Vote)
    → ((v : Vote) → p (with_choices choices v) ≡ p v)
    → count p (update_where q (with_choices choices) votes) ≡ count p votes
unfolding count update_where
count-with_choices p q choices [] h = refl
count-with_choices p q choices (v ∷ vs) h = ground (arith, h v, count-with_choices p q choices vs h)

-- A new vote of a member that has none in the poll.
IsOneEach-new :
    (poll member : ℕ) (choices : List ℕ) (votes : List Vote)
    → any (vote_of poll member) votes ≡ false
    → IsOneEach votes
    → IsOneEach (new_vote poll member choices ∷ votes)
unfolding count
IsOneEach-new poll member choices votes none_yet h p m =
    let zero_yet = any-count (vote_of poll member) votes none_yet in
    elim (Bool-cases (vote_of p m (new_vote poll member choices))) [
      | inl same ↦
          let p_eq : poll ≡ p = ground arith in
          let m_eq : member ≡ m = ground arith in
          let zero_there : count (vote_of p m) votes ≡ 0 =
            subst (λ x. count (vote_of x m) votes ≡ 0) p_eq
              (subst (λ y. count (vote_of poll y) votes ≡ 0) m_eq zero_yet) in
          ground arith
      | inr other ↦ ground (arith, h p m)
    ]

module _ (now mahber poll member : ℕ) (choices : List ℕ) (s : Db) where
  abbrev the_poll : Option Poll
  the_poll = find (poll_has_id poll) s.polls

  -- The checks pass only for an open poll of the organization, before its deadline is past, and a
  -- voter who is an active member, eligible for the poll, with choices among its options and of
  -- the number that its type takes; and then nothing has changed.
  pub validate_poll_and_vote_request-ok :
      (p : Poll)
      → (validate_poll_and_vote_request now mahber poll member choices s).0 ≡ ok p
      → (the_poll ≡ some p)
        × (p.mahber_id ≡ mahber)
        × (p.is_closed ≡ false)
        × (now ≤ p.voting_deadline)
        × (is_some (active_membership_of mahber member s) ≡ true)
        × (eligibility_error p.eligibility_criteria (active_membership_of mahber member s) ≡ none)
        × (all (λ c. includes c (option_ids p.options)) choices ≡ true)
        × (choices_error p.poll_type choices ≡ none)
        × ((validate_poll_and_vote_request now mahber poll member choices s).1 ≡ s)
  unfolding validate_poll_and_vote_request close_expired_poll eligibility_error
  validate_poll_and_vote_request-ok p h = ground arith

  -- If no member has two votes in one poll, none has after a call of `castVote`, whether it
  -- returns or throws.
  pub cast_vote-IsOneEach :
      IsOneEach s.votes → IsOneEach (cast_vote now mahber poll member choices s).1.votes
  unfolding cast_vote
  cast_vote-IsOneEach h p m = elim (Bool-cases (any (vote_of poll member) s.votes)) [
    | inl voted ↦ ground (arith, h p m)
    | inr new ↦ ground (arith, h p m, IsOneEach-new poll member choices s.votes new h p m)
  ]

  pub edit_vote-IsOneEach :
      IsOneEach s.votes → IsOneEach (edit_vote now mahber poll member choices s).1.votes
  unfolding edit_vote
  edit_vote-IsOneEach h p m = elim (Bool-cases (any (vote_of poll member) s.votes)) [
    | inl voted ↦ ground (
      arith,
      h p m,
      count-with_choices (vote_of p m) (vote_of poll member) choices s.votes (λ v. refl),
    )
    | inr new ↦ ground (arith, h p m, IsOneEach-new poll member choices s.votes new h p m)
  ]

-- After a vote that returned, a further one by the member in the poll is refused, and the votes
-- stay as they are.
pub cast_vote_twice :
    (now now' mahber poll member : ℕ) (choices choices' : List ℕ) (s : Db) (v : Vote)
    → (cast_vote now mahber poll member choices s).0 ≡ ok v
    → let t = (cast_vote now mahber poll member choices s).1 in
      (t.votes ≡ v ∷ s.votes)
      × ((cast_vote now' mahber poll member choices' t).1.votes ≡ t.votes)
      × (is_ok (cast_vote now' mahber poll member choices' t).0 ≡ false)
unfolding cast_vote any
cast_vote_twice now now' mahber poll member choices choices' s v h =
    ground (arith, ==-refl poll, ==-refl member)

-- After an edit that returned, the member's vote in the poll has the new choices.
pub edit_vote-find :
    (now mahber poll member : ℕ) (choices : List ℕ) (s : Db) (v : Vote)
    → (edit_vote now mahber poll member choices s).0 ≡ ok v
    → find (vote_of poll member) (edit_vote now mahber poll member choices s).1.votes
      ≡ some (new_vote poll member choices)
unfolding edit_vote find
edit_vote-find now mahber poll member choices s v h =
    elim (Option-cases (find (vote_of poll member) s.votes)) [
      | inl e ↦
          ground (arith, find-eq_none (vote_of poll member) s.votes e, ==-refl poll, ==-refl member)
      | inr (w, e) ↦ ground (
        arith,
        any-find (vote_of poll member) s.votes w e,
        find_sound (vote_of poll member) s.votes w e,
        find-update_where (vote_of poll member) (vote_of poll member) (with_choices choices) s.votes
            (λ a. refl),
      )
    ]

-- Once the deadline of a poll that is found is past, `castVote` and `editVote` leave all votes as
-- they are.
pub expired_poll-frozen :
    (now mahber poll member : ℕ) (choices : List ℕ) (s : Db) (p : Poll)
    → find (poll_has_id poll) s.polls ≡ some p
    → p.voting_deadline < now
    → ((cast_vote now mahber poll member choices s).1.votes ≡ s.votes)
      × ((edit_vote now mahber poll member choices s).1.votes ≡ s.votes)
unfolding cast_vote edit_vote
expired_poll-frozen now mahber poll member choices s p e h = (ground arith, ground arith)
