-- ===== src/Events/Sending/Laws.antt =====
-- Theorems on sending invitations.
use mathlib.Core.Option
use mathlib.Core.Path.{subst}
use mahber_connect_backend.Prelude.{
  ℕ, ◌≡◌, refl, inl, inr, Bool, true, false, not, ◌||◌, some, List, [], ◌∷◌, map, arith, ◌==◌,
  Bool-cases, Option-cases, ==-refl, IsOnePair, IsOnePair-new, any-eq_false-count, All, length,
  find, select, any, includes, All-map,
}
use mahber_connect_backend.Db.{EventInvitation, Db}
use mahber_connect_backend.Exec.{Result, conflict, ok, err}
use mahber_connect_backend.Events.Schedule.{event_in, find_one}
use mahber_connect_backend.Events.Invitations.{invitation_of}
use mahber_connect_backend.Events.Sending.{
  invitable, has_invitation, not_invited, new_invitation, insert_invitations, SendResult,
  send_invitations,
}

-- No member has two invitations to one event: the table's unique key.
abbrev pub IsOneInvitation : List EventInvitation → Type 0
IsOneInvitation rows = IsOnePair (λ i. i.event_id) (λ i. i.member_id) rows

module _ (ids : ℕ → ℕ) (mahber event : ℕ) where
  insert-IsOneInvitation :
      (us : List ℕ) (rows after : List EventInvitation)
      → insert_invitations ids mahber event us rows ≡ some after
      → IsOneInvitation rows
      → IsOneInvitation after
  unfolding insert_invitations
  insert-IsOneInvitation [] rows after h one = subst IsOneInvitation (ground arith) one
  insert-IsOneInvitation (u ∷ us) rows after h one =
      elim (Bool-cases (any (invitation_of event u) rows)) [
        | inl there ↦ ground arith
        | inr new ↦ insert-IsOneInvitation us _ after (ground arith) (
            IsOnePair-new (λ i. i.event_id) (λ i. i.member_id)
              (new_invitation (ids u) mahber event u) rows
              (any-eq_false-count (invitation_of event u) rows new) one)
      ]

  insert-any :
      (us : List ℕ) (rows after : List EventInvitation) (member : ℕ)
      → insert_invitations ids mahber event us rows ≡ some after
      → any (invitation_of event member) after
        ≡ (any (invitation_of event member) rows || includes member us)
  unfolding insert_invitations any includes
  insert-any [] rows after member h = ground arith
  insert-any (u ∷ us) rows after member h = elim (Bool-cases (any (invitation_of event u) rows)) [
    | inl there ↦ ground arith
    | inr new ↦ ground (
      arith,
      ==-refl event,
      insert-any us (new_invitation (ids u) mahber event u ∷ rows) after member,
    )
  ]

-- A selected number is among the selected ones.
selected : (p : ℕ → Bool) (us : List ℕ) → All (λ u. p u ≡ true → includes u (select p us) ≡ true) us
unfolding includes select
selected p [] = tt
selected p (u ∷ us) =
    (λ h. ground (arith, ==-refl u), All-map us (selected p us) (λ v k h. ground (arith, k h)))

select_none :
    (p : ℕ → Bool) (us : List ℕ) → All (λ u. p u ≡ true) us → select (λ u. not (p u)) us ≡ []
unfolding select
select_none p [] h = refl
select_none p (u ∷ us) h = ground (arith, h.0, select_none p us h.1)

module _ (ids : ℕ → ℕ) (mahber event actor : ℕ) (members : List ℕ) (s : Db) where
  abbrev sent : Result SendResult × Db
  sent = send_invitations ids mahber event actor members s

  abbrev valid : List ℕ
  valid = map (λ m. m.member_id) (invitable mahber members s)

  -- If no member has two invitations to one event, none has after invitations are sent, whether
  -- that returns or throws.
  pub send_invitations-IsOneInvitation :
      IsOneInvitation s.event_invitations → IsOneInvitation sent.1.event_invitations
  unfolding send_invitations find_one
  send_invitations-IsOneInvitation one k l =
      elim (Option-cases
        (insert_invitations ids mahber event (not_invited event valid s) s.event_invitations)) [
          | inl clash ↦ ground (arith, one k l)
          | inr (rows, fine) ↦ ground (
            arith,
            one k l,
            insert-IsOneInvitation ids mahber event (not_invited event valid s) s.event_invitations
                rows fine one k l,
          )
        ]

  sent-invited :
      (r : SendResult) → sent.0 ≡ ok r → All (λ u. has_invitation event u sent.1 ≡ true) valid
  unfolding send_invitations find_one not_invited
  sent-invited r h =
      elim (Option-cases
        (insert_invitations ids mahber event (not_invited event valid s) s.event_invitations)) [
          | inl clash ↦ ground arith
          | inr (rows, fine) ↦
              let after : sent.1.event_invitations ≡ rows = ground arith in
              rw after (
                All-map valid (selected (λ u. not (has_invitation event u s)) valid) (λ u is_new.
                  ground (
                    arith,
                    is_new,
                    insert-any ids mahber event (not_invited event valid s) s.event_invitations rows
                        u fine,
                  )))
        ]

  sent-frame :
      (r : SendResult)
      → sent.0 ≡ ok r
      → (sent.1.memberships ≡ s.memberships)
        × (sent.1.events ≡ s.events)
        × ((length valid == 0) ≡ false)
        × (Option.map (λ e. e.is_cancelled) (find (event_in mahber event) s.events) ≡ some false)
  unfolding send_invitations find_one
  sent-frame r h = (ground arith, ground arith, ground arith, ground arith)

  none_new : (r : SendResult) → sent.0 ≡ ok r → not_invited event valid sent.1 ≡ []
  unfolding not_invited
  none_new r h = select_none (λ u. has_invitation event u sent.1) valid (sent-invited r h)

  refused_again :
      (ids' : ℕ → ℕ) (actor' : ℕ) (t : Db)
      → t.memberships ≡ s.memberships
      → t.events ≡ s.events
      → (length valid == 0) ≡ false
      → Option.map (λ e. e.is_cancelled) (find (event_in mahber event) s.events) ≡ some false
      → not_invited event valid t ≡ []
      → send_invitations ids' mahber event actor' members t
        ≡ (err (conflict "All selected members have already been invited"), t)
  unfolding send_invitations find_one
  refused_again ids' actor' t same_members same_events some_valid held none_new = ground arith

  -- After invitations that were sent, sending them to the same members again is refused, and
  -- changes nothing.
  pub send_invitations_twice :
      (ids' : ℕ → ℕ) (actor' : ℕ) (r : SendResult)
      → sent.0 ≡ ok r
      → send_invitations ids' mahber event actor' members sent.1
        ≡ (err (conflict "All selected members have already been invited"), sent.1)
  send_invitations_twice ids' actor' r h =
      let (same_members, same_events, some_valid, held) = sent-frame r h in
      refused_again ids' actor' sent.1 same_members same_events some_valid held (none_new r h)
