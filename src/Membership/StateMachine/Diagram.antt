-- ===== src/Membership/StateMachine/Diagram.antt =====
-- The transitions that .kiro/specs/mahber-connect-backend/design.md lists (Property 2), those of the
-- code that it does not list, and what a history can reach.
use mahber_connect_backend.Prelude.{◌⊎◌, inl, inr, true, false, ◌≡◌, ◌≢◌, refl, ◌↔◌}
use mahber_connect_backend.Db.{
  MembershipStatus, pending, approved, payment_required, active, suspended, rejected, invalidated,
  banned,
}
use mahber_connect_backend.Membership.StateMachine.{validate_transition}

-- The transitions of the design.
infix 40 ◌⟶◌
pub data ◌⟶◌ : MembershipStatus → MembershipStatus → Type 0 where
  approve : pending ⟶ approved
  request_payment : approved ⟶ payment_required
  activate : payment_required ⟶ active
  lapse : payment_required ⟶ invalidated
  suspend : active ⟶ suspended
  reinstate : suspended ⟶ active
  reject : pending ⟶ rejected
  expire : pending ⟶ invalidated

-- The transitions into Banned and out of it, which the design does not have.
pub data Ban : MembershipStatus → MembershipStatus → Type 0 where
  ban : Ban active banned
  ban_suspended : Ban suspended banned
  unban : Ban banned active

valid→step : (s t : MembershipStatus) → validate_transition s t ≡ true → (s ⟶ t) ⊎ Ban s t
unfolding validate_transition
valid→step pending approved h = inl approve
valid→step pending rejected h = inl reject
valid→step pending invalidated h = inl expire
valid→step approved payment_required h = inl request_payment
valid→step payment_required active h = inl activate
valid→step payment_required invalidated h = inl lapse
valid→step active suspended h = inl suspend
valid→step active banned h = inr ban
valid→step suspended active h = inl reinstate
valid→step suspended banned h = inr ban_suspended
valid→step banned active h = inr unban
valid→step _ _ h = cc

step→valid : {s t : MembershipStatus} → s ⟶ t → validate_transition s t ≡ true
unfolding validate_transition
step→valid approve = refl
step→valid reject = refl
step→valid expire = refl
step→valid request_payment = refl
step→valid activate = refl
step→valid lapse = refl
step→valid suspend = refl
step→valid reinstate = refl

ban→valid : {s t : MembershipStatus} → Ban s t → validate_transition s t ≡ true
unfolding validate_transition
ban→valid ban = refl
ban→valid ban_suspended = refl
ban→valid unban = refl

-- `validateTransition` accepts a pair of states exactly when the design lists the transition, or when
-- it bans an Active or Suspended member or makes a Banned one Active.
validate_transition_iff :
    (s t : MembershipStatus) → (validate_transition s t ≡ true) ↔ ((s ⟶ t) ⊎ Ban s t)
validate_transition_iff s t =
    (valid→step s t, λ k. elim k [ inl listed ↦ step→valid listed | inr bans ↦ ban→valid bans ])

-- A history of accepted transitions that never enters `avoided`.
pub data Avoids (avoided : MembershipStatus) (s : MembershipStatus)
    : MembershipStatus → Type 0 where
  here : Avoids avoided s s
  next :
      {t u : MembershipStatus}
      → Avoids avoided s t
      → validate_transition t u ≡ true
      → u ≢ avoided
      → Avoids avoided s u

-- The states that a new membership can be in before it was ever asked to pay.
data BeforePayment : MembershipStatus → Type 0 where
  is_pending : BeforePayment pending
  is_approved : BeforePayment approved
  is_rejected : BeforePayment rejected
  is_invalidated : BeforePayment invalidated

before_step :
    {s t : MembershipStatus}
    → (s ⟶ t) ⊎ Ban s t
    → t ≢ payment_required
    → BeforePayment s
    → BeforePayment t
before_step (inl approve) n b = is_approved
before_step (inl reject) n b = is_rejected
before_step (inl expire) n b = is_invalidated
before_step (inl request_payment) n b = absurd (n refl)
before_step (inl activate) n b = elim b [ ]
before_step (inl lapse) n b = is_invalidated
before_step (inl suspend) n b = elim b [ ]
before_step (inl reinstate) n b = elim b [ ]
before_step (inr ban) n b = elim b [ ]
before_step (inr ban_suspended) n b = elim b [ ]
before_step (inr unban) n b = elim b [ ]

stays_before : {t : MembershipStatus} → Avoids payment_required pending t → BeforePayment t
stays_before here = is_pending
stays_before (next {t} {u} h valid n) = before_step (valid→step t u valid) n (stays_before h)

not_before_active : ¬ (BeforePayment active)
not_before_active b = elim b [ ]

-- No history of accepted transitions leads from Pending to Active unless it enters
-- Payment_Required on the way.
pub payment_first : ¬ (Avoids payment_required pending active)
payment_first h = not_before_active (stays_before h)

-- The final states: no transition leaves Rejected or Invalidated, whatever the target.
pub final_states :
    (t : MembershipStatus)
    → (validate_transition rejected t ≡ false) × (validate_transition invalidated t ≡ false)
unfolding validate_transition
final_states t = (refl, refl)
