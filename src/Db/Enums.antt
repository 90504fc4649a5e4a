-- ===== src/Db/Enums.antt =====
-- The enums of prisma/schema.prisma, with the equality tests that the services make on them.
use mahber_connect_backend.Prelude.{Bool, true, false}

-- Model values that are written with a capital in the schema are written small here.
pub data MembershipStatus : Type 0 where
  pending approved payment_required active suspended rejected invalidated banned : MembershipStatus

pub data JoinRequestStatus : Type 0 where
  pending approved rejected invalidated : JoinRequestStatus

pub data PaymentStatus : Type 0 where
  pending completed failed expired : PaymentStatus

pub data PaymentType : Type 0 where
  contribution join_fee fine : PaymentType

pub data TransactionType : Type 0 where
  contribution fine equb_payout iddir_payout payout refund expense : TransactionType

pub data ViolationType : Type 0 where
  missed_payment missed_attendance : ViolationType

pub data ExpenseStatus : Type 0 where
  pending rejected paid failed : ExpenseStatus

pub data ExpenseCategory : Type 0 where
  operational maintenance event other equb_payout : ExpenseCategory

pub data PayoutCategory : Type 0 where
  iddir_benefit event_reimbursement recurring general : PayoutCategory

pub data PollType : Type 0 where
  single_choice multiple_choice ranked_choice : PollType

pub data InvitationStatus : Type 0 where
  pending accepted declined : InvitationStatus

pub data Recurrence : Type 0 where
  none weekly monthly : Recurrence

abbrev pub is_active : MembershipStatus → Bool
is_active MembershipStatus.active = true
is_active _ = false

abbrev pub is_payment_required : MembershipStatus → Bool
is_payment_required MembershipStatus.payment_required = true
is_payment_required _ = false

abbrev pub is_suspended : MembershipStatus → Bool
is_suspended MembershipStatus.suspended = true
is_suspended _ = false

abbrev pub request_is_pending : JoinRequestStatus → Bool
request_is_pending JoinRequestStatus.pending = true
request_is_pending _ = false

-- `status: { in: [Pending, Approved] }`
abbrev pub request_is_open : JoinRequestStatus → Bool
request_is_open JoinRequestStatus.pending = true
request_is_open JoinRequestStatus.approved = true
request_is_open _ = false

abbrev pub payment_is_pending : PaymentStatus → Bool
payment_is_pending PaymentStatus.pending = true
payment_is_pending _ = false

abbrev pub payment_is_completed : PaymentStatus → Bool
payment_is_completed PaymentStatus.completed = true
payment_is_completed _ = false

abbrev pub payment_is_failed : PaymentStatus → Bool
payment_is_failed PaymentStatus.failed = true
payment_is_failed _ = false

abbrev pub is_contribution : PaymentType → Bool
is_contribution PaymentType.contribution = true
is_contribution _ = false

abbrev pub is_join_fee : PaymentType → Bool
is_join_fee PaymentType.join_fee = true
is_join_fee _ = false

abbrev pub is_contribution_entry : TransactionType → Bool
is_contribution_entry TransactionType.contribution = true
is_contribution_entry _ = false

abbrev pub is_missed_payment : ViolationType → Bool
is_missed_payment ViolationType.missed_payment = true
is_missed_payment ViolationType.missed_attendance = false

abbrev pub expense_is_pending : ExpenseStatus → Bool
expense_is_pending ExpenseStatus.pending = true
expense_is_pending _ = false

abbrev pub invitation_is_pending : InvitationStatus → Bool
invitation_is_pending InvitationStatus.pending = true
invitation_is_pending _ = false

abbrev pub invitation_is_accepted : InvitationStatus → Bool
invitation_is_accepted InvitationStatus.accepted = true
invitation_is_accepted _ = false
