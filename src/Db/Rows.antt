-- ===== src/Db/Rows.antt =====
-- The models of prisma/schema.prisma: a record for each table that the modelled services use, with
-- the columns that they read or write.
use mahber_connect_backend.Prelude.{ℕ, String, Bool, Option, List, [], ℤ}
use mahber_connect_backend.Db.Enums.{
  MembershipStatus, JoinRequestStatus, PaymentStatus, PaymentType, TransactionType, ViolationType,
  ExpenseStatus, ExpenseCategory, PayoutCategory, PollType, InvitationStatus, Recurrence,
}

-- The JSON column `role`.
pub record Role : Type 0 where
  pub name : String
  pub permissions : List String

-- The JSON column `configuration`, with the keys that the services read.
pub record Configuration : Type 0 where
  pub contribution_amount : Option ℤ
  pub payment_frequency : Option String
  pub join_fee_required : Option Bool
  pub join_fee_amount : Option ℤ
  pub penalty_rate : Option ℤ
  pub penalty_mode : Option String
  pub penalty_interval : Option String
  pub max_fine_total : Option ℤ
  pub payment_day : Option ℕ
  pub next_payment_date : Option ℕ
  pub role_limits : List (String × ℕ)
  pub custom_roles : List Role

-- The JSON column `notification_prefs`; a missing key does not switch anything off.
pub record Prefs : Type 0 where
  pub payments : Option Bool
  pub events : Option Bool
  pub announcements : Option Bool
  pub chat : Option Bool
  pub email : Option Bool
  pub sms : Option Bool

pub record User : Type 0 where
  pub id : ℕ
  pub phone : String
  pub password : String
  pub name : String
  pub email : Option String
  pub bio : Option String
  pub is_super_admin : Bool
  pub is_suspended : Bool
  pub notification_prefs : Option Prefs

-- `code_hash` is the hash of the code that was sent.
pub record PasswordResetToken : Type 0 where
  pub id : ℕ
  pub user_id : ℕ
  pub code_hash : String
  pub expires_at : ℕ
  pub used_at : Option ℕ

pub record Mahber : Type 0 where
  pub id : ℕ
  pub name : String
  pub configuration : Configuration
  pub is_public : Bool
  pub is_suspended : Bool
  pub invitation_code : Option String
  pub created_at : ℕ

pub record Membership : Type 0 where
  pub id : ℕ
  pub mahber_id : ℕ
  pub member_id : ℕ
  pub status : MembershipStatus
  pub role : Role
  pub has_won_current_cycle : Bool
  pub approval_date : Option ℕ
  pub activation_date : Option ℕ
  pub joined_at : Option ℕ
  pub next_payment_due : Option ℕ
  pub suspended_until : Option ℕ
  pub suspension_reason : Option String

pub record JoinRequest : Type 0 where
  pub id : ℕ
  pub mahber_id : ℕ
  pub user_id : ℕ
  pub status : JoinRequestStatus
  pub invitation_code : Option String
  pub rejection_reason : Option String
  pub is_invitation : Bool
  pub created_at : ℕ

pub record Payment : Type 0 where
  pub id : ℕ
  pub mahber_id : ℕ
  pub member_id : ℕ
  pub amount : ℤ
  pub payment_type : PaymentType
  pub status : PaymentStatus
  pub tx_ref : ℕ
  pub chapa_reference : Option ℕ
  pub checkout_url : Option String
  pub fine_ids : List ℕ
  pub period_start : Option ℕ
  pub period_end : Option ℕ
  pub expires_at : Option ℕ
  pub completed_at : Option ℕ
  pub created_at : ℕ

-- The column `status` is a text that takes these values.
pub data PendingStatus : Type 0 where
  pending completed failed expired : PendingStatus

pub record PendingPayment : Type 0 where
  pub id : ℕ
  pub mahber_id : ℕ
  pub member_id : ℕ
  pub amount : ℤ
  pub status : PendingStatus

pub record LedgerEntry : Type 0 where
  pub id : ℕ
  pub mahber_id : ℕ
  pub member_id : ℕ
  pub transaction_type : TransactionType
  pub amount : ℤ
  pub running_balance : ℤ
  pub payment_id : Option ℕ
  pub fine_id : Option ℕ
  pub lottery_id : Option ℕ
  pub expense_id : Option ℕ
  pub payout_id : Option ℕ
  pub description : String
  pub created_at : ℕ

pub record Fine : Type 0 where
  pub id : ℕ
  pub mahber_id : ℕ
  pub member_id : ℕ
  pub violation_type : ViolationType
  pub amount : ℤ
  pub is_waived : Bool
  pub paid_at : Option ℕ
  pub payment_id : Option ℕ
  pub waiver_reason : Option String
  pub waived_by : Option ℕ
  pub waived_at : Option ℕ
  pub created_at : ℕ

pub record Lottery : Type 0 where
  pub id : ℕ
  pub mahber_id : ℕ
  pub winner_id : ℕ
  pub eligible_members : List ℕ
  pub random_seed : ℕ
  pub payout_amount : ℤ
  pub created_at : ℕ

pub record Expense : Type 0 where
  pub id : ℕ
  pub mahber_id : ℕ
  pub amount : ℤ
  pub reason : String
  pub category : ExpenseCategory
  pub status : ExpenseStatus
  pub created_by : ℕ
  pub approved_by : Option ℕ
  pub approved_at : Option ℕ
  pub rejection_reason : Option String
  pub recipient_name : String
  pub recipient_account_type : String
  pub recipient_account : String
  pub recipient_bank_code : Option String
  pub chapa_transfer_ref : Option String
  pub chapa_transfer_status : Option String

pub record Payout : Type 0 where
  pub id : ℕ
  pub mahber_id : ℕ
  pub member_id : ℕ
  pub amount : ℤ
  pub category : PayoutCategory
  pub reason : String
  pub approved_by : ℕ
  pub paid_at : Option ℕ

pub record Event : Type 0 where
  pub id : ℕ
  pub mahber_id : ℕ
  pub title : String
  pub start_time : ℕ
  pub end_time : ℕ
  pub location : String
  pub is_mandatory : Bool
  pub is_cancelled : Bool
  pub created_by : ℕ
  pub host_id : Option ℕ
  pub recurrence_pattern : Recurrence
  pub recurrence_end_date : Option ℕ
  pub series_id : Option ℕ

pub record EventInvitation : Type 0 where
  pub id : ℕ
  pub event_id : ℕ
  pub mahber_id : ℕ
  pub member_id : ℕ
  pub status : InvitationStatus
  pub source : String
  pub responded_at : Option ℕ

pub record Attendance : Type 0 where
  pub id : ℕ
  pub event_id : ℕ
  pub member_id : ℕ
  pub mahber_id : ℕ

pub record EventPhoto : Type 0 where
  pub id : ℕ
  pub event_id : ℕ
  pub mahber_id : ℕ
  pub uploader_id : ℕ
  pub file_path : String
  pub caption : Option String
  pub cloudinary_public_id : Option String
  pub created_at : ℕ

pub record Announcement : Type 0 where
  pub id : ℕ
  pub mahber_id : ℕ
  pub title : String
  pub content : String
  pub scheduled_at : Option ℕ
  pub is_published : Bool
  pub created_by : ℕ
  pub created_at : ℕ

pub record AnnouncementRead : Type 0 where
  pub announcement_id : ℕ
  pub member_id : ℕ

pub record ChatMessage : Type 0 where
  pub id : ℕ
  pub mahber_id : ℕ
  pub sender_id : ℕ
  pub content : String
  pub edited_at : Option ℕ
  pub is_deleted : Bool
  pub created_at : ℕ

pub record ChatReadReceipt : Type 0 where
  pub message_id : ℕ
  pub member_id : ℕ
  pub read_at : ℕ

pub record PollOption : Type 0 where
  pub id : ℕ
  pub text : String

pub record Poll : Type 0 where
  pub id : ℕ
  pub mahber_id : ℕ
  pub question : String
  pub options : List PollOption
  pub poll_type : PollType
  pub voting_deadline : ℕ
  pub eligibility_criteria : Option String
  pub is_closed : Bool
  pub created_by : ℕ

pub record Vote : Type 0 where
  pub poll_id : ℕ
  pub member_id : ℕ
  pub choices : List ℕ

pub record DeviceToken : Type 0 where
  pub user_id : ℕ
  pub token : String
  pub platform : String
  pub is_active : Bool

pub record Notification : Type 0 where
  pub id : ℕ
  pub user_id : ℕ
  pub title : String
  pub message : String
  pub is_read : Bool

-- What `logAuditEvent` stores, without the JSON values.
pub record AuditEntry : Type 0 where
  pub mahber_id : ℕ
  pub entity_type : String
  pub entity_id : ℕ
  pub action : String
  pub actor_id : Option ℕ

-- A call of `NotificationService.sendToUser`, by its receiver and its type.
pub record Notice : Type 0 where
  pub user_id : ℕ
  pub kind : String

pub record Db : Type 0 where
  pub users : List User
  pub mahbers : List Mahber
  pub memberships : List Membership
  pub join_requests : List JoinRequest
  pub payments : List Payment
  pub pending_payments : List PendingPayment
  pub ledger : List LedgerEntry
  pub fines : List Fine
  pub lotteries : List Lottery
  pub expenses : List Expense
  pub payouts : List Payout
  pub events : List Event
  pub event_invitations : List EventInvitation
  pub attendance : List Attendance
  pub polls : List Poll
  pub votes : List Vote
  pub photos : List EventPhoto
  pub announcements : List Announcement
  pub announcement_reads : List AnnouncementRead
  pub messages : List ChatMessage
  pub read_receipts : List ChatReadReceipt
  pub device_tokens : List DeviceToken
  pub notifications : List Notification
  pub reset_tokens : List PasswordResetToken
  pub audit_trail : List AuditEntry
  pub notices : List Notice

abbrev pub empty_db : Db
empty_db = record {
  users = [];
  mahbers = [];
  memberships = [];
  join_requests = [];
  payments = [];
  pending_payments = [];
  ledger = [];
  fines = [];
  lotteries = [];
  expenses = [];
  payouts = [];
  events = [];
  event_invitations = [];
  attendance = [];
  polls = [];
  votes = [];
  photos = [];
  announcements = [];
  announcement_reads = [];
  messages = [];
  read_receipts = [];
  device_tokens = [];
  notifications = [];
  reset_tokens = [];
  audit_trail = [];
  notices = [];
}
