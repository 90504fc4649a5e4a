-- ===== src/Tests/Samples.antt =====
-- Sample rows and parameters.
use mahber_connect_backend.Prelude.{
  pos_part, ℕ, ◌+◌, ◌-◌, ◌*◌, true, false, none, some, [], ◌∷◌, ℤ, pos,
}
use mahber_connect_backend.Db.{
  MembershipStatus, JoinRequestStatus, PaymentStatus, PaymentType, TransactionType, ViolationType,
  ExpenseStatus, ExpenseCategory, PollType, InvitationStatus, Role, Configuration, User, Mahber,
  Membership, JoinRequest, Payment, LedgerEntry, Fine, Expense, Event, EventInvitation, Poll, Db,
  empty_db,
}
use mahber_connect_backend.Exec.{Result, ok, err}
use mahber_connect_backend.Db.{none as never}
use mahber_connect_backend.Dates.{Calendar}

abbrev pub day : ℕ
day = 24 * 60 * 60 * 1000

-- A time axis whose days are counted from the first of January of year 1.
abbrev pub calendar : Calendar
calendar = record {
  fields = λ t. record { year = 1; month = 0; day = 1; time = t };
  timestamp = λ d. d.time + ((d.day - 1) * day + d.month * (31 * day));
}

-- The exact share of an amount that is not negative: cents times hundredths of a percent are
-- ten-thousandths of a cent.
abbrev pub share : ℤ → ℤ → ℤ
share amount rate = pos (pos_part amount * pos_part rate)

abbrev pub value {ℓ} : {A : Type ℓ} → Result A → A → A
value (ok a) other = a
value (err e) other = other

abbrev pub admin_role : Role
admin_role = record { name = "Admin"; permissions = "manage_members" ∷ "manage_roles" ∷ [] }

abbrev pub plain_role : Role
plain_role = record { name = "Member"; permissions = [] }

abbrev pub member_with : ℕ → MembershipStatus → Role → Membership
member_with id status role = record {
  id = id;
  mahber_id = 1;
  member_id = id;
  status = status;
  role = role;
  has_won_current_cycle = false;
  approval_date = none;
  activation_date = some 5;
  joined_at = some 5;
  next_payment_due = some (100 * day);
  suspended_until = none;
  suspension_reason = none;
}

abbrev pub chair : Membership
chair = member_with 1 MembershipStatus.active admin_role

abbrev pub deputy : Membership
deputy = member_with 2 MembershipStatus.active admin_role

abbrev pub member : Membership
member = member_with 3 MembershipStatus.active plain_role

abbrev pub away : Membership
away = record (member_with 4 MembershipStatus.suspended plain_role) { suspended_until = some 50 }

abbrev pub configuration : Configuration
configuration = record {
  contribution_amount = some (pos 100);
  payment_frequency = some "Monthly";
  join_fee_required = none;
  join_fee_amount = none;
  penalty_rate = some (pos 20);
  penalty_mode = none;
  penalty_interval = some "7d";
  max_fine_total = some (pos 15);
  payment_day = none;
  next_payment_date = none;
  role_limits = ("Treasurer", 1) ∷ [];
  custom_roles = [];
}

abbrev pub club : Mahber
club = record {
  id = 1;
  name = "Club";
  configuration = configuration;
  is_public = true;
  is_suspended = false;
  invitation_code = none;
  created_at = 0;
}

abbrev pub applied : JoinRequest
applied = record {
  id = 7;
  mahber_id = 1;
  user_id = 9;
  status = JoinRequestStatus.pending;
  invitation_code = none;
  rejection_reason = none;
  is_invitation = false;
  created_at = 1;
}

abbrev pub entry : LedgerEntry
entry = record {
  id = 1;
  mahber_id = 1;
  member_id = 3;
  transaction_type = TransactionType.contribution;
  amount = pos 100;
  running_balance = pos 100;
  payment_id = none;
  fine_id = none;
  lottery_id = none;
  expense_id = none;
  payout_id = none;
  description = "paid";
  created_at = 2;
}

abbrev pub late_fine : Fine
late_fine = record {
  id = 5;
  mahber_id = 1;
  member_id = 3;
  violation_type = ViolationType.missed_payment;
  amount = pos 20;
  is_waived = false;
  paid_at = none;
  payment_id = none;
  waiver_reason = none;
  waived_by = none;
  waived_at = none;
  created_at = 3;
}

abbrev pub payment : Payment
payment = record {
  id = 6;
  mahber_id = 1;
  member_id = 3;
  amount = pos 120;
  payment_type = PaymentType.contribution;
  status = PaymentStatus.pending;
  tx_ref = 60;
  chapa_reference = none;
  checkout_url = none;
  fine_ids = 5 ∷ [];
  period_start = some (100 * day);
  period_end = some (131 * day);
  expires_at = none;
  completed_at = none;
  created_at = 4;
}

abbrev pub expense : Expense
expense = record {
  id = 8;
  mahber_id = 1;
  amount = pos 30;
  reason = "chairs";
  category = ExpenseCategory.operational;
  status = ExpenseStatus.pending;
  created_by = 1;
  approved_by = none;
  approved_at = none;
  rejection_reason = none;
  recipient_name = "Shop";
  recipient_account_type = "bank";
  recipient_account = "123";
  recipient_bank_code = some "1";
  chapa_transfer_ref = none;
  chapa_transfer_status = none;
}

abbrev pub meeting : Event
meeting = record {
  id = 2;
  mahber_id = 1;
  title = "Meeting";
  start_time = 10 * day;
  end_time = 11 * day;
  location = "Hall";
  is_mandatory = false;
  is_cancelled = false;
  created_by = 1;
  host_id = none;
  recurrence_pattern = never;
  recurrence_end_date = none;
  series_id = none;
}

abbrev pub invitation : EventInvitation
invitation = record {
  id = 3;
  event_id = 2;
  mahber_id = 1;
  member_id = 2;
  status = InvitationStatus.pending;
  source = "invited";
  responded_at = none;
}

abbrev pub poll : Poll
poll = record {
  id = 4;
  mahber_id = 1;
  question = "Where?";
  options =
      record { id = 11; text = "Here" }
      ∷ record { id = 12; text = "There" }
      ∷ record { id = 13; text = "Elsewhere" }
      ∷ [];
  poll_type = PollType.ranked_choice;
  voting_deadline = 1000;
  eligibility_criteria = none;
  is_closed = false;
  created_by = 1;
}

abbrev pub newcomer : User
newcomer = record {
  id = 9;
  phone = "+251900000000";
  password = "hash of secret";
  name = "New";
  email = none;
  bio = none;
  is_super_admin = false;
  is_suspended = false;
  notification_prefs = none;
}

abbrev pub db : Db
db = record empty_db {
  users = newcomer ∷ [];
  mahbers = club ∷ [];
  memberships = chair ∷ deputy ∷ member ∷ away ∷ [];
  join_requests = applied ∷ [];
  payments = payment ∷ [];
  ledger = entry ∷ [];
  fines = late_fine ∷ [];
  expenses = expense ∷ [];
  events = meeting ∷ [];
  event_invitations = invitation ∷ [];
  polls = poll ∷ [];
  votes = record { poll_id = 4; member_id = 1; choices = 11 ∷ [] } ∷ [];
}
