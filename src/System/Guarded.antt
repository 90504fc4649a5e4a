-- ===== src/System/Guarded.antt =====
-- The tables of the database that have an invariant of their own, and the invariants together.
use mathlib.Core.Path.{subst}
use mahber_connect_backend.Prelude.{ℕ, ◌≤◌, ◌≡◌, sym, List, count, Unique}
use mahber_connect_backend.Db.{
  User, JoinRequest, LedgerEntry, EventInvitation, Attendance, EventPhoto, AnnouncementRead,
  ChatReadReceipt, Vote, DeviceToken, Db,
}
use mahber_connect_backend.Membership.JoinRequests.{is_open_of}
use mahber_connect_backend.Membership.JoinRequests.Invariant.{IsSound}
use mahber_connect_backend.Financial.Ledger.Balance.{IsBalanced}
use mahber_connect_backend.Communication.Polls.Laws.{IsOneEach}
use mahber_connect_backend.Communication.Chat.Receipts.{IsOneReceipt}
use mahber_connect_backend.Communication.Announcements.Laws.{IsOneRead}
use mahber_connect_backend.Communication.Notifications.Laws.{IsOneDevice}
use mahber_connect_backend.Events.Attendance.Laws.{IsOneCheckIn}
use mahber_connect_backend.Events.Sending.Laws.{IsOneInvitation}
use mahber_connect_backend.Events.Photos.{storage_quota}
use mahber_connect_backend.Events.Photos.Laws.{photos_of}
use mahber_connect_backend.Auth.Accounts.Laws.{IsOnePhone}

pub record Guarded : Type 0 where
  pub users : List User
  pub join_requests : List JoinRequest
  pub ledger : List LedgerEntry
  pub event_invitations : List EventInvitation
  pub attendance : List Attendance
  pub votes : List Vote
  pub photos : List EventPhoto
  pub announcement_reads : List AnnouncementRead
  pub read_receipts : List ChatReadReceipt
  pub device_tokens : List DeviceToken

abbrev pub guarded : Db → Guarded
guarded s = record {
  users = s.users;
  join_requests = s.join_requests;
  ledger = s.ledger;
  event_invitations = s.event_invitations;
  attendance = s.attendance;
  votes = s.votes;
  photos = s.photos;
  announcement_reads = s.announcement_reads;
  read_receipts = s.read_receipts;
  device_tokens = s.device_tokens;
}

-- One user to a phone, one open request to a user and organization, running balances within a cent
-- of the sum of the amounts for each fine, draw and payout among them, one row to each key of two columns, one owner to a device, and the quota.
pub record IsIntact (g : Guarded) : Type 0 where
  pub phones : IsOnePhone g.users
  pub request_keys : Unique (λ r. r.id) g.join_requests
  pub one_open : (mahber user : ℕ) → count (is_open_of mahber user) g.join_requests ≤ 1
  pub books : IsBalanced g.ledger
  pub invitations : IsOneInvitation g.event_invitations
  pub check_ins : IsOneCheckIn g.attendance
  pub ballots : IsOneEach g.votes
  pub quotas : (mahber : ℕ) → photos_of mahber g.photos ≤ storage_quota
  pub reads : IsOneRead g.announcement_reads
  pub receipts : IsOneReceipt g.read_receipts
  pub devices : IsOneDevice g.device_tokens

module _ (s : Db) (h : IsIntact (guarded s)) where
  -- A database with the same guarded tables.
  pub same-IsIntact : (t : Db) → guarded t ≡ guarded s → IsIntact (guarded t)
  same-IsIntact t e = subst IsIntact (sym e) h

  -- A change of `users` alone, with the invariant of that table kept.
  pub users-IsIntact :
      (t : Db)
      → guarded t ≡ record (guarded s) { users = t.users }
      → IsOnePhone t.users
      → IsIntact (guarded t)
  users-IsIntact t e k = subst IsIntact (sym e) (record {
    phones = k;
    request_keys = h.request_keys;
    one_open = h.one_open;
    books = h.books;
    invitations = h.invitations;
    check_ins = h.check_ins;
    ballots = h.ballots;
    quotas = h.quotas;
    reads = h.reads;
    receipts = h.receipts;
    devices = h.devices;
  })

  -- A change of `ledger` alone, with the invariant of that table kept.
  pub ledger-IsIntact :
      (t : Db)
      → guarded t ≡ record (guarded s) { ledger = t.ledger }
      → IsBalanced t.ledger
      → IsIntact (guarded t)
  ledger-IsIntact t e k = subst IsIntact (sym e) (record {
    phones = h.phones;
    request_keys = h.request_keys;
    one_open = h.one_open;
    books = k;
    invitations = h.invitations;
    check_ins = h.check_ins;
    ballots = h.ballots;
    quotas = h.quotas;
    reads = h.reads;
    receipts = h.receipts;
    devices = h.devices;
  })

  -- A change of `event_invitations` alone, with the invariant of that table kept.
  pub event_invitations-IsIntact :
      (t : Db)
      → guarded t ≡ record (guarded s) { event_invitations = t.event_invitations }
      → IsOneInvitation t.event_invitations
      → IsIntact (guarded t)
  event_invitations-IsIntact t e k = subst IsIntact (sym e) (record {
    phones = h.phones;
    request_keys = h.request_keys;
    one_open = h.one_open;
    books = h.books;
    invitations = k;
    check_ins = h.check_ins;
    ballots = h.ballots;
    quotas = h.quotas;
    reads = h.reads;
    receipts = h.receipts;
    devices = h.devices;
  })

  -- A change of `attendance` alone, with the invariant of that table kept.
  pub attendance-IsIntact :
      (t : Db)
      → guarded t ≡ record (guarded s) { attendance = t.attendance }
      → IsOneCheckIn t.attendance
      → IsIntact (guarded t)
  attendance-IsIntact t e k = subst IsIntact (sym e) (record {
    phones = h.phones;
    request_keys = h.request_keys;
    one_open = h.one_open;
    books = h.books;
    invitations = h.invitations;
    check_ins = k;
    ballots = h.ballots;
    quotas = h.quotas;
    reads = h.reads;
    receipts = h.receipts;
    devices = h.devices;
  })

  -- A change of `votes` alone, with the invariant of that table kept.
  pub votes-IsIntact :
      (t : Db)
      → guarded t ≡ record (guarded s) { votes = t.votes }
      → IsOneEach t.votes
      → IsIntact (guarded t)
  votes-IsIntact t e k = subst IsIntact (sym e) (record {
    phones = h.phones;
    request_keys = h.request_keys;
    one_open = h.one_open;
    books = h.books;
    invitations = h.invitations;
    check_ins = h.check_ins;
    ballots = k;
    quotas = h.quotas;
    reads = h.reads;
    receipts = h.receipts;
    devices = h.devices;
  })

  -- A change of `announcement_reads` alone, with the invariant of that table kept.
  pub announcement_reads-IsIntact :
      (t : Db)
      → guarded t ≡ record (guarded s) { announcement_reads = t.announcement_reads }
      → IsOneRead t.announcement_reads
      → IsIntact (guarded t)
  announcement_reads-IsIntact t e k = subst IsIntact (sym e) (record {
    phones = h.phones;
    request_keys = h.request_keys;
    one_open = h.one_open;
    books = h.books;
    invitations = h.invitations;
    check_ins = h.check_ins;
    ballots = h.ballots;
    quotas = h.quotas;
    reads = k;
    receipts = h.receipts;
    devices = h.devices;
  })

  -- A change of `read_receipts` alone, with the invariant of that table kept.
  pub read_receipts-IsIntact :
      (t : Db)
      → guarded t ≡ record (guarded s) { read_receipts = t.read_receipts }
      → IsOneReceipt t.read_receipts
      → IsIntact (guarded t)
  read_receipts-IsIntact t e k = subst IsIntact (sym e) (record {
    phones = h.phones;
    request_keys = h.request_keys;
    one_open = h.one_open;
    books = h.books;
    invitations = h.invitations;
    check_ins = h.check_ins;
    ballots = h.ballots;
    quotas = h.quotas;
    reads = h.reads;
    receipts = k;
    devices = h.devices;
  })

  -- A change of `device_tokens` alone, with the invariant of that table kept.
  pub device_tokens-IsIntact :
      (t : Db)
      → guarded t ≡ record (guarded s) { device_tokens = t.device_tokens }
      → IsOneDevice t.device_tokens
      → IsIntact (guarded t)
  device_tokens-IsIntact t e k = subst IsIntact (sym e) (record {
    phones = h.phones;
    request_keys = h.request_keys;
    one_open = h.one_open;
    books = h.books;
    invitations = h.invitations;
    check_ins = h.check_ins;
    ballots = h.ballots;
    quotas = h.quotas;
    reads = h.reads;
    receipts = h.receipts;
    devices = k;
  })

  -- A change of `photos` alone, with the invariant of that table kept.
  pub photos-IsIntact :
      (t : Db)
      → guarded t ≡ record (guarded s) { photos = t.photos }
      → ((mahber : ℕ) → photos_of mahber t.photos ≤ storage_quota)
      → IsIntact (guarded t)
  photos-IsIntact t e k = subst IsIntact (sym e) (record {
    phones = h.phones;
    request_keys = h.request_keys;
    one_open = h.one_open;
    books = h.books;
    invitations = h.invitations;
    check_ins = h.check_ins;
    ballots = h.ballots;
    quotas = k;
    reads = h.reads;
    receipts = h.receipts;
    devices = h.devices;
  })

  -- A change of `join_requests` alone, with the invariant of that table kept.
  pub join_requests-IsIntact :
      (t : Db)
      → guarded t ≡ record (guarded s) { join_requests = t.join_requests }
      → IsSound t
      → IsIntact (guarded t)
  join_requests-IsIntact t e k = subst IsIntact (sym e) (record {
    phones = h.phones;
    request_keys = k.keys;
    one_open = k.one_open;
    books = h.books;
    invitations = h.invitations;
    check_ins = h.check_ins;
    ballots = h.ballots;
    quotas = h.quotas;
    reads = h.reads;
    receipts = h.receipts;
    devices = h.devices;
  })

  -- The invariant of the requests in the form of its own module.
  pub requests-IsSound : IsSound s
  requests-IsSound = record { keys = h.request_keys; one_open = h.one_open }
