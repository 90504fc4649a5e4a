-- ===== src/Lib.antt =====
-- The backend of Mahber Connect, an application for Ethiopian savings and self-help associations
-- (mahbers): members join an organization, pay contributions, are fined, win lotteries, vote and meet.
--
-- Parts and files. A NestJS service becomes a module, a method a function into `Exec`, with the
-- guards of the method in its order.
-- - Prelude: tests, tables as lists with the queries of Prisma, integers, sums, keys, counts.
-- - Exec: a method reads and writes the database and returns a value or throws; what was written
--   before a throw stays, and `transaction` rolls back.
-- - Db: the enums and tables of prisma/schema.prisma (Db/Enums, Db/Rows),
--   and the amounts of money before they are stored (Db/Decimals).
-- - Dates: src/common/utils/date.utils.ts; Dates/Fields is the runtime's calendar arithmetic.
-- - Membership: StateMachine is src/membership/state-machine.service.ts, Member is
--   member.service.ts, JoinRequests is join-request.service.ts with the expiry processor of
--   src/automation, Roles is role.service.ts, Mahbers is mahber.service.ts, Listings the queries
--   of these services, Access the permission checks of rbac.
-- - Auth: Accounts and Passwords are src/auth/auth.service.ts.
-- - Administration: SuperAdmin is src/super-admin/super-admin.service.ts, Guards the JWT strategy and
--   the guards of src/auth, src/membership and src/events, which run before a method.
-- - Financial: Ledger, Fines, Payouts, Expenses, Lotteries and Payments are the services of
--   src/financial; Payments/Initiate, Payments/Webhook, Payments/Retry and Payments/Queries are parts
--   of payment.service.ts, the last one with webhook.controller.ts and
--   payment-browser-callback.controller.ts. Joining is mahber-finance.controller.ts, Callback is
--   payment-callback.controller.ts, Reports is the report of ledger.controller.ts with the summaries
--   of payouts and expenses. Fines, payouts, expenses, draws and completed payments all write through
--   createLedgerEntry.
-- - Communication: Polls is src/communication/poll.service.ts, with the counting of getResults in
--   Polls/Irv and Polls/Results; Chat, Announcements and Notifications are chat.service.ts,
--   announcement.service.ts and notification.service.ts. Chat, announcements and the jobs notify
--   through the last one.
-- - Events: Schedule, Invitations and Sending are src/events/event.service.ts, Attendance is
--   attendance.service.ts with qr.service.ts, Photos is photo.service.ts.
-- - Automation: FineCalculation, Reminders and Runs are the processors of src/automation/processors,
--   which call the fines, the notifications, the lottery, the members and the attendance.
-- - System: Guarded puts the invariants of the tables together; Money, Gatherings, Talk, Accounts and
--   Members list the calls of the services as steps between databases, Reach is what sequences of
--   them reach, and History and Growth follow the entries of the ledger.
-- - Tests: sample data and runs.
--
-- Conventions. Ids, references and timestamps (milliseconds) are natural numbers, stored
-- amounts are integers in cents. An amount before a write is a `Decimal` (Db/Decimals): whole cents, or
-- ten-thousandths of a cent, which hold the exact share that a fine or a draw takes of an amount with
-- two decimals; the columns round it to the cent, half a cent away from zero. The amounts and fees in
-- an organization's configuration are whole cents, its rates have two decimals, and an entered amount
-- of a payout or an expense has at most six. That a column refuses an amount of more
-- than ten digits is not modelled. Rows are newest first, so that findFirst with a descending order takes the
-- first row; findFirst without an order takes the first row too. A method reads the clock once, as
-- its argument `now`; new ids are arguments. Message texts leave out the interpolated values. Of
-- the audit trail the JSON values are left out, of notifications all but the receiver and the type;
-- log lines and WebSocket events are not modelled, and events and payments leave out the
-- notification of all members. A week before today is seven times 24 hours.
--
-- Parameters stand for what is outside the repository's own code: `Calendar` (the runtime's passage
-- between timestamps and local time), `percent` (the share that
-- decimal.js computes, in ten-thousandths of a cent), `initialize` and
-- `transfer` and `verify` (the answers of the payment provider), `hash` and `compare` (bcrypt),
-- `sign` and `verify` (the JWT library), `hmac` and `from_hex` (Node's crypto and Buffer), `upload`
-- (the object store), `insensitive` (the database's search), `is_number` (Number of a text), `uuid`.
--
-- Loops. irv_rounds runs on one unit of fuel for each option and one more, since a round that goes
-- on drops an option. The events of a series run on 62 units: a step is a week or a month, which is
-- six days or more, and 61 such steps are longer than the 365 days to which a series is cut. All
-- other loops follow a list.
--
-- Not modelled: the HTTP client of the payment provider, the delivery of pushes, mails and texts, the
-- gateway's sockets, caches, exports and PDF reports, the monthly trends of attendance and the
-- filtered list of the audit trail, controllers that only call a service, and configuration: they are
-- input and output, wiring, or queries that change nothing. The validation of input by decorators
-- stands before the methods and is not modelled. Removing an organization is modelled but is no step
-- of System.
pub mod Prelude
pub mod Db
pub mod Exec
pub mod Dates
pub mod Membership
pub mod Financial
pub mod Communication
pub mod Events
pub mod Auth
pub mod Administration
pub mod System
pub mod Automation
mod Tests
