-- ===== src/Lib.antt =====
-- The core of webitel-emails: which instance serves which mailbox, how a mailbox is read without
-- losing a message, how an email becomes rows and an event, and how events leave the database for the broker.
--
-- The program. Instances of the service share one database. The leader distributes the email
-- profiles over the live instances (internal/distribution). An instance polls the mailboxes of its
-- profiles over IMAP (internal/polling): the scheduler starts a worker for each due profile, the
-- worker reads new messages behind a cursor and hands them to the inbound handler, and it records
-- the new cursor under a fencing token (internal/store/postgres/email_profile_runtime_store.go).
-- The handler stores a message together with an event in the table email.outbox, and the leader's
-- relay (internal/outbox) publishes those events.
--
-- The files.
-- - Prelude: shared names. Tests has the Boolean tests and the class Comparable, Lists the lists over native
--   numbers, Order the order of Go strings and slices.SortFunc, slices.Compact and map keys, Sorting
--   their laws, Calls the result of a call with effects.
--   Text has texts as bytes, Utf8 the decoding and encoding of runes as Go does them.
-- - Model.Runtime: internal/model/email_profile_runtime.go. Model.Email: the records of messages, threads,
--   attachments, parsed emails and failures in internal/model.
-- - Distribution.Plan: internal/distribution/plan.go. planDistribution is plan_distribution; its maps
--   are functions or association lists. Below it, Sums, Loops, Owners, Balance and Moves are proofs.
-- - Ownership.Store: Assign, Unassign, StartPoll and CompletePoll of the runtime store as functions
--   on the two tables that they write. Ownership.Writes has sequences of these writes, and Fencing is about them.
-- - Polling: the parameter Env of a poll. Search, Deliver and Sync are internal/polling/sync.go,
--   Recovery is internal/polling/recovery.go, Worker is poll of internal/polling/worker.go, and
--   Scheduler has the slots, the sessions and the permits of internal/polling/scheduler.go and
--   worker.go as atomic steps in any interleaving.
-- - Outbox: Event is internal/model/outbox_event.go, Relay is internal/outbox/relay.go over the
--   parameter RelayEnv, and Table is internal/store/postgres/outbox_store.go as functions on the rows.
--   Outbox.Table.Leasing puts the relay on the table.
-- - Event: internal/event/inbound_message.go. Clean has clean, line and field, Snapshot the address
--   and attachment lists, Envelope NewInboundMessage and Validate, Json the encoding by encoding/json,
--   Limits the check of the limits, and Row Marshal and the Outbox row.
-- - Inbound: internal/inbound. Store, Store.Threads and Store.Parts are the statements of
--   internal/store/postgres on the inbound tables, Action is a call with an error and the transaction
--   of uow.go, Rows builds the rows of a parsed email, Persistence is persistence.go, Completion is
--   completion.go, contacts.go and outbox.go, and Mime has the limits of mime_parser.go.
-- - Files named Tests run the definitions on small inputs and hold one instance of each result.
--
-- How the code is read. An instant and a duration are numbers of nanoseconds, the zero time being 0.
-- int64 ids, versions and counts are not negative. A pointer that may be nil is an Option. Logging is
-- left out. A call of code outside the repository, or of the database by a poll, is a field of a
-- parameter (Env, WorkerEnv, RelayEnv, Outside); it takes the state of the world and gives the next
-- one, so that anything may happen between two calls, and it may fail. What a theorem asks of such
-- calls is a record of named laws (Serves for IMAP SEARCH, Leasing for the Outbox).
--
-- In Event and Inbound a text is a list of bytes, apart from the name of a mailbox and from constants
-- of the Outbox row. The text of a UUID is the parameter uuid_text, of which the law UuidText asks for 36
-- hexadecimal digits and dashes. In Inbound the parameter Services says of every call, by its number, whether the
-- database fails, whether the assignment still holds, and what the other services answer. One
-- email is handled at a time: the lock of LockEmailProfile keeps other writers of a profile out and is not
-- blocking here, and a COMMIT either takes effect or fails. Constraints other than the unique
-- keys of email.message are not checked by the statements.
--
-- Fuel. Two loops run on fuel. The windows of searchUIDs have as much as the length of the range, and
-- a window moves its start at least by one; the batches of deliver have as much as the number of
-- UIDs, and a batch takes at least one when the configured batch size is not zero. The other loops
-- are structural.
--
-- Not modelled: the walk and the headers of the MIME parser, the quarantine of emails that cannot be
-- parsed, the profile service and its handlers and store, configuration loading, and the clients of
-- other services. Of the
-- scheduler the loops that wait on timers and the shutdown, of the relay the two loops that delete
-- published rows and report the backlog, and of the stores the queries that only read are left out.
-- SKIP LOCKED has no counterpart, since statements on the table run one after another.
mod Prelude
pub mod Model
pub mod Distribution
pub mod Event
pub mod Inbound
pub mod Polling
pub mod Outbox
pub mod Ownership
