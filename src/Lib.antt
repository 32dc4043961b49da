-- ===== src/Lib.antt =====
-- TG-MyPerson: write limits, authorization, contacts, messages, and the MAX session and history.
--
-- The server (app/) gives HTTP and MCP access to the Telegram and MAX accounts of one owner. A request
-- passes a stack of middleware (app/main.py, app/authz/middleware.py): its key is checked, the account
-- is found, a request of a MAX account is sent to the MAX router, and the tool behind the route is
-- authorized (app/authz/policy.py, app/authz/tool_catalog.py). A route that writes to the messenger then
-- takes a slot of the account's write limits (app/authz/write_limits.py) before it calls the messenger,
-- and gives the slot back if the call failed for sure.
--
-- Files:
--   Prelude, Prelude/Lists, Prelude/Int, Prelude/Sort, Prelude/Tests: names and lemmas of lists,
--     numbers and texts, with the integers over the native natural numbers.
--   Models: the rows of app/models.py that are read here, with the columns that are read.
--   WriteLimits, for app/authz/write_limits.py:
--     Settings: Limits, the defaults, `effective`, `set_limits`, `reset_limits`.
--     Counters: the windows, `_count`, `_retry_after`, `_last_send`, `_sent_to`.
--     Windows: `_refusal` and `_check_windows`.
--     Reserve: `reserve`, `reserve_bundle`, `Slot.release`, the exits of `write_slot` and `bundle_slot`.
--     Status: `window_left`, `lookups_left`, `status`.
--     World: runs of these operations from an empty table, as a step relation with a log.
--     Fits, Leaving, Waits, RetryAfter, Admission, Bundle, Sliding, Spacing, Dialogs, Slots, Changes,
--     Left: proofs; Tests: runs on concrete tables.
--   Authz, for app/authz/ without the limits, up to the row of the audit log:
--     Catalog: app/authz/tool_catalog.py. Routes: app/authz/route_table.py. Keys: app/authz/keys.py.
--     Policy: app/authz/policy.py, with the cached mode of an account.
--     Request, Paths, Authentication, Aliases, Dispatch, ToolAuthz, Middleware:
--     app/authz/middleware.py and the stack of app/main.py. A middleware is a function of the request
--     and the application that either answers or hands a request on.
--     Audit: audit_log_middleware and `policy.audit`.
--     Categories, Decisions, Revocation, Isolation, Access, Rates: proofs; Tests: runs on concrete
--     tables.
--   Phone, for app/utils/phone.py: the common form of a phone and its mask; Phone/Forms: proofs;
--     Phone/Tests: runs.
--   Sender, for app/utils/sender.py: the name and the ids of a sender; Sender/Ids: proofs;
--     Sender/Tests: a run.
--   People, for app/repo/people.py: contacts.
--     Rows: the tables, and the parts that operations share. Upsert: `upsert_identity`. Owner:
--     `merge_people` and `split_identity`. Linked, Moves, Absorb, Merged, Kept, OwnerKept, Pins, Users,
--     Merges: proofs; Tests: runs.
--   Session, for app/max/session.py, app/max/errors.py and app/max/auth.py: the session of a MAX
--     account. Errors: what an error of MAX means. Login: one interactive login. State: the state.
--     Supervisor: `_supervise` and `_on_authorized` (with services/account_identity.py), cut where
--     they wait. Operations: `start`, `stop`, `logout`, the logins and the import, and runs of them
--     among the steps of the supervisor. Sound, Calls, Ends, Pauses, Imports: proofs; Tests: runs.
--   HtmlText, for app/max/html_text.py: a message in HTML to text with elements. Nested: where the
--     elements lie; Trees: what a tree of tags becomes; Tests: runs.
--   Sync, for app/max/sync.py: the history of the chats of MAX. Cursors: a chat's messages and cursor
--     (app/max/store_new.py). Backward, Forward: the backfills. CatchUp: a pass over the chats. Ends,
--     Kept, Pages, Complete, Gaps, Honest: proofs; Latest: a history as the code relies on it; Tests:
--     runs.
--   Messages, for app/repo/messages.py with app/repo/media.py: the messages of an account. Keys, Edits,
--     Deletions: proofs; Tests: runs.
--
-- Choices:
--   A table is a list of rows, and a query is a filter, a count or a search of it. The part of a
--   reserve behind the advisory lock is one step; what it reads before the lock may come from
--   another state. An operation of the contacts is one transaction that runs alone, but for those
--   that commit before the insert or before the merge of an upsert; two merges at once are outside
--   the model. A session is cut where it waits for MAX, for the end of a client, for its pause
--   and, in `stop`, for the cancelled supervisor; its calls of the database are part of a step,
--   and a call begins when no other waits in `stop`. The row of the audit log is written after the
--   response, or not at all. An operation of the keys or the middleware is one step as well: a
--   lookup whose query was already under way when a key is revoked is outside the model. Times are
--   whole microseconds, in the session whole seconds and in the history milliseconds. The clock,
--   the jitter, the hash of a key, the JSON reader and writer and the table of decimal digits are
--   arguments. Numbers that the code stores are natural numbers; ids of chats are integers, in the
--   messages and the history natural numbers. Every loop runs over a list, but for the two
--   backfills of Sync: their fuel counts the requests; Sync/Ends and Sync/Gaps are about how much
--   of it is needed.
--   What a route's compiled path matches is an argument of its table entry, since Starlette
--   compiles it. Texts of messages are kept as the case of their wording.
--
-- Not modelled: phones inside free text, the administration of keys and accounts, the MAX client
-- and its frames, the Telegram client (Telethon), the reads of the message store and the chats, the
-- old tables of MAX, the MCP server, and the scripts.
pub mod Prelude
pub mod Models
pub mod Phone
pub mod Sender
pub mod WriteLimits
pub mod Authz
pub mod People
pub mod Session
pub mod HtmlText
pub mod Sync
pub mod Messages
