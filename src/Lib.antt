-- ===== src/Lib.antt =====
-- File Transit Desk, a file exchange server: its backend, written in Go, in backend/internal.
--
-- The parts and how they interact
--   The HTTP handlers (backend/internal/server) admit a request through the two limiters, take an
--   upload permit of the transfer registry, reserve a use of a share token or an upload lease in
--   the store, and run the transfer, which the registry lists and can cancel. A change of the
--   configuration revokes the tokens and leases of a resource in the store and cancels its uploads
--   in the registry. Every decision is written to the audit log.
--
-- The files
--   Prelude       Boolean tests, lists and association lists over native numbers, with their laws.
--   Transfers     backend/internal/server/transfers.go. Types has the records and the registry,
--                 Permits the methods on upload permits, Records those on transfer records. The
--                 registry is one record of two maps; a method is a function from the registry
--                 to the new one, since each runs under the registry's lock. A cancel function is a
--                 number, and a method that calls one returns it. History has the calls as steps.
--   Limiter       backend/internal/server/limiter.go, and the fixed login policy of
--                 backend/internal/server/server.go. Window has windowLimiter, whose AllowMany is
--                 split at its loops; Login has loginLimiter.
--   Store         backend/internal/store/store.go and users.go. Rows has the tables, Exec how a
--                 method runs: a statement is one step on the tables that the driver may fail, and
--                 a transaction puts the tables back when its body or its commit fails. Tokens,
--                 Leases, Sessions, Users and Audit have the methods. The store has one
--                 connection, so calls do not interleave. Chat has backend/internal/store/chat.go:
--                 the pages in Chat itself, then Mutations, Batches and Clearing, and in Gates the
--                 locks of messages, on which callers do interleave.
--   Lifecycle     backend/internal/server/lifecycle.go. Maintenance has the clean-up of the store,
--                 Draining the admission of requests and the shutdown as steps that interleave.
--   Paths         backend/internal/fsutil/fsutil.go: SafeName and CleanRel, on lists of runes.
--   Sweep         backend/internal/server/maintenance.go: the clean-up of temporary upload files. What
--                 each call of the walk function finds is given; the files that running transfers
--                 need are those of Transfers.
--
-- What is taken from outside
--   The clock: each call takes the times that it reads. SQLite: `datetime`, `julianday`, `nocase`,
--   `lower`, `like`, the order of stored times, and which calls of the driver fail (World.faults).
--   Go: `parse_int`, the text functions of the record Texts, `trim_space`, `to_lower`, `runes`,
--   `is_space` (unicode), `base`, `has_volume` and `canonical` (filepath) and `hash_session_id`
--   (SHA-256); `as_integer` is how SQLite reads a text that is compared with an integer column.
--   Nothing is assumed of them but where a theorem says so. Each is one function: the links of the file system do not
--   change under `canonical` during a history, and a driver's call that succeeds also tells the
--   number of its rows.
--
-- Bounds
--   Times and durations are numbers of nanoseconds, 0 for the zero time. Sizes and limits that the
--   code tests with `<= 0` and `> 0` alone are natural numbers; the change of a token's bytes and
--   the ids that a caller gives may be negative. Sums of sizes stay far below 2 ^ 63 where the server
--   calls the store, so they do not wrap here; the audit counter wraps at 2 ^ 64. Loops are over
--   lists, but for the batches of the chat's clean-up, which run on fuel: one round more than there
--   are messages is enough.
--
-- What is not modelled
--   The migrations and the search of accounts, the handlers, the configuration, the
--   listing of directories, calls of others between two batches of the chat's clean-up, what
--   filepath.Join does with separators of other systems, the timers and the worker of the maintenance, and the web client.
pub mod Prelude
pub mod Transfers
pub mod Limiter
pub mod Store
pub mod Lifecycle
pub mod Paths
pub mod Sweep
