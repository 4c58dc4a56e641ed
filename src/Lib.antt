-- ===== src/Lib.antt =====
-- YunChat's server: groups, friendship, the caches in Redis, the admission of messages, and
-- connections.
--
-- The services of backend/internal/service run one MySQL transaction for each request, through the
-- repositories of backend/internal/repository, and then send best-effort hints to a cache and to
-- connected clients. Every change of memberships, friendships or blocks also inserts an outbox row
-- in the same transaction. A refresh after the commit, and later a worker for the outbox row, read
-- the owner's rows under a lock and overwrite the owner's keys in Redis, which the scripts that
-- admit messages read. The identifiers of messages come from backend/internal/messageid: each
-- process draws a segment from a shared allocator row and serves it from memory.
--
-- Files and code:
-- - AppError: the codes of apperror/errors.go.
-- - Sql: statements, do blocks and transactions, for repository/mysql_runner.go and the methods
--   WithinTransaction, WithinGroupTransaction and WithinFriendTransaction. Sql/Steady and
--   Sql/Transactions compare a run under driver failures with the run without; Sql/Reads is for
--   actions that only read.
-- - Model, Text: the records of model/user.go and model/group.go; the functions of Go's strings and
--   unicode packages.
-- - Database: the tables. Database/Groups has the statements of repository/group_repository.go and
--   the group part of mysql_repository.go, Database/Friends those of friend_repository.go;
--   Database/Rows, Database/Friends/Tables and Database/Locks have the laws of the rows.
-- - Service: what the use cases share, the answer and the hints; Service/Settles lifts a fact of
--   the transaction read as one step to the call under any answers of the driver.
-- - GroupService, FriendService: service/group.go and service/friend.go. In each, Callbacks has the
--   transaction callbacks (create_callback is the closure in Create, and so on), Moves the
--   specification, Requests which request and caller each move belongs to, Refinement the callbacks
--   against them, UseCases the calls, Histories sequences of calls. GroupService/Consistency and
--   FriendService/Orderly are the invariants.
-- - Histories: both services on one database.
-- - MessageId: Generator for messageid/generator.go, MysqlStore for messageid/mysql_store.go, Fleet
--   for processes that share the row.
-- - Outbox: the table cache_reconcile_events in repository/cache_mysql.go, with enqueueing, claims,
--   and the two ways a claim ends. Moves and Claims say what each does to the rows.
-- - Reconciler: the worker of service/cache_truth.go (CacheReconciler), against the interface
--   Mirror. Workers has its histories with those of requests, Rounds compares RunOnce with them;
--   Dues, Subjects and Coverage carry the invariant; Backoff is about retryDelay, whose int64 is
--   read as its 64 bits.
-- - Ids: canonicalIDs and sameIDs, and sortedUniquePositive of repository/cache_redis.go.
-- - Projection: the mirrored keys of repository/cache_redis.go and the calls that replace one
--   owner's keys.
-- - CacheTruth: the rest of service/cache_truth.go, over MySQL and Redis at once (Stores), with
--   WithinCacheSnapshot and the reads of cache_mysql.go and the warm lock of cache_redis.go.
--   Mirroring, Locking, Freshness and AsMirror fill Mirror; Access has the checks that precede a
--   message, Admission, PrivateMessages and GroupMessages are about them; Paging is the walk over
--   all owners, Rebuild has Warm and Rebuild.
-- - Consistency: requests, outbox, workers and Redis together. Announcements and Requests relate
--   the changes of a request to its outbox rows, Deployment has the histories.
-- - Messages: redis/lua_private_msg.go and redis/lua_group_msg.go, and the methods of
--   repository/redis_repository.go that run them.
-- - Hub: ws/hub.go; Steps has its histories, Shutdown is about Close.
-- - Presence: repository/presence_repository.go, the lease that makes one connection of a user the
--   owner of the user's presence; Leases and Sharing have histories of it.
-- - Witnesses: concrete inputs.
--
-- How the code is read:
-- - Identifiers are int64s that the guards refuse below 1; 0 stands for all of those. The guards
--   bound message identifiers by 2^53 before they are added to, so the wrap-around of int64 is not
--   written out. A time counts nanoseconds in the services, microseconds in the outbox and its
--   worker, and milliseconds in Redis. A text is a list of code points, or of bytes in the outbox.
-- - The driver is not modelled. A connection carries the list of the driver's answers to come:
--   done, refused (no effect) or lost (carried out, but an error is reported). The end of the list
--   is a driver that never fails again.
-- - Transactions follow one another: each locks the rows of its group, its two users or its
--   allocator before it reads them. What AcceptRequest and RejectRequest read before their
--   transaction is any row at all.
-- - A table lists its rows, newest first, and the outbox oldest first. A rolled-back INSERT gives
--   its AUTO_INCREMENT value back here and not in MySQL; nobody has seen that value.
-- - Errors are the codes, and the few sentinels that the services tell apart; texts of errors and
--   contexts are left out.
-- - Redis is one machine: a script, or a pipeline in MULTI, is one step. A call may fail before or
--   after it has taken effect, as a statement may. In the worker's histories a reconciliation under
--   the owner's lock is one step. Replacing an owner's keys, with the EXISTS and SCAN reads before
--   its script, is one step too: only holders of the owner's lock write those keys. Warm and
--   Rebuild are given the identifiers of users and groups in MySQL and visit those of the walk over
--   the pages, whose page queries are one statement there.
-- - Fuel: for_each has a number of rounds, and one more than there are identifiers is enough;
--   poll_lock has the number of ticks before the deadline as the environment gives it. All else is
--   by structural recursion.
--
-- Not modelled: the listings of the services and their page bounds, Audit and the snapshots that it
-- reads, the reports of failed runs of Warm and Rebuild, the inboxes, unread counters, feeds and
-- likes in Redis, accounts and tokens, HTTP handlers, configuration and migrations; sockets,
-- start-up, logging and metrics are input and output only.
pub mod Prelude
pub mod AppError
pub mod Sql
pub mod Model
pub mod Text
pub mod Database
pub mod Service
pub mod GroupService
pub mod FriendService
pub mod Histories
pub mod Consistency
pub mod Messages
pub mod Hub
pub mod Presence
pub mod MessageId
pub mod Ids
pub mod Outbox
pub mod Reconciler
pub mod Projection
pub mod CacheTruth
pub mod Witnesses
