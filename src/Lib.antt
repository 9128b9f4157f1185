-- ===== src/Lib.antt =====
-- SelfFeed: the ingestion of feeds, and the accounts, the categories and the states of articles
--
-- SelfFeed is a feed reader: a web server takes requests to refresh feeds, and workers fetch the
-- publishers' documents. The two meet in tables of one SQLite database, and each operation on them is
-- a transaction. The development models that queue and the policy that says when a source may be
-- fetched again, the fetch itself with its retries and its locks, the accounts and sessions of the
-- users, the hierarchy of categories into which a user puts the feeds, and what a user has read and
-- saved. Paths are from the repository's root.
--
-- - FetchOutcome: packages/api/src/services/feed-fetch-outcome-policy.ts. What a failed or successful
--   fetch does to a source: how long to wait, and whether its circuit opens. `verdict` is the chain of
--   tests of classifyFetchFailure and `finish` what follows it.
-- - Ingestion/Tables: packages/api/src/db/schema.ts. A table is a list of rows, with the columns that
--   the operations read or write. An identifier, a key or a lease owner is a number that stands for
--   the text (0 is the empty text, and the order of the identifiers is that of the texts). Times are
--   whole seconds, as the columns store them: the clock's milliseconds do not reach the tables, and a
--   test of a column against the clock has the same result at the second that has begun.
-- - Ingestion/Aggregate: packages/api/src/repositories/refresh-request-aggregation.ts. The progress of
--   a request is counted from its items.
-- - Ingestion/Deliveries: packages/api/src/repositories/feed-ingestion-delivery-work.repository.ts.
--   Workers claim the deliveries of snapshots under leases; the end of one settles the items that wait.
-- - Ingestion/Expiry: packages/api/src/repositories/feed-ingestion.repository.ts, of which manual
--   refresh requests that are too old are closed, by the cutoff's whole second.
-- - Ingestion/Jobs: packages/api/src/repositories/feed-ingestion-source-work.repository.ts. Workers
--   claim jobs under leases. Eligibility has the `where` of the claim, Claiming its three parts (jobs
--   without attempts left, jobs without subscribers, the best candidate), Holding what the holder of a
--   lease does, Scheduling what the scheduler adds. Due, Leases, Grants, Fencing and Politeness have the theorems.
-- - Ingestion/Queue: packages/api/src/services/durable-refresh-queue.ts. Opening finds or inserts the
--   request of a call, Filling the jobs and the items. Frame, Backed, Parts, Attached, Waiting,
--   Counting and Once have the theorems.
-- - Ingestion/Lifecycle: the calls of Jobs, of Queue and of Aggregate as steps on the database, in any
--   order, and the invariant of the jobs. A transaction is one step, as SQLite's write lock makes it.
-- - Categories: packages/api/src/services/category.service.ts, packages/api/src/repositories/
--   category.repository.ts and, in Slug, packages/api/src/utils/category-slug.ts. Each operation is
--   a function of the table; an AppError is a failure. Chains has the chains of parents, Descends and
--   Ancestors the loop of isDescendant, Forest and Update what an update does to the hierarchy,
--   Creation and Removal what the other operations do, and Hierarchy has them as steps;
--   Free has that a new slug is free.
-- - AppError: packages/api/src/middleware/errors.ts, the errors of services as values.
-- - Accounts: packages/api/src/db/schema.ts. Users has packages/api/src/repositories/user.repository.ts,
--   with what the last administrator can and cannot do in Admins and Governed; Sessions has
--   packages/api/src/repositories/auth-session.repository.ts. Its Calls runs a list of calls, Rotation
--   follows a refresh token and Revocation a revoked session through them.
--   Auth has packages/api/src/services/auth.service.ts, whose operations go through both repositories and mark
--   sessions in Redis: what Redis answers is a parameter of an operation. SignIn opens and closes sessions,
--   Passwords has the operations that end all of an account. Ended takes the operations
--   apart, Refused has what a closed session opens.
-- - Articles/State: packages/api/src/repositories/article-state.persistence.ts. What users have read and
--   saved, and the mutations that offline clients send again. Register has what a client sees of an article,
--   Book the registers and the log that the tables implement, Replay a repeated mutation.
--   Marking has the marking of whole feeds and the deletion of old mutations, Bulk what a marking does.
-- - Articles/Cursors: packages/api/src/utils/article-cursor.ts. A cursor is a text; RoundTrip has what one
--   that was written is read as.
-- - Redis: the commands that the program calls (packages/api/src/db/redis.ts) are an interface with laws,
--   which Table meets. Locks has packages/api/src/services/redis-owned-lock.ts and, in Guards,
--   packages/api/src/services/feed-fetch-guard.ts. The interval of a heartbeat is a flag of its lock, and what
--   Redis answers is an argument; Exclusion has that a lock excludes others, Freed that it becomes free,
--   Guards/Undone what an attempt at both locks leaves. RateLimits has packages/api/src/utils/rate-limiter.ts
--   and packages/api/src/utils/rate-limit.ts. Times are in milliseconds there.
-- - SafeFetch: packages/api/src/utils/safe-fetch.ts. A fetch lists the requests that it makes. Addresses
--   has the tests on addresses and their Blocks, Contacts where the requests go, Redirects how many there are.
-- - Retry: packages/api/src/utils/retry.ts. The retried function is the sequence of the outcomes of
--   its calls, and a run is the last outcome with the number of calls and the sleeps. Loop has the loop
--   by its own tests, Attempts what they come to.
--
-- A query is read as the language it is: `where` is a test on a row, `update` maps the rows that pass,
-- `order by … limit 1` takes the first row by a comparison, and an insertion with `on conflict do
-- nothing` tests the unique indexes. A read that may find several rows takes the first of the table.
-- An error that a transaction throws is the answer `none`, and rolls it back.
--
-- Parameters: the clock, `Date.parse` (none for NaN), the jitter function (a fraction), the texts of
-- `toISOString`, the identifiers that crypto.randomUUID draws, and the callback `prepare` of
-- a refresh, of which some theorems suppose that it writes neither requests nor items nor jobs, and
-- the functions of the platform that normalize a text and change its case, its numbers that are not
-- integers (in cursors), the hashes of passwords and refresh tokens, the verification of old tokens, the
-- test on addresses of node:net, its URLs, the resolver and the network, and the commands of Redis.
-- Loops are structural, over the rows, the sources, the items or the addresses, but for five. The loop of isDescendant has
-- two turns more than the user has categories: it meets each of them once at most, and one parent
-- that is none of them. The loop over numbered slugs has one turn more than there are slugs in use. The
-- digits of a number have its successor as fuel, which is more than they are. The loop over attempts
-- has as many turns as attempts are allowed, the loop over redirects one more than redirects are.
--
-- Not modelled: foreign keys, the columns that no modelled operation reads, the storing of delivered articles,
-- the tree of categories, the signing of tokens, the daily counters of requests, the parsing of feeds, the
-- synchronization service and the worker, the HTTP routes, the web and Android clients.
pub mod Prelude
pub mod AppError
pub mod Accounts
pub mod Categories
pub mod FetchOutcome
pub mod Ingestion
pub mod Redis
pub mod Retry
pub mod SafeFetch
pub mod Articles
