-- ===== src/Lib.antt =====
-- The core of the application manager service, which takes job applications, queues them and has a
-- worker process them: the worker with its retries, the caches, limits and records that its API keeps in
-- memory, and the batches. Paths are from the repository's root.
--
-- Parts:
--   * Worker: app/workers/application_worker.py (process_application, _is_retryable_error,
--     handle_message), with update_application_status of app/services/application_uploader_service.py
--     and publish_to_dlq of app/services/queue_service.py. A message goes through retry_with_backoff to
--     process_application, whose errors the worker classifies; the outcome decides the status, the dead
--     letter and the acknowledgement. The state is the collection of applications, what was published,
--     and the faults to come: every call outside the program takes one, so that all failures at all
--     places are covered. Worker/Triples has the rules for the monad, Worker/Outcome what one message
--     does to its document, and Safety, Calm and Requeue its consequences.
--   * Retry: app/core/retry.py, the loop, the delays without their jitter's random source (an argument),
--     and RetryContext.
--   * Cache: app/core/cache.py, the methods of LRUCache and, in Cache/Cached, the decorators.
--   * RateLimit: app/core/rate_limit.py, the sliding window limiter; Middleware is its middleware, Ideal
--     the limiter that remembers everything, Sliding their agreement.
--   * Idempotency: app/core/idempotency.py, the store, the wrapper of require_idempotency as the piece
--     before the wrapped function and the piece after it, and the middleware. Traces interleaves
--     requests, Replay runs two in a row.
--   * Batch: app/services/batch_service.py, the background task in the pieces between its awaits; Steps
--     interleaves the pieces with the calls of the API.
--   * Sockets: app/core/websocket_manager.py, the two maps of the connection manager; Ownership has what
--     keeps them in agreement, Broadcast the calls and the pieces of broadcasts in any order.
--   * Migrations: app/migrations/runner.py and app/migrations/models.py. Files discovers the migrations;
--     Loops and Undo have the rounds of migrate_up and migrate_down, Lock the lock, Chain a run of
--     migrations that succeed; Completes, Up, Down, Stale and Unlocks have the calls. The database is
--     of any type, and a migration acts on it as it likes.
--   * Webhooks: app/services/webhook_service.py and app/models/webhook.py. Registry has the registrations,
--     creations in two pieces, Deliveries the dispatching of events, Sending the attempts, Steps the calls in any order; Cases and
--     Branches are the branches of the calls, Edits the writes to the collection of webhooks.
--   * Applications: app/routers/app_router.py, the filters and the pages of the lists of applications;
--     Walks is a client that follows the cursors, Complete what it gets.
--   * Redis: app/core/redis_cache.py, the circuit breaker and the cache in front of Redis, with the LRU
--     cache of Cache as its fallback; Steps has its operations in the pieces around the await of Redis,
--     Stuck is about a circuit that opened.
--   * Mongo: the document collections, which are no part of the program, as an interface, with a
--     collection in memory that fills it. Errors: the exceptions. Text: Python's str as code points.
--     Base: the shared names, association lists for dict and OrderedDict, and their lemmas.
--   * Examples: runs of the model and the theorems at concrete inputs.
--
-- Conventions: times are natural numbers of ticks, and each reading of a clock is an argument, so that
-- nothing is assumed of clocks but what a theorem states. Loops are structural recursion; fuel is
-- that of `decimal`, one more than the number, which has fewer digits, and that of `walk`, the pages that
-- a client asks for, where as many as there are applications are enough. The code runs on one thread
-- of an event loop. Requests with a key, batch tasks, broadcasts, operations on Redis and creations of
-- webhooks are split at their awaits; any other call of a service is one step, as its file says.
--
-- Not modelled: log lines, metrics, correlation ids, hashes and random identifiers; the HTTP routers,
-- the command line client, the clients of the database and of the broker;
-- input validation and scheduled jobs.
mod Base
pub mod Text
pub mod Errors
pub mod Mongo
pub mod Cache
pub mod Retry
pub mod Worker
pub mod RateLimit
pub mod Idempotency
pub mod Batch
pub mod Sockets
pub mod Migrations
pub mod Webhooks
pub mod Applications
pub mod Redis
mod Examples
