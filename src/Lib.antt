-- ===== src/Lib.antt =====
-- The parts of the backend that keep state of their own in one process or in Redis, and decide by
-- it:
--
--   Failure.antt   what the retry service reads of an error, and which errors it takes for transient:
--                  `isRetryableError` and the retry conditions of src/services/retry.service.ts
--   Retry.antt     `withRetry`, its timeout, delays and metrics, and the callers with fixed options, of
--                  the same file; Retry/Batch.antt has `retryBatch`, Retry/Report.antt `getMetrics` and
--                  `getHealthStatus`
--   Breaker.antt   src/services/analytics-computation-circuit-breaker.service.ts: the circuit's states,
--                  counters and events
--   Buffer.antt    src/services/ai-analysis-buffer.service.ts: the transcript buffers of two tiers;
--                  Buffer/Context.antt has the loops of `getContextWindows`
--   Redis.antt     the client of Redis, an interface with the documented behaviour of its commands
--   Lock.antt      src/services/analytics-computation-lock.service.ts: the distributed lock;
--                  Lock/Execution.antt has `executeWithLock` and the walks over all locks
--   Security.antt  src/services/websocket/websocket-security-validator.service.ts: the checks before a
--                  socket enters a namespace or uses a session, over the services they ask
--   AudioQueue.antt  src/services/queue/in-memory-audio-task-queue.ts: the queue that drains itself
--   Dedupe.antt    src/services/websocket/utils/dedupe.util.ts: the window in which a repeated broadcast
--                  is dropped
--   Prelude.antt   tests, lists, texts, maps and their lemmas
--
-- The retry service classifies the errors of any operation, those of an open breaker included. The
-- lock acts on Redis through the client that it is given. The security checks ask the socket
-- adapter, Redis and the database, which are a record of functions on a world. Buffers and circuit
-- breaker stand on their own.
--
-- Each operation is a function with the method's name in snake case, from the state to the new
-- state and the result; fields have the source's names. A call that throws is a constructor of the
-- result. Numbers are natural numbers: times are milliseconds, as the source counts them, and a
-- subtraction that could fall below zero is written as an addition on the other side. Quotients
-- are compared multiplied out or kept in hundredths, so that the rounding of floating point is
-- left out. Delays are in ten-thousandths of a millisecond, random numbers in thousandths, in
-- which the jitter is exact. Texts are lists of ASCII codes. The clock is read once in each
-- synchronous section. A race with a timer is won by the operation when both are due at once.
--
-- The result of an operation that is retried is a function of the number of the attempt, and its
-- duration is part of the result. `withRetry` runs by recursion on the retries that are left,
-- which is as many as the loop has. `retryBatch` has fuel: a round for each job and one more is
-- enough when the concurrency is positive. The jobs of a slice run at the same time in the source;
-- here they run from left to right, which differs only in the order of the counters. Calls of the
-- circuit breaker overlap: a call is a start and a later end, and the ends come in any order. The
-- audio queue runs by actions in the same way: callbacks and the ends of tasks. The lock service's
-- world is opaque: each command may change it in any way the laws of Redis.antt allow, and may
-- fail.
--
-- Not modelled: log lines; the masking of quotes by regular expressions and the insights from the
-- database in the buffer service; the record that a security event writes, and the SQL texts; the
-- periodic timers, which call operations that are modelled; the loop over the cursor of a SCAN,
-- which is part of the client. The routes, controllers, database and socket layers pass data
-- between these parts and third-party packages, and are left out.
pub mod Prelude
pub mod Breaker
pub mod Failure
pub mod Retry
pub mod Buffer
pub mod Redis
pub mod Lock
pub mod Security
pub mod AudioQueue
pub mod Dedupe
pub mod AlertScore
pub mod Alerts
