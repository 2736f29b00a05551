-- ===== src/Failure.antt =====
-- Errors as src/services/retry.service.ts reads them: `isRetryableError`, the retry conditions of
-- its specialised callers, and the two errors that the service makes itself. Texts are lists of
-- ASCII codes; an error is an object, so that reading a field of it does not throw.
pub mod Status
pub mod Messages
use classwaves_backend.Prelude.{
  ℕ, zero, suc, ◌+◌, ◌/◌, ◌%◌, Bool, true, false, not, ◌&&◌, ◌||◌, List, [], ◌∷◌, ◌++◌, Option,
  none, some, ltb, leb, ◌==◌, if◌then◌else◌, Text, codes, includes, to_lower_case, text_eq,
}

pub record Failure : Type 0 where
  pub code : Option Text
  pub status : Option ℕ
  pub response_status : Option ℕ
  pub message : Option Text

-- `value || fallback` on an optional number; 0 counts as absent.
abbrev pub or_number : Option ℕ → ℕ → ℕ
or_number none d = d
or_number (some zero) d = d
or_number (some (suc n)) d = suc n

-- `error.status || error.response?.status`, with 0 for a missing status.
abbrev pub status_of : Failure → ℕ
status_of e = or_number e.status (or_number e.response_status 0)

abbrev pub is_code : Option Text → Text → Bool
is_code none c = false
is_code (some s) c = text_eq s c

-- `error.message?.includes(s)`.
abbrev pub says : Failure → Text → Bool
says e s = elim e.message [ none ↦ false | some m ↦ includes s m ]

unfoldable pub is_network_error : Failure → Bool
is_network_error e =
    (is_code e.code (codes "ECONNRESET") || is_code e.code (codes "ETIMEDOUT"))
    || ((is_code e.code (codes "ENOTFOUND") || is_code e.code (codes "ECONNREFUSED"))
        || (is_code e.code (codes "EHOSTUNREACH") || is_code e.code (codes "ENETUNREACH")))

-- The HTTP part: `none` where the code goes on to the message.
unfoldable pub status_verdict : ℕ → Option Bool
status_verdict status =
    if status == 0
    then none
    else if leb 500 status && ltb status 600
    then some true
    else if status == 429
    then some true
    else if status == 408
    then some true
    else if status == 503
    then some true
    else if status == 502 || status == 504
    then some true
    else if leb 400 status && ltb status 500
    then (if status == 401 || status == 403
        then some false
        else if status == 400 || status == 422
        then some false
        else if status == 404
        then some false
        else some true)
    else none

-- The last tests on the lowercased message, from the Google errors on.
unfoldable pub late_verdict : Text → Bool
late_verdict m =
    if includes (codes "google") m
    then (if includes (codes "invalid") m || includes (codes "unauthorized") m then false else true)
    else if includes (codes "circuit breaker is open") m
    then false
    else if includes (codes "circuit breaker") m
    then false
    else if includes (codes "validation") m
    then false
    else if includes (codes "invalid input") m
    then false
    else if includes (codes "malformed") m
    then false
    else false

unfoldable pub service_verdict : Text → Bool
service_verdict m =
    if includes (codes "database connection") m
    then true
    else if includes (codes "connection pool") m
    then true
    else if includes (codes "deadlock") m
    then true
    else if includes (codes "lock timeout") m
    then true
    else if includes (codes "redis connection") m
    then true
    else if includes (codes "redis timeout") m
    then true
    else if includes (codes "service unavailable") m
    then true
    else if includes (codes "temporarily unavailable") m
    then true
    else if includes (codes "rate limit") m
    then true
    else late_verdict m

unfoldable pub message_verdict : Text → Bool
message_verdict m =
    if includes (codes "timeout") m
    then true
    else if includes (codes "timed out") m
    then true
    else if includes (codes "network") m
    then true
    else if includes (codes "connection") m
    then true
    else if includes (codes "socket") m
    then true
    else if includes (codes "reset") m
    then true
    else service_verdict m

-- `error.message?.toLowerCase() || ''`.
abbrev pub lowered_message : Failure → Text
lowered_message e = elim e.message [ none ↦ [] | some m ↦ to_lower_case m ]

unfoldable pub is_retryable_error : Failure → Bool
is_retryable_error e = if is_network_error e then true else elim (status_verdict (status_of e)) [
  | some verdict ↦ verdict
  | none ↦ message_verdict (lowered_message e)
]

-- `error.status === n`.
abbrev pub has_status : Failure → ℕ → Bool
has_status e n = elim e.status [ none ↦ false | some s ↦ s == n ]

-- The `retryCondition` of `retryDatabaseOperation`.
unfoldable pub database_condition : Failure → Bool
database_condition e =
    if has_status e 401 || has_status e 403
    then false
    else if says e (codes "validation")
    then false
    else if says e (codes "unauthorized")
    then false
    else if says e (codes "connection")
    then true
    else if says e (codes "timeout")
    then true
    else if says e (codes "deadlock")
    then true
    else true

-- Of `retryExternalAPI`; an absent status fails both comparisons, as 0 does.
unfoldable pub external_condition : Failure → Bool
external_condition e =
    if (leb 400 (status_of e) && ltb (status_of e) 500) && not (status_of e == 429)
    then false
    else if says e (codes "authentication") || says e (codes "unauthorized")
    then false
    else true

-- Of `retryRedisOperation`.
unfoldable pub redis_condition : Failure → Bool
redis_condition e =
    if says e (codes "connection")
    then true
    else if says e (codes "timeout")
    then true
    else if says e (codes "redis")
    then true
    else if says e (codes "wrong number of arguments")
    then false
    else if says e (codes "unknown command")
    then false
    else true

-- Of `retryGoogleOAuth`.
unfoldable pub google_condition : Failure → Bool
google_condition e =
    if says e (codes "invalid")
    then false
    else if says e (codes "unauthorized")
    then false
    else if says e (codes "forbidden")
    then false
    else if has_status e 401 || has_status e 403
    then false
    else if says e (codes "timeout")
    then true
    else if says e (codes "network")
    then true
    else if is_code e.code (codes "ECONNRESET") || is_code e.code (codes "ETIMEDOUT")
    then true
    else true

-- `new Error(message)`.
abbrev pub plain : Text → Failure
plain m = record { code = none; status = none; response_status = none; message = some m }

decimal_from : ℕ → ℕ → Text → Text
decimal_from zero n acc = acc
decimal_from (suc f) n acc =
    let digits = (b'0' + n % 10) ∷ acc in
    let rest = decimal_from f (n / 10) digits in if ltb n 10 then digits else rest

-- A number in a template literal; `n + 1` rounds are enough for its digits.
unfoldable pub decimal : ℕ → Text
unfolding decimal_from
decimal n = decimal_from (n + 1) n []

-- The error of `withTimeout`.
unfoldable pub timeout_failure : Text → ℕ → Failure
timeout_failure name ms =
    plain (
      codes "Operation \"" ++ (name ++ (codes "\" timed out after " ++ (decimal ms ++ codes "ms"))))

-- The error of `retryWithCircuitBreaker` while the breaker is open.
unfoldable pub circuit_failure : Text → Failure
circuit_failure name = plain (codes "Circuit breaker is open for " ++ name)
