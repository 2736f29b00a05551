-- ===== src/Failure/Messages.antt =====
-- What the message decides, and the two errors that the service makes itself.
use classwaves_backend.Prelude.{
  ℕ, ◌≡◌, Bool, true, not, ◌&&◌, ◌||◌, List, [], ◌∷◌, ◌++◌, arith, refl, any, Text, codes, includes,
  starts_with, lower, to_lower_case, to_lower_case-append, includes-append_left, ◌∙◌,
}
use classwaves_backend.Failure.{
  plain, is_network_error, message_verdict, service_verdict, late_verdict, is_retryable_error,
  timeout_failure, circuit_failure, decimal, status_verdict,
}

abbrev pub early_words : List Text
early_words =
    codes "timeout"
    ∷ codes "timed out"
    ∷ codes "network"
    ∷ codes "connection"
    ∷ codes "socket"
    ∷ codes "reset"
    ∷ []

abbrev pub service_words : List Text
service_words =
    codes "database connection"
    ∷ codes "connection pool"
    ∷ codes "deadlock"
    ∷ codes "lock timeout"
    ∷ codes "redis connection"
    ∷ codes "redis timeout"
    ∷ codes "service unavailable"
    ∷ codes "temporarily unavailable"
    ∷ codes "rate limit"
    ∷ []

abbrev pub mentions : List Text → Text → Bool
mentions words m = any (λ w. includes w m) words

-- A Google error that is not about credentials.
abbrev pub is_google_hiccup : Text → Bool
is_google_hiccup m =
    includes (codes "google") m
    && not (includes (codes "invalid") m || includes (codes "unauthorized") m)

-- A text with one of the words of a transient fault, or of a Google error that is not about
-- credentials.
unfoldable pub is_transient_text : Text → Bool
is_transient_text m = mentions early_words m || (mentions service_words m || is_google_hiccup m)

late_verdict_lem : (m : Text) → late_verdict m ≡ is_google_hiccup m
unfolding late_verdict
late_verdict_lem m = ground arith

service_verdict_lem : (m : Text) → service_verdict m ≡ (mentions service_words m || late_verdict m)
unfolding service_verdict
service_verdict_lem m = ground arith

message_verdict_lem : (m : Text) → message_verdict m ≡ (mentions early_words m || service_verdict m)
unfolding message_verdict
message_verdict_lem m = ground arith

-- A text is retryable exactly when it has one of the words, or is a Google error that is not
-- about credentials: the tests for circuit breakers, validation and malformed input change nothing.
message_verdict-words : (m : Text) → message_verdict m ≡ is_transient_text m
unfolding is_transient_text
message_verdict-words m = rw (message_verdict_lem m, service_verdict_lem m, late_verdict_lem m)

-- An error with no code and no status is retryable exactly when its lowercased message has one of
-- the words of a transient fault, or is a Google error that is not about credentials.
pub is_retryable_error-plain :
    (m : Text) → is_retryable_error (plain m) ≡ is_transient_text (to_lower_case m)
unfolding is_retryable_error is_network_error status_verdict
is_retryable_error-plain m = message_verdict-words (to_lower_case m)

includes_timed_out :
    (r : Text)
    → includes (codes "timed out") (to_lower_case (codes "\" timed out after ") ++ r) ≡ true
unfolding includes starts_with to_lower_case lower
includes_timed_out r = refl

timed_out-mentions :
    (m : Text) → includes (codes "timed out") m ≡ true → mentions early_words m ≡ true
timed_out-mentions m h = ground arith

-- Stated with the parts apart, so that the literals stay whole.
timed_out_infix :
    (a name r : Text)
    → includes
        (codes "timed out")
        (to_lower_case (a ++ (name ++ (codes "\" timed out after " ++ r))))
      ≡ true
timed_out_infix a name r =
    rw
      (
        to_lower_case-append a (name ++ (codes "\" timed out after " ++ r)),
        to_lower_case-append name (codes "\" timed out after " ++ r),
        to_lower_case-append (codes "\" timed out after ") r,
      )
      (includes-append_left (codes "timed out") (to_lower_case a) _ (
        includes-append_left (codes "timed out") (to_lower_case name) _
          (includes_timed_out (to_lower_case r))))

-- The error that the service makes for its own timeout is always retryable.
pub is_retryable_error-timeout :
    (name : Text) (ms : ℕ) → is_retryable_error (timeout_failure name ms) ≡ true
unfolding timeout_failure is_transient_text
is_retryable_error-timeout name ms =
    is_retryable_error-plain _
    ∙ rw (
        timed_out-mentions _
          (timed_out_infix (codes "Operation \"") name (decimal ms ++ codes "ms")))

circuit_words :
    (name : Text)
    → (mentions early_words (to_lower_case (codes "Circuit breaker is open for ") ++ name)
        ≡ mentions early_words name)
      × (mentions service_words (to_lower_case (codes "Circuit breaker is open for ") ++ name)
          ≡ mentions service_words name)
      × (is_google_hiccup (to_lower_case (codes "Circuit breaker is open for ") ++ name)
          ≡ is_google_hiccup name)
unfolding includes starts_with to_lower_case lower
circuit_words name = (refl, refl, refl)

-- The error that the service makes for an open circuit breaker is retryable exactly when the
-- lowercased name of the operation has one of the words of a transient fault, or is a Google name
-- without those for bad credentials.
pub is_retryable_error-circuit :
    (name : Text)
    → is_retryable_error (circuit_failure name) ≡ is_transient_text (to_lower_case name)
unfolding circuit_failure is_transient_text
is_retryable_error-circuit name =
    let (early, service, google) = circuit_words (to_lower_case name) in
    is_retryable_error-plain _
    ∙ rw (to_lower_case-append (codes "Circuit breaker is open for ") name, early, service, google)
