-- ===== src/Failure/Status.antt =====
-- What an HTTP status decides.
use classwaves_backend.Prelude.{ℕ, ◌≤◌, ◌<◌, ◌≡◌, Bool, false, not, ◌||◌, some, arith, ◌==◌}
use classwaves_backend.Failure.{
  Failure, status_of, is_network_error, status_verdict, is_retryable_error,
}

abbrev pub is_refused_status : ℕ → Bool
is_refused_status s = s == 400 || (s == 401 || (s == 403 || (s == 404 || s == 422)))

status_verdict-http :
    (s : ℕ) → 400 ≤ s → s < 600 → status_verdict s ≡ some (not (is_refused_status s))
unfolding status_verdict
status_verdict-http s lo hi = ground arith

-- An error with an HTTP status from 400 to 599, and none of the network codes, is retryable
-- exactly when the status is not 400, 401, 403, 404 or 422, whatever its message says.
pub is_retryable_error-http :
    (e : Failure)
    → is_network_error e ≡ false
    → 400 ≤ status_of e
    → status_of e < 600
    → is_retryable_error e ≡ not (is_refused_status (status_of e))
unfolding is_retryable_error
is_retryable_error-http e quiet lo hi =
    rw (quiet, is_retryable_error, status_verdict-http (status_of e) lo hi)
