-- ===== src/Servers/Http.antt =====
-- mediascanmonitor/servers/http.py. `retrying` stands for tenacity's `AsyncRetrying` with
-- `stop_after_attempt`, `retry_if_exception` and `reraise`; a send is httpx's `client.request`,
-- whose reply to each attempt the network chooses.
pub mod Laws
use syno_plex_change_monitor.Base.{
  ℕ, suc, ◌≤◌, ◌<◌, ◌≡◌, Bool, true, false, ◌&&◌, Option, leb, ltb, if◌then◌else◌,
}
use Prim.Native.Nat.{max}
use syno_plex_change_monitor.Base.Dict.{Dict}
use syno_plex_change_monitor.Base.Text.{Text}

pub record Request : Type 0 where
  pub method : Text
  pub url : Text
  pub headers : Dict Text Text
  pub content : Option Text

pub record Response : Type 0 where
  pub status_code : ℕ
  pub body : Text

-- `response.is_success` of httpx: the 2xx codes.
abbrev pub is_success : Response → Bool
is_success r = leb 200 r.status_code && ltb r.status_code 300

-- What one `client.request` does: a response, an `httpx.TransportError`, another
-- `httpx.HTTPError`, or an exception of another kind; with the text of the exception.
pub data Reply : Type 0 where
  response : Response → Reply
  transport_error http_error other_error : Text → Reply

pub data Failure : Type 0 where
  retryable_status : Response → Failure
  transport http other : Text → Failure

-- How an attempt, or the whole request, ends.
pub data Attempt : Type 0 where
  done : Response → Attempt
  failed : Failure → Attempt

-- `_is_retryable`
unfoldable pub is_retryable : Failure → Bool
is_retryable (retryable_status r) = true
is_retryable (transport e) = true
is_retryable (http e) = false
is_retryable (other e) = false

abbrev pub is_server_error : ℕ → Bool
is_server_error status = leb 500 status && ltb status 600

-- The body of the `with attempt` block.
unfoldable pub attempt_of : Reply → Attempt
attempt_of (response r) =
    if is_server_error r.status_code then failed (retryable_status r) else done r
attempt_of (transport_error e) = failed (transport e)
attempt_of (http_error e) = failed (http e)
attempt_of (other_error e) = failed (other e)

-- `except _RetryableStatus as exc: return exc.response`
abbrev pub unwrap_status : Attempt → Attempt
unwrap_status (failed (retryable_status r)) = done r
unwrap_status outcome = outcome

abbrev pub Retrying : Type 0
Retrying = ℕ → (Failure → Bool) → (ℕ → Attempt) → Attempt

unfoldable pub request_with_retry : Retrying → ℕ → (ℕ → Reply) → Attempt
unfolding is_retryable attempt_of
request_with_retry retrying attempts send =
    unwrap_status (retrying attempts is_retryable (λ n. attempt_of (send n)))

abbrev pub IsRetried : (Failure → Bool) → Attempt → Type 0
IsRetried retry (done r) = ⊥
IsRetried retry (failed e) = retry e ≡ true

-- What tenacity documents: attempts are made until one does not fail retryably, but no more than
-- the limit and at least one; the outcome is that of the last attempt made.
pub record StopsAfterAttempt (retrying : Retrying) : Type 0 where
  pub outcome :
      (attempts : ℕ) (retry : Failure → Bool) (body : ℕ → Attempt)
      → (n : ℕ) × (n < max 1 attempts)
        × (retrying attempts retry body ≡ body n)
        × ((m : ℕ) → m < n → IsRetried retry (body m))
        × (IsRetried retry (body n) → suc n ≡ max 1 attempts)
