-- ===== src/Servers/Http/Laws.antt =====
-- What a caller of `request_with_retry` gets.
use syno_plex_change_monitor.Base.{
  ℕ, suc, ◌<◌, ◌≡◌, refl, ◌∙◌, ap, true, inl, inr, Bool-cases, arith,
}
use Prim.Native.Nat.{max}
use syno_plex_change_monitor.Servers.Http.{
  unwrap_status, Reply, response, transport_error, http_error, other_error, transport, http, other,
  Attempt, done, failed, is_retryable, is_server_error, attempt_of, Retrying, request_with_retry,
  IsRetried, StopsAfterAttempt,
}

-- A reply that is worth another attempt: a 5xx response, or a transport error.
abbrev pub IsTransient : Reply → Type 0
IsTransient (response r) = is_server_error r.status_code ≡ true
IsTransient (transport_error e) = Unit
IsTransient (http_error e) = ⊥
IsTransient (other_error e) = ⊥

-- A response is returned whatever its status, an exception is raised.
abbrev pub as_attempt : Reply → Attempt
as_attempt (response r) = done r
as_attempt (transport_error e) = failed (transport e)
as_attempt (http_error e) = failed (http e)
as_attempt (other_error e) = failed (other e)

IsTransient-of_retried : (r : Reply) → IsRetried is_retryable (attempt_of r) → IsTransient r
unfolding attempt_of is_retryable
IsTransient-of_retried (response r) h = elim (Bool-cases (is_server_error r.status_code)) [
  | inl e ↦ e
  | inr e ↦ absurd (rw e at h)
]
IsTransient-of_retried (transport_error e) h = tt
IsTransient-of_retried (http_error e) h = cc
IsTransient-of_retried (other_error e) h = cc

IsRetried-of_transient : (r : Reply) → IsTransient r → IsRetried is_retryable (attempt_of r)
unfolding attempt_of is_retryable
IsRetried-of_transient (response r) h = rw h refl
IsRetried-of_transient (transport_error e) h = refl
IsRetried-of_transient (http_error e) h = absurd h
IsRetried-of_transient (other_error e) h = absurd h

unwrap_status-attempt_of : (r : Reply) → unwrap_status (attempt_of r) ≡ as_attempt r
unfolding attempt_of
unwrap_status-attempt_of (response r) = ground arith
unwrap_status-attempt_of (transport_error e) = refl
unwrap_status-attempt_of (http_error e) = refl
unwrap_status-attempt_of (other_error e) = refl

-- Where the retry library stops as it documents: the outcome is the reply to one of the attempts,
-- no more than the limit (and at least one) are made, each attempt before it got a 5xx response
-- or a transport error, and it got neither itself unless it was the last one allowed. A 5xx
-- response is then returned like any other; so a 4xx response is never retried.
pub request_with_retry_lem :
    (retrying : Retrying)
    → StopsAfterAttempt retrying
    → (attempts : ℕ) (send : ℕ → Reply)
    → (n : ℕ) × (n < max 1 attempts)
      × (request_with_retry retrying attempts send ≡ as_attempt (send n))
      × ((m : ℕ) → m < n → IsTransient (send m))
      × (IsTransient (send n) → suc n ≡ max 1 attempts)
unfolding request_with_retry
request_with_retry_lem retrying stops attempts send =
    let (n, low, same, before, last) =
      stops.outcome attempts is_retryable (λ n. attempt_of (send n)) in
    (
      n,
      low,
      ap unwrap_status same ∙ unwrap_status-attempt_of (send n),
      (λ m h. IsTransient-of_retried (send m) (before m h)),
      λ h. last (IsRetried-of_transient (send n) h),
    )
