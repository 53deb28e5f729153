-- ===== src/Tests/Serving.antt =====
-- Runs of the dispatcher and of the adapters.
use syno_plex_change_monitor.Base.{
  sym, ◌∙◌, ap, ℕ, zero, suc, ◌-◌, ◌≡◌, ◌≢◌, ◌<◌, refl, Bool, true, some, [], ◌∷◌, arith,
  if◌then◌else◌, Bool-cases, inl, inr,
}
use Prim.Native.Nat.{max}
use syno_plex_change_monitor.Base.Text.{Text, codes}
use syno_plex_change_monitor.Base.{nat_eq}
use syno_plex_change_monitor.Base.Dict.{lookup}
use syno_plex_change_monitor.Pipeline.Events.{ScanRequest}
use syno_plex_change_monitor.Servers.Common.{TriggerResult, returned, raised}
use syno_plex_change_monitor.Servers.Http.Laws.{IsTransient, as_attempt, request_with_retry_lem}
use syno_plex_change_monitor.Servers.MediaServers.{plex, trigger}
use syno_plex_change_monitor.Servers.Laws.{Reports, trigger_lem}
use syno_plex_change_monitor.Pipeline.Dispatcher.{Dispatcher, dispatch, DispatchedAs, dispatch_lem}
use syno_plex_change_monitor.Tests.Debouncing.{server, request}
use syno_plex_change_monitor.Servers.Http.{
  request_with_retry, Request, Reply, response, Failure, Attempt, done, failed, Retrying, IsRetried,
  StopsAfterAttempt,
}

abbrev pick : (Failure → Bool) → Attempt → Attempt → Attempt
pick retry (done r) rest = done r
pick retry (failed e) rest = if retry e then rest else failed e

-- The loop that the retry library runs: `more` attempts are left after the first.
unfoldable attempt_from : (Failure → Bool) → (ℕ → Attempt) → ℕ → Attempt
attempt_from retry body zero = body 0
attempt_from retry body (suc more) =
    pick retry (body 0) (attempt_from retry (λ n. body (suc n)) more)

abbrev Stopped : (Failure → Bool) → (ℕ → Attempt) → ℕ → Attempt → Type 0
Stopped retry body more out =
    (k : ℕ) × (k < suc more)
    × (out ≡ body k)
    × ((m : ℕ) → m < k → IsRetried retry (body m))
    × (IsRetried retry (body k) → k ≡ more)

earlier :
    (retry : Failure → Bool) (body : ℕ → Attempt) (k : ℕ)
    → IsRetried retry (body 0)
    → ((m : ℕ) → m < k → IsRetried retry (body (suc m)))
    → (m : ℕ) → m < suc k
    → IsRetried retry (body m)
earlier retry body k h before zero low = h
earlier retry body k h before (suc m) low = before m (omega arith)

attempt_from_lem :
    (retry : Failure → Bool) (body : ℕ → Attempt) (more : ℕ)
    → Stopped retry body more (attempt_from retry body more)
unfolding attempt_from
attempt_from_lem retry body zero = (0, omega arith, refl, (λ m h. absurd (omega arith)), λ h. refl)
attempt_from_lem retry body (suc more) =
    go (attempt_from_lem retry (λ n. body (suc n)) more) (body 0) refl
  where
    rest : Attempt
    rest = attempt_from retry (λ n. body (suc n)) more

    step : {a : Attempt} → body 0 ≡ a → attempt_from retry body (suc more) ≡ pick retry a rest
    step e = ap (λ b. pick retry b rest) e

    go :
        Stopped retry (λ n. body (suc n)) more (attempt_from retry (λ n. body (suc n)) more)
        → (a : Attempt) → body 0 ≡ a
        → Stopped retry body (suc more) (attempt_from retry body (suc more))
    go inner (done r) e =
        (0, omega arith, step e ∙ sym e, (λ m h. absurd (omega arith)), λ h. absurd (rw e at h))
    go inner (failed f) e = elim (Bool-cases (retry f)) [
      | inr stop ↦ (
        0,
        omega arith,
        (step e ∙ rw stop refl) ∙ sym e,
        (λ m h. absurd (omega arith)),
        λ h. absurd (ground (arith, rw e at h)),
      )
      | inl again ↦
          let (k, low, same, before, last) = inner in
          (
            suc k,
            omega arith,
            (step e ∙ rw again refl) ∙ same,
            earlier retry body k (rw e again) before,
            λ h. ap suc (last h),
          )
    ]

unfoldable pub retrying : Retrying
unfolding attempt_from
retrying attempts retry body = attempt_from retry body (attempts - 1)

retrying-StopsAfterAttempt : StopsAfterAttempt retrying
unfolding retrying
retrying-StopsAfterAttempt = record {
  outcome = λ attempts retry body.
      let (k, low, same, before, last) = attempt_from_lem retry body (attempts - 1) in
      (k, omega arith, same, before, λ h. let q = last h in omega arith);
}

-- A server that is overloaded at the first attempt.
abbrev answers : ℕ → Reply
answers zero = response (record { status_code = 503; body = [] })
answers (suc n) = response (record { status_code = 200; body = [] })

request_with_retry_lem_example :
    (n : ℕ) × (n < max 1 3)
    × (request_with_retry retrying 3 answers ≡ as_attempt (answers n))
    × ((m : ℕ) → m < n → IsTransient (answers m))
    × (IsTransient (answers n) → suc n ≡ max 1 3)
request_with_retry_lem_example =
    request_with_retry_lem retrying retrying-StopsAfterAttempt 3 answers

abbrev pub send : Request → ℕ → Reply
send req n = answers n

episode : ScanRequest
episode = request (codes "/tv/show/e1.mkv")

trigger_lem_example :
    (n : ℕ) × (n < max 1 3)
    × Reports plex (answers n) (trigger retrying send plex server episode)
    × ((m : ℕ) → m < n → IsTransient (answers m))
    × (IsTransient (answers n) → suc n ≡ max 1 3)
trigger_lem_example = trigger_lem retrying retrying-StopsAfterAttempt send plex server episode

abbrev triggered : TriggerResult
triggered = record { ok = true; status_code = some 200; detail = codes "Plex scan triggered" }

trigger_run : trigger retrying send plex server episode ≡ returned triggered
unfolding trigger retrying episode
trigger_run = refl

abbrev dispatcher : Dispatcher
dispatcher = record { adapters = (1, λ req. raised (codes "boom")) ∷ [] }

dispatch_lem_example :
    ((error : Text) → dispatch episode dispatcher ≢ raised error)
    × DispatchedAs
        (lookup episode.server_id dispatcher.adapters)
        episode
        (dispatch episode dispatcher)
dispatch_lem_example = dispatch_lem episode dispatcher
