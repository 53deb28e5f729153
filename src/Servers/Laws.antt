-- ===== src/Servers/Laws.antt =====
-- What the adapters report, and where the token goes.
use mathlib.Core.Path.{subst}
use syno_plex_change_monitor.Base.{sym, ◌↔◌, ◌≤◌, false, none, Bool-cases, inl, inr, ◌++◌}
use syno_plex_change_monitor.Base.Text.{codes, decimal}
use syno_plex_change_monitor.Servers.Common.{raised}
use syno_plex_change_monitor.Servers.MediaServers.{status_detail}
use syno_plex_change_monitor.Base.{ℕ, suc, ◌<◌, ◌≡◌, refl, true, Option, some, arith}
use Prim.Native.Nat.{max}
use syno_plex_change_monitor.Base.Text.{Text}
use syno_plex_change_monitor.Config.{ServerRuntime}
use syno_plex_change_monitor.Pipeline.Events.{ScanRequest}
use syno_plex_change_monitor.Servers.Common.{TriggerResult, Outcome, returned}
use syno_plex_change_monitor.Servers.Http.{
  Request, is_success, Reply, response, transport_error, http_error, other_error, Retrying,
  StopsAfterAttempt,
}
use syno_plex_change_monitor.Servers.Http.Laws.{IsTransient, as_attempt, request_with_retry_lem}
use syno_plex_change_monitor.Servers.MediaServers.{
  MediaServer, plex, emby, jellyfin, audiobookshelf, trigger_request, test_request,
  libraries_request, trigger_result, triggered_detail, trigger,
}

-- What a trigger says of the reply that it ends with. A response is a success exactly if its code is
-- 2xx, and its code is reported; an error of httpx is a failure with the error's text and no code;
-- any other exception is raised.
abbrev pub Reports : MediaServer → Reply → Outcome TriggerResult → Type 0
Reports kind (response a) outcome =
    (result : TriggerResult) × (outcome ≡ returned result)
    × (result.status_code ≡ some a.status_code)
    × (result.ok ≡ true ↔ (200 ≤ a.status_code) × (a.status_code < 300))
    × (result.ok ≡ true → result.detail ≡ triggered_detail kind)
    × (result.ok ≡ false → result.detail ≡ codes "HTTP " ++ decimal a.status_code)
Reports kind (transport_error e) outcome =
    outcome ≡ returned (record { ok = false; status_code = none; detail = e })
Reports kind (http_error e) outcome =
    outcome ≡ returned (record { ok = false; status_code = none; detail = e })
Reports kind (other_error e) outcome = outcome ≡ raised e

trigger_result-Reports :
    (kind : MediaServer) (r : Reply)
    → Reports kind r (trigger_result (triggered_detail kind) (as_attempt r))
trigger_result-Reports kind (response a) = elim (Bool-cases (is_success a)) [
  | inl e ↦ rw e (
    record { ok = true; status_code = some a.status_code; detail = triggered_detail kind },
    refl,
    refl,
    ((λ _. ground (arith, e)), λ _. refl),
    (λ _. refl),
    λ h. cc,
  )
  | inr e ↦ rw e (
    record { ok = false; status_code = some a.status_code; detail = status_detail a.status_code },
    refl,
    refl,
    ((λ h. cc), λ h. absurd (ground (arith, e))),
    (λ h. cc),
    λ _. refl,
  )
]
trigger_result-Reports kind (transport_error e) = refl
trigger_result-Reports kind (http_error e) = refl
trigger_result-Reports kind (other_error e) = refl

module _ (retrying : Retrying) (stops : StopsAfterAttempt retrying)
    (send : Request → ℕ → Reply) where
  -- Where the retry library stops as it documents: a trigger of one of the four media servers makes
  -- at least one and at most `retry_attempts` attempts of one request, and goes on only after 5xx
  -- responses and transport errors. Of the reply that it ends with, which is no such one unless no
  -- attempt is left, it reports success exactly for a 2xx response, with the response's code in any
  -- case; it reports an error of httpx as a failure without a code, and raises any other exception.
  pub trigger_lem :
      (kind : MediaServer) (server : ServerRuntime) (req : ScanRequest)
      → let answers = send (trigger_request kind server req) in
        (n : ℕ) × (n < max 1 server.retry_attempts)
        × Reports kind (answers n) (trigger retrying send kind server req)
        × ((m : ℕ) → m < n → IsTransient (answers m))
        × (IsTransient (answers n) → suc n ≡ max 1 server.retry_attempts)
  unfolding trigger
  trigger_lem kind server req =
      let answers = send (trigger_request kind server req) in
      let (n, low, same, before, last) =
        request_with_retry_lem retrying stops server.retry_attempts answers in
      (
        n,
        low,
        subst (λ a. Reports kind (answers n) (trigger_result (triggered_detail kind) a)) (sym same)
            (trigger_result-Reports kind (answers n)),
        before,
        last,
      )

-- The URLs of all the requests to a media server are the same whatever the server's token is: the
-- token is in no URL.
pub urls_without_secret :
    (kind : MediaServer) (server : ServerRuntime) (req : ScanRequest) (secret : Option Text)
    → let other = record server { secret = secret } in
      ((trigger_request kind other req).url ≡ (trigger_request kind server req).url)
      × ((test_request kind other).url ≡ (test_request kind server).url)
      × ((libraries_request kind other).url ≡ (libraries_request kind server).url)
unfolding trigger_request test_request libraries_request
urls_without_secret plex server req secret = (refl, refl, refl)
urls_without_secret emby server req secret = (refl, refl, refl)
urls_without_secret jellyfin server req secret = (refl, refl, refl)
urls_without_secret audiobookshelf server req secret = (refl, refl, refl)
