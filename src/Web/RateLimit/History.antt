-- ===== src/Web/RateLimit/History.antt =====
-- The limiter decides by the failures of the last window, whatever was pruned in between.
use syno_plex_change_monitor.Base.{
  ℕ, ◌≤◌, ◌≡◌, refl, ap, ◌∙◌, inl, inr, Bool-cases, List, [], ◌∷◌, ◌++◌, ltb, if◌then◌else◌, nat_eq,
  list_eq, ◌==◌, arith,
}
use syno_plex_change_monitor.Base.Dict.{lookup, lookup-insert, lookup-erase}
use syno_plex_change_monitor.Base.Lists.{length, filter, filter-append}
use syno_plex_change_monitor.Base.Text.{Text}
use syno_plex_change_monitor.Web.RateLimit.{
  LoginRateLimiter, create, in_window, failures_of, store_recent, prune, allowed, record_failure,
  reset, or_empty,
}

-- The calls of the limiter, each with its key and the times that it reads.
pub data Call : Type 0 where
  check : Text → ℕ → Call
  fail : Text → ℕ → ℕ → Call
  clear : Text → Call

unfoldable pub perform : Call → LoginRateLimiter → LoginRateLimiter
unfolding allowed record_failure reset
perform (check key now) s = (allowed now key s).0
perform (fail key now later) s = record_failure now later key s
perform (clear key) s = reset key s

unfoldable pub perform_all : List Call → LoginRateLimiter → LoginRateLimiter
unfolding perform
perform_all [] s = s
perform_all (c ∷ calls) s = perform_all calls (perform c s)

-- The clock does not run backwards from `start`, and has not passed `end`.
abbrev pub IsTimed : ℕ → List Call → ℕ → Type 0
IsTimed start [] end = start ≤ end
IsTimed start (check key now ∷ calls) end = (start ≤ now) × IsTimed now calls end
IsTimed start (fail key now later ∷ calls) end =
    (start ≤ now) × (now ≤ later) × IsTimed later calls end
IsTimed start (clear key ∷ calls) end = IsTimed start calls end

-- The times of the key's failures since it was last cleared: nothing is pruned here.
abbrev pub failures_since : Text → List ℕ → List Call → List ℕ
failures_since key times [] = times
failures_since key times (check k now ∷ calls) = failures_since key times calls
failures_since key times (fail k now later ∷ calls) =
    failures_since key (if key == k then times ++ (later ∷ []) else times) calls
failures_since key times (clear k ∷ calls) =
    failures_since key (if key == k then [] else times) calls

failures_of-store_recent :
    (key k : Text) (times : List ℕ) (s : LoginRateLimiter)
    → failures_of key (store_recent k times s) ≡ (if key == k then times else failures_of key s)
unfolding failures_of
failures_of-store_recent key k [] s = ground (arith, lookup-erase key k s.failures)
failures_of-store_recent key k (t ∷ times) s =
    ground (arith, lookup-insert key k (t ∷ times) s.failures)

filter_later :
    (window now later : ℕ) (times : List ℕ)
    → now ≤ later
    → filter (in_window window later) (filter (in_window window now) times)
      ≡ filter (in_window window later) times
filter_later window now later [] h = refl
filter_later window now later (t ∷ times) h = ground (arith, filter_later window now later times h)

limits-store_recent :
    (k : Text) (times : List ℕ) (s : LoginRateLimiter)
    → ((store_recent k times s).window ≡ s.window)
      × ((store_recent k times s).max_attempts ≡ s.max_attempts)
limits-store_recent k [] s = (refl, refl)
limits-store_recent k (t ∷ times) s = (refl, refl)

failures_of-record_failure :
    (key k : Text) (now later : ℕ) (s : LoginRateLimiter)
    → failures_of key (record_failure now later k s) ≡ (
        if key == k
        then filter (in_window s.window now) (failures_of k s) ++ (later ∷ [])
        else failures_of key s)
unfolding record_failure
failures_of-record_failure key k now later s =
    let recent = filter (in_window s.window now) (failures_of k s) in
    ap or_empty (lookup-insert key k (recent ++ (later ∷ [])) (store_recent k recent s).failures)
    ∙ elim (Bool-cases (key == k)) [
      | inl e ↦ rw e refl
      | inr e ↦ rw e (failures_of-store_recent key k recent s ∙ rw e refl)
    ]

failures_of-reset :
    (key k : Text) (s : LoginRateLimiter)
    → failures_of key (reset k s) ≡ (if key == k then [] else failures_of key s)
unfolding failures_of reset
failures_of-reset key k s = ground (arith, lookup-erase key k s.failures)

IsTimed-le : (start : ℕ) (calls : List Call) (end : ℕ) → IsTimed start calls end → start ≤ end
IsTimed-le start [] end h = h
IsTimed-le start (check k now ∷ calls) end (h, r) = omega (arith, IsTimed-le now calls end r)
IsTimed-le start (fail k now later ∷ calls) end (h, g, r) =
    omega (arith, IsTimed-le later calls end r)
IsTimed-le start (clear k ∷ calls) end h = IsTimed-le start calls end h

module _ (key : Text) (end max_attempts window : ℕ) where
  -- The limits are as they were, and the failures that are in the window at the end are the same
  -- as the limiter keeps them and as they happened.
  abbrev Agree : LoginRateLimiter → List ℕ → Type 0
  Agree s times =
      (s.max_attempts ≡ max_attempts)
      × (s.window ≡ window)
      × (filter (in_window window end) (failures_of key s) ≡ filter (in_window window end) times)

  Agree-prune :
      (now : ℕ) (k : Text) (s : LoginRateLimiter) (times : List ℕ)
      → now ≤ end
      → Agree s times
      → Agree (prune now k s).0 times
  unfolding prune
  Agree-prune now k s times h (m, w, a) =
      let recent = filter (in_window s.window now) (failures_of k s) in
      let (w', m') = limits-store_recent k recent s in
      (
        m' ∙ m,
        w' ∙ w,
        rw failures_of-store_recent
            (ground (arith, filter_later window now end (failures_of k s) h)),
      )

  Agree-fail :
      (now later : ℕ) (k : Text) (s : LoginRateLimiter) (times : List ℕ)
      → now ≤ end
      → Agree s times
      → Agree (record_failure now later k s) (if key == k then times ++ (later ∷ []) else times)
  Agree-fail now later k s times h (m, w, a) =
      let recent = filter (in_window s.window now) (failures_of k s) in
      let (w', m') = limits-store_recent k recent s in
      (
        unfold record_failure in m' ∙ m,
        unfold record_failure in w' ∙ w,
        rw failures_of-record_failure (elim (list_eq.dec key k) [
          | no n ↦ ground arith
          | yes e ↦ ground (
            arith,
            filter-append (in_window window end) recent (later ∷ []),
            filter-append (in_window window end) times (later ∷ []),
            filter_later window now end (failures_of k s) h,
          )
        ]),
      )

  Agree-reset :
      (k : Text) (s : LoginRateLimiter) (times : List ℕ)
      → Agree s times
      → Agree (reset k s) (if key == k then [] else times)
  Agree-reset k s times (m, w, a) =
      (unfold reset in m, unfold reset in w, rw failures_of-reset (ground arith))

  Agree-perform_all :
      (calls : List Call) (start : ℕ) (s : LoginRateLimiter) (times : List ℕ)
      → IsTimed start calls end
      → Agree s times
      → Agree (perform_all calls s) (failures_since key times calls)
  unfolding perform_all
  Agree-perform_all [] start s times h a = a
  Agree-perform_all (check k now ∷ calls) start s times (h, r) a =
      Agree-perform_all calls now (allowed now k s).0 times r
        (Agree-prune now k s times (IsTimed-le now calls end r) a)
  Agree-perform_all (fail k now later ∷ calls) start s times (h, g, r) a =
      Agree-perform_all calls later (record_failure now later k s) _ r
        (Agree-fail now later k s times (omega (arith, IsTimed-le later calls end r)) a)
  Agree-perform_all (clear k ∷ calls) start s times h a =
      Agree-perform_all calls start (reset k s) _ h (Agree-reset k s times a)

  -- After any calls for any keys, with a clock that does not run backwards: a key is allowed at
  -- the end exactly if fewer of its failures since its last reset lie in the window than the
  -- limit. What was pruned in between, and what other keys did, makes no difference.
  pub allowed-perform_all :
      (calls : List Call) (start : ℕ)
      → IsTimed start calls end
      → (allowed end key (perform_all calls (create max_attempts window))).1
        ≡ ltb (length (filter (in_window window end) (failures_since key [] calls))) max_attempts
  allowed-perform_all calls start h =
      let (m, w, a) =
        Agree-perform_all calls start (create max_attempts window) [] h (
          unfold create in refl,
          unfold create in refl,
          unfold create failures_of lookup in refl,
        ) in
      unfold allowed in rw (m, w) (ap (λ (l : List ℕ). ltb (length l) max_attempts) a)
