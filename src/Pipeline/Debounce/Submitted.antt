-- ===== src/Pipeline/Debounce/Submitted.antt =====
-- What becomes of a request that was submitted, whatever else then happens to the debouncer.
use syno_plex_change_monitor.Base.{
  ℕ, ◌+◌, ◌≡◌, ◌≢◌, ◌⊎◌, refl, sym, ◌∙◌, ap, true, false, Option, none, some, List, [], ◌∷◌, ◌++◌,
  arith, ◌==◌, nat_eq, list_eq, pair_eq, option_eq, inl, inr, eq_self,
}
use mathlib.Core.List.{append_assoc, append-nil}
use syno_plex_change_monitor.Base.Dict.{Dict, lookup, has_key}
use syno_plex_change_monitor.Base.Lists.{filter, filter-append}
use syno_plex_change_monitor.Config.{ServerRuntime}
use syno_plex_change_monitor.Models.{DebounceMode, off, trailing}
use syno_plex_change_monitor.Pipeline.Events.{ScanRequest}
use syno_plex_change_monitor.Pipeline.Debounce.{
  Key, key_of, Task, Debouncer, submit, submit_to, submit_mode, dispatch_now, arm, wake,
  update_servers,
}
use syno_plex_change_monitor.Pipeline.Debounce.Valid.{IsValid, lookup_timers}
use syno_plex_change_monitor.Pipeline.Debounce.Burst.{
  dispatched_for, fired, dispatched-wake, timer-wake,
}
use syno_plex_change_monitor.Pipeline.Debounce.Update.{
  update_servers_lem, update_servers-dispatched,
}

append-ne-nil : (xs ys : List ScanRequest) → xs ≢ [] → xs ++ ys ≢ []
append-ne-nil [] ys n e = n refl
append-ne-nil (x ∷ xs) ys n e = cc

append-ne-nil_last : (xs ys : List ScanRequest) → ys ≢ [] → xs ++ ys ≢ []
append-ne-nil_last [] ys n e = n e
append-ne-nil_last (x ∷ xs) ys n e = cc

dispatched_for-arm :
    (k : Key) (due : ℕ) (req : ScanRequest) (s : Debouncer)
    → dispatched_for k (arm due req s) ≡ dispatched_for k s
unfolding arm
dispatched_for-arm k due req s = refl

module _ (k : Key) where
  -- Since `before` was all that was dispatched for the key, more was, or the key has a timer.
  abbrev pub Covered : List ScanRequest → Debouncer → Type 0
  Covered before s =
      (later : List ScanRequest) × (dispatched_for k s ≡ before ++ later)
      × ((later ≢ []) ⊎ ((id : ℕ) × (lookup k s.timers ≡ some id)))

  -- The same of a valid state, with the live task that the timer is.
  abbrev pub Pending : List ScanRequest → Debouncer → Type 0
  Pending before s =
      (later : List ScanRequest) × (dispatched_for k s ≡ before ++ later)
      × ((later ≢ [])
          ⊎ ((id : ℕ) × (lookup k s.timers ≡ some id)
              × ((t : Task) × (lookup id s.tasks ≡ some t)
                  × (key_of t.req ≡ k)
                  × (t.cancelled ≡ false))))

  module _ (before : List ScanRequest) where
    more-Covered :
        (s next : Debouncer) (more : List ScanRequest)
        → dispatched_for k next ≡ dispatched_for k s ++ more
        → (((id : ℕ) × (lookup k s.timers ≡ some id))
            → (more ≢ []) ⊎ ((id : ℕ) × (lookup k next.timers ≡ some id)))
        → Covered before s
        → Covered before next
    more-Covered s next more d timer (later, e, h) = (
      later ++ more,
      d ∙ ap (λ l. l ++ more) e ∙ append_assoc before later more,
      elim h [
        | inl n ↦ inl (append-ne-nil later more n)
        | inr armed ↦ elim (timer armed) [
          | inl n ↦ inl (append-ne-nil_last later more n)
          | inr still ↦ inr still
        ]
      ],
    )

    same-Covered :
        (s next : Debouncer)
        → dispatched_for k next ≡ dispatched_for k s
        → lookup k next.timers ≡ lookup k s.timers
        → Covered before s
        → Covered before next
    same-Covered s next d t =
        more-Covered s next [] (d ∙ sym (append-nil (dispatched_for k s)))
          (λ armed. inr (armed.0, t ∙ armed.1))

    dispatch_now-Covered :
        (req : ScanRequest) (s : Debouncer) → Covered before s → Covered before (dispatch_now req s)
    unfolding dispatch_now
    dispatch_now-Covered req s =
        more-Covered s (dispatch_now req s) (filter (λ r. key_of r == k) (req ∷ []))
          (filter-append (λ r. key_of r == k) s.dispatched (req ∷ [])) (λ armed. inr armed)

    arm-Covered :
        (due : ℕ) (req : ScanRequest) {s : Debouncer} (v : IsValid s)
        → Covered before s
        → Covered before (arm due req s)
    arm-Covered due req {s} v = elim (pair_eq.dec k (key_of req)) [
      | yes e ↦
          more-Covered s (arm due req s) []
            (dispatched_for-arm k due req s ∙ sym (append-nil (dispatched_for k s)))
            (λ armed. inr (s.next_task, ground (arith, lookup_timers due req v k, e)))
      | no n ↦
          same-Covered s (arm due req s) (dispatched_for-arm k due req s)
            (ground (arith, lookup_timers due req v k, n))
    ]

    pub submit-Covered :
        (now : ℕ) (req : ScanRequest) (s : Debouncer)
        → IsValid s
        → Covered before s
        → Covered before (submit now req s)
    unfolding submit
    submit-Covered now req s v h = go (lookup req.server_id s.servers)
      where
        mode : (m : DebounceMode) (due : ℕ) → Covered before (submit_mode m due req s)
        mode off due = dispatch_now-Covered req s h
        mode trailing due = arm-Covered due req v h

        go : (o : Option ServerRuntime) → Covered before (submit_to o now req s)
        go none = dispatch_now-Covered req s h
        go (some server) = mode server.debounce_mode (now + server.debounce_window_seconds)

    pub wake-Covered :
        (id : ℕ) (s : Debouncer) → IsValid s → Covered before s → Covered before (wake id s)
    wake-Covered id s v =
        more-Covered s (wake id s) (fired k id (lookup k s.timers) (lookup id s.tasks))
          (dispatched-wake k id v)
          (λ armed. elim (nat_eq.dec armed.0 id) [
            | yes e ↦ inl (fires (lookup id s.tasks) refl armed.0 e armed.1)
            | no n ↦ inr (armed.0, ground (arith, timer-wake k id v, armed.1, n))
          ])
      where
        fires :
            (o : Option Task)
            → lookup id s.tasks ≡ o
            → (j : ℕ) → j ≡ id
            → lookup k s.timers ≡ some j
            → fired k id (lookup k s.timers) o ≢ []
        fires none q j i e = absurd (ground (arith, v.timer k, q, i, e))
        fires (some task) q j i e = ground (arith, e, i)

    pub update_servers-Covered :
        (servers : Dict ℕ ServerRuntime) (s : Debouncer)
        → IsValid s
        → has_key k.0 servers ≡ true
        → Covered before s
        → Covered before (update_servers servers s)
    update_servers-Covered servers s v h =
        same-Covered s (update_servers servers s)
          (ap (λ (l : List ScanRequest). filter (λ r. key_of r == k) l)
            (update_servers-dispatched servers k s))
          ((update_servers_lem servers k [] s v).0 h)

  pub Covered-Pending :
      (before : List ScanRequest) (s : Debouncer) → IsValid s → Covered before s → Pending before s
  Covered-Pending before s v (later, e, inl n) = (later, e, inl n)
  Covered-Pending before s v (later, e, inr (id, t)) =
      (later, e, inr (id, t, live (lookup id s.tasks) refl))
    where
      live :
          (o : Option Task)
          → lookup id s.tasks ≡ o
          → (t : Task) × (o ≡ some t) × (key_of t.req ≡ k) × (t.cancelled ≡ false)
      live none q = absurd (ground (arith, v.timer k, t, q))
      live (some task) q =
          (task, refl, ground (arith, v.timer k, v.task id, t, q), ground (arith, v.timer k, t, q))

pub submit-own :
    (now : ℕ) (req : ScanRequest) (s : Debouncer)
    → IsValid s
    → Covered (key_of req) (dispatched_for (key_of req) s) (submit now req s)
unfolding submit
submit-own now req s v = go (lookup req.server_id s.servers)
  where
    sent : Covered (key_of req) (dispatched_for (key_of req) s) (dispatch_now req s)
    sent = (
      filter (λ r. key_of r == key_of req) (req ∷ []),
      unfold dispatch_now in filter-append (λ r. key_of r == key_of req) s.dispatched (req ∷ []),
      inl (rw (eq_self (key_of req)) (λ e. cc)),
    )

    mode :
        (m : DebounceMode) (due : ℕ)
        → Covered (key_of req) (dispatched_for (key_of req) s) (submit_mode m due req s)
    mode off due = sent
    mode trailing due = (
      [],
      dispatched_for-arm (key_of req) due req s ∙ sym (append-nil (dispatched_for (key_of req) s)),
      inr (s.next_task, ground (arith, lookup_timers due req v (key_of req))),
    )

    go :
        (o : Option ServerRuntime)
        → Covered (key_of req) (dispatched_for (key_of req) s) (submit_to o now req s)
    go none = sent
    go (some server) = mode server.debounce_mode (now + server.debounce_window_seconds)
