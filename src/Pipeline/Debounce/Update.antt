-- ===== src/Pipeline/Debounce/Update.antt =====
-- A new set of servers, and the end of a debouncer.
use syno_plex_change_monitor.Base.{
  ℕ, ◌≡◌, refl, ap, ◌∙◌, true, false, not, ◌&&◌, Option, none, some, List, [], ◌∷◌, arith, ◌==◌,
  nat_eq, list_eq, pair_eq, option_eq, if◌then◌else◌, inl, inr, Bool-cases, contains,
}
use syno_plex_change_monitor.Base.Dict.{
  Dict, keys, values, lookup, has_key, lookup-erase, contains-keys,
}
use syno_plex_change_monitor.Base.Lists.{filter}
use syno_plex_change_monitor.Pipeline.Events.{ScanRequest}
use syno_plex_change_monitor.Config.{ServerRuntime}
use syno_plex_change_monitor.Pipeline.Debounce.{
  ScanRequest, Key, key_of, Task, Debouncer, drop_timer, drop_gone, update_servers, fire, wake,
  wake_all, aclose, cancel_all,
}
use syno_plex_change_monitor.Pipeline.Debounce.Valid.{IsValid, update_servers-IsValid}
use syno_plex_change_monitor.Pipeline.Debounce.Burst.{dispatched_for, wake_all_quiet}

module _ (servers : Dict ℕ ServerRuntime) (k : Key) where
  drop_gone_timers :
      (pending : List Key) (s : Debouncer)
      → lookup k (drop_gone servers pending s).timers
        ≡ (if contains pending k && not (has_key k.0 servers) then none else lookup k s.timers)
  unfolding drop_gone
  drop_gone_timers [] s = refl
  drop_gone_timers (key ∷ pending) s = elim (Bool-cases (has_key key.0 servers)) [
    | inl e ↦ rw (e, drop_gone) (ground (arith, drop_gone_timers pending s))
    | inr e ↦
        rw (e, drop_gone)
          (unfold drop_timer in
            ground
              (arith, drop_gone_timers pending (drop_timer key s), lookup-erase k key s.timers))
  ]

  drop_gone_dispatched :
      (pending : List Key) (s : Debouncer) → (drop_gone servers pending s).dispatched ≡ s.dispatched
  unfolding drop_gone
  drop_gone_dispatched [] s = refl
  drop_gone_dispatched (key ∷ pending) s = elim (Bool-cases (has_key key.0 servers)) [
    | inl e ↦ rw (e, drop_gone) (drop_gone_dispatched pending s)
    | inr e ↦
        rw (e, drop_gone)
          (drop_gone_dispatched pending (drop_timer key s) ∙ (unfold drop_timer in refl))
  ]

  pub update_servers-dispatched :
      (s : Debouncer) → (update_servers servers s).dispatched ≡ s.dispatched
  unfolding update_servers
  update_servers-dispatched s =
      drop_gone_dispatched (keys s.timers) (record s { servers = servers })

  update_servers_timers :
      (s : Debouncer)
      → lookup k (update_servers servers s).timers
        ≡ (if has_key k.0 servers then lookup k s.timers else none)
  unfolding update_servers has_key
  update_servers_timers s =
      drop_gone_timers (keys s.timers) (record s { servers = servers })
      ∙ ground (arith, contains-keys s.timers k)

  -- After a change of servers a key keeps its timer if its server is still there. If the server
  -- is gone, the key has no timer, and whichever tasks wake later, none dispatches for the key.
  pub update_servers_lem :
      (ids : List ℕ) (s : Debouncer)
      → IsValid s
      → (has_key k.0 servers ≡ true
          → lookup k (update_servers servers s).timers ≡ lookup k s.timers)
        × (has_key k.0 servers ≡ false
            → (lookup k (update_servers servers s).timers ≡ none)
              × (dispatched_for k (wake_all ids (update_servers servers s)) ≡ dispatched_for k s))
  update_servers_lem ids s v = (
    λ h. update_servers_timers s ∙ rw h refl,
    λ h.
        let gone : lookup k (update_servers servers s).timers ≡ none =
          update_servers_timers s ∙ rw h refl in
        (
          gone,
          wake_all_quiet k ids (update_servers servers s) (update_servers-IsValid servers v) gone
              ∙ ap (λ (t : List ScanRequest). filter (λ req. key_of req == k) t)
                  (unfold update_servers in
                    drop_gone_dispatched (keys s.timers) (record s { servers = servers })),
        ),
  )

fire_unarmed :
    (id : ℕ) (o : Option Task) (s : Debouncer)
    → s.timers ≡ []
    → ((fire id o s).timers ≡ []) × ((fire id o s).dispatched ≡ s.dispatched)
fire_unarmed id none s e = (e, refl)
fire_unarmed id (some task) s e =
    let none_armed : lookup task.key s.timers ≡ none = rw e (unfold lookup in refl) in ground arith

wake_all_unarmed :
    (ids : List ℕ) (s : Debouncer)
    → s.timers ≡ []
    → ((wake_all ids s).timers ≡ []) × ((wake_all ids s).dispatched ≡ s.dispatched)
unfolding wake_all wake
wake_all_unarmed [] s e = (e, refl)
wake_all_unarmed (id ∷ ids) s e =
    let (t, d) = fire_unarmed id (lookup id s.tasks) s e in
    let (t', d') = wake_all_unarmed ids (fire id (lookup id s.tasks) s) t in (t', d' ∙ d)

-- Closing dispatches nothing and leaves no timer, and whichever tasks wake later, nothing is
-- dispatched.
pub aclose_quiet :
    (ids : List ℕ) (s : Debouncer)
    → ((aclose s).timers ≡ []) × ((wake_all ids (aclose s)).dispatched ≡ s.dispatched)
unfolding aclose
aclose_quiet ids s =
    let (t, d) =
      wake_all_unarmed (values s.timers)
        (record s { timers = []; tasks = cancel_all (values s.timers) s.tasks }) refl in
    (t, (wake_all_unarmed ids _ t).1 ∙ d)
