-- ===== src/Observ/EventsBus/Window.antt =====
-- The buffer and the queues hold the last records that were published.
use syno_plex_change_monitor.Base.{
  ℕ, zero, suc, ◌+◌, ◌-◌, ◌≤◌, ◌≡◌, refl, sym, ap, ◌∙◌, inl, inr, Bool-cases, some, List, [], ◌∷◌,
  ◌++◌, arith, leb, nat_eq,
}
use Prim.Native.Nat.{min}
use mathlib.Core.List.{append_assoc, append-nil}
use syno_plex_change_monitor.Base.Dict.{Dict, lookup, lookup-insert}
use syno_plex_change_monitor.Base.Lists.{
  length, drop, length-append, length-drop, drop-drop, drop-append, drop-all,
}
use syno_plex_change_monitor.Observ.EventsBus.{
  queue_maxsize, append_bounded, offer, offer_all, Bus, create, publish, recent, subscribe,
}

module _ {R : Type 0} where
  -- The last `n` items.
  abbrev pub last_items : ℕ → List R → List R
  last_items n xs = drop (length xs - n) xs

  unfoldable pub publish_all : List R → Bus R → Bus R
  unfolding publish
  publish_all [] bus = bus
  publish_all (r ∷ rs) bus = publish_all rs (publish r bus)

  -- The last items of the last items.
  last_items-last_items :
      (m n : ℕ) (xs ys : List R)
      → last_items n (last_items (n + m) xs ++ ys) ≡ last_items n (xs ++ ys)
  last_items-last_items m n xs ys =
      let k = length xs - (n + m) in
      rw (← drop-append k xs ys (omega arith)) (
        drop-drop (length (drop k (xs ++ ys)) - n) k (xs ++ ys)
        ∙ ap (λ (i : ℕ). drop i (xs ++ ys))
            (omega (arith, length-drop k (xs ++ ys), length-append xs ys)))

  length-last_items : (n : ℕ) (xs : List R) → length (last_items n xs) ≡ min (length xs) n
  length-last_items n xs = omega (arith, length-drop (length xs - n) xs)

  buffer-publish_all :
      (rs : List R) (bus : Bus R)
      → length bus.buffer ≤ bus.capacity
      → ((publish_all rs bus).buffer ≡ last_items bus.capacity (bus.buffer ++ rs))
        × ((publish_all rs bus).capacity ≡ bus.capacity)
  unfolding publish_all append_bounded
  buffer-publish_all [] bus h =
      let e : length (bus.buffer ++ []) - bus.capacity ≡ 0 =
        omega (arith, length-append bus.buffer []) in
      (rw e (sym (append-nil bus.buffer)), refl)
  buffer-publish_all (r ∷ rs) bus h =
      let buffer = last_items bus.capacity (bus.buffer ++ (r ∷ [])) in
      let ih =
        buffer-publish_all rs (publish r bus)
          (omega (arith, length-last_items bus.capacity (bus.buffer ++ (r ∷ [])))) in
      (
        ih.0
            ∙ ap
                (λ (n : ℕ).
                  last_items bus.capacity
                    (drop (length (bus.buffer ++ (r ∷ [])) - n) (bus.buffer ++ (r ∷ [])) ++ rs))
                (omega arith)
            ∙ last_items-last_items 0 bus.capacity (bus.buffer ++ (r ∷ [])) rs
            ∙ ap (last_items bus.capacity) (append_assoc bus.buffer (r ∷ []) rs),
        ih.1,
      )

  -- After any records were published on a new bus, `recent` returns the last of them in their
  -- order: as many as were asked for, but no more than the capacity.
  pub recent-publish_all :
      (capacity limit : ℕ) (rs : List R)
      → recent limit (publish_all rs (create capacity)) ≡ last_items (min limit capacity) rs
  unfolding recent create
  recent-publish_all capacity zero rs =
      sym (drop-all (length rs - min zero capacity) rs (omega arith))
  recent-publish_all capacity (suc limit) rs =
      let (e, _) = buffer-publish_all rs (create capacity) (omega arith) in
      rw e (
        drop-drop (length (last_items capacity rs) - suc limit) (length rs - capacity) rs
        ∙ ap (λ (n : ℕ). drop n rs) (omega (arith, length-last_items capacity rs)))

  offer-eq-last_items :
      (r : R) (queue : List R)
      → length queue ≤ queue_maxsize
      → offer r queue ≡ last_items queue_maxsize (queue ++ (r ∷ []))
  unfolding offer
  offer-eq-last_items r queue h = elim (Bool-cases (leb queue_maxsize (length queue))) [
    | inl e ↦
        let one : length (queue ++ (r ∷ [])) - queue_maxsize ≡ 1 =
          ground (arith, length-append queue (r ∷ [])) in
        rw (e, one) (sym (drop-append 1 queue (r ∷ []) (ground arith)))
    | inr e ↦
        let nothing : length (queue ++ (r ∷ [])) - queue_maxsize ≡ 0 =
          ground (arith, length-append queue (r ∷ [])) in
        rw (e, nothing) refl
  ]

  lookup-offer_all :
      (id : ℕ) (r : R) (subscribers : Dict ℕ (List R)) (queue : List R)
      → lookup id subscribers ≡ some queue
      → lookup id (offer_all r subscribers) ≡ some (offer r queue)
  unfolding offer_all lookup
  lookup-offer_all id r [] queue h = cc
  lookup-offer_all id r ((j, q) ∷ subscribers) queue h =
      ground (arith, lookup-offer_all id r subscribers queue)

  queue-publish_all :
      (id : ℕ) (rs : List R) (bus : Bus R) (queue : List R)
      → length queue ≤ queue_maxsize
      → lookup id bus.subscribers ≡ some queue
      → lookup id (publish_all rs bus).subscribers ≡ some (last_items queue_maxsize (queue ++ rs))
  unfolding publish_all
  queue-publish_all id [] bus queue h e =
      let nothing : length (queue ++ []) - queue_maxsize ≡ 0 =
        omega (arith, length-append queue []) in
      rw nothing (e ∙ ap some (sym (append-nil queue)))
  queue-publish_all id (r ∷ rs) bus queue h e =
      let fits : length (offer r queue) ≤ queue_maxsize =
        rw (offer-eq-last_items r queue h)
          (omega (arith, length-last_items queue_maxsize (queue ++ (r ∷ [])))) in
      queue-publish_all id rs (publish r bus) (offer r queue) fits
        (lookup-offer_all id r bus.subscribers queue e)
      ∙ ap some (
          rw (offer-eq-last_items r queue h) (
            last_items-last_items 0 queue_maxsize (queue ++ (r ∷ [])) rs
            ∙ ap (last_items queue_maxsize) (append_assoc queue (r ∷ []) rs)))

  -- A subscriber that has read nothing yet finds the last records published since it
  -- subscribed, in their order, and never more than its queue may hold: a slow subscriber loses
  -- the oldest ones, and the other subscribers lose nothing by it.
  pub subscriber_queue :
      (id : ℕ) (rs : List R) (bus : Bus R)
      → lookup id (publish_all rs (subscribe id bus)).subscribers
        ≡ some (last_items queue_maxsize rs)
  unfolding subscribe
  subscriber_queue id rs bus =
      let empty : List R = [] in
      queue-publish_all id rs (subscribe id bus) [] (omega arith)
        (ground (arith, lookup-insert id id empty bus.subscribers))
