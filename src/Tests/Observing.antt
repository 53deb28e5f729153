-- ===== src/Tests/Observing.antt =====
-- Runs of the event bus.
use syno_plex_change_monitor.Base.{ℕ, ◌≡◌, refl, some, List, [], ◌∷◌, nat_eq}
use Prim.Native.Nat.{min}
use syno_plex_change_monitor.Base.Dict.{lookup}
use syno_plex_change_monitor.Observ.EventsBus.{create, recent, subscribe, queue_maxsize}
use syno_plex_change_monitor.Observ.EventsBus.Window.{
  last_items, publish_all, recent-publish_all, subscriber_queue,
}

abbrev four : List ℕ
four = 1 ∷ 2 ∷ 3 ∷ 4 ∷ []

abbrev two : List ℕ
two = 1 ∷ 2 ∷ []

recent-publish_all_example : recent 5 (publish_all four (create 3)) ≡ last_items (min 5 3) four
recent-publish_all_example = recent-publish_all 3 5 four

recent_run : recent 5 (publish_all four (create 3)) ≡ 2 ∷ 3 ∷ 4 ∷ []
unfolding recent publish_all create
recent_run = refl

subscriber_queue_example :
    lookup 7 (publish_all two (subscribe 7 (create 3))).subscribers
    ≡ some (last_items queue_maxsize two)
subscriber_queue_example = subscriber_queue 7 two (create 3)
