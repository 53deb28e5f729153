-- ===== src/Models/EventTypes.antt =====
-- `serialize_event_types` and `parse_event_types` of mediascanmonitor/db/models.py.
use syno_plex_change_monitor.Base.{
  ◌≡◌, refl, false, not, Option, none, some, List, [], ◌∷◌, map, ◌==◌, nat_eq, list_eq,
  if◌then◌else◌,
}
use syno_plex_change_monitor.Base.Lists.{All, filter}
use syno_plex_change_monitor.Base.Partial.{◌>>=◌}
use syno_plex_change_monitor.Base.Text.{Text, codes, split, join, Lacks, split-join}
use syno_plex_change_monitor.Models.{
  FsEventType, created, moved_to, deleted, moved_from, event_value,
}

unfoldable pub serialize_event_types : List FsEventType → Text
unfolding join
serialize_event_types types = join b',' (map event_value types)

-- `FsEventType(v)`, which raises a `ValueError` for any other value.
unfoldable pub event_of_value : Text → Option FsEventType
unfolding list_eq nat_eq
event_of_value v =
    if v == codes "created"
    then some created
    else if v == codes "moved_to"
    then some moved_to
    else if v == codes "deleted"
    then some deleted
    else if v == codes "moved_from"
    then some moved_from
    else none

unfoldable pub parse_values : List Text → Option (List FsEventType)
unfolding event_of_value
parse_values [] = some []
parse_values (v ∷ vs) = do t ← event_of_value v; ts ← parse_values vs; some (t ∷ ts)

-- `none` stands for the `ValueError` of an unknown value.
unfoldable pub parse_event_types : Text → Option (List FsEventType)
unfolding parse_values split list_eq nat_eq
parse_event_types raw = parse_values (filter (λ v. not (v == [])) (split b',' raw))

values-Lacks : (types : List FsEventType) → All (Lacks b',') (map event_value types)
unfolding nat_eq
values-Lacks [] = tt
values-Lacks (created ∷ ts) = (refl, values-Lacks ts)
values-Lacks (moved_to ∷ ts) = (refl, values-Lacks ts)
values-Lacks (deleted ∷ ts) = (refl, values-Lacks ts)
values-Lacks (moved_from ∷ ts) = (refl, values-Lacks ts)

event_of_value-event_value : (t : FsEventType) → event_of_value (event_value t) ≡ some t
unfolding event_of_value
event_of_value-event_value created = refl
event_of_value-event_value moved_to = refl
event_of_value-event_value deleted = refl
event_of_value-event_value moved_from = refl

event_value-nonempty : (t : FsEventType) → event_value t == [] ≡ false
unfolding list_eq nat_eq
event_value-nonempty created = refl
event_value-nonempty moved_to = refl
event_value-nonempty deleted = refl
event_value-nonempty moved_from = refl

filter-values :
    (types : List FsEventType)
    → filter (λ v. not (v == [])) (map event_value types) ≡ map event_value types
filter-values [] = refl
filter-values (t ∷ ts) = rw (event_value-nonempty t, filter-values ts)

parse_values-map : (types : List FsEventType) → parse_values (map event_value types) ≡ some types
unfolding parse_values
parse_values-map [] = refl
parse_values-map (t ∷ ts) = rw (event_of_value-event_value t, parse_values-map ts)

pub parse-serialize :
    (types : List FsEventType) → parse_event_types (serialize_event_types types) ≡ some types
unfolding serialize_event_types parse_event_types
parse-serialize [] = refl
parse-serialize (t ∷ ts) =
    rw
      (
        split-join b',' (map event_value (t ∷ ts)) (λ e. cc) (values-Lacks (t ∷ ts)),
        filter-values (t ∷ ts),
      )
      (parse_values-map (t ∷ ts))
