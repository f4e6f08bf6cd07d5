-- ===== src/Sync/Manifest/Run.antt =====
-- Any sequence of the manifest's operations: the catalogue that it shows changes as an abstract map from
-- paths to entries does, and stays well-formed.
use revlink_sidecar.Base.{ℕ, ◌≡◌, if◌then◌else◌, Bool, Option, none, some, List, [], ◌∷◌, All}
use revlink_sidecar.Sync.Manifest.{Presence, Entry, Manifest, init, set_presence, remove}
use revlink_sidecar.Sync.Manifest.File.{parse}
use revlink_sidecar.Sync.Manifest.Catalogue.{
  View, view, with_answer, merged, marked, is_ok, upsert_entry, unlisted, view-upsert_at,
  view-set_presence, view-remove,
}
use revlink_sidecar.Sync.Manifest.Sound.{
  IsTyped, IsSound, init-IsSound, upsert_at-IsSound, set_presence-IsSound, remove-IsSound,
}
use revlink_sidecar.Sync.Manifest.Reading.{parse-IsSound}

pub data Change : Type 0 where
  storing : Entry → Change
  marking : List ℕ → Presence → Change
  dropping : List ℕ → Change

-- Whether the change was taken, and the manifest after it.
abbrev pub run : Change → Manifest → Bool × Manifest
run (storing e) m = (is_ok (upsert_entry e m).0, (upsert_entry e m).1)
run (marking path presence) m = set_presence m (some path) presence
run (dropping path) m = remove m (some path)

-- The same change of an abstract map.
abbrev pub change_view : Change → View → View
change_view (storing e) v = with_answer e.path (some (merged (unlisted e) (v e.path))) v
change_view (marking path presence) v = with_answer path (marked presence (v path)) v
change_view (dropping path) v = with_answer path none v

-- On a well-formed manifest a change that is taken changes what each path finds exactly as it changes an
-- abstract map from paths to entries, and a change that is not taken leaves it as it was.
pub view-run :
    (c : Change) (m : Manifest)
    → IsSound m
    → view (run c m).1 ≡ (if (run c m).0 then change_view c (view m) else view m)
view-run (storing e) m s = view-upsert_at e m
view-run (marking path presence) m s = (view-set_presence m path presence).1
view-run (dropping path) m s = (view-remove m path s.own_paths).1

-- What happens to a manifest: a change, or a file that is parsed over it.
pub data Event : Type 0 where
  changing : Change → Event
  loading : Option (List ℕ) → Bool → Event

abbrev pub HasWidths : Event → Type 0
HasWidths (changing (storing e)) = IsTyped e
HasWidths event = Unit

abbrev pub step : Event → Manifest → Manifest
step (changing c) m = (run c m).1
step (loading input allocated) m = (parse input allocated m).1

abbrev pub run_all : List Event → Manifest → Manifest
run_all [] m = m
run_all (event ∷ events) m = run_all events (step event m)

step-IsSound : (event : Event) (m : Manifest) → HasWidths event → IsSound m → IsSound (step event m)
step-IsSound (changing (storing e)) m h s = upsert_at-IsSound e m h s
step-IsSound (changing (marking path presence)) m h s =
    set_presence-IsSound m (some path) presence s
step-IsSound (changing (dropping path)) m h s = remove-IsSound m (some path) s
step-IsSound (loading input allocated) m h s = (parse-IsSound input allocated m s).0

-- From the empty manifest, any entries stored within the widths of their fields, any presences and
-- removals and any files read leave valid entries only, each with a path of its own, within the capacity.
pub run_all-IsSound : (events : List Event) → All HasWidths events → IsSound (run_all events init)
run_all-IsSound events h = go events init h init-IsSound
  where
    go :
        (events : List Event) (m : Manifest)
        → All HasWidths events
        → IsSound m
        → IsSound (run_all events m)
    go [] m h s = s
    go (event ∷ events) m h s = go events (step event m) h.1 (step-IsSound event m h.0 s)
