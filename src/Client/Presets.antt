-- ===== src/Client/Presets.antt =====
-- The list of presets in client/scripts/client.js: `setVideoQualities`, `applyVideoQuality`,
-- `saveVideoQuality` and `selectedVideoQuality`, for the server that is selected.
pub mod Lists
pub mod Selected
pub mod Settled
pub mod Choice
pub mod Tests
use vrcstreamer.Common.{
  ℕ, zero, suc, ◌+◌, ◌-◌, ◌*◌, ◌/◌, ◌%◌, ◌^◌, ◌≤◌, ◌<◌, min, max, ◌≡◌, refl, sym, ap, ◌∙◌, ◌≢◌, ◌↔◌,
  ◌⊎◌, inl, inr, Bool, true, false, not, ◌&&◌, ◌||◌, Option, none, some, List, [], ◌∷◌, ◌++◌, map,
  append_assoc, append-nil, arith, ltb, leb, ◌==◌, if◌then◌else◌, Bool-cases, Option-cases, is_some,
  length, get_elem?, get_or, set, take, drop, replicate, All,
}
use vrcstreamer.Client.Quality.{
  default_preset, Text, same_text, Quality, bitrate_of, normalize_video_quality,
}

-- `videoQualities`, the id saved for the server ("" for none), what `config` says of the video, and
-- the value of the page's list.
pub record Client : Type 0 where
  pub video_qualities : List Quality
  pub saved : Text
  pub video_width : ℕ
  pub video_height : ℕ
  pub video_fps : ℕ
  pub video_bitrate : ℕ
  pub shown_value : Text

pub data Event : Type 0 where
  sets_aspect_ratio : ℕ → ℕ → Event
  saves : Text → Event
  shows : List Quality → Text → Event

abbrev pub has_id : List Text → Text → Bool
has_id [] id = false
has_id (seen ∷ rest) id = same_text seen id || has_id rest id

-- The loop, from the index on, with the ids seen.
pub collect : ℕ → List Text → List (Option Text) → List Quality
collect index seen [] = []
collect index seen (value ∷ values) =
    let skipped = collect (suc index) seen values in
    elim (normalize_video_quality value index) [
      | none ↦ skipped
      | some q ↦
          let taken = collect (suc index) (q.id ∷ seen) values in
          if has_id seen q.id then skipped else q ∷ taken
    ]

-- `none` is a value that is no array.
pub next_qualities : Option (List (Option Text)) → Bool → List Quality
next_qualities values enabled =
    let offered : List (Option Text) = elim values [ none ↦ [] | some vs ↦ take 32 vs ] in
    let default : List Quality = elim (normalize_video_quality (some default_preset) 0) [
      | none ↦ []
      | some q ↦ q ∷ []
    ] in
    elim (collect 0 [] offered) [ [] ↦ if enabled then default else [] | q ∷ qs ↦ q ∷ qs ]

pub find_id : Text → List Quality → Option Quality
find_id id [] = none
find_id id (q ∷ qs) = let rest = find_id id qs in if same_text q.id id then some q else rest

abbrev pub first : List Quality → Option Quality
first [] = none
first (q ∷ qs) = some q

-- `next.find(quality => quality.id === id) || next[0] || null`.
pub select_quality : Text → List Quality → Option Quality
select_quality id qs = elim (find_id id qs) [ none ↦ first qs | some q ↦ some q ]

abbrev pub id_of : Option Quality → Text
id_of none = []
id_of (some q) = q.id

pub same_ids : List Quality → List Quality → Bool
same_ids [] [] = true
same_ids [] (r ∷ rs) = false
same_ids (q ∷ qs) [] = false
same_ids (q ∷ qs) (r ∷ rs) = same_text q.id r.id && same_ids qs rs

pub apply_video_quality : Client → Option Quality → Client × List Event
apply_video_quality c none = (c, [])
apply_video_quality c (some q) = (
  record c {
    video_width = q.width;
    video_height = q.height;
    video_fps = q.fps;
    video_bitrate = bitrate_of q;
  },
  sets_aspect_ratio q.width q.height ∷ [],
)

-- `selected && (selected.width !== config.videoWidth || …)`.
abbrev pub differs : Client → Option Quality → Bool
differs c none = false
differs c (some q) =
    not (q.width == c.video_width)
    || not (q.height == c.video_height)
    || not (q.fps == c.video_fps)
    || not (bitrate_of q == c.video_bitrate)

-- `stores` is that `localStorage.setItem` does not throw; `writeStorage` goes on if it does.
pub save_video_quality : Client → Bool → Text → Client × List Event
save_video_quality c stores id = (if stores then record c { saved = id } else c, saves id ∷ [])

-- The page's `setVideoQualities` sets the list's value.
pub show_qualities : Client → List Quality → Text → Client × List Event
show_qualities c qs id = (record c { shown_value = id }, shows qs id ∷ [])

-- The three ends of `setVideoQualities`; `changed` is `!unchanged`.
pub refresh_config : Client → Option Quality → Client × List Event
refresh_config c selected = if differs c selected then apply_video_quality c selected else (c, [])

pub refresh_saved : Client → Bool → Text → Client × List Event
refresh_saved c stores id =
    if not (same_text c.saved id) then save_video_quality c stores id else (c, [])

pub refresh_shown : Client → Bool → List Quality → Text → Client × List Event
refresh_shown c changed next id =
    if changed || not (same_text c.shown_value id) then show_qualities c next id else (c, [])

pub set_video_qualities :
    Client → Bool → Option (List (Option Text)) → Bool → Client × List Event × Option Quality
set_video_qualities c stores values enabled =
    let next = next_qualities values enabled in
    let selected = select_quality c.saved next in
    let changed = not (same_ids next c.video_qualities) in
    let (u, es) = refresh_config (record c { video_qualities = next }) selected in
    let (v, fs) = refresh_saved u stores (id_of selected) in
    let (w, gs) = refresh_shown v changed next (id_of selected) in (w, es ++ fs ++ gs, selected)

pub selected_video_quality : Client → Option Quality
selected_video_quality c = select_quality c.shown_value c.video_qualities
