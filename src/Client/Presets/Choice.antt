-- ===== src/Client/Presets/Choice.antt =====
-- The preset that `setVideoQualities` of client/scripts/client.js selects and keeps.
use vrcstreamer.Common.{
  ◌*◌, subst, ◌≡◌, refl, sym, ap, ◌∙◌, inl, inr, Bool, true, false, not, Option, none, some, List,
  [], ◌∷◌, ◌++◌, arith, if◌then◌else◌, Bool-cases,
}
use vrcstreamer.Client.Quality.{bitrate_of, Text, same_text, Quality}
use vrcstreamer.Client.Presets.{
  bitrate_of, append-nil, saves, Client, Event, next_qualities, select_quality, id_of, same_ids,
  differs, save_video_quality, refresh_config, refresh_saved, refresh_shown, set_video_qualities,
}
use vrcstreamer.Client.Presets.Selected.{same_text_refl, select_quality-again, same_ids_refl}
use vrcstreamer.Client.Presets.Settled.{IsSettled, set_video_qualities-IsSettled}

-- What `setVideoQualities` does with its new list.
abbrev ends :
    Client → Bool → List Quality → Option Quality → Bool → Client × List Event × Option Quality
ends t stores next selected changed =
    let (u, es) = refresh_config t selected in
    let (v, fs) = refresh_saved u stores (id_of selected) in
    let (w, gs) = refresh_shown v changed next (id_of selected) in (w, es ++ fs ++ gs, selected)

config_quiet :
    (c : Client) (o : Option Quality) → differs c o ≡ false → refresh_config c o ≡ (c, [])
unfolding refresh_config
config_quiet c o e = rw e refl

shown_quiet :
    (c : Client) (next : List Quality) (id : Text)
    → c.shown_value ≡ id
    → refresh_shown c false next id ≡ (c, [])
unfolding refresh_shown
shown_quiet c next id e =
    let same : same_text c.shown_value id ≡ true =
      subst (λ t. same_text c.shown_value t ≡ true) e (same_text_refl c.shown_value) in
    rw same refl

-- What is left to do where all is settled: to save an id that is not saved.
abbrev pub saves_only : Client → Bool → Option Quality → Client × List Event × Option Quality
saves_only u stores selected = if same_text u.saved (id_of selected) then (u, [], selected) else (
  if stores then record u { saved = id_of selected } else u,
  saves (id_of selected) ∷ [],
  selected,
)

abbrev then_shown :
    List Quality → Option Quality → Client × List Event → Client × List Event × Option Quality
then_shown next selected (v, fs) =
    let (w, gs) = refresh_shown v false next (id_of selected) in (w, fs ++ gs, selected)

then_shown_quiet :
    (next : List Quality) (selected : Option Quality) (v : Client) (fs : List Event)
    → v.shown_value ≡ id_of selected
    → then_shown next selected (v, fs) ≡ (v, fs, selected)
then_shown_quiet next selected v fs e =
    rw (shown_quiet v next (id_of selected) e, append-nil fs) refl

saves_quiet :
    (c : Client) (stores : Bool) (next : List Quality) (selected : Option Quality)
    → c.shown_value ≡ id_of selected
    → then_shown next selected (refresh_saved c stores (id_of selected))
      ≡ saves_only c stores selected
unfolding refresh_saved save_video_quality
saves_quiet c stores next selected e = elim (Bool-cases (same_text c.saved (id_of selected))) [
  | inl h ↦ rw h (then_shown_quiet next selected c [] e)
  | inr h ↦ rw h (by_stores stores)
]
  where
    by_stores :
        (b : Bool)
        → then_shown next selected
            (if b then record c { saved = id_of selected } else c, saves (id_of selected) ∷ [])
          ≡ (
            if b then record c { saved = id_of selected } else c,
            saves (id_of selected) ∷ [],
            selected,
          )
    by_stores true =
        then_shown_quiet next selected (record c { saved = id_of selected })
          (saves (id_of selected) ∷ []) e
    by_stores false = then_shown_quiet next selected c (saves (id_of selected) ∷ []) e

ends_quiet :
    (c : Client) (stores : Bool) (next : List Quality) (selected : Option Quality)
    → IsSettled c next selected
    → ends c stores next selected false ≡ saves_only c stores selected
ends_quiet c stores next selected (a, d, e) =
    rw (config_quiet c selected e) (saves_quiet c stores next selected d)

settled_again :
    (u : Client) (stores : Bool) (values : Option (List (Option Text))) (enabled : Bool)
    (selected : Option Quality)
    → IsSettled u (next_qualities values enabled) selected
    → select_quality u.saved (next_qualities values enabled) ≡ selected
    → set_video_qualities u stores values enabled ≡ saves_only u stores selected
unfolding set_video_qualities
settled_again u stores values enabled selected (lists, shown, config) chosen_again =
    let next = next_qualities values enabled in
    let changed = not (same_ids next u.video_qualities) in
    let same : record u { video_qualities = next } ≡ u =
      ap (λ qs. record u { video_qualities = qs }) (sym lists) in
    let unchanged : changed ≡ false =
      ap not (subst (λ qs. same_ids next qs ≡ true) (sym lists) (same_ids_refl next)) in
    ap (λ t. ends t stores next (select_quality u.saved next) changed) same
    ∙ ap (λ o. ends u stores next o changed) chosen_again
    ∙ ap (λ b. ends u stores next selected b) unchanged
    ∙ ends_quiet u stores next selected (lists, shown, config)

-- `config` has the numbers of the preset.
abbrev pub HasNumbers : Client → Option Quality → Type 0
HasNumbers c none = Unit
HasNumbers c (some q) =
    (c.video_width ≡ q.width)
    × (c.video_height ≡ q.height)
    × (c.video_fps ≡ q.fps)
    × (c.video_bitrate ≡ q.bitrate_kbps * 1000)

differs-HasNumbers : (c : Client) (o : Option Quality) → differs c o ≡ false → HasNumbers c o
unfolding bitrate_of
differs-HasNumbers c none e = tt
differs-HasNumbers c (some q) e =
    (ground (arith, e), ground (arith, e), ground (arith, e), ground (arith, e))

-- After `setVideoQualities` the selected preset's id is shown, `config` has its numbers, and its id is
-- saved, or, if the browser's storage refuses it, the saved id stays. Calling it again with the same
-- presets selects the same preset and does nothing where that id is saved; where it is not, it
-- only tries to save it again.
pub set_video_qualities-set_video_qualities :
    (c : Client) (stores again : Bool) (values : Option (List (Option Text))) (enabled : Bool)
    → let (u, es, selected) = set_video_qualities c stores values enabled in
      (set_video_qualities u again values enabled ≡ (
        if same_text u.saved (id_of selected) then (u, [], selected) else (
          if again then record u { saved = id_of selected } else u,
          saves (id_of selected) ∷ [],
          selected,
        )))
      × (u.saved ≡ (if stores then id_of selected else c.saved))
      × (u.shown_value ≡ id_of selected)
      × HasNumbers u selected
set_video_qualities-set_video_qualities c stores again values enabled =
    let next = next_qualities values enabled in
    let (u, es, selected) = set_video_qualities c stores values enabled in
    let (settled, saved, which) = set_video_qualities-IsSettled c stores values enabled in
    let (lists, shown, config) = settled in
    let chosen_again : select_quality u.saved next ≡ selected =
      ap (λ t. select_quality t next) saved ∙ again_selected stores ∙ sym which in
    (
      settled_again u again values enabled selected settled chosen_again,
      saved,
      shown,
      differs-HasNumbers u selected config,
    )
  where
    next_list : List Quality
    next_list = next_qualities values enabled

    again_selected :
        (b : Bool)
        → select_quality
            (if b then id_of (set_video_qualities c stores values enabled).2 else c.saved)
            next_list
          ≡ select_quality c.saved next_list
    again_selected true =
        let which = (set_video_qualities-IsSettled c stores values enabled).2 in
        ap (λ o. select_quality (id_of o) next_list) which ∙ select_quality-again c.saved next_list
    again_selected false = refl
