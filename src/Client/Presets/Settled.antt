-- ===== src/Client/Presets/Settled.antt =====
-- What `setVideoQualities` of client/scripts/client.js leaves behind.
use vrcstreamer.Common.{
  ◌≡◌, refl, ap, ◌∙◌, inl, inr, Bool, true, false, not, Option, none, some, List, arith,
  if◌then◌else◌, Bool-cases,
}
use vrcstreamer.Client.Quality.{Text, same_text, Quality}
use vrcstreamer.Client.Presets.{
  Client, next_qualities, select_quality, id_of, same_ids, apply_video_quality, differs,
  save_video_quality, show_qualities, refresh_config, refresh_saved, refresh_shown,
  set_video_qualities,
}
use vrcstreamer.Client.Presets.Selected.{same_text_eq}

applied : (c : Client) (o : Option Quality) → differs (apply_video_quality c o).0 o ≡ false
unfolding apply_video_quality
applied c none = refl
applied c (some q) = ground arith

-- What a call leaves behind: its list, the selected id shown, and the selected preset in `config`.
abbrev pub IsSettled : Client → List Quality → Option Quality → Type 0
IsSettled c next selected =
    (c.video_qualities ≡ next) × (c.shown_value ≡ id_of selected) × (differs c selected ≡ false)

config_settled :
    (c : Client) (o : Option Quality)
    → let (u, es) = refresh_config c o in
      (u.video_qualities ≡ c.video_qualities)
      × (u.saved ≡ c.saved)
      × (u.shown_value ≡ c.shown_value)
      × (differs u o ≡ false)
unfolding refresh_config apply_video_quality
config_settled c none = (refl, refl, refl, refl)
config_settled c (some q) = elim (Bool-cases (differs c (some q))) [
  | inl e ↦ rw e (refl, refl, refl, ground arith)
  | inr e ↦ rw e (refl, refl, refl, e)
]

saved_settled :
    (c : Client) (stores : Bool) (id : Text)
    → let (u, es) = refresh_saved c stores id in
      (u.video_qualities ≡ c.video_qualities)
      × (u.saved ≡ (if stores then id else c.saved))
      × (u.shown_value ≡ c.shown_value)
      × ((o : Option Quality) → differs u o ≡ differs c o)
unfolding refresh_saved save_video_quality
saved_settled c true id = elim (Bool-cases (same_text c.saved id)) [
  | inl e ↦ rw e (refl, same_text_eq c.saved id e, refl, λ o. same_config c c.saved o)
  | inr e ↦ rw e (refl, refl, refl, λ o. same_config c id o)
]
  where
    same_config :
        (c : Client) (t : Text) (o : Option Quality)
        → differs (record c { saved = t }) o ≡ differs c o
    same_config c t none = refl
    same_config c t (some q) = refl
saved_settled c false id = elim (Bool-cases (same_text c.saved id)) [
  | inl e ↦ rw e (refl, refl, refl, λ o. refl)
  | inr e ↦ rw e (refl, refl, refl, λ o. refl)
]

shown_settled :
    (c : Client) (changed : Bool) (next : List Quality) (id : Text)
    → let (u, es) = refresh_shown c changed next id in
      (u.video_qualities ≡ c.video_qualities)
      × (u.saved ≡ c.saved)
      × (u.shown_value ≡ id)
      × ((o : Option Quality) → differs u o ≡ differs c o)
unfolding refresh_shown show_qualities
shown_settled c true next id = (refl, refl, refl, λ o. same_config c id o)
  where
    same_config :
        (c : Client) (t : Text) (o : Option Quality)
        → differs (record c { shown_value = t }) o ≡ differs c o
    same_config c t none = refl
    same_config c t (some q) = refl
shown_settled c false next id = elim (Bool-cases (same_text c.shown_value id)) [
  | inl e ↦ rw e (refl, refl, same_text_eq c.shown_value id e, λ o. refl)
  | inr e ↦ rw e (refl, refl, refl, λ o. same_config c id o)
]
  where
    same_config :
        (c : Client) (t : Text) (o : Option Quality)
        → differs (record c { shown_value = t }) o ≡ differs c o
    same_config c t none = refl
    same_config c t (some q) = refl

pub set_video_qualities-IsSettled :
    (c : Client) (stores : Bool) (values : Option (List (Option Text))) (enabled : Bool)
    → let (u, es, selected) = set_video_qualities c stores values enabled in
      IsSettled u (next_qualities values enabled) selected
      × (u.saved ≡ (if stores then id_of selected else c.saved))
      × (selected ≡ select_quality c.saved (next_qualities values enabled))
unfolding set_video_qualities
set_video_qualities-IsSettled c stores values enabled =
    let next = next_qualities values enabled in
    let selected = select_quality c.saved next in
    let changed = not (same_ids next c.video_qualities) in
    let t : Client = record c { video_qualities = next } in
    let u = (refresh_config t selected).0 in
    let v = (refresh_saved u stores (id_of selected)).0 in
    let (a1, a2, a3, a4) = config_settled t selected in
    let (b1, b2, b3, b4) = saved_settled u stores (id_of selected) in
    let (c1, c2, c3, c4) = shown_settled v changed next (id_of selected) in
    (
      (c1 ∙ b1 ∙ a1, c3, c4 selected ∙ b4 selected ∙ a4),
      c2 ∙ b2 ∙ ap (λ t. if stores then id_of selected else t) a2,
      refl,
    )
