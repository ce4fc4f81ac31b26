-- ===== src/Client/Presets/Selected.antt =====
-- What `setVideoQualities` of client/scripts/client.js selects: the preset with the saved id, or the first.
use vrcstreamer.Common.{
  subst, ==_iff, ◌≡◌, refl, sym, ap, ◌∙◌, Bool, true, false, ◌&&◌, Option, none, some, List, [],
  ◌∷◌, arith, ◌==◌, if◌then◌else◌,
}
use vrcstreamer.Client.Quality.{Text, same_text, Quality}
use vrcstreamer.Client.Presets.{find_id, first, select_quality, id_of, same_ids}

pub same_text_refl : (t : Text) → same_text t t ≡ true
same_text_refl [] = refl
same_text_refl (c ∷ cs) = rw (same_text_refl cs) (ground arith)

-- The selected preset is found under its own id.
find_id-first : (q : Quality) (qs : List Quality) → find_id q.id (q ∷ qs) ≡ some q
unfolding find_id
find_id-first q qs = rw (same_text_refl q.id) refl

pub same_text_eq : (s t : Text) → same_text s t ≡ true → s ≡ t
same_text_eq [] [] e = refl
same_text_eq [] (d ∷ ds) e = absurd (cc e)
same_text_eq (c ∷ cs) [] e = absurd (cc e)
same_text_eq (c ∷ cs) (d ∷ ds) e =
    let (x, y) = and_true (c == d) (same_text cs ds) e in
    let z : c ≡ d = (==_iff c d).0 x in rw (z, same_text_eq cs ds y) refl
  where
    and_true : (a b : Bool) → (a && b) ≡ true → (a ≡ true) × (b ≡ true)
    and_true true b h = (refl, h)
    and_true false b h = absurd (cc h)

find_id-id : (id : Text) (qs : List Quality) (q : Quality) → find_id id qs ≡ some q → q.id ≡ id
unfolding find_id
find_id-id id [] q e = absurd (cc e)
find_id-id id (r ∷ rs) q e = by_same (same_text r.id id) refl e (λ f. find_id-id id rs q f)
  where
    by_same :
        (b : Bool)
        → same_text r.id id ≡ b
        → (if b then some r else find_id id rs) ≡ some q
        → (find_id id rs ≡ some q → q.id ≡ id)
        → q.id ≡ id
    by_same true h f later =
        let same : r ≡ q = cc f in subst (λ x. x.id ≡ id) same (same_text_eq r.id id h)
    by_same false h f later = later f

find_id-nil : (id : Text) → find_id id [] ≡ none
unfolding find_id
find_id-nil id = refl

-- What is found, or the first.
abbrev chosen : List Quality → Option Quality → Option Quality
chosen qs o = elim o [ none ↦ first qs | some q ↦ some q ]

-- Selecting by the selected one's id selects it again.
pub select_quality-again :
    (id : Text) (qs : List Quality)
    → select_quality (id_of (select_quality id qs)) qs ≡ select_quality id qs
unfolding select_quality
select_quality-again id qs = by_found (find_id id qs) refl
  where
    head_again : (rs : List Quality) → select_quality (id_of (first rs)) rs ≡ first rs
    head_again [] = ap (chosen []) (find_id-nil [])
    head_again (q ∷ rs) = ap (chosen (q ∷ rs)) (find_id-first q rs)

    by_found :
        (o : Option Quality)
        → find_id id qs ≡ o
        → select_quality (id_of (select_quality id qs)) qs ≡ select_quality id qs
    by_found none e =
        let s : select_quality id qs ≡ first qs = ap (chosen qs) e in
        ap (λ r. select_quality (id_of r) qs) s ∙ head_again qs ∙ sym s
    by_found (some q) e =
        let s : select_quality id qs ≡ some q = ap (chosen qs) e in
        ap (λ r. select_quality (id_of r) qs) s
        ∙ ap (λ k. select_quality k qs) (find_id-id id qs q e)

pub same_ids_refl : (qs : List Quality) → same_ids qs qs ≡ true
unfolding same_ids
same_ids_refl [] = refl
same_ids_refl (q ∷ qs) = rw (same_text_refl q.id, same_ids_refl qs) refl
