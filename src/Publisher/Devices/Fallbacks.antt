-- ===== src/Publisher/Devices/Fallbacks.antt =====
-- The order in which `getDisplayMediaCompat` of client/scripts/streamer.js tries its constraints.
use vrcstreamer.Common.{
  ◌≡◌, refl, sym, ap, inl, inr, Bool, true, not, List, [], ◌∷◌, map, if◌then◌else◌, Bool-cases,
}
use vrcstreamer.Publisher.Devices.{
  Fault, Constraints, Answer, is_display_media_constraint_error, try_fallbacks,
  get_display_media_compat,
}

-- A stream, or an error that is not about the constraints.
abbrev pub is_final : Answer → Bool
is_final (inl s) = true
is_final (inr e) = not (is_display_media_constraint_error e)

-- The first final answer, or the last one.
abbrev pub settle : Answer → List Answer → Answer
settle a [] = a
settle a (b ∷ bs) = if is_final a then a else settle b bs

settle_final : (a : Answer) (bs : List Answer) → is_final a ≡ true → settle a bs ≡ a
settle_final a [] k = refl
settle_final a (b ∷ bs) k = rw k refl

try_fallbacks_lem :
    (ask : Constraints → Answer) (last : Fault) (cs : List Constraints)
    → is_display_media_constraint_error last ≡ true
    → try_fallbacks ask last cs ≡ settle (inr last) (map ask cs)
unfolding try_fallbacks
try_fallbacks_lem ask last [] h = refl
try_fallbacks_lem ask last (c ∷ cs) h =
    rw h (by_answer (ask c) (λ e k. try_fallbacks_lem ask e cs k))
  where
    by_answer :
        (a : Answer)
        → ((e : Fault)
            → is_display_media_constraint_error e ≡ true
            → try_fallbacks ask e cs ≡ settle (inr e) (map ask cs))
        → (elim a [
          | inl s ↦ inl s
          | inr e ↦ if is_display_media_constraint_error e then try_fallbacks ask e cs else inr e
        ])
          ≡ settle a (map ask cs)
    by_answer (inl s) later = sym (settle_final (inl s) (map ask cs) refl)
    by_answer (inr e) later = elim (Bool-cases (is_display_media_constraint_error e)) [
      | inl k ↦ rw k (later e k)
      | inr k ↦ rw k (sym (settle_final (inr e) (map ask cs) (ap not k)))
    ]

-- The browser is asked with the constraints in order until it gives a stream or an error that is not
-- about the constraints; that is the answer, or else the last error.
pub get_display_media_compat-settle :
    (ask : Constraints → Answer) (primary : Constraints) (fallbacks : List Constraints)
    → get_display_media_compat ask primary fallbacks ≡ settle (ask primary) (map ask fallbacks)
unfolding get_display_media_compat
get_display_media_compat-settle ask primary fallbacks = by_answer (ask primary)
  where
    by_answer :
        (a : Answer)
        → (elim a [
          | inl s ↦ inl s
          | inr e ↦
              if is_display_media_constraint_error e then try_fallbacks ask e fallbacks else inr e
        ])
          ≡ settle a (map ask fallbacks)
    by_answer (inl s) = sym (settle_final (inl s) (map ask fallbacks) refl)
    by_answer (inr e) = elim (Bool-cases (is_display_media_constraint_error e)) [
      | inl k ↦ rw k (try_fallbacks_lem ask e fallbacks k)
      | inr k ↦ rw k (sym (settle_final (inr e) (map ask fallbacks) (ap not k)))
    ]
