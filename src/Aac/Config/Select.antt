-- ===== src/Aac/Config/Select.antt =====
-- The loop of `selectNativeAacConfig` in client/scripts/aac-worker.js: which candidate it takes.
use vrcstreamer.Common.{
  length-append, subst, ℕ, ◌+◌, ◌≡◌, refl, sym, ap, ◌∙◌, ◌⊎◌, inl, inr, Option, none, some, List,
  [], ◌∷◌, ◌++◌, arith, Option-cases, length,
}
use vrcstreamer.Aac.Config.{
  not_supported, thrown, failed_with, Fault, Text, Config, Label, Support, unsupported, supported,
  support_throws, Probe, Reason, Selection, selected, refused, native_aac_configs, try_config,
  select_config, select_native_aac_config, probe_native_aac_encoder,
}
use vrcstreamer.Aac.Config.Valid.{IsRaw, validate-IsRaw, IsRaw-validate}

-- The platform's answers: what `isConfigSupported` says, and how an encoder fares in the probe.
module _ (is_supported : Config → Support) (probe : Config → Probe) (expected : Text) where
  -- The browser supports `config` and fills it in as `chosen`.
  abbrev pub IsFilledIn : Config → Config → Type 0
  IsFilledIn config chosen =
      (is_supported config ≡ supported (some chosen))
      ⊎ ((is_supported config ≡ supported none) × (chosen ≡ config))

  -- An encoder with `chosen` runs without an error and gives raw access units.
  abbrev pub IsUsable : Config → Config → Type 0
  IsUsable config chosen =
      IsFilledIn config chosen
      × ((probe chosen).throws ≡ none)
      × ((probe chosen).encoder_error ≡ none)
      × IsRaw expected (probe chosen).outputs

  abbrev pub IsUnusable : Config → Type 0
  IsUnusable config = (chosen : Config) → ¬ IsUsable config chosen

  -- The first candidate that is usable has the label, and is filled in as `chosen`.
  abbrev pub IsFirst : List (Label × Config) → Config → Label → Type 0
  IsFirst [] chosen label = ⊥
  IsFirst ((l, config) ∷ rest) chosen label =
      ((l ≡ label) × IsUsable config chosen) ⊎ (IsUnusable config × IsFirst rest chosen label)

  abbrev pub IsNone : List (Label × Config) → Type 0
  IsNone [] = Unit
  IsNone ((l, config) ∷ rest) = IsUnusable config × IsNone rest

  probe-fine :
      (p : Probe)
      → probe_native_aac_encoder p expected ≡ none
      → (p.throws ≡ none) × (p.encoder_error ≡ none) × IsRaw expected p.outputs
  unfolding probe_native_aac_encoder
  probe-fine p e = elim (Option-cases p.throws) [
    | inr (text, t) ↦ absurd (ground (arith, t, e))
    | inl t ↦ elim (Option-cases p.encoder_error) [
      | inr (text, u) ↦ absurd (ground (arith, t, u, e))
      | inl u ↦ (t, u, validate-IsRaw expected p.outputs (rw (t, u) at e))
    ]
  ]

  fine-probe :
      (p : Probe)
      → (p.throws ≡ none) × (p.encoder_error ≡ none) × IsRaw expected p.outputs
      → probe_native_aac_encoder p expected ≡ none
  unfolding probe_native_aac_encoder
  fine-probe p (t, u, r) = rw (t, u) (IsRaw-validate expected p.outputs r)

  abbrev probed : Label → Config → Option Fault → Config ⊎ Reason
  probed label chosen none = inl chosen
  probed label chosen (some fault) = inr (failed_with label fault)

  abbrev answered : Label → Config → Support → Config ⊎ Reason
  answered label config (support_throws text) = inr (failed_with label (thrown text))
  answered label config unsupported = inr (not_supported label)
  answered label config (supported o) =
      let c : Config = elim o [ none ↦ config | some d ↦ d ] in
      probed label c (probe_native_aac_encoder (probe c) expected)

  usable :
      (config chosen : Config)
      → IsFilledIn config chosen
      → ((probe chosen).throws ≡ none)
        × ((probe chosen).encoder_error ≡ none)
        × IsRaw expected (probe chosen).outputs
      → IsUsable config chosen
  usable config chosen h (t, u, r) = (h, t, u, r)

  probed-inl :
      (label : Label) (c chosen : Config) (o : Option Fault)
      → probed label c o ≡ inl chosen
      → (c ≡ chosen) × (o ≡ none)
  probed-inl label c chosen none e = (cc, refl)
  probed-inl label c chosen (some fault) e = absurd (cc e)

  try_config-IsUsable :
      (label : Label) (config chosen : Config)
      → try_config is_supported probe expected label config ≡ inl chosen
      → IsUsable config chosen
  unfolding try_config
  try_config-IsUsable label config chosen e = by_support (is_supported config) refl e
    where
      by_filled :
          (c : Config)
          → IsFilledIn config c
          → probed label c (probe_native_aac_encoder (probe c) expected) ≡ inl chosen
          → IsUsable config chosen
      by_filled c h e =
          let (a, b) = probed-inl label c chosen (probe_native_aac_encoder (probe c) expected) e in
          subst (λ d. IsUsable config d) a (usable config c h (probe-fine (probe c) b))

      by_support :
          (s : Support)
          → is_supported config ≡ s
          → answered label config s ≡ inl chosen
          → IsUsable config chosen
      by_support (support_throws text) s e = absurd (cc e)
      by_support unsupported s e = absurd (cc e)
      by_support (supported none) s e = by_filled config (inr (s, refl)) e
      by_support (supported (some c)) s e = by_filled c (inl s) e

  IsUsable-try_config :
      (label : Label) (config chosen : Config)
      → IsUsable config chosen
      → try_config is_supported probe expected label config ≡ inl chosen
  unfolding try_config
  IsUsable-try_config label config chosen (inl s, t, u, r) =
      ap (answered label config) s ∙ ap (probed label chosen) (fine-probe (probe chosen) (t, u, r))
  IsUsable-try_config label config chosen (inr (s, same), t, u, r) =
      ap (answered label config) s
      ∙ ap (λ c. probed label c (probe_native_aac_encoder (probe c) expected)) (sym same)
      ∙ ap (probed label chosen) (fine-probe (probe chosen) (t, u, r))

  -- What a selection says of the candidates, after `n` reasons.
  abbrev Says : List (Label × Config) → ℕ → Selection → Type 0
  Says configs n (selected chosen label) = IsFirst configs chosen label
  Says configs n (refused reasons) = IsNone configs × (length reasons ≡ n + length configs)

  Says-cons :
      (l : Label) (config : Config) (rest : List (Label × Config)) (n : ℕ) (s : Selection)
      → IsUnusable config
      → Says rest (n + 1) s
      → Says ((l, config) ∷ rest) n s
  Says-cons l config rest n (selected chosen label) h k = inr (h, k)
  Says-cons l config rest n (refused reasons) h (k, e) = ((h, k), omega (arith, e))

  select_config-Says :
      (reasons : List Reason) (configs : List (Label × Config))
      → Says configs (length reasons) (select_config is_supported probe expected reasons configs)
  unfolding select_config
  select_config-Says reasons [] = (tt, omega arith)
  select_config-Says reasons ((label, config) ∷ rest) =
      by_try (try_config is_supported probe expected label config) refl
        (λ reason. select_config-Says (reasons ++ (reason ∷ [])) rest)
    where
      by_try :
          (t : Config ⊎ Reason)
          → try_config is_supported probe expected label config ≡ t
          → ((reason : Reason)
              → Says rest
                  (length (reasons ++ (reason ∷ [])))
                  (select_config is_supported probe expected (reasons ++ (reason ∷ [])) rest))
          → Says ((label, config) ∷ rest) (length reasons) (elim t [
            | inl chosen ↦ selected chosen label
            | inr reason ↦ select_config is_supported probe expected (reasons ++ (reason ∷ [])) rest
          ])
      by_try (inl chosen) e later = inl (refl, try_config-IsUsable label config chosen e)
      by_try (inr reason) e later =
          let s = select_config is_supported probe expected (reasons ++ (reason ∷ [])) rest in
          let unusable : IsUnusable config = λ c usable.
            let fine = IsUsable-try_config label config c usable in absurd (cc (e, fine)) in
          let n : length (reasons ++ (reason ∷ [])) ≡ length reasons + 1 =
            length-append reasons (reason ∷ []) in
          Says-cons label config rest (length reasons) s unusable
            (subst (λ m. Says rest m s) n (later reason))

-- The native encoder is given the first candidate, in the order of `nativeAacConfigs`, that the browser
-- supports, as the browser has filled it in, and with which a probing encoder throws nothing, reports
-- no error and first gives an access unit of four bytes or more without an ADTS header, its
-- description beginning with the expected bytes if there is one. If there is an error, no candidate is
-- such, and the error has one reason for each. This holds of every browser.
pub select_native_aac_config-IsFirst :
    (is_supported : Config → Support) (probe : Config → Probe) (expected : Text)
    (sample_rate channels : ℕ) (bitrates : List ℕ)
    → let configs = native_aac_configs sample_rate channels bitrates in
      let result =
        select_native_aac_config is_supported probe expected sample_rate channels bitrates in
      ((chosen : Config) (label : Label)
        → result ≡ selected chosen label
        → IsFirst is_supported probe expected configs chosen label)
      × ((reasons : List Reason)
          → result ≡ refused reasons
          → IsNone is_supported probe expected configs × (length reasons ≡ length configs))
unfolding select_native_aac_config
select_native_aac_config-IsFirst is_supported probe expected sample_rate channels bitrates =
    let configs = native_aac_configs sample_rate channels bitrates in
    let says = select_config-Says is_supported probe expected [] configs in
    (
      λ chosen label e. subst (Says is_supported probe expected configs 0) e says,
      λ reasons e.
          let (a, b) = subst (Says is_supported probe expected configs 0) e says in
          (a, omega (arith, b)),
    )
