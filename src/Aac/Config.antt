-- ===== src/Aac/Config.antt =====
-- The choice of a native AAC configuration in client/scripts/aac-worker.js: `nativeAacConfigs`,
-- `validatePacket`, `probeNativeAacEncoder` and `selectNativeAacConfig`. Texts are lists of character
-- codes, bytes are numbers below 256. What the browser answers is an argument.
pub mod Valid
pub mod Select
pub mod Hex
pub mod Tests
use vrcstreamer.Common.{
  ℕ, zero, suc, ◌+◌, ◌-◌, ◌*◌, ◌/◌, ◌%◌, ◌^◌, ◌≤◌, ◌<◌, min, max, ◌≡◌, refl, sym, ap, ◌∙◌, ◌≢◌, ◌↔◌,
  ◌⊎◌, inl, inr, Bool, true, false, not, ◌&&◌, ◌||◌, Option, none, some, List, [], ◌∷◌, ◌++◌, map,
  append_assoc, append-nil, arith, ltb, leb, ◌==◌, if◌then◌else◌, Bool-cases, Option-cases, is_some,
  length, get_elem?, get_or, set, take, drop, replicate, All,
}

abbrev pub Text : Type 0
Text = List ℕ

-- An `AudioEncoderConfig` for "mp4a.40.2": `constant` is the constant bitrate mode, `raw` the format
-- "aac".
pub record Config : Type 0 where
  pub sample_rate : ℕ
  pub number_of_channels : ℕ
  pub bitrate : Option ℕ
  pub constant : Bool
  pub raw : Bool

-- The label "raw AAC + CBR 192 kbps" and its like; no rate is "browser default bitrate".
pub record Label : Type 0 where
  pub raw : Bool
  pub constant : Bool
  pub rate_kbps : Option ℕ

pub kbps : ℕ → ℕ
kbps value = (value + 500) / 1000

pub candidate : ℕ → ℕ → Option ℕ → Bool → Bool → Label × Config
candidate sample_rate channels bitrate raw constant = (
  record {
    raw = raw;
    constant = constant;
    rate_kbps = elim bitrate [ none ↦ none | some b ↦ some (kbps b) ];
  },
  record {
    sample_rate = sample_rate;
    number_of_channels = channels;
    bitrate = bitrate;
    constant = constant;
    raw = raw;
  },
)

pub candidates : ℕ → ℕ → List ℕ → List (Label × Config)
candidates sample_rate channels [] = []
candidates sample_rate channels (b ∷ bs) =
    let one = candidate sample_rate channels (some b) in
    one true true
    ∷ one true false
    ∷ one false true
    ∷ one false false
    ∷ candidates sample_rate channels bs

pub native_aac_configs : ℕ → ℕ → List ℕ → List (Label × Config)
native_aac_configs sample_rate channels [] =
    candidate sample_rate channels none true false
    ∷ candidate sample_rate channels none false false
    ∷ []
native_aac_configs sample_rate channels (b ∷ bs) = candidates sample_rate channels (b ∷ bs)

-- A lower-case hexadecimal digit.
pub hex_digit : ℕ → ℕ
hex_digit n = if ltb n 10 then n + 48 else n + 87

pub bytes_to_hex : List ℕ → Text
bytes_to_hex [] = []
bytes_to_hex (b ∷ bs) = hex_digit (b / 16) ∷ hex_digit (b % 16) ∷ bytes_to_hex bs

abbrev pub starts_with : Text → Text → Bool
starts_with text [] = true
starts_with [] (c ∷ cs) = false
starts_with (t ∷ text) (c ∷ cs) = (t == c) && starts_with text cs

pub limit_text : Text → ℕ → Text
limit_text text max_length =
    if leb (length text) max_length then text else take (max_length - 1) text ++ (46 ∷ 46 ∷ 46 ∷ [])

-- What is thrown: the errors of `validatePacket`, and the platform's.
pub data Fault : Type 0 where
  no_packet adts : Fault
  mismatch : Text → Text → Fault
  thrown : Text → Fault

-- `(byte & 0xf6) === 0xf0`.
abbrev pub is_sync : ℕ → Bool
is_sync b = (b / 16 == 15) && (b / 2 % 4 == 0)

pub validate_packet : Option (List ℕ) → Text → Text → ℕ → Option Fault
validate_packet none config_hex expected offset = some no_packet
validate_packet (some packet) config_hex expected offset =
    if ltb (length packet) (offset + 4)
    then some no_packet
    else if (get_or packet offset 0 == 255) && is_sync (get_or packet (offset + 1) 0)
    then some adts
    else if (ltb 0 (length config_hex)) && not (starts_with config_hex expected)
    then some (mismatch config_hex expected)
    else none

-- The calls of the probing encoder's `output`, each with the access unit and the description, if the
-- metadata has one, and its end: what a call threw, or what its `error` was given.
pub record Probe : Type 0 where
  pub outputs : List (List ℕ × Option (List ℕ))
  pub throws : Option Text
  pub encoder_error : Option Text

pub first_packet : List (List ℕ × Option (List ℕ)) → Option (List ℕ)
first_packet [] = none
first_packet ((unit, description) ∷ outputs) = some unit

-- `if (description && !configHex) configHex = …`, call after call.
pub config_hex : Text → List (List ℕ × Option (List ℕ)) → Text
config_hex hex [] = hex
config_hex hex ((unit, none) ∷ outputs) = config_hex hex outputs
config_hex [] ((unit, some description) ∷ outputs) = config_hex (bytes_to_hex description) outputs
config_hex (c ∷ cs) ((unit, some description) ∷ outputs) = config_hex (c ∷ cs) outputs

pub probe_native_aac_encoder : Probe → Text → Option Fault
probe_native_aac_encoder p expected = elim p.throws [
  | some text ↦ some (thrown text)
  | none ↦ elim p.encoder_error [
    | some text ↦ some (thrown text)
    | none ↦ validate_packet (first_packet p.outputs) (config_hex [] p.outputs) expected 0
  ]
]

-- What `isConfigSupported` answers, with the configuration that it has filled in.
pub data Support : Type 0 where
  support_throws : Text → Support
  unsupported : Support
  supported : Option Config → Support

-- A reason in the error's text: `supported=false`, or an error.
pub data Reason : Type 0 where
  not_supported : Label → Reason
  failed_with : Label → Fault → Reason

pub data Selection : Type 0 where
  selected : Config → Label → Selection
  refused : List Reason → Selection

-- One turn of the loop: a configuration to use, or a reason.
pub try_config : (Config → Support) → (Config → Probe) → Text → Label → Config → Config ⊎ Reason
try_config is_supported probe expected label config = elim (is_supported config) [
  | support_throws text ↦ inr (failed_with label (thrown text))
  | unsupported ↦ inr (not_supported label)
  | supported o ↦
      let chosen : Config = elim o [ none ↦ config | some c ↦ c ] in
      elim (probe_native_aac_encoder (probe chosen) expected) [
        | none ↦ inl chosen
        | some fault ↦ inr (failed_with label fault)
      ]
]

-- The loop, with the reasons so far.
pub select_config :
    (Config → Support) → (Config → Probe) → Text → List Reason → List (Label × Config) → Selection
select_config is_supported probe expected reasons [] = refused reasons
select_config is_supported probe expected reasons ((label, config) ∷ rest) =
    elim (try_config is_supported probe expected label config) [
      | inl chosen ↦ selected chosen label
      | inr reason ↦ select_config is_supported probe expected (reasons ++ (reason ∷ [])) rest
    ]

-- `selectNativeAacConfig`, the browser having the API.
pub select_native_aac_config :
    (Config → Support) → (Config → Probe) → Text → ℕ → ℕ → List ℕ → Selection
select_native_aac_config is_supported probe expected sample_rate channels bitrates =
    select_config is_supported probe expected [] (native_aac_configs sample_rate channels bitrates)
