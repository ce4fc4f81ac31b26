-- ===== src/Aac/Config/Tests.antt =====
-- The choice of a native configuration of aac-worker.js with a concrete browser.
use vrcstreamer.Common.{
  ◌≡◌, refl, true, false, none, some, [], ◌∷◌, if◌then◌else◌, length, replicate,
}
use vrcstreamer.Aac.Config.{
  List, candidate, candidates, native_aac_configs, kbps, hex_digit, bytes_to_hex, limit_text,
  first_packet, config_hex, validate_packet, probe_native_aac_encoder, try_config, select_config,
  select_native_aac_config, Text, Config, Label, Reason, Support, unsupported, supported, Probe,
  selected, refused,
}
use vrcstreamer.Aac.Config.Select.{IsFirst, IsNone, select_native_aac_config-IsFirst}

-- "1190".
abbrev expected : Text
expected = 49 ∷ 49 ∷ 57 ∷ 48 ∷ []

-- A browser without the constant mode, whose encoder gives raw access units.
abbrev browser : Config → Support
browser c = if c.constant then unsupported else supported none

abbrev probe : Config → Probe
probe c = record {
  outputs = (33 ∷ 16 ∷ 5 ∷ 32 ∷ [], some (17 ∷ 144 ∷ [])) ∷ [];
  throws = none;
  encoder_error = none;
}

selects_second :
    select_native_aac_config browser probe expected 48000 2 (192000 ∷ [])
    ≡ selected
        (record {
          sample_rate = 48000;
          number_of_channels = 2;
          bitrate = some 192000;
          constant = false;
          raw = true;
        })
        (record { raw = true; constant = false; rate_kbps = some 192 })
unfolding select_native_aac_config native_aac_configs candidates candidate kbps select_config
    try_config probe_native_aac_encoder first_packet config_hex bytes_to_hex hex_digit
    validate_packet
selects_second = refl

select_native_aac_config-IsFirst_example :
    let configs = native_aac_configs 48000 2 (192000 ∷ []) in
    let result = select_native_aac_config browser probe expected 48000 2 (192000 ∷ []) in
    ((chosen : Config) (label : Label)
      → result ≡ selected chosen label
      → IsFirst browser probe expected configs chosen label)
    × ((reasons : List Reason)
        → result ≡ refused reasons
        → IsNone browser probe expected configs × (length reasons ≡ 4))
unfolding native_aac_configs candidates
select_native_aac_config-IsFirst_example =
    select_native_aac_config-IsFirst browser probe expected 48000 2 (192000 ∷ [])

-- A text over the limit of 220 is cut to 222 characters.
length-limit_text : length (limit_text (replicate 221 65) 220) ≡ 222
unfolding limit_text
length-limit_text = refl
