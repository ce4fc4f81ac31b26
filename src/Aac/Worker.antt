-- ===== src/Aac/Worker.antt =====
-- The messages of client/scripts/aac-worker.js: `init`, `initNative`, `initWasm`, `encode`, `flush`, `close`
-- and the native encoder's `output`, cut at their waits. Both encoders are parameters.
pub mod Replies
pub mod Modes
pub mod Tests
use vrcstreamer.Common.{
  ℕ, zero, suc, ◌+◌, ◌-◌, ◌*◌, ◌/◌, ◌%◌, ◌^◌, ◌≤◌, ◌<◌, min, max, ◌≡◌, refl, sym, ap, ◌∙◌, ◌≢◌, ◌↔◌,
  ◌⊎◌, inl, inr, Bool, true, false, not, ◌&&◌, ◌||◌, Option, none, some, List, [], ◌∷◌, ◌++◌, map,
  append_assoc, append-nil, arith, ltb, leb, ◌==◌, if◌then◌else◌, Bool-cases, Option-cases, is_some,
  length, get_elem?, get_or, set, take, drop, replicate, All,
}
use vrcstreamer.Common.Int.{ℤ, pos, negsuc}
use vrcstreamer.Wire.{audio_packet, rtp_timestamp_at, us_of_samples, media_frame_header_bytes}
use vrcstreamer.Aac.Config.{
  Text, Label, Config, Selection, selected, refused, kbps, bytes_to_hex, starts_with, limit_text,
  validate_packet,
}
use vrcstreamer.Aac.Samples.{float32_to_s16_view}
use vrcstreamer.Aac.Wasm.{CodecEvent, EncodeFault, Codec, encode_wasm, drain}

pub data Mode : Type 0 where
  no_mode native wasm : Mode

-- The module's variables. `native_hex` is the configuration that the native encoder has shown.
pub record AacWorker {ℓ} (S : Type ℓ) : Type ℓ where
  pub mode : Mode
  pub sample_rate : ℕ
  pub channels : ℕ
  pub bitrate : ℕ
  pub expected_aac_config_hex : Text
  pub native_aac_bitrates : List ℕ
  pub native_encoder : Option ℕ
  pub native_hex : Text
  pub native_s16_scratch : Option (List ℤ)
  pub ctx : Option S
  pub frame_size : ℕ
  pub input_bytes_per_frame : ℕ

-- The message "init"; a field that is left out is `none`.
pub record Init : Type 0 where
  pub sample_rate : ℕ
  pub channels : ℕ
  pub bitrate : ℕ
  pub expected_aac_config_hex : Text
  pub native_aac_bitrates : Option (List ℕ)
  pub prefer_native : Option Bool
  pub allow_wasm_fallback : Option Bool

-- Posted messages: "ready" of either encoder, "packet", "consumed" and "flushed", and "error" for a
-- message or for an output. Calls of the native encoder, with its number, and the end of the other.
pub data Event : Type 0 where
  ready_native : Label → Event
  ready_wasm : ℕ → Text → Text → Event
  posts_packet : Option (List ℕ) → ℕ → ℕ → Event
  wasm_event : CodecEvent → Event
  consumed : ℕ → Event
  flushed fails_message fails_output : Event
  encodes_native : ℕ → ℕ → ℕ → List ℤ → Event
  closes_native : ℕ → Event
  closes_ctx : Event

abbrev pub wasm_events : List CodecEvent → List Event
wasm_events [] = []
wasm_events (e ∷ es) = wasm_event e ∷ wasm_events es

module _ {ℓ} {S : Type ℓ} where
  pub close_native : AacWorker S → AacWorker S × List Event
  close_native w = elim w.native_encoder [
    | none ↦ (w, [])
    | some n ↦ (record w { native_encoder = none; native_s16_scratch = none }, closes_native n ∷ [])
  ]

  -- The loaded module is there whenever `ctx` is.
  pub close_wasm : AacWorker S → AacWorker S × List Event
  close_wasm w = elim w.ctx [
    | none ↦ (w, [])
    | some s ↦ (record w { ctx = none; frame_size = 0; input_bytes_per_frame = 0 }, closes_ctx ∷ [])
  ]

  pub close : AacWorker S → AacWorker S × List Event
  close w =
      let (u, es) = close_native (record w { mode = no_mode }) in
      let (v, fs) = close_wasm u in (v, es ++ fs)

  -- `init` up to its first wait. A text or a list that the message leaves out keeps the old one.
  pub start_init : AacWorker S → Init → AacWorker S × List Event
  start_init w m =
      let (u, es) = close w in
      (
        record u {
          sample_rate = m.sample_rate;
          channels = m.channels;
          bitrate = m.bitrate;
          expected_aac_config_hex = elim m.expected_aac_config_hex [
            | [] ↦ u.expected_aac_config_hex
            | c ∷ cs ↦ c ∷ cs
          ];
          native_aac_bitrates = elim m.native_aac_bitrates [
            | none ↦ u.native_aac_bitrates
            | some bs ↦ bs
          ];
        },
        es,
      )

  -- The failure of `initNative`: the message fails, or the WASM encoder is to be loaded.
  pub fall_back : AacWorker S → Init → AacWorker S × List Event
  fall_back w m = elim m.allow_wasm_fallback [
    | some false ↦ (w, fails_message ∷ [])
    | _ ↦ close_native w
  ]

  -- The end of `initNative`: `answer` is the selection, `configured` that the encoder `n` has taken it.
  pub end_init_native : AacWorker S → Init → Selection → ℕ → Bool → AacWorker S × List Event
  end_init_native w m (selected config label) n true = (
    record w { mode = native; native_encoder = some n; native_hex = [] },
    ready_native label ∷ [],
  )
  end_init_native w m answer n configured = fall_back w m

  -- The end of `initWasm`; `created` is the new encoder, the size of its frames and its extradata.
  pub end_init_wasm : AacWorker S → Text → Option (S × ℕ × List ℕ) → AacWorker S × List Event
  end_init_wasm w fallback_reason none = (record w { ctx = none }, fails_message ∷ [])
  end_init_wasm w fallback_reason (some (s, frame_size, extradata)) =
      let config_hex = bytes_to_hex extradata in
      let u : AacWorker S = record w {
        ctx = some s;
        frame_size = frame_size;
        input_bytes_per_frame = frame_size * w.channels * 4;
      } in
      if not (starts_with config_hex w.expected_aac_config_hex) then (u, fails_message ∷ []) else (
        record u { mode = wasm },
        ready_wasm (kbps w.bitrate) (limit_text fallback_reason 220) config_hex ∷ [],
      )

  -- The native encoder's `output`.
  pub native_output : AacWorker S → List ℕ → Option (List ℕ) → ℕ → AacWorker S × List Event
  native_output w unit description timestamp_us =
      let u : AacWorker S = elim description [
        | none ↦ w
        | some d ↦ record w { native_hex = bytes_to_hex d }
      ] in
      let rtp_timestamp = rtp_timestamp_at w.sample_rate timestamp_us in
      let packet = audio_packet unit rtp_timestamp in
      elim w.mode [
        | native ↦
            elim (validate_packet packet u.native_hex w.expected_aac_config_hex
              media_frame_header_bytes) [
                | some fault ↦ (u, fails_output ∷ [])
                | none ↦ (u, posts_packet packet (length unit) rtp_timestamp ∷ [])
              ]
        | _ ↦ (w, [])
      ]

  -- The native encoder's `error`.
  pub native_error : AacWorker S → List Event
  native_error w = elim w.mode [ native ↦ fails_output ∷ [] | _ ↦ [] ]

  -- The result `false` is an exception. `taken` is that `AudioData` and the encoder's `encode` do not
  -- throw; `samples` is the buffer as a Float32Array.
  pub encode_native : AacWorker S → List (Option ℤ) → ℕ → Bool → AacWorker S × List Event × Bool
  encode_native w samples timestamp taken = elim w.native_encoder [
    | none ↦ (w, [], false)
    | some n ↦
        let (view, scratch) = float32_to_s16_view w.native_s16_scratch samples in
        let us = us_of_samples w.sample_rate timestamp in
        (
          record w { native_s16_scratch = some scratch },
          if taken then encodes_native n (length samples / w.channels) us view ∷ [] else [],
          taken,
        )
  ]

-- The four messages, the ends of the waits of "init", and the native encoder's calls.
pub data Call {ℓ} (S : Type ℓ) : Type ℓ where
  inits : Init → Call S
  selects : Init → Selection → ℕ → Bool → Call S
  loads : Text → Option (S × ℕ × List ℕ) → Call S
  encodes : List ℕ → List (Option ℤ) → Option ℕ → Bool → ℕ → Call S
  flushes : Bool → Call S
  closes : Call S
  outputs : List ℕ → Option (List ℕ) → ℕ → Call S
  native_errs : Call S

module _ {ℓ} {S : Type ℓ} ⦃c : Codec S⦄ where
  -- The branch of `encode` for the WASM encoder.
  pub encode_with_wasm : (S → ℕ) → AacWorker S → List ℕ → ℕ → AacWorker S × List Event × Bool
  encode_with_wasm pending w pcm timestamp =
      let (ctx, es, fault) =
        encode_wasm pending w.ctx w.frame_size w.input_bytes_per_frame pcm timestamp in
      (record w { ctx = ctx }, wasm_events es, not (is_some fault))

  -- `none` is a timestamp that is no safe integer, or negative.
  pub encode :
      (S → ℕ)
      → AacWorker S
      → List ℕ
      → List (Option ℤ)
      → Option ℕ
      → Bool
      → AacWorker S × List Event × Bool
  encode pending w pcm samples none taken = (w, [], false)
  encode pending w pcm samples (some timestamp) taken = elim w.mode [
    | no_mode ↦ (w, [], false)
    | native ↦ encode_native w samples timestamp taken
    | wasm ↦ encode_with_wasm pending w pcm timestamp
  ]

  -- The native encoder's `flush` is over, or has failed.
  pub flush : (S → ℕ) → AacWorker S → Bool → AacWorker S × List Event
  flush pending w settled = elim w.mode [
    | no_mode ↦ (w, flushed ∷ [])
    | native ↦ elim w.native_encoder [
      | none ↦ (w, flushed ∷ [])
      | some n ↦ (w, if settled then flushed ∷ [] else fails_message ∷ [])
    ]
    | wasm ↦ elim w.ctx [
      | none ↦ (w, flushed ∷ [])
      | some s ↦
          let (t, es) = drain (suc (pending s)) s in
          (record w { ctx = some t }, wasm_events es ++ (flushed ∷ []))
    ]
  ]

  -- `mode === "native" && nativeEncoder ? nativeEncoder.encodeQueueSize : 0`.
  abbrev pub native_queue : ℕ → AacWorker S → ℕ
  native_queue queue w = elim w.mode [
    | native ↦ elim w.native_encoder [ none ↦ 0 | some n ↦ queue ]
    | _ ↦ 0
  ]

  abbrev pub answer_encode : ℕ → AacWorker S × List Event × Bool → AacWorker S × List Event
  answer_encode queue (w, es, true) = (w, es ++ (consumed (native_queue queue w) ∷ []))
  answer_encode queue (w, es, false) = (w, es ++ (fails_message ∷ []))

  pub step : (S → ℕ) → AacWorker S → Call S → AacWorker S × List Event
  step pending w (inits m) = start_init w m
  step pending w (selects m answer n configured) = end_init_native w m answer n configured
  step pending w (loads reason created) = end_init_wasm w reason created
  step pending w (encodes pcm samples timestamp taken queue) =
      answer_encode queue (encode pending w pcm samples timestamp taken)
  step pending w (flushes done) = flush pending w done
  step pending w closes = close w
  step pending w (outputs unit description timestamp) = native_output w unit description timestamp
  step pending w native_errs = (w, native_error w)

  pub run : (S → ℕ) → AacWorker S → List (Call S) → AacWorker S × List Event
  run pending w [] = (w, [])
  run pending w (k ∷ ks) =
      let (u, es) = step pending w k in let (v, fs) = run pending u ks in (v, es ++ fs)
