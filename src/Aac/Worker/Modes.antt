-- ===== src/Aac/Worker/Modes.antt =====
-- The variable `mode` of client/scripts/aac-worker.js and the encoders that it stands for.
use vrcstreamer.Common.Int.{ℤ}
use vrcstreamer.Common.{
  subst, ℕ, ◌*◌, ◌≡◌, refl, sym, ◌∙◌, Bool, true, false, ◌&&◌, Option, none, some, List, [], ◌∷◌,
  arith, ◌==◌, is_some,
}
use vrcstreamer.Aac.Config.{Text, Selection, selected, refused}
use vrcstreamer.Aac.Wasm.Drain.{encode_wasm_ctx}
use vrcstreamer.Aac.Wasm.{Codec, encode_wasm}
use vrcstreamer.Aac.Worker.{
  ℤ, Mode, no_mode, native, wasm, AacWorker, Init, Event, fall_back, close_native, close_wasm,
  close, start_init, end_init_native, end_init_wasm, native_output, encode_native, encode_with_wasm,
  encode, flush, Call, inits, selects, loads, encodes, flushes, closes, outputs, native_errs,
  answer_encode, step, run,
}

-- The mode's encoder is there, and the WASM encoder's input size is that of a frame.
abbrev pub holds {ℓ} : {S : Type ℓ} → AacWorker S → Bool
holds w = elim w.mode [
  | no_mode ↦ true
  | native ↦ is_some w.native_encoder
  | wasm ↦ is_some w.ctx && (w.input_bytes_per_frame == w.frame_size * w.channels * 4)
]

abbrev pub IsReady {ℓ} : {S : Type ℓ} → AacWorker S → Type 0
IsReady w = holds w ≡ true

module _ {ℓ} {S : Type ℓ} where
  IsReady-no_mode : (w : AacWorker S) → w.mode ≡ no_mode → IsReady w
  IsReady-no_mode w h = ground (arith, h)

  with_ctx :
      (w : AacWorker S) (o : Option S)
      → is_some o ≡ is_some w.ctx
      → IsReady w
      → IsReady (record w { ctx = o })
  with_ctx w o e h = ground (arith, e, h)

  close_mode : (w : AacWorker S) → (close w).0.mode ≡ no_mode
  unfolding close close_native close_wasm
  close_mode w = ground arith

  start_init-IsReady : (w : AacWorker S) (m : Init) → IsReady (start_init w m).0
  unfolding start_init
  start_init-IsReady w m = IsReady-no_mode (start_init w m).0 (close_mode w)

  close-IsReady : (w : AacWorker S) → IsReady (close w).0
  close-IsReady w = IsReady-no_mode (close w).0 (close_mode w)

  close_native_mode : (w : AacWorker S) → (close_native w).0.mode ≡ w.mode
  unfolding close_native
  close_native_mode w = ground arith

  fall_back-IsReady : (w : AacWorker S) (m : Init) → w.mode ≡ no_mode → IsReady (fall_back w m).0
  unfolding fall_back
  fall_back-IsReady w m h = by_choice m.allow_wasm_fallback refl
    where
      closed : IsReady (close_native w).0
      closed = IsReady-no_mode (close_native w).0 (close_native_mode w ∙ h)

      by_choice : (o : Option Bool) → m.allow_wasm_fallback ≡ o → IsReady (fall_back w m).0
      by_choice none e = rw e closed
      by_choice (some true) e = rw e closed
      by_choice (some false) e = rw e (IsReady-no_mode w h)

  end_init_native-IsReady :
      (w : AacWorker S) (m : Init) (answer : Selection) (n : ℕ) (configured : Bool)
      → w.mode ≡ no_mode
      → IsReady (end_init_native w m answer n configured).0
  unfolding end_init_native
  end_init_native-IsReady w m (selected config label) n true h = refl
  end_init_native-IsReady w m (selected config label) n false h = fall_back-IsReady w m h
  end_init_native-IsReady w m (refused reasons) n configured h = fall_back-IsReady w m h

  end_init_wasm-IsReady :
      (w : AacWorker S) (reason : Text) (created : Option (S × ℕ × List ℕ))
      → w.mode ≡ no_mode
      → IsReady (end_init_wasm w reason created).0
  unfolding end_init_wasm
  end_init_wasm-IsReady w reason none h = IsReady-no_mode (record w { ctx = none }) h
  end_init_wasm-IsReady w reason (some (s, frame_size, extradata)) h = ground (arith, h)

  native_output-IsReady :
      (w : AacWorker S) (unit : List ℕ) (description : Option (List ℕ)) (timestamp : ℕ)
      → IsReady w
      → IsReady (native_output w unit description timestamp).0
  unfolding native_output
  native_output-IsReady w unit description timestamp h = ground (arith, h)

  encode_native-IsReady :
      (w : AacWorker S) (samples : List (Option ℤ)) (timestamp : ℕ) (taken : Bool)
      → IsReady w
      → IsReady (encode_native w samples timestamp taken).0
  unfolding encode_native
  encode_native-IsReady w samples timestamp taken h = ground (arith, h)

module _ {ℓ} {S : Type ℓ} ⦃c : Codec S⦄ where
  encode_with_wasm-IsReady :
      (pending : S → ℕ) (w : AacWorker S) (pcm : List ℕ) (timestamp : ℕ)
      → IsReady w
      → IsReady (encode_with_wasm pending w pcm timestamp).0
  unfolding encode_with_wasm
  encode_with_wasm-IsReady pending w pcm timestamp h =
      let e = encode_wasm_ctx pending w.ctx w.frame_size w.input_bytes_per_frame pcm timestamp in
      let ctx = (encode_wasm pending w.ctx w.frame_size w.input_bytes_per_frame pcm timestamp).0 in
      with_ctx w ctx e h

  encode-IsReady :
      (pending : S → ℕ) (w : AacWorker S) (pcm : List ℕ) (samples : List (Option ℤ))
      (timestamp : Option ℕ) (taken : Bool)
      → IsReady w
      → IsReady (encode pending w pcm samples timestamp taken).0
  unfolding encode
  encode-IsReady pending w pcm samples none taken h = h
  encode-IsReady pending w pcm samples (some timestamp) taken h = by_mode w.mode refl
    where
      by_mode :
          (m : Mode) → w.mode ≡ m → IsReady (encode pending w pcm samples (some timestamp) taken).0
      by_mode no_mode e = ground (arith, e, h)
      by_mode native e = ground (arith, e, encode_native-IsReady w samples timestamp taken h)
      by_mode wasm e = ground (arith, e, encode_with_wasm-IsReady pending w pcm timestamp h)

  flush-IsReady :
      (pending : S → ℕ) (w : AacWorker S) (settled : Bool)
      → IsReady w
      → IsReady (flush pending w settled).0
  unfolding flush
  flush-IsReady pending w settled h = ground (arith, h)

  answer_encode_worker :
      (queue : ℕ) (r : AacWorker S × List Event × Bool) → (answer_encode queue r).0 ≡ r.0
  answer_encode_worker queue (w, es, true) = refl
  answer_encode_worker queue (w, es, false) = refl

  -- One "init" at a time: its waits end with no mode set since.
  abbrev pub IsAlone : AacWorker S → Call S → Type 0
  IsAlone w (selects m answer n configured) = w.mode ≡ no_mode
  IsAlone w (loads reason created) = w.mode ≡ no_mode
  IsAlone w k = Unit

  abbrev pub AreAlone : (S → ℕ) → AacWorker S → List (Call S) → Type 0
  AreAlone pending w [] = Unit
  AreAlone pending w (k ∷ ks) = IsAlone w k × AreAlone pending (step pending w k).0 ks

  step-IsReady :
      (pending : S → ℕ) (w : AacWorker S) (k : Call S)
      → IsReady w
      → IsAlone w k
      → IsReady (step pending w k).0
  unfolding step
  step-IsReady pending w (inits m) h a = start_init-IsReady w m
  step-IsReady pending w (selects m answer n configured) h a =
      end_init_native-IsReady w m answer n configured a
  step-IsReady pending w (loads reason created) h a = end_init_wasm-IsReady w reason created a
  step-IsReady pending w (encodes pcm samples timestamp taken queue) h a =
      let r = encode pending w pcm samples timestamp taken in
      subst IsReady (sym (answer_encode_worker queue r))
        (encode-IsReady pending w pcm samples timestamp taken h)
  step-IsReady pending w (flushes settled) h a = flush-IsReady pending w settled h
  step-IsReady pending w closes h a = close-IsReady w
  step-IsReady pending w (outputs unit description timestamp) h a =
      native_output-IsReady w unit description timestamp h
  step-IsReady pending w native_errs h a = h

  -- Where one "init" runs at a time, every history keeps: the mode "native" has its encoder, and the
  -- mode "wasm" its encoder, with the input size of a frame of the channels.
  pub run-IsReady :
      (pending : S → ℕ) (w : AacWorker S) (ks : List (Call S))
      → IsReady w
      → AreAlone pending w ks
      → IsReady (run pending w ks).0
  unfolding run
  run-IsReady pending w [] h a = h
  run-IsReady pending w (k ∷ ks) h a =
      run-IsReady pending (step pending w k).0 ks (step-IsReady pending w k h a.0) a.1
