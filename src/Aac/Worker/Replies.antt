-- ===== src/Aac/Worker/Replies.antt =====
-- The answers of client/scripts/aac-worker.js to its messages.
use vrcstreamer.Common.Int.{ℤ}
use vrcstreamer.Common.{
  ℕ, suc, ◌+◌, ◌≡◌, refl, Bool, true, false, Option, none, some, List, [], ◌∷◌, ◌++◌, arith,
  if◌then◌else◌,
}
use vrcstreamer.Aac.Config.{Text, Selection, selected, refused}
use vrcstreamer.Aac.Wasm.{CodecEvent, Codec, encode_wasm, drain}
use vrcstreamer.Aac.Worker.{
  native_queue, ℤ, no_mode, AacWorker, Init, Event, ready_native, ready_wasm, posts_packet,
  wasm_event, consumed, flushed, fails_message, fails_output, encodes_native, closes_native,
  closes_ctx, wasm_events, fall_back, close_native, close_wasm, close, start_init, end_init_native,
  end_init_wasm, native_output, native_error, encode_native, encode_with_wasm, encode, flush, Call,
  inits, selects, loads, encodes, flushes, closes, outputs, native_errs, answer_encode, step, run,
}

-- The messages that answer one: "ready", "consumed", "flushed" and the "error" of a message.
abbrev pub answers : List Event → ℕ
answers [] = 0
answers (ready_native label ∷ es) = suc (answers es)
answers (ready_wasm rate reason hex ∷ es) = suc (answers es)
answers (posts_packet packet size timestamp ∷ es) = answers es
answers (wasm_event e ∷ es) = answers es
answers (consumed queue ∷ es) = suc (answers es)
answers (flushed ∷ es) = suc (answers es)
answers (fails_message ∷ es) = suc (answers es)
answers (fails_output ∷ es) = answers es
answers (encodes_native n frames us view ∷ es) = answers es
answers (closes_native n ∷ es) = answers es
answers (closes_ctx ∷ es) = answers es

answers-append : (es fs : List Event) → answers (es ++ fs) ≡ answers es + answers fs
answers-append [] fs = omega arith
answers-append (ready_native label ∷ es) fs = omega (arith, answers-append es fs)
answers-append (ready_wasm rate reason hex ∷ es) fs = omega (arith, answers-append es fs)
answers-append (posts_packet packet size timestamp ∷ es) fs = answers-append es fs
answers-append (wasm_event e ∷ es) fs = answers-append es fs
answers-append (consumed queue ∷ es) fs = omega (arith, answers-append es fs)
answers-append (flushed ∷ es) fs = omega (arith, answers-append es fs)
answers-append (fails_message ∷ es) fs = omega (arith, answers-append es fs)
answers-append (fails_output ∷ es) fs = answers-append es fs
answers-append (encodes_native n frames us view ∷ es) fs = answers-append es fs
answers-append (closes_native n ∷ es) fs = answers-append es fs
answers-append (closes_ctx ∷ es) fs = answers-append es fs

answers-wasm_events : (es : List CodecEvent) → answers (wasm_events es) ≡ 0
answers-wasm_events [] = refl
answers-wasm_events (e ∷ es) = answers-wasm_events es

-- Whether the end of `initNative` settles the message: it succeeds, or there is no falling back.
abbrev pub settles : Init → Selection → Bool → Bool
settles m (selected config label) true = true
settles m answer configured = elim m.allow_wasm_fallback [ some false ↦ true | _ ↦ false ]

-- How many answers a call owes.
abbrev pub due {ℓ} : {S : Type ℓ} → Call S → ℕ
due (inits m) = 0
due (selects m answer n configured) = if settles m answer configured then 1 else 0
due (loads reason created) = 1
due (encodes pcm samples timestamp taken queue) = 1
due (flushes settled) = 1
due closes = 0
due (outputs unit description timestamp) = 0
due native_errs = 0

abbrev pub due_all {ℓ} : {S : Type ℓ} → List (Call S) → ℕ
due_all [] = 0
due_all (k ∷ ks) = due k + due_all ks

module _ {ℓ} {S : Type ℓ} where
  answers-close_native : (w : AacWorker S) → answers (close_native w).1 ≡ 0
  unfolding close_native
  answers-close_native w = ground arith

  answers-close_wasm : (w : AacWorker S) → answers (close_wasm w).1 ≡ 0
  unfolding close_wasm
  answers-close_wasm w = ground arith

  answers-close : (w : AacWorker S) → answers (close w).1 ≡ 0
  unfolding close
  answers-close w =
      let u : AacWorker S = record w { mode = no_mode } in
      let (v, es) = close_native u in
      omega
        (arith, answers-close_native u, answers-close_wasm v, answers-append es (close_wasm v).1)

  answers-end_init_native :
      (w : AacWorker S) (m : Init) (answer : Selection) (n : ℕ) (configured : Bool)
      → answers (end_init_native w m answer n configured).1
        ≡ (if settles m answer configured then 1 else 0)
  unfolding end_init_native fall_back
  answers-end_init_native w m (selected config label) n true = refl
  answers-end_init_native w m (selected config label) n false =
      ground (arith, answers-close_native w)
  answers-end_init_native w m (refused reasons) n configured =
      ground (arith, answers-close_native w)

  answers-end_init_wasm :
      (w : AacWorker S) (reason : Text) (created : Option (S × ℕ × List ℕ))
      → answers (end_init_wasm w reason created).1 ≡ 1
  unfolding end_init_wasm
  answers-end_init_wasm w reason none = refl
  answers-end_init_wasm w reason (some (s, frame_size, extradata)) = ground arith

  answers-native_output :
      (w : AacWorker S) (unit : List ℕ) (description : Option (List ℕ)) (timestamp : ℕ)
      → answers (native_output w unit description timestamp).1 ≡ 0
  unfolding native_output
  answers-native_output w unit description timestamp = ground arith

  answers-native_error : (w : AacWorker S) → answers (native_error w) ≡ 0
  unfolding native_error
  answers-native_error w = ground arith

module _ {ℓ} {S : Type ℓ} ⦃c : Codec S⦄ where
  answers-encode_native :
      (w : AacWorker S) (samples : List (Option ℤ)) (timestamp : ℕ) (taken : Bool)
      → answers (encode_native w samples timestamp taken).1 ≡ 0
  unfolding encode_native
  answers-encode_native w samples timestamp taken = ground arith

  answers-encode_with_wasm :
      (pending : S → ℕ) (w : AacWorker S) (pcm : List ℕ) (timestamp : ℕ)
      → answers (encode_with_wasm pending w pcm timestamp).1 ≡ 0
  unfolding encode_with_wasm
  answers-encode_with_wasm pending w pcm timestamp =
      answers-wasm_events
        (encode_wasm pending w.ctx w.frame_size w.input_bytes_per_frame pcm timestamp).1

  answers-encode :
      (pending : S → ℕ) (w : AacWorker S) (pcm : List ℕ) (samples : List (Option ℤ))
      (timestamp : Option ℕ) (taken : Bool)
      → answers (encode pending w pcm samples timestamp taken).1 ≡ 0
  unfolding encode
  answers-encode pending w pcm samples none taken = refl
  answers-encode pending w pcm samples (some timestamp) taken = ground (
    arith,
    answers-encode_native w samples timestamp taken,
    answers-encode_with_wasm pending w pcm timestamp,
  )

  answers-flush :
      (pending : S → ℕ) (w : AacWorker S) (settled : Bool) → answers (flush pending w settled).1 ≡ 1
  unfolding flush
  answers-flush pending w settled = by_ctx w.ctx refl
    where
      by_ctx : (o : Option S) → w.ctx ≡ o → answers (flush pending w settled).1 ≡ 1
      by_ctx none e = ground (arith, e)
      by_ctx (some s) e =
          let es = wasm_events (drain (suc (pending s)) s).1 in
          ground (
            arith,
            e,
            answers-append es (flushed ∷ []),
            answers-wasm_events (drain (suc (pending s)) s).1,
          )

  answer_encode-answers :
      (queue : ℕ) (r : AacWorker S × List Event × Bool)
      → answers r.1 ≡ 0
      → answers (answer_encode queue r).1 ≡ 1
  answer_encode-answers queue (w, es, true) h =
      omega (arith, h, answers-append es (consumed (native_queue queue w) ∷ []))
  answer_encode-answers queue (w, es, false) h =
      omega (arith, h, answers-append es (fails_message ∷ []))

  answers-step :
      (pending : S → ℕ) (w : AacWorker S) (k : Call S) → answers (step pending w k).1 ≡ due k
  unfolding step start_init
  answers-step pending w (inits m) = answers-close w
  answers-step pending w (selects m answer n configured) =
      answers-end_init_native w m answer n configured
  answers-step pending w (loads reason created) = answers-end_init_wasm w reason created
  answers-step pending w (encodes pcm samples timestamp taken queue) =
      answer_encode-answers queue (encode pending w pcm samples timestamp taken)
        (answers-encode pending w pcm samples timestamp taken)
  answers-step pending w (flushes settled) = answers-flush pending w settled
  answers-step pending w closes = answers-close w
  answers-step pending w (outputs unit description timestamp) =
      answers-native_output w unit description timestamp
  answers-step pending w native_errs = answers-native_error w

  -- In every history, whatever both encoders do: "encode" and "flush" are answered exactly once each, by
  -- "consumed" or "flushed" or by an error, "close" not at all, and "init" when its last wait
  -- ends, once, by "ready" or by an error.
  pub answers-run :
      (pending : S → ℕ) (w : AacWorker S) (ks : List (Call S))
      → answers (run pending w ks).1 ≡ due_all ks
  unfolding run
  answers-run pending w [] = refl
  answers-run pending w (k ∷ ks) =
      let (u, es) = step pending w k in
      omega (
        arith,
        answers-step pending w k,
        answers-run pending u ks,
        answers-append es (run pending u ks).1,
      )
