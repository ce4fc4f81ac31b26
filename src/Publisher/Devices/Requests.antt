-- ===== src/Publisher/Devices/Requests.antt =====
-- The streams that `requestAudioSource` and `requestVideoSource` of client/scripts/streamer.js let through.
use vrcstreamer.Common.{
  ℕ, ◌≤◌, ◌≡◌, refl, ◌⊎◌, inl, inr, Bool, true, false, List, [], ◌∷◌, arith, ◌==◌, Bool-cases,
}
use vrcstreamer.Publisher.Devices.{
  Stream, Event, stops_stream, accepted, refused, request_audio_source,
}

-- Whether the stream itself is stopped, last of all.
abbrev pub is_stopped : ℕ → List Event → Bool
is_stopped n [] = false
is_stopped n (stops_stream m ∷ []) = m == n
is_stopped n (e ∷ es) = is_stopped n es

-- A captured stream is accepted with a sound track, without video tracks where it is a screen's, and
-- not stopped; or it is refused, without a sound track, and stopped.
pub request_audio_source-inl :
    (is_screen : Bool) (s : Stream)
    → let (r, es) = request_audio_source is_screen (inl s) in
      ((r ≡ refused) × (s.audio_tracks ≡ 0) × (is_stopped s.ident es ≡ true))
      ⊎ ((t : Stream) × ((r ≡ accepted t)
            × (1 ≤ t.audio_tracks)
            × (is_screen ≡ true → t.video_tracks ≡ 0)
            × (is_stopped s.ident es ≡ false)))
unfolding request_audio_source
request_audio_source-inl true s = elim (Bool-cases (s.audio_tracks == 0)) [
  | inl e ↦ rw e (inl (refl, ground (arith, e), ground arith))
  | inr e ↦ rw e (inr (record s { video_tracks = 0 }, (refl, ground (arith, e), λ h. refl, refl)))
]
request_audio_source-inl false s = elim (Bool-cases (s.audio_tracks == 0)) [
  | inl e ↦ rw e (inl (refl, ground (arith, e), ground arith))
  | inr e ↦ rw e (inr (s, (refl, ground (arith, e), λ h. absurd (cc h), refl)))
]
