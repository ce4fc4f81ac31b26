-- ===== src/Lib.antt =====
-- VRCStreamer: the browser program that captures sound and pictures, encodes them in two workers and
-- sends the packets over one WebSocket to a server, which passes them on over RTSP.
--
-- The parts and the files that model them:
-- * client/scripts/audio-worklet.js gathers the mixer's samples into blocks, `CaptureProcessor`:
--   Capture, with the writes of the inner loop in Capture/Copy, the samples of the blocks in
--   Capture/Blocks and their timestamps in Capture/Stamps. Before it, `SourceProcessor` sets the
--   level of each source: Mixer.
-- * client/scripts/streamer.js hands the blocks to the AAC worker, `createAacEncoder`:
--   Publisher/AacEncoder, with the blocks in flight in Queue and the promises in Promises. The
--   encoder is changed in the midst of a stream by `replaceAudioEncoder`: Publisher/EncoderSwap.
-- * client/scripts/aac-worker.js encodes: Aac/Config is the choice of the browser's encoder
--   (`nativeAacConfigs`, `validatePacket`, `probeNativeAacEncoder`, `selectNativeAacConfig`),
--   Aac/Samples is `float32ToS16View`, Aac/Wasm the other encoder (`encodeWasm`,
--   `drainWasmPackets`), and Aac/Worker the messages (`init`, `encode`, `flush`, `close`) with both.
-- * client/scripts/aac-worker.js packs the encoder's access units, `createMediaPacket`, and
--   client/scripts/video-worker.js its H.264 chunks, `sendVideoPacket`: Wire. What the server reads
--   back, and what it refuses, is `parse_streamer_media_frame` of server/src/media.rs with its checks
--   of the access unit: Wire/Server.
-- * client/scripts/streamer.js sends the packets: `createPublisherTransport` watches the socket's
--   queue and pauses the video (Publisher/Transport), and `sendAudioPacket` drops what is too old
--   or too much (Publisher/AudioSend). `createVideoWorker` is its side of the video worker
--   (Publisher/VideoWorker): it owns a control of the transport and the promises of its requests.
-- * client/scripts/streamer.js keeps the session, `app.active`: Publisher/Session has its sources and
--   its video (`installVideoSource`, `installAudioSource`, `removeVideoSource`,
--   `disposeVideoSource`, `setVideoSourceHidden` and what they call), Publisher/Session/Lifecycle
--   what begins and ends it (`start`, `addOrReplaceSource`, `failActive`, `cleanup`) and the encoders
--   of `replaceAudioEncoder`, with every captured stream, encoder, socket and audio context that it acquires and releases.
--   Publisher/Devices is the choice of what to capture (`getDisplayMediaCompat`, `captureAudio`,
--   `captureVideo`, `requestAudioSource`, `requestVideoSource`).
-- * client/scripts/client.js reads the presets of the video that a server offers: Client/Quality is
--   `normalizeVideoQuality`, Client/Presets is `setVideoQualities` with what it saves and shows.
--   Client/Code is the stream code (`randomCode`, `loadCode`).
-- * client/scripts/video-worker.js paces the frames. Video/Clock has the arithmetic of frame times,
--   Video/Worker the state (its module variables) and the pacing (`runPacing`, `submitFrame`,
--   `scheduleNextFrame`, `startCurrentOutput`, `fail`), Video/Worker/Messages what moves it
--   (`syncAudioClock`, `onSourceFrame`, `enterPlaceholder`, `handleMessage`, `reconfigure`,
--   `init`, `closeAll`) and the histories of these. Video/RateControl is the class
--   `VideoRateControl`, Video/Level is `h264Codec`, Video/AnnexB is `avcDescriptionToAnnexB`.
-- * Common has the shared names, the Boolean tests and list functions on the native numbers, and
--   JavaScript's numbers as an interface (Common/Number) with a fixed-point instance to run on
--   (Common/Decimal).
--
-- A function that changes state takes the state and returns the new one with the list of what it does
-- outside, oldest first: messages, timers, settled promises, encoded and closed frames. A function
-- with a wait is split there into steps; a history is a list of calls in any order. What a call reads
-- of the platform (clocks, queues, whether a call throws) is an argument.
--
-- Times are whole microseconds, for `performance.now()` and for the audio clock, and media times are
-- kept multiplied by the sample rate, so that the divisions of the source become exact comparisons of
-- products. Quantities that the source rounds keep their rounding. The quantizer control is over
-- JavaScript's numbers as a parameter.
--
-- The loop that skips the timestamps up to the last one has fuel for every microsecond up to it, since
-- at rates up to a million frames per second each turn moves by one at least; the loop of the
-- capture has a turn for every sample, since a buffer that is not full takes one at least. The loop
-- of `encodeWasm` has a turn for every byte, a frame taking one at least, and its drain one turn
-- more than the encoder holds packets, which a law of the encoder bounds; a number is printed with
-- one turn more than its value.
--
-- Not modelled: the codecs, the canvas and the timers, which are the browser's, and the WASM encoder,
-- which is a parameter; the reader of a captured stream and the statistics of the video worker; the
-- wiring of the video worker to a source (`createVideoStreamer`) and the restart with the sources of
-- a session in streamer.js; the monitor output of the worklet; the lists of servers and the network in
-- client/scripts/client.js; the page of client/scripts/ui.js; client/scripts/vendor,
-- which is another project's; and the rest of the server.
pub mod Common
pub mod Capture
pub mod Video
pub mod Publisher
pub mod Wire
pub mod Aac
pub mod Client
pub mod Mixer
