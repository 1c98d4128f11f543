-- ===== src/Receiver/Bridge.antt =====
-- internal/receiver/bridge.go and sps_pps.go: the tracks, the parameter sets and the start of the
-- stream. Each critical section is a function of its own; internal/receiver/bridge.go runs them in
-- the order in which `track_stopped` composes them.
pub mod Packets
pub mod Tracks
pub mod Restart
pub mod Frame
pub mod Invariant
pub mod Sections
pub mod Interleaving
mod Tests
use Prim.Native.Nat.{bit_and}
use mistlink.Base.{
  ℕ, zero, suc, ◌+◌, ◌*◌, ◌/◌, Bool, true, false, ◌&&◌, ◌||◌, not, List, [], ◌∷◌, ◌++◌, map, Option,
  none, some, leb, ltb, ◌==◌, if◌then◌else◌, length, is_empty, is_some,
}
use mistlink.Base.Maps.{lookup, insert, erase}
use mistlink.Base.Text.{codes, equal_fold, has_prefix, contains, to_lower}
use mistlink.RtpUtils.{Packet}
use mistlink.Rtsp.Server.{Server, AudioCodec, init_stream, stop_real_data, close}
use mistlink.Receiver.RtspBuffer.{RtspBuffer, new_rtsp_buffer}

-- A track's identity, `fmt.Sprintf("%d_%d", ssrc, time.Now().UnixNano())`; `blank` is the empty text.
pub data TrackId : Type 0 where
  blank : TrackId
  of_track : ℕ → ℕ → TrackId

abbrev pub same_id : TrackId → TrackId → Bool
same_id blank blank = true
same_id blank (of_track ssrc time) = false
same_id (of_track ssrc time) blank = false
same_id (of_track ssrc time) (of_track ssrc' time') = ssrc == ssrc' && time == time'

-- `RTPBridge`; the handlers and the listeners are known by numbers, the channel is what it holds.
pub record Bridge (C : Type 0) : Type 0 where
  pub rtsp_port : ℕ
  pub audio_codec : AudioCodec
  pub sps : List ℕ
  pub pps : List ℕ
  pub started : Bool
  pub server : Option (Server C)
  pub rtp_chan : List Packet
  pub chan_capacity : ℕ
  pub rtsp_buffer : RtspBuffer
  pub active_tracks : List (ℕ × List ℕ)
  pub pli_handlers : List (ℕ × ℕ)
  pub packet_listeners : List (ℕ × ℕ)
  pub next_listener_id : ℕ
  pub primary_video_ssrc : ℕ
  pub primary_audio_ssrc : ℕ
  pub active_video_track_id : TrackId
  pub active_audio_track_id : TrackId

-- `NewRTPBridge` once the server has started; a size of 0 stands for any that is not positive.
unfoldable pub new_rtp_bridge : {C : Type 0} → Server C → ℕ → AudioCodec → ℕ → Bridge C
new_rtp_bridge server port codec size =
    let buffer_size = if leb size 0 then 2000 else size in
    record {
      rtsp_port = port;
      audio_codec = codec;
      sps = [];
      pps = [];
      started = false;
      server = some server;
      rtp_chan = [];
      chan_capacity = buffer_size;
      rtsp_buffer = new_rtsp_buffer buffer_size;
      active_tracks = [];
      pli_handlers = [];
      packet_listeners = [];
      next_listener_id = 0;
      primary_video_ssrc = 0;
      primary_audio_ssrc = 0;
      active_video_track_id = blank;
      active_audio_track_id = blank;
    }

-- `Stop`, after the sender loop has ended.
unfoldable pub stop : {C : Type 0} → Bridge C → Bridge C
stop b = record b { server = none; started = false }

unfoldable pub is_audio : List ℕ → Bool
is_audio mime = equal_fold mime (codes "audio/opus") || equal_fold mime (codes "audio/aac")

unfoldable pub is_video : List ℕ → Bool
is_video mime =
    has_prefix (to_lower mime) (codes "video/")
    && (contains (to_lower mime) (codes "h264") || contains (to_lower mime) (codes "avc"))

-- The first track of a kind is its primary one; another track of the same SSRC takes its place.
unfoldable pub claim_video : {C : Type 0} → Bridge C → ℕ → TrackId → Bridge C
claim_video b ssrc id =
    if b.primary_video_ssrc == 0
    then record b { primary_video_ssrc = ssrc; active_video_track_id = id }
    else if b.primary_video_ssrc == ssrc
    then record b { active_video_track_id = id }
    else b

unfoldable pub claim_audio : {C : Type 0} → Bridge C → ℕ → TrackId → Bridge C
claim_audio b ssrc id =
    if b.primary_audio_ssrc == 0
    then record b { primary_audio_ssrc = ssrc; active_audio_track_id = id }
    else if b.primary_audio_ssrc == ssrc
    then record b { active_audio_track_id = id }
    else b

-- `TrackStarted`: the bridge, the track's identity, and whether key frames are asked for.
unfoldable pub track_started : {C : Type 0} → Bridge C → ℕ → List ℕ → ℕ → Bridge C × TrackId × Bool
track_started b ssrc mime now =
    let id = of_track ssrc now in
    let b' = record b { active_tracks = insert ssrc mime b.active_tracks } in
    if is_video mime
    then (claim_video b' ssrc id, id, true)
    else if is_audio mime
    then (claim_audio b' ssrc id, id, false)
    else (b', id, false)

unfoldable pub register_pli_handler : {C : Type 0} → Bridge C → ℕ → ℕ → Bridge C
register_pli_handler b ssrc handler = record b { pli_handlers = insert ssrc handler b.pli_handlers }

-- `RequestIDR`: the handlers that are started.
unfoldable pub request_idr : {C : Type 0} → Bridge C → List ℕ
request_idr b = map (λ entry. entry.1) b.pli_handlers

unfoldable pub release_video : {C : Type 0} → Bridge C → ℕ → TrackId → Bridge C
release_video b ssrc id =
    if b.primary_video_ssrc == ssrc && same_id b.active_video_track_id id
    then record b { primary_video_ssrc = 0; active_video_track_id = blank }
    else b

unfoldable pub release_audio : {C : Type 0} → Bridge C → ℕ → TrackId → Bridge C
release_audio b ssrc id =
    if b.primary_audio_ssrc == ssrc && same_id b.active_audio_track_id id
    then record b { primary_audio_ssrc = 0; active_audio_track_id = blank }
    else b

-- The three critical sections of `TrackStopped`.
unfoldable pub stop_primary : {C : Type 0} → Bridge C → ℕ → TrackId → Bridge C
stop_primary b ssrc id =
    let b' = record b { active_tracks = erase ssrc b.active_tracks } in
    release_audio (release_video b' ssrc id) ssrc id

unfoldable pub stop_pli : {C : Type 0} → Bridge C → ℕ → Bridge C
stop_pli b ssrc = record b { pli_handlers = erase ssrc b.pli_handlers }

stop_server : {C : Type 0} → Option (Server C) → Option (Server C)
stop_server none = none
stop_server (some s) = some (stop_real_data s)

unfoldable pub stop_idle : {C : Type 0} → Bridge C → Bridge C
unfolding stop_server
stop_idle b =
    if is_empty b.active_tracks
    then record b { server = stop_server b.server; started = false; sps = []; pps = [] }
    else b

unfoldable pub track_stopped : {C : Type 0} → Bridge C → ℕ → TrackId → Bridge C
track_stopped b ssrc id = stop_idle (stop_pli (stop_primary b ssrc id) ssrc)

-- What `StartServer` returns to `tryStartLocked`: a server and its port, or an error.
abbrev pub Start : Type 0 → Type 0
Start C = Option (Server C × ℕ)

-- A server for the stream, started where there is none.
ensure_server : {C : Type 0} → Start C → Bridge C → Option (Server C) → Option (Server C × ℕ)
ensure_server start b (some s) = some (s, b.rtsp_port)
ensure_server start b none = start

begin_stream : {C : Type 0} → C → Bridge C → Option (Server C × ℕ) → Bridge C
begin_stream ctx b none = b
begin_stream ctx b (some (s, port)) = record b {
  server = some (init_stream ctx s b.sps b.pps);
  rtsp_port = port;
  started = true;
}

-- `tryStartLocked`; the error of a server that does not start is dropped by the caller.
unfoldable pub try_start : {C : Type 0} → C → Start C → Bridge C → Bridge C
unfolding ensure_server begin_stream
try_start ctx start b =
    if b.started || (is_empty b.sps || is_empty b.pps)
    then b
    else begin_stream ctx b (ensure_server start b b.server)

-- `SetSPSPPS`: a parameter set is taken where none is known.
unfoldable pub set_sps_pps : {C : Type 0} → C → Start C → Bridge C → List ℕ → List ℕ → Bridge C
set_sps_pps ctx start b sps pps = try_start ctx start (record b {
  sps = if not (is_empty sps) && is_empty b.sps then sps else b.sps;
  pps = if not (is_empty pps) && is_empty b.pps then pps else b.pps;
})
