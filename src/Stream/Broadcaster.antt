-- ===== src/Stream/Broadcaster.antt =====
-- internal/stream/broadcaster.go: one remote track, passed on to the local tracks of its receivers,
-- with the parameter sets that a receiver who joins late is sent first.
pub mod Gaps
pub mod Joining
pub mod Running
mod Tests
use Prim.Native.Nat.{bit_and}
use mistlink.Base.{
  ℕ, zero, suc, ◌+◌, ◌-◌, ◌*◌, Bool, true, false, ◌&&◌, not, List, [], ◌∷◌, ◌++◌, map, Option, none,
  some, ltb, leb, ◌==◌, if◌then◌else◌, is_empty, length,
}
use mistlink.Base.Maps.{insert, erase}
use mistlink.Base.Words.{sub16}
use mistlink.RtpUtils.{
  Packet, nal_mask, nal_type_sps, nal_type_pps, nal_type_stap_a, payload_type_h264,
  payload_type_opus,
}
use mistlink.StapA.{last_loop}
use mistlink.Receiver.Stats.{missing_from}
use mistlink.Receiver.Nack.{TransportLayerNack, send_nack}
use mistlink.Receiver.Bridge.{Bridge, TrackId, Start}
use mistlink.Receiver.Bridge.Packets.{write_rtp}
use mistlink.Receiver.VideoPacket.{process_video_packet}

-- `TrackBroadcaster`: a receiver's id names its local track; an empty list is a nil slice.
pub record TrackBroadcaster : Type 0 where
  pub ssrc : ℕ
  pub has_writer : Bool
  pub receivers : List (ℕ × ℕ)
  pub sps : List ℕ
  pub pps : List ℕ

unfoldable pub new_track_broadcaster : ℕ → Bool → TrackBroadcaster
new_track_broadcaster ssrc has_writer = record {
  ssrc = ssrc;
  has_writer = has_writer;
  receivers = [];
  sps = [];
  pps = [];
}

-- The call of `Write` with a cached unit. The library takes the bytes for a whole RTP packet and may
-- refuse them; the error is logged only.
abbrev pub write_unless_empty : ℕ → List ℕ → List (ℕ × List ℕ)
write_unless_empty local_track unit = if is_empty unit then [] else (local_track, unit) ∷ []

-- The state, the calls of `Write` on the new local track, both made whatever the first returns, and
-- whether a PLI is sent.
unfoldable pub add_receiver : TrackBroadcaster → ℕ → ℕ → TrackBroadcaster × List (ℕ × List ℕ) × Bool
add_receiver b id local_track = (
  record b { receivers = insert id local_track b.receivers },
  write_unless_empty local_track b.sps ++ write_unless_empty local_track b.pps,
  b.has_writer,
)

unfoldable pub remove_receiver : TrackBroadcaster → ℕ → TrackBroadcaster
remove_receiver b id = record b { receivers = erase id b.receivers }

unfoldable pub extract_sps_pps : TrackBroadcaster → List ℕ → TrackBroadcaster
extract_sps_pps b [] = b
extract_sps_pps b (first ∷ rest) =
    let nal_type = bit_and first nal_mask in
    let (sps, pps) = last_loop (length rest + 1) rest (b.sps, b.pps) in
    if nal_type == nal_type_stap_a
    then record b { sps = sps; pps = pps }
    else if nal_type == nal_type_sps
    then record b { sps = first ∷ rest }
    else if nal_type == nal_type_pps
    then record b { pps = first ∷ rest }
    else b

-- `trackStats`
pub record TrackStats : Type 0 where
  pub last_seq : ℕ
  pub initialized : Bool
  pub packet_count : ℕ
  pub last_log_time : ℕ

unfoldable pub new_track_stats : ℕ → TrackStats
new_track_stats now = record {
  last_seq = 0;
  initialized = false;
  packet_count = 0;
  last_log_time = now;
}

unfoldable pub check_sequence_gap : TrackStats → ℕ → TrackStats × List ℕ
check_sequence_gap s seq =
    let diff = sub16 seq s.last_seq in
    if s.initialized
    then (
      record s { last_seq = seq },
      (if leb diff 1
          then []
          else if ltb 100 diff
          then []
          else missing_from s.last_seq 1 (diff - 1)),
    )
    else (record s { last_seq = seq; initialized = true }, [])

abbrev log_interval : ℕ
log_interval = 10 * 1000000000

unfoldable pub log_if_time : TrackStats → ℕ → TrackStats
log_if_time s now =
    if ltb log_interval (now - s.last_log_time) then record s { last_log_time = now } else s

-- The state of the loop of `run`: the bridge is there unless loopback is off.
pub record Loop (C : Type 0) : Type 0 where
  pub broadcaster : TrackBroadcaster
  pub stats : TrackStats
  pub bridge : Option (Bridge C)
  pub last_pli_time : ℕ

-- What a packet makes the loop send: NACKs and a PLI back, the packet to the bridge's listeners and
-- to the receivers' local tracks.
pub record Sent : Type 0 where
  pub nack : Option TransportLayerNack
  pub pli : Bool
  pub to_listeners : List ℕ
  pub to_receivers : List ℕ
  pub packet : Packet

abbrev pli_interval : ℕ
pli_interval = 5 * 1000000000

unfoldable pub is_started : {C : Type 0} → Option (Bridge C) → Bool
is_started none = false
is_started (some bridge) = bridge.started

unfoldable pub through_bridge :
    {C : Type 0} → C → Start C → Option (Bridge C) → Packet → TrackId → Bool → Option (Bridge C)
through_bridge ctx start none pkt id video = none
through_bridge ctx start (some bridge) pkt id video =
    some (if video then (process_video_packet ctx start bridge pkt.payload id).0 else bridge)

unfoldable pub to_bridge :
    {C : Type 0} → Option (Bridge C) → Packet → TrackId → Option (Bridge C) × List ℕ
to_bridge none pkt id = (none, [])
to_bridge (some bridge) pkt id =
    let (bridge', listeners) = write_rtp bridge pkt id in (some bridge', listeners)

-- One packet of `run`, after the read, for a video or an audio track.
unfoldable pub round :
    {C : Type 0} → C → Start C → Bool → TrackId → ℕ → Loop C → Packet → Loop C × Sent
round {C} ctx start video id now l pkt =
    let (stats, missing) : TrackStats × List ℕ =
      if video then check_sequence_gap l.stats pkt.sequence_number else (l.stats, []) in
    let pli : Bool =
      video && not (is_started l.bridge) && ltb pli_interval (now - l.last_pli_time) in
    let b : TrackBroadcaster =
      if video then extract_sps_pps l.broadcaster pkt.payload else l.broadcaster in
    let seen : Option (Bridge C) = through_bridge ctx start l.bridge pkt id video in
    let pkt' : Packet = record pkt {
      payload_type = if video then payload_type_h264 else payload_type_opus;
    } in
    let (bridge, listeners) : Option (Bridge C) × List ℕ = to_bridge seen pkt' id in
    (
      record {
        broadcaster = b;
        stats = log_if_time (record stats { packet_count = stats.packet_count + 1 }) now;
        bridge = bridge;
        last_pli_time = if pli then now else l.last_pli_time;
      },
      record {
        nack = if is_empty missing then none else send_nack b.has_writer b.ssrc missing;
        pli = pli;
        to_listeners = listeners;
        to_receivers = map (λ (entry : ℕ × ℕ). entry.1) b.receivers;
        packet = pkt';
      },
    )
