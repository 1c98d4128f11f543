-- ===== src/Receiver/TrackLoop.antt =====
-- internal/receiver/rtp_handler.go, HandleTrack: the life of one remote track.
pub mod Release
mod Tests
use mistlink.Base.{
  ℕ, ◌+◌, ◌-◌, ◌*◌, Bool, true, false, ◌&&◌, ◌||◌, not, List, [], ◌∷◌, Option, none, some, ltb,
  is_empty, if◌then◌else◌,
}
use mistlink.Base.Text.{codes, equal_fold}
use mistlink.RtpUtils.{Packet, payload_type_h264, payload_type_opus}
use mistlink.Receiver.Stats.{
  TrackStats, new_track_stats, check_sequence_gap, update_nal_stats, log_if_time,
}
use mistlink.Receiver.Nack.{TransportLayerNack, send_nack}
use mistlink.Receiver.Bridge.{
  Bridge, TrackId, Start, track_started, track_stopped, register_pli_handler,
}
use mistlink.Receiver.Bridge.Packets.{write_rtp}
use mistlink.Receiver.VideoPacket.{process_video_packet}

abbrev pub mime_h264 : List ℕ
mime_h264 = codes "video/H264"

abbrev pub mime_opus : List ℕ
mime_opus = codes "audio/opus"

-- nanoseconds
abbrev pub pli_interval : ℕ
pli_interval = 5 * 1000000000

-- The variables of the loop.
pub record Loop (C : Type 0) : Type 0 where
  pub bridge : Bridge C
  pub stats : TrackStats
  pub last_pli_time : ℕ

-- What a packet makes the loop send: feedback to the track's sender, and the packet to the bridge's
-- listeners.
pub record Feedback : Type 0 where
  pub nack : Option TransportLayerNack
  pub pli : Bool
  pub to_listeners : List ℕ

-- The branch for a video packet, with the feedback.
unfoldable pub video_packet :
    {C : Type 0}
    → C
    → Start C
    → Bool
    → ℕ
    → TrackId
    → ℕ
    → Loop C
    → Packet
    → Loop C × Option TransportLayerNack × Bool
video_packet {C} ctx start has_writer ssrc id now l pkt =
    let (stats, missing) = check_sequence_gap l.stats pkt.sequence_number in
    let pli : Bool = not l.bridge.started && ltb pli_interval (now - l.last_pli_time) in
    let (bridge, nal_type, idr) = process_video_packet ctx start l.bridge pkt.payload id in
    (
      record {
        bridge = bridge;
        stats = update_nal_stats stats nal_type idr;
        last_pli_time = if pli then now else l.last_pli_time;
      },
      (if is_empty missing then none else send_nack has_writer ssrc missing),
      pli,
    )

-- One packet; `now` is what the round reads of the clock.
unfoldable pub track_round :
    {C : Type 0} → C → Start C → Bool → Bool → ℕ → TrackId → Loop C → Packet × ℕ → Loop C × Feedback
track_round {C} ctx start video has_writer ssrc id l (pkt, now) =
    let (l', nack, pli) : Loop C × Option TransportLayerNack × Bool =
      if video then video_packet ctx start has_writer ssrc id now l pkt else (l, none, false) in
    let pkt' : Packet = record pkt {
      payload_type = if video then payload_type_h264 else payload_type_opus;
    } in
    let (bridge, listeners) = write_rtp l'.bridge pkt' id in
    let stats : TrackStats = record l'.stats { packet_count = l'.stats.packet_count + 1 } in
    (
      record l' { bridge = bridge; stats = log_if_time stats video now },
      record { nack = nack; pli = pli; to_listeners = listeners },
    )

-- The packets that are read before the read that fails, which ends the loop.
unfoldable pub track_loop :
    {C : Type 0}
    → C
    → Start C
    → Bool
    → Bool
    → ℕ
    → TrackId
    → Loop C
    → List (Packet × ℕ)
    → Loop C × List Feedback
track_loop ctx start video has_writer ssrc id l [] = (l, [])
track_loop ctx start video has_writer ssrc id l (read ∷ reads) =
    let (l', sent) = track_round ctx start video has_writer ssrc id l read in
    let (l'', later) = track_loop ctx start video has_writer ssrc id l' reads in (l'', sent ∷ later)

-- The loop between the start of the track and its end, from the time `now`.
unfoldable pub run_track :
    {C : Type 0}
    → C
    → Start C
    → Bool
    → Bool
    → Bridge C
    → ℕ
    → List ℕ
    → ℕ
    → List (Packet × ℕ)
    → Bridge C × List Feedback
run_track {C} ctx start video has_writer b ssrc mime now reads =
    let (b', id, asks) = track_started b ssrc mime now in
    let l : Loop C = record { bridge = b'; stats = new_track_stats now; last_pli_time = now } in
    let (end, sent) = track_loop ctx start video has_writer ssrc id l reads in
    (track_stopped end.bridge ssrc id, sent)

-- `HandleTrack`; `handler` is the track's handler for picture loss indications.
unfoldable pub handle_track :
    {C : Type 0}
    → C
    → Start C
    → Bool
    → Bridge C
    → ℕ
    → ℕ
    → List ℕ
    → ℕ
    → List (Packet × ℕ)
    → Bridge C × List Feedback
handle_track ctx start has_writer b ssrc handler mime now reads =
    if equal_fold mime mime_h264
    then run_track ctx start true has_writer (register_pli_handler b ssrc handler) ssrc mime now
        reads
    else if equal_fold mime mime_opus
    then run_track ctx start false has_writer b ssrc mime now reads
    else (b, [])
