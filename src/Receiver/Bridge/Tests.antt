-- ===== src/Receiver/Bridge/Tests.antt =====
-- A bridge with an H.264 source, on a transcoder that gives its input back.
use mistlink.Base.{ℕ, ◌≤◌, ◌≡◌, refl, Bool, true, false, List, [], ◌∷◌, none, arith}
use mistlink.Base.Maps.{erase}
use mistlink.Base.Text.{codes}
use mistlink.RtpUtils.{Packet, payload_type_h264}
use mistlink.Rtsp.Server.{Server, Media, opus, new_server}
use mistlink.Receiver.Bridge.{
  Bridge, of_track, is_video, new_rtp_bridge, track_started, track_stopped, claim_video,
  set_sps_pps, try_start,
}
use mistlink.Receiver.Bridge.Packets.{
  write_rtp, is_allowed, enqueue, sender_loop, sender_round, IsLongest, sender_loop-interval,
  new_sender_loop, received, checked,
}
use mistlink.Receiver.Bridge.Tracks.{TracksInv, TrackEvent, starts, on_tracks, second_video_ignored}
use mistlink.Receiver.Bridge.Restart.{restart_loses_stream}
use mistlink.Receiver.Bridge.Invariant.{BridgeInv}
use mistlink.Receiver.Bridge.Interleaving.{new_world, Reach-new-BridgeInv}
use mistlink.Receiver.Bridge.Sections.{
  World, flushing, Reach, here, then_section, start_track, parameter_sets, admit, send_on_channel,
  receive, close_stop,
}
use mistlink.Receiver.RtspBuffer.{add}

abbrev echo : ℕ → List ℕ → ℕ → ℕ × List ℕ
echo ctx xs n = (ctx, xs)

abbrev accepts_all : Media → Packet → Bool
accepts_all m pkt = true

abbrev h264 : List ℕ
h264 = codes "video/H264"

abbrev server : Server ℕ
server = new_server 0 opus

abbrev bridge : Bridge ℕ
bridge = new_rtp_bridge server 8554 opus 4

abbrev frame : Packet
frame = record {
  ssrc = 5;
  payload_type = payload_type_h264;
  sequence_number = 1;
  timestamp = 0;
  marker = 0;
  payload = 0x65 ∷ [];
}

abbrev clock : ℕ → ℕ
clock i = 1000

abbrev waiting : Bridge ℕ
waiting = record bridge { rtp_chan = frame ∷ frame ∷ [] }

sender_loop-interval_example :
    let s =
      sender_loop echo accepts_all
        (waiting, new_sender_loop)
        (received 0 clock clock ∷ checked ∷ received 0 clock clock ∷ []) in
    let s' = sender_round echo accepts_all s checked in
    ((10 ≤ s.1.interval) × (s.1.interval ≤ 100))
    × ((10 ≤ s'.1.interval) × (s'.1.interval ≤ 100))
    × IsLongest s.1.packet_count s'.1.interval
sender_loop-interval_example =
    sender_loop-interval echo accepts_all waiting
      (received 0 clock clock ∷ checked ∷ received 0 clock clock ∷ [])

bridge-TracksInv : TracksInv bridge
unfolding new_rtp_bridge
bridge-TracksInv = record { video_owner = tt; audio_owner = tt }

abbrev started : List TrackEvent
started = starts 5 h264 1 ∷ []

claimed :
    ((on_tracks bridge started).primary_video_ssrc ≡ 5)
    × ((on_tracks bridge started).primary_audio_ssrc ≡ 0)
unfolding on_tracks track_started new_rtp_bridge is_video claim_video
claimed = (refl, refl)

h264-is_video : is_video h264 ≡ true
unfolding is_video
h264-is_video = refl

second_video_ignored_example :
    let (c, id, asks) = track_started (on_tracks bridge started) 6 h264 2 in
    write_rtp c frame id ≡ (c, [])
second_video_ignored_example =
    second_video_ignored bridge started 6 2 h264 frame bridge-TracksInv
      (λ e. omega (arith, e, claimed.0)) (λ e. omega (arith, e, claimed.0))
      (λ e. omega (arith, e, claimed.1)) h264-is_video

no_primary : (bridge.primary_video_ssrc ≡ 0) × (erase 5 bridge.active_tracks ≡ [])
unfolding new_rtp_bridge erase
no_primary = (refl, refl)

restart_loses_stream_example :
    let running = (track_started (track_started bridge 5 h264 1).0 5 h264 2).0 in
    let after = track_stopped running 5 (of_track 5 1) in
    (after.active_video_track_id ≡ of_track 5 2)
    × (after.started ≡ false)
    × (after.sps ≡ [])
    × (after.pps ≡ [])
restart_loses_stream_example =
    restart_loses_stream bridge 5 1 2 h264 (λ e. omega (arith, e)) no_primary.0 no_primary.1
      h264-is_video

-- The stream starts between two packets.
abbrev started_bridge : Bridge ℕ
started_bridge = set_sps_pps 0 none (track_started bridge 5 h264 1).0 (0x67 ∷ []) (0x68 ∷ [])

started-allowed :
    (is_allowed started_bridge (of_track 5 1) ≡ true)
    × (started_bridge.started ≡ true)
    × ((enqueue started_bridge frame).rtp_chan ≡ frame ∷ [])
unfolding is_allowed set_sps_pps track_started new_rtp_bridge is_video claim_video enqueue try_start
started-allowed = (refl, refl, refl)

abbrev offered : World ℕ
offered = new_world started_bridge

-- The bridge when the packet is out of its channel again.
abbrev taken_out : Bridge ℕ
taken_out =
    let queued = enqueue started_bridge frame in
    record queued { rtp_chan = []; rtsp_buffer = add queued.rtsp_buffer frame 1000 }

-- A packet of the track is written, waits for its send on the channel, and is received; then the
-- bridge is stopped.
interleaved :
    Reach echo accepts_all 0
      (new_world bridge)
      (record offered { bridge = taken_out; phase = flushing false; stopping = true })
interleaved =
    then_section
      (then_section
        (then_section
          (then_section
            (then_section (then_section here (start_track 5 h264 1))
              (parameter_sets none (0x67 ∷ []) (0x68 ∷ [])))
            (admit frame (of_track 5 1) started-allowed.0 started-allowed.1))
          (send_on_channel [] [] frame refl))
        (receive frame [] 1000 refl started-allowed.2))
      close_stop

Reach-new-BridgeInv_example : BridgeInv taken_out
Reach-new-BridgeInv_example = Reach-new-BridgeInv echo accepts_all 0 server 8554 opus 4 interleaved
