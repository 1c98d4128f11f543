-- ===== src/Stream/Broadcaster/Running/Tests.antt =====
-- A broadcaster of a video track: two receivers, of which one leaves.
use mistlink.Base.{ℕ, ◌≡◌, refl, true, false, List, [], ◌∷◌, ◌++◌, none, some}
use mistlink.RtpUtils.{Packet}
use mistlink.Rtsp.Server.{Server, opus, new_server}
use mistlink.Receiver.Bridge.{Bridge, new_rtp_bridge, of_track}
use mistlink.Receiver.Bridge.Tracks.{TracksInv}
use mistlink.Receiver.Bridge.Frame.{IsGone, tracks_of}
use mistlink.Receiver.TrackLoop.{mime_h264}
use mistlink.Stream.Broadcaster.{TrackBroadcaster, new_track_broadcaster}
use mistlink.Stream.Broadcaster.Running.{Running, Event, joins, leaves, reads, ends, start_run, run}
use mistlink.Stream.Broadcaster.Running.Release.{run-Released}

abbrev frame : ℕ → List ℕ → Packet
frame n payload = record {
  ssrc = 5;
  payload_type = 102;
  sequence_number = n;
  timestamp = 0;
  marker = 0;
  payload = payload;
}

abbrev server : Server ℕ
server = new_server 0 opus

abbrev bridge : Bridge ℕ
bridge = new_rtp_bridge server 8554 opus 4

bridge-TracksInv : TracksInv bridge
unfolding new_rtp_bridge
bridge-TracksInv = record { video_owner = tt; audio_owner = tt }

abbrev track : TrackBroadcaster
track = new_track_broadcaster 5 true

-- A SPS has come before the receiver joins.
abbrev started : Running ℕ
started =
    (run 0 none (start_run track (some bridge) mime_h264 7) (reads (frame 1 (0x67 ∷ [])) 8 ∷ [])).0

abbrev during : List Event
during = reads (frame 2 (0x65 ∷ [])) 9 ∷ joins 2 20 ∷ reads (frame 3 (0x41 ∷ [])) 10 ∷ leaves 2 ∷ []

abbrev later : List Event
later = joins 3 30 ∷ reads (frame 4 (0x41 ∷ [])) 11 ∷ ends ∷ []

run-Released_example :
    let s = (run 0 none (start_run track (some bridge) mime_h264 7) (during ++ ends ∷ [])).0 in
    (s.running ≡ false)
    × ((c : Bridge ℕ) × (s.loop.bridge ≡ some c)
        × TracksInv c
        × IsGone track.ssrc (of_track track.ssrc 7) (tracks_of c))
run-Released_example = run-Released 0 none track bridge mime_h264 7 during bridge-TracksInv refl
