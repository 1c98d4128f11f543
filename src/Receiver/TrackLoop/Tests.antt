-- ===== src/Receiver/TrackLoop/Tests.antt =====
-- A video track of two packets.
use mistlink.Base.{ℕ, refl, true, [], ◌∷◌, none}
use mistlink.RtpUtils.{Packet}
use mistlink.Rtsp.Server.{Server, opus, new_server}
use mistlink.Receiver.Bridge.{Bridge, new_rtp_bridge, of_track}
use mistlink.Receiver.Bridge.Tracks.{TracksInv}
use mistlink.Receiver.Bridge.Frame.{IsGone, tracks_of}
use mistlink.Receiver.TrackLoop.{handle_track, mime_h264}
use mistlink.Receiver.TrackLoop.Release.{handle_track-IsGone}

abbrev server : Server ℕ
server = new_server 0 opus

abbrev bridge : Bridge ℕ
bridge = new_rtp_bridge server 8554 opus 4

abbrev frame : ℕ → Packet
frame n = record {
  ssrc = 5;
  payload_type = 102;
  sequence_number = n;
  timestamp = 0;
  marker = 0;
  payload = 0x65 ∷ [];
}

bridge-TracksInv : TracksInv bridge
unfolding new_rtp_bridge
bridge-TracksInv = record { video_owner = tt; audio_owner = tt }

handle_track-IsGone_example :
    let c =
      (handle_track 0 none true bridge 5 1 mime_h264 7 ((frame 1, 8) ∷ (frame 3, 9) ∷ [])).0 in
    IsGone 5 (of_track 5 7) (tracks_of c) × TracksInv c
handle_track-IsGone_example =
    handle_track-IsGone 0 none true bridge 5 1 mime_h264 7 ((frame 1, 8) ∷ (frame 3, 9) ∷ [])
      bridge-TracksInv refl
