-- ===== src/Sender/Mpegts/Tests.antt =====
-- A socket that gives two packets of two sources, between them bytes that are no packet.
use mathlib.Core.List.{Permᴰ}
use mathlib.Core.List.Permᴰ
use mistlink.Base.{refl, ℕ, List, [], ◌∷◌, none, some}
use mistlink.RtpUtils.{Packet, payload_type_h264}
use mistlink.Rtsp.Server.{Server, opus, new_server}
use mistlink.Receiver.Bridge.{Bridge, TrackId, new_rtp_bridge}
use mistlink.Receiver.Bridge.Tracks.{TracksInv}
use mistlink.Sender.Mpegts.{
  Order, Datagram, parsed, malformed, Input, mpegts_loop, handle_mpegts_stream,
}
use mistlink.Sender.Mpegts.Release.{Cleaned, handle_mpegts_stream-Cleaned}

abbrev server : Server ℕ
server = new_server 0 opus

abbrev bridge : Bridge ℕ
bridge = new_rtp_bridge server 8554 opus 4

abbrev frame : ℕ → Packet
frame n = record {
  ssrc = n;
  payload_type = payload_type_h264;
  sequence_number = n;
  timestamp = 0;
  marker = 0;
  payload = 0x65 ∷ [];
}

abbrev datagrams : List Datagram
datagrams = parsed (frame 1) 10 ∷ malformed ∷ parsed (frame 2) 20 ∷ []

bridge-TracksInv : TracksInv bridge
unfolding new_rtp_bridge
bridge-TracksInv = record { video_owner = tt; audio_owner = tt }

-- The second track before the first one.
abbrev rotated : Order
rotated [] = []
rotated (x ∷ []) = x ∷ []
rotated (x ∷ y ∷ ids) = y ∷ x ∷ ids

rotated-Permᴰ : (ids : List (ℕ × TrackId)) → Permᴰ (rotated ids) ids
rotated-Permᴰ [] = Permᴰ.refl []
rotated-Permᴰ (x ∷ []) = Permᴰ.refl (x ∷ [])
rotated-Permᴰ (x ∷ y ∷ ids) = Permᴰ.swap refl refl

handle_mpegts_stream-Cleaned_example :
    let opened : Input ℕ = record { bridge = some bridge; track_ids = [] } in
    Cleaned 0 none
      (handle_mpegts_stream 0 none none none rotated (some bridge) datagrams)
      (mpegts_loop 0 none none none opened datagrams).track_ids
handle_mpegts_stream-Cleaned_example =
    handle_mpegts_stream-Cleaned 0 none none none rotated bridge datagrams rotated-Permᴰ
      bridge-TracksInv
