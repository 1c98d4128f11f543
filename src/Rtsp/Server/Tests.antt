-- ===== src/Rtsp/Server/Tests.antt =====
-- A server that starts, writes audio and video, and falls back to its dummy stream.
use mistlink.Base.{ℕ, Bool, true, List, [], ◌∷◌}
use mistlink.RtpUtils.{Packet, payload_type_h264, payload_type_opus}
use mistlink.Rtsp.Server.{Media, aac, new_server}
use mistlink.Rtsp.Server.Writing.{new_dummy_loop}
use mistlink.Rtsp.Server.Laws.{
  ServerInv, Request, packet, parameter_sets, real_data_stopped, tick, serve, serve-new-ServerInv,
}

abbrev echo : ℕ → List ℕ → ℕ → ℕ × List ℕ
echo ctx xs n = (ctx, xs)

abbrev accepts_all : Media → Packet → Bool
accepts_all m pkt = true

abbrev media : ℕ → Packet
media payload_type = record {
  ssrc = 5;
  payload_type = payload_type;
  sequence_number = 1;
  timestamp = 0;
  marker = 0;
  payload = 0x65 ∷ [];
}

abbrev requests : List Request
requests =
    tick new_dummy_loop
    ∷ parameter_sets (0x67 ∷ []) (0x68 ∷ [])
    ∷ packet (media payload_type_h264)
    ∷ packet (media payload_type_opus)
    ∷ real_data_stopped
    ∷ []

serve-new-ServerInv_example : ServerInv (serve echo accepts_all 0 (new_server 0 aac) requests)
serve-new-ServerInv_example = serve-new-ServerInv echo accepts_all 0 aac requests
