-- ===== src/Rtsp/Aac/Tests.antt =====
-- A transcoder that gives its input back, and none for a packet of one byte.
use mistlink.Base.{ℕ, List, [], ◌∷◌}
use mistlink.RtpUtils.{Packet, payload_type_opus}
use mistlink.Rtsp.Aac.{process_all, new_aac_processor}
use mistlink.Rtsp.Aac.Laws.{Ticks, process_all-Ticks}

abbrev echo : ℕ → List ℕ → ℕ → ℕ × List ℕ
echo ctx [] n = (ctx, [])
echo ctx (b ∷ []) n = (ctx, [])
echo ctx (a ∷ b ∷ bs) n = (ctx, a ∷ b ∷ bs)

abbrev opus_packet : ℕ → List ℕ → Packet
opus_packet time payload = record {
  ssrc = 9;
  payload_type = payload_type_opus;
  sequence_number = 1;
  timestamp = time;
  marker = 0;
  payload = payload;
}

process_all-Ticks_example :
    Ticks 50
      (process_all echo (new_aac_processor 0) (
        opus_packet 50 (1 ∷ 2 ∷ []) ∷ opus_packet 900 (3 ∷ []) ∷ opus_packet 7 (4 ∷ 5 ∷ []) ∷ [])).1
process_all-Ticks_example =
    process_all-Ticks echo 0 (opus_packet 50 (1 ∷ 2 ∷ []))
      (opus_packet 900 (3 ∷ []) ∷ opus_packet 7 (4 ∷ 5 ∷ []) ∷ [])
