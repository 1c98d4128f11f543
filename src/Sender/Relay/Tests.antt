-- ===== src/Sender/Relay/Tests.antt =====
-- A relay that hears a frame of another source, one of its own peer and a sound.
use mistlink.Base.{
  ◌≡◌, refl, suc, ◌++◌, map, length, replicate, arith, ℕ, Bool, true, List, [], ◌∷◌, Option, some,
  ◌==◌,
}
use mistlink.RtpUtils.{Packet, payload_type_h264, payload_type_opus}
use mistlink.Sender.Relay.{ignores}
use mistlink.Sender.Relay.Order.{of_type, Without, video_track, type_of}
use mistlink.Sender.Relay.Shared.{new_shared_relay, SharedEvent, hears, takes, shared_loop}
use mistlink.Sender.Relay.Shared.Fresh.{Fresh, got, wanted_read, shared_loop-Without}
use mistlink.Sender.Relay.Shared.Reuse.{shared_loop-reused}

abbrev packet : ℕ → ℕ → Packet
packet ssrc pt = record {
  ssrc = ssrc;
  payload_type = pt;
  sequence_number = 1;
  timestamp = 0;
  marker = 0;
  payload = 0x65 ∷ [];
}

abbrev ignore : Option (ℕ → Bool)
ignore = some (λ ssrc. ssrc == 6)

abbrev own_addresses : List SharedEvent
own_addresses =
    hears 0 (packet 5 payload_type_h264)
    ∷ takes
    ∷ hears 1 (packet 6 payload_type_h264)
    ∷ hears 2 (packet 5 payload_type_opus)
    ∷ takes
    ∷ []

shared_loop-Without_example :
    Without
      (got video_track (shared_loop ignore true true new_shared_relay own_addresses))
      (of_type (type_of video_track) (wanted_read ignore own_addresses))
unfolding Fresh
shared_loop-Without_example =
    shared_loop-Without ignore true true video_track own_addresses (refl, (refl, (refl, tt)))

abbrev before_last : List Packet
before_last = packet 5 payload_type_opus ∷ packet 7 payload_type_h264 ∷ []

shared_loop-reused_example :
    (shared_loop ignore true true new_shared_relay (
      map (hears 0) before_last
      ++ hears 0 (packet 8 payload_type_h264) ∷ replicate (suc (length before_last)) takes)).video
    ≡ replicate (suc (length before_last)) (packet 8 payload_type_h264)
unfolding ignores
shared_loop-reused_example =
    shared_loop-reused ignore true true before_last (packet 8 payload_type_h264) refl (omega arith)
      (refl, (refl, tt)) refl refl
