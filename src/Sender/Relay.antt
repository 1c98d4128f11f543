-- ===== src/Sender/Relay.antt =====
-- internal/sender/relay_stream.go, HandleRelayStream: the bridge's packets to the two tracks of a
-- peer, through a channel of a hundred. The listener is entered and removed by the bridge's
-- `add_listener` and `remove_listener`. The loop itself, which holds pointers, is in Shared; here is
-- the relay of packets by value that Shared/Fresh compares it with, which is no code.
pub mod Order
pub mod Shared
mod Tests
use mistlink.Base.{
  ℕ, Bool, true, false, not, ◌&&◌, List, [], ◌∷◌, ◌++◌, Option, none, some, ◌==◌, if◌then◌else◌,
  ltb, length,
}
use mistlink.RtpUtils.{Packet, payload_type_h264, payload_type_opus}

-- The packets in `pktChan`, and those that were written to the tracks.
pub record Relay : Type 0 where
  pub pkt_chan : List Packet
  pub video_written : List Packet
  pub audio_written : List Packet

abbrev pub new_relay : Relay
new_relay = record { pkt_chan = []; video_written = []; audio_written = [] }

abbrev pub relay_capacity : ℕ
relay_capacity = 100

-- `ignoreSSRC != nil && ignoreSSRC(pkt.SSRC)`
unfoldable pub ignores : Option (ℕ → Bool) → Packet → Bool
ignores none pkt = false
ignores (some ignore_ssrc) pkt = ignore_ssrc pkt.ssrc

-- The listener.
unfoldable pub hear_packet : Option (ℕ → Bool) → Relay → Packet → Relay
hear_packet ignore r pkt =
    if ignores ignore pkt
    then r
    else if ltb (length r.pkt_chan) relay_capacity
    then record r { pkt_chan = r.pkt_chan ++ (pkt ∷ []) }
    else r

-- The switch on the payload type; whether there are the two tracks.
unfoldable pub write_packet : Bool → Bool → Relay → Packet → Relay
write_packet video audio r pkt =
    if pkt.payload_type == payload_type_h264
    then if video then record r { video_written = r.video_written ++ (pkt ∷ []) } else r
    else if pkt.payload_type == payload_type_opus
    then if audio then record r { audio_written = r.audio_written ++ (pkt ∷ []) } else r
    else r

-- The select, where it takes a packet: with an empty channel it waits.
unfoldable pub take_packet : Bool → Bool → Relay → Relay
take_packet video audio r = elim r.pkt_chan [
  | [] ↦ r
  | pkt ∷ rest ↦ write_packet video audio (record r { pkt_chan = rest }) pkt
]

-- What happens until `done` is closed.
pub data RelayEvent : Type 0 where
  heard : Packet → RelayEvent
  taken : RelayEvent

unfoldable pub relay_loop : Option (ℕ → Bool) → Bool → Bool → Relay → List RelayEvent → Relay
relay_loop ignore video audio r [] = r
relay_loop ignore video audio r (heard pkt ∷ es) =
    relay_loop ignore video audio (hear_packet ignore r pkt) es
relay_loop ignore video audio r (taken ∷ es) =
    relay_loop ignore video audio (take_packet video audio r) es
