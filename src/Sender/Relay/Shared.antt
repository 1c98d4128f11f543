-- ===== src/Sender/Relay/Shared.antt =====
-- internal/sender/relay_stream.go with packets as the pointers that `pktChan` holds: what a pointer
-- leads to may change between the listener's call and the write to a track.
pub mod Fresh
pub mod Reuse
use mistlink.Base.{
  ℕ, zero, suc, ◌+◌, ◌≤◌, ◌<◌, ◌≡◌, refl, sym, ◌∙◌, ap, Bool, true, false, ◌&&◌, List, [], ◌∷◌,
  ◌++◌, map, Option, none, some, ◌==◌, if◌then◌else◌, ltb, length, length-append, length-map, arith,
  All, Bool-cases, inl, inr, List-cases,
}
use mistlink.Base.Members.{member, member-append}
use mistlink.RtpUtils.{Packet, payload_type_h264, payload_type_opus}
use mistlink.Sender.Relay.{
  Relay, relay_capacity, ignores, hear_packet, write_packet, take_packet, RelayEvent, heard, taken,
  relay_loop,
}

-- The packets at their addresses, the addresses in `pktChan`, and what was written to the tracks.
pub record SharedRelay : Type 0 where
  pub store : ℕ → Packet
  pub chan : List ℕ
  pub video : List Packet
  pub audio : List Packet

abbrev pub blank_packet : Packet
blank_packet = record {
  ssrc = 0;
  payload_type = 0;
  sequence_number = 0;
  timestamp = 0;
  marker = 0;
  payload = [];
}

abbrev pub new_shared_relay : SharedRelay
new_shared_relay = record { store = λ _. blank_packet; chan = []; video = []; audio = [] }

-- `packet.Unmarshal` or a new packet: what the address leads to from now on.
unfoldable pub set_packet : ℕ → Packet → (ℕ → Packet) → ℕ → Packet
set_packet a p store x = if x == a then p else store x

-- A packet is read into an address and the listener is called with the address.
unfoldable pub hear_reference : Option (ℕ → Bool) → ℕ → Packet → SharedRelay → SharedRelay
hear_reference ignore a p r =
    let s : SharedRelay = record r { store = set_packet a p r.store } in
    if ignores ignore (s.store a)
    then s
    else if ltb (length s.chan) relay_capacity
    then record s { chan = s.chan ++ (a ∷ []) }
    else s

unfoldable pub write_reference : Bool → Bool → SharedRelay → Packet → SharedRelay
write_reference video audio r pkt =
    if pkt.payload_type == payload_type_h264
    then if video then record r { video = r.video ++ (pkt ∷ []) } else r
    else if pkt.payload_type == payload_type_opus
    then if audio then record r { audio = r.audio ++ (pkt ∷ []) } else r
    else r

-- What is written is what the address leads to when it is taken.
unfoldable pub take_reference : Bool → Bool → SharedRelay → SharedRelay
take_reference video audio r = elim r.chan [
  | [] ↦ r
  | a ∷ rest ↦ write_reference video audio (record r { chan = rest }) (r.store a)
]

-- A packet is read into an address and the listener is called with it, or only read; or the loop
-- takes one.
pub data SharedEvent : Type 0 where
  hears reads : ℕ → Packet → SharedEvent
  takes : SharedEvent

unfoldable pub shared_step :
    Option (ℕ → Bool) → Bool → Bool → SharedRelay → SharedEvent → SharedRelay
shared_step ignore video audio r (hears a p) = hear_reference ignore a p r
shared_step ignore video audio r (reads a p) = record r { store = set_packet a p r.store }
shared_step ignore video audio r takes = take_reference video audio r

unfoldable pub shared_loop :
    Option (ℕ → Bool) → Bool → Bool → SharedRelay → List SharedEvent → SharedRelay
shared_loop ignore video audio r [] = r
shared_loop ignore video audio r (e ∷ es) =
    shared_loop ignore video audio (shared_step ignore video audio r e) es

-- The same events with the packets themselves.
unfoldable pub by_values : List SharedEvent → List RelayEvent
by_values [] = []
by_values (hears a p ∷ es) = heard p ∷ by_values es
by_values (reads a p ∷ es) = by_values es
by_values (takes ∷ es) = taken ∷ by_values es

pub set_packet-same : (a : ℕ) (p : Packet) (store : ℕ → Packet) → set_packet a p store a ≡ p
unfolding set_packet
set_packet-same a p store = ground arith
