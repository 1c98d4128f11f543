-- ===== src/Sender/Mpegts.antt =====
-- internal/sender/mpegts_to_rtp.go, HandleMPEGTSStream: the RTP socket. Its last two parameters are
-- not used by the code.
pub mod Release
mod Tests
use mistlink.Base.{
  ℕ, Bool, true, false, not, ◌&&◌, List, [], ◌∷◌, Option, none, some, ◌==◌, if◌then◌else◌, is_empty,
}
use mistlink.Base.Maps.{lookup, insert}
use mistlink.RtpUtils.{Packet, payload_type_h264, payload_type_opus}
use mistlink.Receiver.Bridge.{Bridge, TrackId, Start, track_started, track_stopped}
use mistlink.Receiver.Bridge.Packets.{write_rtp}
use mistlink.Receiver.VideoPacket.{process_video_packet}
use mistlink.Receiver.TrackLoop.{mime_h264, mime_opus}

-- What is read of the socket, and the time: a packet, or bytes that are none.
pub data Datagram : Type 0 where
  parsed : Packet → ℕ → Datagram
  malformed : Datagram

-- A track that packets are written to: whether it takes one.
abbrev pub Sink : Type 0
Sink = Option (Packet → Bool)

-- The bridge, if there is one, and the identities of the tracks that were started.
pub record Input (C : Type 0) : Type 0 where
  pub bridge : Option (Bridge C)
  pub track_ids : List (ℕ × TrackId)

unfoldable pub sink_takes : Sink → Packet → Bool
sink_takes none pkt = true
sink_takes (some takes) pkt = takes pkt

-- The mime type, which is empty for other payload types.
unfoldable pub mime_type : ℕ → List ℕ
mime_type pt =
    if pt == payload_type_h264 then mime_h264 else if pt == payload_type_opus then mime_opus else []

unfoldable pub track_takes : Sink → Sink → Packet → Bool
track_takes video audio pkt =
    if pkt.payload_type == payload_type_h264
    then sink_takes video pkt
    else if pkt.payload_type == payload_type_opus
    then sink_takes audio pkt
    else true

-- The track of a source: the one that was started for it, or a new one.
unfoldable pub track_of :
    {C : Type 0}
    → Bridge C
    → List (ℕ × TrackId)
    → ℕ
    → List ℕ
    → ℕ
    → Bridge C × List (ℕ × TrackId) × TrackId
track_of b ids ssrc mime now = elim (lookup ssrc ids) [
  | some id ↦ (b, ids, id)
  | none ↦ let (b', id, asks) = track_started b ssrc mime now in (b', insert ssrc id ids, id)
]

-- A packet of a known payload type goes into the bridge.
unfoldable pub feed :
    {C : Type 0} → C → Start C → Bridge C → List (ℕ × TrackId) → Packet → ℕ → Input C
feed {C} ctx start b ids pkt now =
    let (b', ids', id) = track_of b ids pkt.ssrc (mime_type pkt.payload_type) now in
    let seen : Bridge C =
      if pkt.payload_type == payload_type_h264
      then (process_video_packet ctx start b' pkt.payload id).0
      else b' in
    record { bridge = some (write_rtp seen pkt id).0; track_ids = ids' }

unfoldable pub feed_input : {C : Type 0} → C → Start C → Input C → Packet → ℕ → Input C
feed_input ctx start s pkt now = elim s.bridge [
  | none ↦ s
  | some b ↦
      if is_empty (mime_type pkt.payload_type) then s else feed ctx start b s.track_ids pkt now
]

-- One datagram, and whether the loop goes on.
unfoldable pub datagram_round :
    {C : Type 0} → C → Start C → Sink → Sink → Input C → Datagram → Input C × Bool
datagram_round ctx start video audio s malformed = (s, true)
datagram_round ctx start video audio s (parsed pkt now) =
    if is_empty pkt.payload
    then (s, true)
    else if track_takes video audio pkt
    then (feed_input ctx start s pkt now, true)
    else (s, false)

-- The datagrams that are read before the read that fails.
unfoldable pub mpegts_loop :
    {C : Type 0} → C → Start C → Sink → Sink → Input C → List Datagram → Input C
mpegts_loop ctx start video audio s [] = s
mpegts_loop ctx start video audio s (d ∷ ds) =
    let (s', more) = datagram_round ctx start video audio s d in
    let rest = mpegts_loop ctx start video audio s' ds in if more then rest else s'

-- An order in which a Go map is gone through.
abbrev pub Order : Type 0
Order = List (ℕ × TrackId) → List (ℕ × TrackId)

-- The deferred loop over `trackIDs`.
unfoldable pub stop_all : {C : Type 0} → List (ℕ × TrackId) → Bridge C → Bridge C
stop_all [] b = b
stop_all ((ssrc, id) ∷ ids) b = stop_all ids (track_stopped b ssrc id)

unfoldable pub stop_input : {C : Type 0} → Order → Input C → Option (Bridge C)
stop_input order s = elim s.bridge [ none ↦ none | some b ↦ some (stop_all (order s.track_ids) b) ]

unfoldable pub handle_mpegts_stream :
    {C : Type 0}
    → C
    → Start C
    → Sink
    → Sink
    → Order
    → Option (Bridge C)
    → List Datagram
    → Option (Bridge C)
handle_mpegts_stream ctx start video audio order bridge ds =
    stop_input order
      (mpegts_loop ctx start video audio (record { bridge = bridge; track_ids = [] }) ds)
