-- ===== src/Sender/Configurer.antt =====
-- internal/sender/pc_factory.go, Configure: the callbacks for a track, an ICE candidate and the state
-- of negotiation, the requests for key frames, and the sources that the relay of EnsureOutgoingTracks
-- ignores; and internal/webrtc_utils/rtcp.go.
pub mod Echo
mod Tests
use Prim.Native.String.{String}
use mistlink.Base.{
  ℕ, zero, suc, Bool, true, false, List, [], ◌∷◌, Option, none, some, ◌==◌, if◌then◌else◌,
}
use mistlink.Base.Maps.{lookup, insert, erase}
use mistlink.Base.Members.{member, remove_first}
use mistlink.Base.Text.{equal_fold}
use mistlink.RtpUtils.{Packet}
use mistlink.Receiver.TrackLoop.{mime_h264}
use mistlink.Signaling.{Client, send_candidate}
use mistlink.Sender.Relay.Shared.{SharedRelay, set_packet, hear_reference, take_reference}

-- The tracks of a peer connection and the relay that writes to it. Configurers are numbers; each has
-- its own `incomingSSRCs`. `tracks` are the sources whose `OnTrack` has not returned.
pub record Link : Type 0 where
  pub incoming : ℕ → List (ℕ × Bool)
  pub receiving_remote_video : Bool
  pub tracks : List ℕ
  pub relay : SharedRelay

unfoldable pub set_incoming : ℕ → List (ℕ × Bool) → (ℕ → List (ℕ × Bool)) → ℕ → List (ℕ × Bool)
set_incoming c m incoming x = if x == c then m else incoming x

abbrev pub is_stored : Option Bool → Bool
is_stored none = false
is_stored (some v) = true

-- `_, ok := c.incomingSSRCs.Load(ssrc)`
unfoldable pub ignore_ssrc : (ℕ → List (ℕ × Bool)) → ℕ → ℕ → Bool
ignore_ssrc incoming c ssrc = is_stored (lookup ssrc (incoming c))

-- The configurer whose callbacks a connection has after an offer, and the one whose relay is started:
-- `handleOffer` makes a configurer for every offer, and configures new connections only.
unfoldable pub configurers : ℕ → ℕ → Bool → ℕ × ℕ
configurers installed made is_new = if is_new then (made, made) else (installed, made)

-- `OnTrack` up to `HandleTrack`, and its deferred call.
unfoldable pub on_track : ℕ → Link → ℕ → Link
on_track c l ssrc = record l {
  incoming = set_incoming c (insert ssrc true (l.incoming c)) l.incoming;
  receiving_remote_video = true;
  tracks = ssrc ∷ l.tracks;
}

unfoldable pub end_track : ℕ → Link → ℕ → Link
end_track c l ssrc = record l {
  incoming = set_incoming c (erase ssrc (l.incoming c)) l.incoming;
  tracks = remove_first ssrc l.tracks;
}

-- What happens: a track comes or has ended; a packet of a track of this peer is read into an address,
-- and the bridge hands it on, or not; the bridge hands on a packet from elsewhere; and the relay takes
-- one.
pub data Event : Type 0 where
  comes goes : ℕ → Event
  own kept_back : ℕ → ℕ → Packet → Event
  other : ℕ → Packet → Event
  takes : Event

-- The listener of the relay of the configurer `c`.
unfoldable pub hear : ℕ → Link → ℕ → Packet → Link
hear c l a pkt = record l { relay = hear_reference (some (ignore_ssrc l.incoming c)) a pkt l.relay }

-- A packet is read into an address.
unfoldable pub put : Link → ℕ → Packet → Link
put l a pkt = record l { relay = record l.relay { store = set_packet a pkt l.relay.store } }

-- `installed` is the configurer whose `OnTrack` is called, `owner` the one whose relay it is.
unfoldable pub step : ℕ → ℕ → Bool → Bool → Link → Event → Link
step installed owner video audio l (comes ssrc) = on_track installed l ssrc
step installed owner video audio l (goes ssrc) =
    if member ssrc l.tracks then end_track installed l ssrc else l
step installed owner video audio l (own ssrc a pkt) =
    if member ssrc l.tracks then hear owner l a (record pkt { ssrc = ssrc }) else l
step installed owner video audio l (kept_back ssrc a pkt) =
    if member ssrc l.tracks then put l a (record pkt { ssrc = ssrc }) else l
step installed owner video audio l (other a pkt) = hear owner l a pkt
step installed owner video audio l takes = record l { relay = take_reference video audio l.relay }

unfoldable pub run : ℕ → ℕ → Bool → Bool → Link → List Event → Link
run installed owner video audio l [] = l
run installed owner video audio l (e ∷ es) =
    run installed owner video audio (step installed owner video audio l e) es

-- The loop over three requests for a key frame: after each, the ticker or the bridge's end. Each is a
-- `requestKeyFrame`, whose error is logged only.
unfoldable pub key_frame_loop : ℕ → List Bool → ℕ
key_frame_loop zero wakes = 0
key_frame_loop (suc left) [] = 1
key_frame_loop (suc left) (ticked ∷ wakes) = if ticked then suc (key_frame_loop left wakes) else 1

unfoldable pub key_frame_requests : List ℕ → List Bool → ℕ
key_frame_requests mime wakes = if equal_fold mime mime_h264 then key_frame_loop 3 wakes else 0

-- `iceGatheringComplete`: no channel, or one that is open or closed.
pub data Gathering : Type 0 where
  no_channel gathering complete : Gathering

unfoldable pub close_if_open : Gathering → Gathering
close_if_open no_channel = no_channel
close_if_open gathering = complete
close_if_open complete = complete

-- `OnICECandidate`: the JSON of a candidate goes to the peer; the last call has none.
unfoldable pub on_ice_candidate : Client → Gathering → String → Option String → Client × Gathering
on_ice_candidate c g peer (some candidate) = ((send_candidate c candidate peer).0, g)
on_ice_candidate c g peer none = (c, close_if_open g)

-- `peerConnectionHasSender`, from whether each sender has a track.
unfoldable pub peer_connection_has_sender : List Bool → Bool
peer_connection_has_sender [] = false
peer_connection_has_sender (has_track ∷ senders) =
    if has_track then true else peer_connection_has_sender senders

-- `StartRTCPReadLoop`: the reads after the one that fails, where the loop ends. What is read is
-- dropped.
unfoldable pub rtcp_read_loop : List (Option (List ℕ)) → List (Option (List ℕ))
rtcp_read_loop [] = []
rtcp_read_loop (none ∷ reads) = reads
rtcp_read_loop (some report ∷ reads) = rtcp_read_loop reads
