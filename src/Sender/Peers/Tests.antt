-- ===== src/Sender/Peers/Tests.antt =====
-- A client that is asked for a connection, gets an offer, and loses a peer.
use mistlink.Base.{ℕ, ◌≡◌, refl, true, false, List, [], ◌∷◌, Option, none, some, arith}
use mistlink.Base.Text.{codes}
use mistlink.Rtsp.Server.{Server, opus, new_server}
use mistlink.Receiver.Bridge.{Bridge, new_rtp_bridge}
use mistlink.Stream.Manager.{new_stream_manager, PeerConnection}
use mistlink.Sender.Peers.{
  Host, Answers, created, closed, create_peer_connection, handle_offer_as_receiver,
}
use mistlink.Sender.Peers.Events.{Event, offered, asked, changed, left, on_events}
use mistlink.Sender.Peers.Relays.{count, total}
use mistlink.Sender.Peers.Histories.{RelayInv, on_events-RelayInv}
use mistlink.Sender.Peers.Others.{about, on_events-about}
use mistlink.Sender.Peers.Outcome.{Outcome, handle_offer_as_receiver-Outcome}
use mistlink.Sender.Peers.Offering.{Offered, create_peer_connection-Offered}
use mistlink.Sender.Peers.Lasting.{on_events-outgoing}

abbrev server : Server ℕ
server = new_server 0 opus

abbrev bridge : Bridge ℕ
bridge = new_rtp_bridge server 8554 opus 4

abbrev peer : PeerConnection
peer = record {
  attach = λ t. none;
  described = false;
  stable = true;
  still_stable = true;
  offers = true;
}

-- Everything works, but for the description of the other side.
abbrev answers : Answers
answers = record {
  codecs = true;
  interceptors = true;
  peer_made = true;
  state = created;
  has_sender = false;
  is_connected = false;
  is_closed = false;
  video_track = true;
  audio_track = true;
  video_sender = true;
  audio_sender = true;
  peer = peer;
  remote_set = false;
  description = true;
  local_set = true;
  sends = true;
}

abbrev host : Host ℕ
host = record {
  manager = new_stream_manager;
  bridge = bridge;
  closed_peers = [];
  ended = [];
  next_peer = 0;
  next_done = 0;
  sent = [];
}

abbrev decode : List ℕ → Option (List ℕ)
decode text = none

abbrev events : List (ℕ × Event)
events =
    (1, asked answers)
    ∷ (2, offered answers answers (codes "{\"sdp\":\"v=0\"}"))
    ∷ (1, changed true 0 closed)
    ∷ (2, left)
    ∷ []

host-RelayInv : RelayInv host
unfolding new_stream_manager count total
host-RelayInv = (tt, λ h. ground arith)

on_events-RelayInv_example : RelayInv (on_events decode some 0 none host events)
on_events-RelayInv_example = on_events-RelayInv decode some 0 none host events host-RelayInv

on_events-about_example : about (on_events decode some 0 none host events) 3 ≡ about host 3
on_events-about_example =
    on_events-about decode some 0 none host 3 events (refl, (refl, (refl, (refl, tt))))

handle_offer_as_receiver-Outcome_example :
    let (t, e) =
      handle_offer_as_receiver decode 0 none answers
        (record answers { remote_set = true })
        host
        1
        (some (codes "v=0")) in
    Outcome host t 1 e
handle_offer_as_receiver-Outcome_example =
    handle_offer_as_receiver-Outcome decode 0 none answers (record answers { remote_set = true })
      host 1 (some (codes "v=0"))

create_peer_connection-Offered_example : Offered host 1 (create_peer_connection answers host 1)
create_peer_connection-Offered_example = create_peer_connection-Offered answers host 1

abbrev with_track : Host ℕ
with_track = record host { manager = record new_stream_manager { obs_tracks = 4 ∷ [] } }

on_events-outgoing_example :
    let t = on_events decode some 0 none with_track events in
    (t.manager.obs_tracks ≡ with_track.manager.obs_tracks) × (t.next_done ≡ with_track.next_done)
on_events-outgoing_example = on_events-outgoing decode some 0 none with_track events refl
