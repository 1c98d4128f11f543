-- ===== src/Sender/Peers.antt =====
-- internal/sender/handler.go, peer_connection.go and pc_factory.go, the callbacks of callbacks.go
-- for an offer and a disconnect, and webrtc_utils/signaling.go: how a client makes, answers and
-- drops peer connections. What the WebRTC library and the signaling client answer is a parameter.
pub mod Events
pub mod Histories
pub mod Others
pub mod Run
pub mod Outcome
pub mod Lasting
pub mod Offering
mod Reconnect
pub mod Preservation
pub mod Relays
mod Tests
use mistlink.Base.{
  ℕ, suc, Bool, true, false, not, ◌&&◌, List, [], ◌∷◌, ◌++◌, Option, none, some, if◌then◌else◌,
  is_empty, ltb, length,
}
use mistlink.Base.Text.{codes}
use mistlink.Receiver.Bridge.{Bridge, Start}
use mistlink.Receiver.Sdp.{extract_sps_pps_from_sdp}
use mistlink.Stream.Manager.{
  StreamManager, PeerConnection, add_peer_connection, get_peer_connection, register_close_handler,
  remove_peer_connection, remove_peer_connection_matching, forward_obs_tracks_to_receiver,
  has_obs_tracks,
}

-- `webrtc.PeerConnectionState`
pub data ConnectionState : Type 0 where
  created connecting connected disconnected failed closed : ConnectionState

-- What goes to a peer through the signaling client.
pub data Message : Type 0 where
  answer offer request : ℕ → Message

-- What a client shares: peers and peer connections are numbers, as are the `done` channels of the
-- relays, of which `ended` are closed.
pub record Host (C : Type 0) : Type 0 where
  pub manager : StreamManager
  pub bridge : Bridge C
  pub closed_peers : List ℕ
  pub ended : List ℕ
  pub next_peer : ℕ
  pub next_done : ℕ
  pub sent : List Message

-- What the library answers in one run of a handler: whether the media engine and the interceptors
-- are registered and a peer connection is made; the state of the present one; what
-- `EnsureOutgoingTracks` asks of the connection, and which of its tracks can be made and added;
-- whether the descriptions are set, an answer or offer is made, and it can be sent.
pub record Answers : Type 0 where
  pub codecs : Bool
  pub interceptors : Bool
  pub peer_made : Bool
  pub state : ConnectionState
  pub has_sender : Bool
  pub is_connected : Bool
  pub is_closed : Bool
  pub video_track : Bool
  pub audio_track : Bool
  pub video_sender : Bool
  pub audio_sender : Bool
  pub peer : PeerConnection
  pub remote_set : Bool
  pub description : Bool
  pub local_set : Bool
  pub sends : Bool

-- The errors that are returned, by where they arise. `retry_new_peer` has the text `RETRY_NEW_PC`.
pub data OfferError : Type 0 where
  not_parsed no_codecs no_interceptors peer_not_made tracks_not_added retry_new_peer remote_not_set
        no_description local_not_set not_sent :
      OfferError

abbrev pub is_over : ConnectionState → Bool
is_over created = false
is_over connecting = false
is_over connected = false
is_over disconnected = false
is_over failed = true
is_over closed = true

abbrev pub wants_retry : Option OfferError → Bool
wants_retry (some retry_new_peer) = true
wants_retry e = false

-- A new peer connection, or which step failed.
unfoldable pub peer_error : Answers → Option OfferError
peer_error a =
    if not a.codecs
    then some no_codecs
    else if not a.interceptors
    then some no_interceptors
    else if not a.peer_made
    then some peer_not_made
    else none

module _ {C : Type 0} where
  -- `pc.Close()`, which may come again.
  unfoldable pub close_peer : Host C → ℕ → Host C
  close_peer s pc = record s { closed_peers = pc ∷ s.closed_peers }

  -- `RemovePeerConnection`, and the `done` channels that its close handlers close.
  unfoldable pub remove_peer : Host C → ℕ → Host C
  remove_peer s id =
      let (m, handlers) = remove_peer_connection s.manager id in
      record s { manager = m; ended = handlers ++ s.ended }

  -- `RemovePeerConnectionMatching`
  unfoldable pub remove_matching : Host C → ℕ → ℕ → Host C
  remove_matching s id pc =
      let (m, handlers) = remove_peer_connection_matching s.manager id pc in
      record s { manager = m; ended = handlers ++ s.ended }

  unfoldable pub cleanup_peer_connection : Host C → ℕ → ℕ → Host C
  cleanup_peer_connection s id pc = remove_matching (close_peer s pc) id pc

  -- The relay's `done` channel, whose closing is registered for the peer.
  unfoldable pub start_relay : Host C → ℕ → Host C
  start_relay s id = record s {
    manager = register_close_handler s.manager id s.next_done;
    next_done = suc s.next_done;
  }

  -- Whether the tracks are in place, and the host.
  unfoldable pub ensure_outgoing_tracks : Answers → Host C → ℕ → ℕ → Bool → Bool → Host C × Bool
  ensure_outgoing_tracks a s id pc skip_if_has_sender skip_offer =
      if skip_if_has_sender && a.has_sender && a.is_connected
      then (s, true)
      else if has_obs_tracks s.manager
      then (
        record s { manager = (forward_obs_tracks_to_receiver a.peer s.manager id skip_offer).0 },
        true,
      )
      else if a.is_closed
      then (s, true)
      else if a.video_track && a.audio_track && a.video_sender && a.audio_sender
      then (start_relay s id, true)
      else (close_peer s pc, false)

  unfoldable pub enter_peer : Host C → ℕ → Host C
  enter_peer s id = record s {
    manager = add_peer_connection s.manager id s.next_peer;
    next_peer = suc s.next_peer;
  }

  -- The way out on an error: a new connection leaves the manager too.
  unfoldable pub give_up : Host C → ℕ → ℕ → Bool → Host C
  give_up s id pc is_new =
      if is_new then remove_matching (close_peer s pc) id pc else close_peer s pc

  -- The three steps from `CreateAnswer` on.
  unfoldable pub send_answer : Answers → Host C → ℕ → ℕ → Bool → Host C × Option OfferError
  send_answer a s id pc is_new =
      if not a.description
      then (give_up s id pc is_new, some no_description)
      else if not a.local_set
      then (give_up s id pc is_new, some local_not_set)
      else if not a.sends
      then (s, some not_sent)
      else (record s { sent = answer id ∷ s.sent }, none)

  -- `CreateAndSendOffer`, and which step failed.
  unfoldable pub create_and_send_offer : Answers → Host C → ℕ → Host C × Option OfferError
  create_and_send_offer a s id =
      if not a.description
      then (s, some no_description)
      else if not a.local_set
      then (s, some local_not_set)
      else if not a.sends
      then (s, some not_sent)
      else (record s { sent = offer id ∷ s.sent }, none)

  unfoldable pub offer_made : Host C → ℕ → Host C × Option OfferError → Host C × Option OfferError
  offer_made s pc (s', none) = (s', none)
  offer_made s pc (s', some e) = (close_peer s' pc, some e)

  -- `CreatePeerConnection`
  unfoldable pub create_peer_connection : Answers → Host C → ℕ → Host C × Option OfferError
  create_peer_connection a s id =
      let pc = s.next_peer in
      let (s', ok) = ensure_outgoing_tracks a (enter_peer s id) id pc false true in
      elim (peer_error a) [
        | some e ↦ (s, some e)
        | none ↦
            if ok
            then offer_made s' pc (create_and_send_offer a s' id)
            else (remove_peer (close_peer s' pc) id, some tracks_not_added)
      ]

  unfoldable pub drop_current : Host C → ℕ → Option ℕ → Host C
  drop_current s id none = s
  drop_current s id (some pc) = cleanup_peer_connection s id pc

  module _ (decode : List ℕ → Option (List ℕ)) (ctx : C) (start : Start C) where
    -- The body of `handleOffer` from the tracks on, for a connection that is new or not. The
    -- rollback before them is a call of the connection whose error is logged only.
    unfoldable pub answer_offer :
        Answers → Host C → ℕ → ℕ → Bool → List ℕ → Host C × Option OfferError
    answer_offer a s id pc is_new sdp =
        let (s', ok) = ensure_outgoing_tracks a s id pc true true in
        let told : Host C = record s' {
          bridge = extract_sps_pps_from_sdp decode ctx start s'.bridge sdp;
        } in
        if not ok
        then (give_up s' id pc is_new, some tracks_not_added)
        else if a.remote_set
        then send_answer a told id pc is_new
        else if is_new
        then (give_up told id pc true, some remote_not_set)
        else (told, some retry_new_peer)

    unfoldable pub answer_anew : Answers → Host C → ℕ → List ℕ → Host C × Option OfferError
    answer_anew a s id sdp = elim (peer_error a) [
      | some e ↦ (s, some e)
      | none ↦ answer_offer a (enter_peer s id) id s.next_peer true sdp
    ]

    -- `handleOffer`, for the connection that there is, if any.
    unfoldable pub handle_offer :
        Answers → Host C → ℕ → Option ℕ → List ℕ → Host C × Option OfferError
    handle_offer a s id none sdp = answer_anew a s id sdp
    handle_offer a s id (some pc) sdp =
        if is_over a.state then answer_anew a s id sdp else answer_offer a s id pc false sdp

    -- `HandleOfferAsReceiver`: the answers in the first attempt and in the second, and the
    -- description, if the offer can be parsed.
    unfoldable pub handle_offer_as_receiver :
        Answers → Answers → Host C → ℕ → Option (List ℕ) → Host C × Option OfferError
    handle_offer_as_receiver first second s id none = (s, some not_parsed)
    handle_offer_as_receiver first second s id (some sdp) =
        let current = get_peer_connection s.manager id in
        let (s', e) = handle_offer first s id current sdp in
        if wants_retry e
        then handle_offer second (drop_current s' id current) id none sdp
        else (s', e)
