-- ===== src/Sender/Peers/Events.antt =====
-- internal/sender/callbacks.go and pc_factory.go: what the events of the signaling client and of the
-- peer connections make of a client. A goroutine that an event starts is an event of its own.
use mistlink.Base.{
  ℕ, Bool, false, not, ◌&&◌, ◌||◌, List, [], ◌∷◌, Option, none, some, if◌then◌else◌, is_empty, ltb,
  length,
}
use mistlink.Receiver.Bridge.{Start}
use mistlink.Stream.Manager.{get_peer_connection, is_peer, forward_obs_tracks_to_receiver}
use mistlink.Sender.Connection.{text_le}
use mistlink.Sender.Peers.{
  ConnectionState, created, connecting, connected, disconnected, failed, closed, offer, request,
  Host, Answers, is_over, close_peer, remove_peer, cleanup_peer_connection, create_peer_connection,
  handle_offer_as_receiver,
}

-- The goroutine that a change of state starts.
pub data FollowUp : Type 0 where
  nothing forward reconnect recheck : FollowUp

-- Whether a client makes the offer when it connects again.
unfoldable pub initiates : List ℕ → List ℕ → Bool
initiates client peer = not (is_empty client) && not (text_le client peer)

-- What happens to a peer.
pub data Event : Type 0 where
  offered : Answers → Answers → List ℕ → Event
  asked : Answers → Event
  reconnects : List ℕ → (ℕ → List ℕ) → Answers → Event
  changed : Bool → ℕ → ConnectionState → Event
  rechecked : List ℕ → (ℕ → List ℕ) → Answers → ℕ → Bool → Event
  stable : Answers → Option ℕ → Bool → Bool → Event
  left : Event

module _ {C : Type 0} where
  -- `handleReconnect`, of a client whose parts are all there, with the text of a peer's id.
  unfoldable pub handle_reconnect : List ℕ → (ℕ → List ℕ) → Answers → Host C → ℕ → Host C
  handle_reconnect client name a s id =
      if initiates client (name id)
      then (create_peer_connection a s id).0
      else if a.sends
      then record s { sent = request id ∷ s.sent }
      else s

  -- The callback of `OnConnectionStateChange`; a connection that an offer made has no
  -- `onConnected`.
  unfoldable pub connection_state_change :
      Bool → Host C → ℕ → ℕ → ConnectionState → Host C × FollowUp
  connection_state_change is_offerer s id pc created = (s, nothing)
  connection_state_change is_offerer s id pc connecting = (s, nothing)
  connection_state_change is_offerer s id pc connected =
      (s, if is_offerer then forward else nothing)
  connection_state_change is_offerer s id pc disconnected = (s, recheck)
  connection_state_change is_offerer s id pc failed = (cleanup_peer_connection s id pc, reconnect)
  connection_state_change is_offerer s id pc closed = (cleanup_peer_connection s id pc, nothing)

  -- `scheduleReconnectIfStillDisconnected`, after its three seconds.
  unfoldable pub recheck_disconnected :
      List ℕ → (ℕ → List ℕ) → Answers → Host C → ℕ → ℕ → Bool → Host C
  recheck_disconnected client name a s id pc still_disconnected =
      if is_peer (get_peer_connection s.manager id) pc && still_disconnected
      then handle_reconnect client name a (cleanup_peer_connection s id pc) id
      else s

  -- `WaitForStableAndForward`: stable at once, or before the timeout.
  unfoldable pub wait_for_stable_and_forward :
      Answers → Host C → ℕ → Option ℕ → Bool → Bool → Host C
  wait_for_stable_and_forward a s id none at_once in_time = s
  wait_for_stable_and_forward a s id (some pc) at_once in_time =
      let (m, offers) = forward_obs_tracks_to_receiver a.peer s.manager id false in
      if at_once || in_time
      then record s {
        manager = m;
        sent = if offers && a.peer.offers then offer id ∷ s.sent else s.sent;
      }
      else s

  -- `NewDisconnectCallback`
  unfoldable pub disconnect_callback : Host C → ℕ → Host C
  disconnect_callback s id = elim (get_peer_connection s.manager id) [
    | none ↦ s
    | some pc ↦ cleanup_peer_connection s id pc
  ]

  -- What the callback does with the connection that there is.
  unfoldable pub replace_over : Answers → Host C → ℕ → Host C
  replace_over a s id = elim (get_peer_connection s.manager id) [
    | none ↦ s
    | some pc ↦ if is_over a.state then remove_peer (close_peer s pc) id else s
  ]

  module _ (decode parse : List ℕ → Option (List ℕ)) (ctx : C) (start : Start C) where
    -- `NewOfferCallback`
    unfoldable pub offer_callback : Answers → Answers → Host C → ℕ → List ℕ → Host C
    offer_callback first second s id text =
        if ltb (length text) 10
        then s
        else (handle_offer_as_receiver decode ctx start first second (replace_over first s id) id
            (parse text)).0

    unfoldable pub on_event : Host C → ℕ → Event → Host C
    on_event s id (offered first second text) = offer_callback first second s id text
    on_event s id (asked a) = (create_peer_connection a s id).0
    on_event s id (reconnects client name a) = handle_reconnect client name a s id
    on_event s id (changed is_offerer pc state) =
        (connection_state_change is_offerer s id pc state).0
    on_event s id (rechecked client name a pc still) =
        recheck_disconnected client name a s id pc still
    on_event s id (stable a pc at_once in_time) =
        wait_for_stable_and_forward a s id pc at_once in_time
    on_event s id left = disconnect_callback s id

    unfoldable pub on_events : Host C → List (ℕ × Event) → Host C
    on_events s [] = s
    on_events s ((id, e) ∷ es) = on_events (on_event s id e) es
