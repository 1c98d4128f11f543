-- ===== src/Sender/Peers/Histories.antt =====
-- What holds of a client after any events: of its relays, and of the peers that they are not about.
use mistlink.Base.{
  ℕ, refl, Bool, false, ◌&&◌, ◌||◌, List, [], ◌∷◌, Option, none, some, ltb, length, inl, inr,
  Option-cases, if_rule,
}
use mistlink.Receiver.Bridge.{Start}
use mistlink.Stream.Manager.{
  get_peer_connection, is_peer, forward_obs_tracks_to_receiver, add_peer_connection,
}
use mistlink.Sender.Peers.{
  ConnectionState, created, connecting, connected, disconnected, failed, closed, Message, offer,
  request, Host, Answers, is_over, close_peer, remove_peer, remove_matching, start_relay,
  enter_peer,
}
use mistlink.Sender.Peers.Events.{
  initiates, handle_reconnect, connection_state_change, recheck_disconnected,
  wait_for_stable_and_forward, disconnect_callback, replace_over, offer_callback, Event, offered,
  asked, reconnects, changed, rechecked, stable, left, on_event, on_events,
}
use mistlink.Sender.Peers.Preservation.{
  Keeps, cleanup-keeps, create_peer_connection-keeps, handle_offer_as_receiver-keeps,
}
use mistlink.Sender.Peers.Relays.{
  Balanced, remove_peer_connection-Balanced, remove_peer_connection_matching-Balanced,
  register_close_handler-Balanced, forward_obs_tracks_to_receiver-close_handlers,
}
use mathlib.Core.Path.{subst}
use mistlink.Base.{sym}

module _ {C : Type 0} where
  module _ {P : Host C → Type 0} {id : ℕ} (k : Keeps P id) where
    handle_reconnect-keeps :
        (client : List ℕ) (name : ℕ → List ℕ) (a : Answers) (s : Host C)
        → P s
        → P (handle_reconnect client name a s id)
    unfolding handle_reconnect
    handle_reconnect-keeps client name a s p =
        if_rule P (initiates client (name id)) (create_peer_connection-keeps k a s p)
          (if_rule P a.sends (k.on_send s (request id) refl p) p)

    connection_state_change-keeps :
        (is_offerer : Bool) (s : Host C) (pc : ℕ) (state : ConnectionState)
        → P s
        → P (connection_state_change is_offerer s id pc state).0
    unfolding connection_state_change
    connection_state_change-keeps is_offerer s pc created p = p
    connection_state_change-keeps is_offerer s pc connecting p = p
    connection_state_change-keeps is_offerer s pc connected p = p
    connection_state_change-keeps is_offerer s pc disconnected p = p
    connection_state_change-keeps is_offerer s pc failed p = cleanup-keeps k s pc p
    connection_state_change-keeps is_offerer s pc closed p = cleanup-keeps k s pc p

    recheck_disconnected-keeps :
        (client : List ℕ) (name : ℕ → List ℕ) (a : Answers) (s : Host C) (pc : ℕ) (still : Bool)
        → P s
        → P (recheck_disconnected client name a s id pc still)
    unfolding recheck_disconnected
    recheck_disconnected-keeps client name a s pc still p =
        if_rule P (is_peer (get_peer_connection s.manager id) pc && still)
          (handle_reconnect-keeps client name a _ (cleanup-keeps k s pc p)) p

    wait_for_stable_and_forward-keeps :
        (a : Answers) (s : Host C) (pc : Option ℕ) (at_once in_time : Bool)
        → P s
        → P (wait_for_stable_and_forward a s id pc at_once in_time)
    unfolding wait_for_stable_and_forward
    wait_for_stable_and_forward-keeps a s none at_once in_time p = p
    wait_for_stable_and_forward-keeps a s (some pc) at_once in_time p =
        let (m, offers) = forward_obs_tracks_to_receiver a.peer s.manager id false in
        let told : Host C = record s { manager = m } in
        let p' = k.on_forward s a.peer false p in
        if_rule P (at_once || in_time)
          (if_rule (λ (sent : List Message). P (record told { sent = sent }))
            (offers && a.peer.offers) (k.on_send told (offer id) refl p') p')
          p

    disconnect_callback-keeps : (s : Host C) → P s → P (disconnect_callback s id)
    unfolding disconnect_callback
    disconnect_callback-keeps s p = elim (Option-cases (get_peer_connection s.manager id)) [
      | inl absent ↦ rw (absent, disconnect_callback) p
      | inr (pc, present) ↦ rw (present, disconnect_callback) (cleanup-keeps k s pc p)
    ]

    replace_over-keeps : (a : Answers) (s : Host C) → P s → P (replace_over a s id)
    unfolding replace_over
    replace_over-keeps a s p = elim (Option-cases (get_peer_connection s.manager id)) [
      | inl absent ↦ rw (absent, replace_over) p
      | inr (pc, present) ↦
          rw (present, replace_over)
            (if_rule P (is_over a.state) (k.on_remove _ (k.on_close s pc p)) p)
    ]

    module _ (decode parse : List ℕ → Option (List ℕ)) (ctx : C) (start : Start C) where
      pub on_event-keeps :
          (s : Host C) (e : Event) → P s → P (on_event decode parse ctx start s id e)
      unfolding on_event offer_callback
      on_event-keeps s (offered first second text) p = if_rule P (ltb (length text) 10) p (
          handle_offer_as_receiver-keeps k decode parse ctx start first second _ (parse text)
            (replace_over-keeps first s p))
      on_event-keeps s (asked a) p = create_peer_connection-keeps k a s p
      on_event-keeps s (reconnects client name a) p = handle_reconnect-keeps client name a s p
      on_event-keeps s (changed is_offerer pc state) p =
          connection_state_change-keeps is_offerer s pc state p
      on_event-keeps s (rechecked client name a pc still) p =
          recheck_disconnected-keeps client name a s pc still p
      on_event-keeps s (stable a pc at_once in_time) p =
          wait_for_stable_and_forward-keeps a s pc at_once in_time p
      on_event-keeps s left p = disconnect_callback-keeps s p

  abbrev pub RelayInv : Host C → Type 0
  RelayInv s = Balanced s.manager.close_handlers s.ended s.next_done

  RelayInv-Keeps : (id : ℕ) → Keeps RelayInv id
  unfolding close_peer remove_peer remove_matching start_relay enter_peer add_peer_connection
  RelayInv-Keeps id = record {
    on_close = λ s pc v. v;
    on_remove = λ s v. remove_peer_connection-Balanced s.manager id s.ended s.next_done v;
    on_remove_matching =
        λ s pc v. remove_peer_connection_matching-Balanced s.manager id pc s.ended s.next_done v;
    on_relay = λ s _ v. register_close_handler-Balanced s.manager id s.ended s.next_done v;
    on_enter = λ s v. v;
    on_forward = λ s pc skip_offer v.
        subst (λ (m : List (ℕ × List ℕ)). Balanced m s.ended s.next_done)
          (sym (forward_obs_tracks_to_receiver-close_handlers pc s.manager id skip_offer)) v;
    on_hear = λ s b v. v;
    on_send = λ s m to v. v;
  }

  module _ (decode parse : List ℕ → Option (List ℕ)) (ctx : C) (start : Start C) where
    -- From a client whose map of close handlers has no key twice, and whose relays so far have each
    -- a `done` channel that is registered or closed and not both: whatever events come, in whatever
    -- order and whatever the library answers, the same holds after them. So a relay's channel is
    -- never closed twice, and none is forgotten before it is closed.
    pub on_events-RelayInv :
        (s : Host C) (es : List (ℕ × Event))
        → RelayInv s
        → RelayInv (on_events decode parse ctx start s es)
    unfolding on_events
    on_events-RelayInv s [] v = v
    on_events-RelayInv s ((id, e) ∷ es) v =
        on_events-RelayInv (on_event decode parse ctx start s id e) es
          (on_event-keeps (RelayInv-Keeps id) decode parse ctx start s e v)
