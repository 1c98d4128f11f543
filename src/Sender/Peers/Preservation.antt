-- ===== src/Sender/Peers/Preservation.antt =====
-- What every event keeps: a predicate that the few changes of a host keep, of which all handlers are
-- made.
use mistlink.Base.{
  ℕ, ◌≡◌, refl, Bool, true, false, not, ◌&&◌, List, ◌∷◌, Option, none, some, inl, inr, Option-cases,
  if_rule, if_split,
}
use mistlink.Receiver.Bridge.{Bridge, Start}
use mistlink.Stream.Manager.{
  get_peer_connection, forward_obs_tracks_to_receiver, has_obs_tracks, PeerConnection,
}
use mistlink.Sender.Peers.{
  Message, answer, offer, request, Host, Answers, OfferError, is_over, wants_retry, close_peer,
  remove_peer, remove_matching, cleanup_peer_connection, start_relay, ensure_outgoing_tracks,
  peer_error, enter_peer, give_up, send_answer, create_and_send_offer, offer_made,
  create_peer_connection, answer_offer, answer_anew, handle_offer, drop_current,
  handle_offer_as_receiver,
}

abbrev pub recipient : Message → ℕ
recipient (answer id) = id
recipient (offer id) = id
recipient (request id) = id

module _ {C : Type 0} where
  -- The changes of a host that an event of a peer is made of, and that they keep a predicate.
  pub record Keeps (P : Host C → Type 0) (id : ℕ) : Type 0 where
    pub on_close : (s : Host C) (pc : ℕ) → P s → P (close_peer s pc)
    pub on_remove : (s : Host C) → P s → P (remove_peer s id)
    pub on_remove_matching : (s : Host C) (pc : ℕ) → P s → P (remove_matching s id pc)
    pub on_relay : (s : Host C) → has_obs_tracks s.manager ≡ false → P s → P (start_relay s id)
    pub on_enter : (s : Host C) → P s → P (enter_peer s id)
    pub on_forward :
        (s : Host C) (pc : PeerConnection) (skip_offer : Bool)
        → P s
        → P (record s { manager = (forward_obs_tracks_to_receiver pc s.manager id skip_offer).0 })
    pub on_hear : (s : Host C) (b : Bridge C) → P s → P (record s { bridge = b })
    pub on_send :
        (s : Host C) (m : Message) → recipient m ≡ id → P s → P (record s { sent = m ∷ s.sent })

  module _ {P : Host C → Type 0} {id : ℕ} (k : Keeps P id) where
    ensure_outgoing_tracks-keeps :
        (a : Answers) (s : Host C) (pc : ℕ) (skip_if_has_sender skip_offer : Bool)
        → P s
        → P (ensure_outgoing_tracks a s id pc skip_if_has_sender skip_offer).0
    unfolding ensure_outgoing_tracks
    ensure_outgoing_tracks-keeps a s pc skip_if_has_sender skip_offer p =
        let Q = λ (r : Host C × Bool). P r.0 in
        if_rule Q (skip_if_has_sender && a.has_sender && a.is_connected) p (
          if_split Q (has_obs_tracks s.manager) (λ _. k.on_forward s a.peer skip_offer p)
            (λ none_there. if_rule Q a.is_closed p (
              if_rule Q (a.video_track && a.audio_track && a.video_sender && a.audio_sender)
                (k.on_relay s none_there p) (k.on_close s pc p))))

    give_up-keeps : (s : Host C) (pc : ℕ) (is_new : Bool) → P s → P (give_up s id pc is_new)
    unfolding give_up
    give_up-keeps s pc is_new p =
        if_rule P is_new (k.on_remove_matching (close_peer s pc) pc (k.on_close s pc p))
          (k.on_close s pc p)

    pub cleanup-keeps : (s : Host C) (pc : ℕ) → P s → P (cleanup_peer_connection s id pc)
    unfolding cleanup_peer_connection
    cleanup-keeps s pc p = k.on_remove_matching (close_peer s pc) pc (k.on_close s pc p)

    abbrev Kept : Host C × Option OfferError → Type 0
    Kept r = P r.0

    send_answer-keeps :
        (a : Answers) (s : Host C) (pc : ℕ) (is_new : Bool)
        → P s
        → P (send_answer a s id pc is_new).0
    unfolding send_answer
    send_answer-keeps a s pc is_new p =
        if_rule Kept (not a.description) (give_up-keeps s pc is_new p) (
          if_rule Kept (not a.local_set) (give_up-keeps s pc is_new p)
            (if_rule Kept (not a.sends) p (k.on_send s (answer id) refl p)))

    create_and_send_offer-keeps :
        (a : Answers) (s : Host C) → P s → P (create_and_send_offer a s id).0
    unfolding create_and_send_offer
    create_and_send_offer-keeps a s p = if_rule Kept (not a.description) p (
        if_rule Kept (not a.local_set) p
          (if_rule Kept (not a.sends) p (k.on_send s (offer id) refl p)))

    offer_made-keeps :
        (s : Host C) (pc : ℕ) (r : Host C × Option OfferError) → P r.0 → P (offer_made s pc r).0
    unfolding offer_made
    offer_made-keeps s pc (s', none) p = p
    offer_made-keeps s pc (s', some e) p = k.on_close s' pc p

    pub create_peer_connection-keeps :
        (a : Answers) (s : Host C) → P s → P (create_peer_connection a s id).0
    unfolding create_peer_connection
    create_peer_connection-keeps a s p =
        let pc = s.next_peer in
        let (s', ok) = ensure_outgoing_tracks a (enter_peer s id) id pc false true in
        let p' = ensure_outgoing_tracks-keeps a (enter_peer s id) pc false true (k.on_enter s p) in
        elim (Option-cases (peer_error a)) [
          | inl fine ↦
              rw (fine, create_peer_connection)
                (if_rule Kept ok
                  (offer_made-keeps s' pc (create_and_send_offer a s' id)
                    (create_and_send_offer-keeps a s' p'))
                  (k.on_remove (close_peer s' pc) (k.on_close s' pc p')))
          | inr (e, bad) ↦ rw (bad, create_peer_connection) p
        ]

    module _ (decode parse : List ℕ → Option (List ℕ)) (ctx : C) (start : Start C) where
      answer_offer-keeps :
          (a : Answers) (s : Host C) (pc : ℕ) (is_new : Bool) (sdp : List ℕ)
          → P s
          → P (answer_offer decode ctx start a s id pc is_new sdp).0
      unfolding answer_offer
      answer_offer-keeps a s pc is_new sdp p =
          let (s', ok) = ensure_outgoing_tracks a s id pc true true in
          let p' = ensure_outgoing_tracks-keeps a s pc true true p in
          let told = k.on_hear s' _ p' in
          if_rule Kept (not ok) (give_up-keeps s' pc is_new p') (
            if_rule Kept a.remote_set (send_answer-keeps a _ pc is_new told)
              (if_rule Kept is_new (give_up-keeps _ pc true told) told))

      answer_anew-keeps :
          (a : Answers) (s : Host C) (sdp : List ℕ)
          → P s
          → P (answer_anew decode ctx start a s id sdp).0
      unfolding answer_anew
      answer_anew-keeps a s sdp p = elim (Option-cases (peer_error a)) [
        | inl fine ↦
            rw (fine, answer_anew)
              (answer_offer-keeps a (enter_peer s id) s.next_peer true sdp (k.on_enter s p))
        | inr (e, bad) ↦ rw (bad, answer_anew) p
      ]

      handle_offer-keeps :
          (a : Answers) (s : Host C) (current : Option ℕ) (sdp : List ℕ)
          → P s
          → P (handle_offer decode ctx start a s id current sdp).0
      unfolding handle_offer
      handle_offer-keeps a s none sdp p = answer_anew-keeps a s sdp p
      handle_offer-keeps a s (some pc) sdp p =
          if_rule Kept (is_over a.state) (answer_anew-keeps a s sdp p)
            (answer_offer-keeps a s pc false sdp p)

      drop_current-keeps : (s : Host C) (current : Option ℕ) → P s → P (drop_current s id current)
      unfolding drop_current
      drop_current-keeps s none p = p
      drop_current-keeps s (some pc) p = cleanup-keeps s pc p

      pub handle_offer_as_receiver-keeps :
          (first second : Answers) (s : Host C) (sdp : Option (List ℕ))
          → P s
          → P (handle_offer_as_receiver decode ctx start first second s id sdp).0
      unfolding handle_offer_as_receiver
      handle_offer_as_receiver-keeps first second s none p = p
      handle_offer_as_receiver-keeps first second s (some sdp) p =
          let current = get_peer_connection s.manager id in
          let (s', e) = handle_offer decode ctx start first s id current sdp in
          let p' = handle_offer-keeps first s current sdp p in
          if_rule Kept (wants_retry e)
            (handle_offer-keeps second _ none sdp (drop_current-keeps s' current p')) p'
