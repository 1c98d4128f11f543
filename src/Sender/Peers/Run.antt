-- ===== src/Sender/Peers/Run.antt =====
-- One run of the offer's handler for a connection that the peer has.
use mistlink.Base.{
  ℕ, ◌≡◌, refl, ◌∙◌, ap, Bool, true, false, not, ◌&&◌, ◌||◌, List, ◌∷◌, Option, none, some,
  if◌then◌else◌, if_rule, arith, eq→==,
}
use mistlink.Base.Maps.{lookup, lookup-insert, lookup-erase}
use mistlink.Base.Members.{member}
use mistlink.Receiver.Bridge.{Start}
use mistlink.Receiver.Sdp.{extract_sps_pps_from_sdp}
use mistlink.Stream.Manager.Loop.{forward_obs_tracks_to_receiver_rule}
use mistlink.Stream.Manager.{
  StreamManager, PeerConnection, get_peer_connection, is_peer, mark, subscribe_to_track,
  forward_obs_tracks_to_receiver, has_obs_tracks, remove_peer_connection,
  remove_peer_connection_matching, cleanup_resources, add_peer_connection, register_close_handler,
}
use mistlink.Sender.Peers.{
  answer, Host, Answers, OfferError, tracks_not_added, retry_new_peer, remote_not_set,
  no_description, local_not_set, not_sent, wants_retry, close_peer, remove_matching, start_relay,
  enter_peer, give_up, ensure_outgoing_tracks, send_answer, answer_offer,
}

abbrev pub is_send_error : OfferError → Bool
is_send_error not_sent = true
is_send_error e = false

forward_obs_tracks_to_receiver-peer_connections :
    (pc : PeerConnection) (m : StreamManager) (id : ℕ) (skip_offer : Bool)
    → (forward_obs_tracks_to_receiver pc m id skip_offer).0.peer_connections ≡ m.peer_connections
unfolding mark subscribe_to_track
forward_obs_tracks_to_receiver-peer_connections pc m id skip_offer =
    forward_obs_tracks_to_receiver_rule pc id
      (λ (n : StreamManager). n.peer_connections ≡ m.peer_connections) (λ n t local_track e. e) m
      skip_offer refl refl

module _ {C : Type 0} where
  pub enter_peer-entry :
      (s : Host C) (id : ℕ) → get_peer_connection (enter_peer s id).manager id ≡ some s.next_peer
  unfolding enter_peer add_peer_connection
  enter_peer-entry s id = ground (arith, lookup-insert id id s.next_peer s.manager.peer_connections)

  -- Nothing is sent, and the peer connections are the same ones.
  abbrev pub Quiet : Host C → Host C → Type 0
  Quiet s t =
      (t.sent ≡ s.sent)
      × (t.manager.peer_connections ≡ s.manager.peer_connections)
      × (t.next_peer ≡ s.next_peer)

  pub ensure_outgoing_tracks-Quiet :
      (a : Answers) (s : Host C) (id pc : ℕ) (skip_if_has_sender skip_offer : Bool)
      → Quiet s (ensure_outgoing_tracks a s id pc skip_if_has_sender skip_offer).0
  unfolding ensure_outgoing_tracks start_relay register_close_handler close_peer
  ensure_outgoing_tracks-Quiet a s id pc skip_if_has_sender skip_offer =
      let Q = λ (r : Host C × Bool). Quiet s r.0 in
      if_rule Q (skip_if_has_sender && a.has_sender && a.is_connected) (refl, refl, refl)
        (if_rule Q (has_obs_tracks s.manager)
          (
            refl,
            forward_obs_tracks_to_receiver-peer_connections a.peer s.manager id skip_offer,
            refl,
          )
          (if_rule Q a.is_closed (refl, refl, refl)
            (if_rule Q (a.video_track && a.audio_track && a.video_sender && a.audio_sender)
              (refl, refl, refl) (refl, refl, refl))))

  -- A connection that is the peer's leaves the manager.
  remove_matching-gone :
      (s : Host C) (id pc : ℕ)
      → get_peer_connection s.manager id ≡ some pc
      → let t = remove_matching s id pc in
        (t.sent ≡ s.sent)
        × (get_peer_connection t.manager id ≡ none)
        × (t.next_peer ≡ s.next_peer)
        × (t.closed_peers ≡ s.closed_peers)
  unfolding remove_matching remove_peer_connection_matching remove_peer_connection cleanup_resources
      is_peer
  remove_matching-gone s id pc h = (
    refl,
    rw (h, is_peer, eq→== pc pc refl)
        (ground (arith, lookup-erase id id s.manager.peer_connections)),
    refl,
    refl,
  )

  -- Of a run for a connection of the peer: whether it is new decides what an error does to it.
  abbrev pub Run : Host C → ℕ → ℕ → Bool → Host C × Option OfferError → Type 0
  Run s id pc is_new (t, none) =
      (t.sent ≡ answer id ∷ s.sent)
      × (get_peer_connection t.manager id ≡ some pc)
      × (t.next_peer ≡ s.next_peer)
  Run s id pc is_new (t, some e) =
      (t.sent ≡ s.sent)
      × (get_peer_connection t.manager id
          ≡ (if is_new && not (is_send_error e) then none else some pc))
      × (t.next_peer ≡ s.next_peer)
      × ((is_send_error e || wants_retry (some e) || member pc t.closed_peers) ≡ true)
      × ((is_new && wants_retry (some e)) ≡ false)

  give_up-Run :
      (s : Host C) (id pc : ℕ) (is_new : Bool) (e : OfferError)
      → get_peer_connection s.manager id ≡ some pc
      → is_send_error e ≡ false
      → wants_retry (some e) ≡ false
      → Run s id pc is_new (give_up s id pc is_new, some e)
  unfolding give_up close_peer
  give_up-Run s id pc true e h q n =
      let (sent, gone, next, closed) = remove_matching-gone (close_peer s pc) id pc h in
      (sent, rw (q) gone, next, rw (closed, eq→== pc pc refl) (ground arith), n)
  give_up-Run s id pc false e h q n = (refl, h, refl, rw (eq→== pc pc refl) (ground arith), refl)

  send_answer-Run :
      (a : Answers) (s : Host C) (id pc : ℕ) (is_new : Bool)
      → get_peer_connection s.manager id ≡ some pc
      → Run s id pc is_new (send_answer a s id pc is_new)
  unfolding send_answer
  send_answer-Run a s id pc is_new h =
      let R = Run s id pc is_new in
      if_rule R (not a.description) (give_up-Run s id pc is_new no_description h refl refl) (
        if_rule R (not a.local_set) (give_up-Run s id pc is_new local_not_set h refl refl) (
          if_rule R (not a.sends) (refl, ground (arith, h), refl, refl, ground arith)
            (refl, h, refl)))

  Run-Quiet :
      (s t : Host C) (id pc : ℕ) (is_new : Bool) (r : Host C × Option OfferError)
      → Quiet s t
      → Run t id pc is_new r
      → Run s id pc is_new r
  Run-Quiet s t id pc is_new (u, none) (sent, peers, next) (sent', entry, next') =
      (sent' ∙ ap (◌∷◌ (answer id)) sent, entry, next' ∙ next)
  Run-Quiet s t id pc is_new (u, some e) (sent, peers, next) (sent', entry, next', closed, fresh) =
      (sent' ∙ sent, entry, next' ∙ next, closed, fresh)

  remote_error-Run :
      (s : Host C) (id pc : ℕ) (is_new : Bool)
      → get_peer_connection s.manager id ≡ some pc
      → Run s id pc is_new
          (if is_new then (give_up s id pc true, some remote_not_set) else (s, some retry_new_peer))
  remote_error-Run s id pc true h = give_up-Run s id pc true remote_not_set h refl refl
  remote_error-Run s id pc false h = (refl, h, refl, refl, refl)

  module _ (decode : List ℕ → Option (List ℕ)) (ctx : C) (start : Start C) where
    pub answer_offer-Run :
        (a : Answers) (s : Host C) (id pc : ℕ) (is_new : Bool) (sdp : List ℕ)
        → get_peer_connection s.manager id ≡ some pc
        → Run s id pc is_new (answer_offer decode ctx start a s id pc is_new sdp)
    unfolding answer_offer
    answer_offer-Run a s id pc is_new sdp h =
        let (s', ok) = ensure_outgoing_tracks a s id pc true true in
        let told : Host C = record s' {
          bridge = extract_sps_pps_from_sdp decode ctx start s'.bridge sdp;
        } in
        let quiet = ensure_outgoing_tracks-Quiet a s id pc true true in
        let h' = ap (lookup id) quiet.1 ∙ h in
        let R = Run s' id pc is_new in
        Run-Quiet s s' id pc is_new (answer_offer decode ctx start a s id pc is_new sdp) quiet (
          if_rule R (not ok) (give_up-Run s' id pc is_new tracks_not_added h' refl refl) (
            if_rule R a.remote_set (send_answer-Run a told id pc is_new h')
              (remote_error-Run told id pc is_new h')))
